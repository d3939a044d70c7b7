-- ===== src/Stats/Dump.antt =====
-- DUMP_STAT after a write: what the control side prints of what the operational side recorded.
use native.Mathlib.Decide.{dec_lt}
use stat_log.Base.{
  ℕ, ◌+◌, ◌*◌, ◌^◌, ◌≤◌, ◌<◌, ◌≡◌, refl, sym, subst, ap, ap₂, ◌∙◌, ◌⊎◌, inl, inr, ◌≢◌, some, List,
  [], ◌∷◌, ◌++◌, map, set, append_assoc, append-nil, arith, Bytes, decimal,
}
use stat_log.Command.{StatCmd, StatCmdOutput, empty_output}
use stat_log.Memory.{Mem}
use stat_log.Memory.Words.{read_word, read-write_word, read_word-outside}
use stat_log.Stats.{Repr, WritePolicy, increment, assign, StatType, simple, shared_size}
use stat_log.Stats.Operation.{OpState, write, policy_write}
use stat_log.Stats.Control.{do_stat_command, simple_entry, is_print_stat_type, push_entry}
use stat_log.Stats.Frame.{policy_write-SameOutside, element_in_array}
use stat_log.Stats.Flat.{leaf_of, cells, IsInhabited, fold_cells}
use stat_log.Stats.Cells.{do_stat_command-cells}
use stat_log.Stats.Address.{progression, num_cells, cell_size, cells_lem, map-progression-set}
use stat_log.Stats.Written.{flat_index, written_value, write-flat_index, write-policy_write}

-- The entries of a DUMP_STAT.
unfoldable pub dump_entries : StatType → ℕ → Mem → List Bytes
dump_entries t p m = (do_stat_command t p StatCmd.dump_stat empty_output m).0.entries

fold_cells-dump :
    (r : Repr) (w : WritePolicy) (ps : List ℕ) (out : StatCmdOutput) (m : Mem)
    → fold_cells (do_stat_command (simple r w)) StatCmd.dump_stat ps (out, m)
      ≡ (record out { entries = out.entries ++ map (λ q. simple_entry r q m) ps }, m)
unfolding fold_cells do_stat_command
fold_cells-dump r w [] out m =
    ap (λ es. (record out { entries = es }, m)) (sym (append-nil out.entries))
fold_cells-dump r w (p ∷ ps) out m =
    fold_cells-dump r w ps (push_entry out (simple_entry r p m)) m
    ∙ ap (λ es. (record out { entries = es }, m))
        (append_assoc out.entries (simple_entry r p m ∷ []) (map (λ q. simple_entry r q m) ps))

-- One entry for each cell, the number in it.
pub dump_entries_lem :
    (t : StatType) (r : Repr) (w : WritePolicy) (p : ℕ) (m : Mem)
    → leaf_of t ≡ simple r w
    → IsInhabited t
    → dump_entries t p m ≡ map (λ q. simple_entry r q m) (progression p (cell_size t) (num_cells t))
unfolding dump_entries
dump_entries_lem t r w p m l i =
    ap (λ s. s.0.entries)
      ((do_stat_command-cells t StatCmd.dump_stat p empty_output m
          (unfold is_print_stat_type in refl) i).0
        ∙ ap (λ x. fold_cells (do_stat_command x) StatCmd.dump_stat (cells t p) (empty_output, m)) l
        ∙ fold_cells-dump r w (cells t p) empty_output m)
    ∙ ap (map (λ q. simple_entry r q m)) (cells_lem t p)

-- A representation whose `+=` stays within its bytes.
pub record IsRepr (r : Repr) : Type 0 where
  pub add_lt : (a b : ℕ) → r.add a b < 256 ^ r.size

-- What a write makes of a cell's number.
abbrev pub updated : WritePolicy → Repr → ℕ → ℕ → ℕ
updated increment r old v = r.add old v
updated assign r old v = v

pub read-increment :
    (r : Repr) (p v : ℕ) (m : Mem)
    → IsRepr r
    → read_word (policy_write increment r p v m) p r.size ≡ r.add (read_word m p r.size) v
unfolding policy_write
read-increment r p v m h = read-write_word m p r.size _ (h.add_lt _ v)

read-policy_write :
    (w : WritePolicy) (r : Repr) (p v : ℕ) (m : Mem)
    → IsRepr r
    → v < 256 ^ r.size
    → read_word (policy_write w r p v m) p r.size ≡ updated w r (read_word m p r.size) v
unfolding policy_write
read-policy_write increment r p v m h k = read-write_word m p r.size _ (h.add_lt _ v)
read-policy_write assign r p v m h k = read-write_word m p r.size v k

pub apart : (p s i j : ℕ) → i ≢ j → (p + i * s + s ≤ p + j * s) ⊎ (p + j * s + s ≤ p + i * s)
apart p s i j ne = elim (dec_lt i j) [
  | yes h ↦ inl (omega (arith, element_in_array j s i h))
  | no h ↦ inr (omega (arith, element_in_array i s j (omega arith)))
]

module _ (w : WritePolicy) (r : Repr) (p size j v : ℕ) (m : Mem) (e : size ≡ r.size) where
  other_entry :
      (i : ℕ)
      → i ≢ j
      → simple_entry r (p + i * size) (policy_write w r (p + j * size) v m)
        ≡ simple_entry r (p + i * size) m
  unfolding simple_entry
  other_entry i ne =
      ap (λ x. decimal (r.to_ulong x))
        (read_word-outside m _ (p + j * size) r.size (p + i * size) r.size
          (policy_write-SameOutside w r (p + j * size) v m)
          (subst (λ z. (p + i * size + z ≤ p + j * size) ⊎ (p + j * size + z ≤ p + i * size)) e
            (apart p size i j ne)))

  new_entry :
      IsRepr r
      → v < 256 ^ r.size
      → simple_entry r (p + j * size) (policy_write w r (p + j * size) v m)
        ≡ decimal (r.to_ulong (updated w r (read_word m (p + j * r.size) r.size) v))
  unfolding simple_entry
  new_entry h k =
      ap (λ x. decimal (r.to_ulong x))
        (read-policy_write w r (p + j * size) v m h k
          ∙ ap (λ z. updated w r (read_word m (p + j * z) r.size) v) e)

cell_size_simple :
    (t : StatType) (r : Repr) (w : WritePolicy) → leaf_of t ≡ simple r w → cell_size t ≡ r.size
unfolding shared_size
cell_size_simple t r w l = ap shared_size l

-- After a write that succeeded, into any statistic, nested arrays included, whose arrays are not
-- empty, whose innermost type is a counter or a status of a representation that keeps its bytes, and
-- with a value that fits it, DUMP_STAT prints what it printed before but for the entry of the cell
-- that the indices name, in row-major order, which is the cell's old number updated by the write
-- policy.
pub dump_entries-write :
    (t : StatType) (r : Repr) (w : WritePolicy) (p : ℕ) (args : List ℕ) (st : OpState t) (m : Mem)
    (s : OpState t × Mem)
    → leaf_of t ≡ simple r w
    → IsInhabited t
    → IsRepr r
    → written_value t args < 256 ^ r.size
    → write t p args st m ≡ some s
    → dump_entries t p s.1
      ≡ set (dump_entries t p m) (flat_index t args) (
          decimal (
            r.to_ulong (
              updated w r
                (read_word m (p + flat_index t args * r.size) r.size)
                (written_value t args))))
dump_entries-write t r w p args st m s l i h k e =
    let size = cell_size_simple t r w l in
    let j = flat_index t args in
    let v = written_value t args in
    let written = write-policy_write t r w p args st m s l e in
    dump_entries_lem t r w p s.1 l i
    ∙ map-progression-set (λ q. simple_entry r q m) (λ q. simple_entry r q s.1) (cell_size t) p
        (num_cells t) (flat_index t args) (write-flat_index t p args st m s e)
        (λ k ins ne.
          ap (simple_entry r (p + k * cell_size t)) written
          ∙ other_entry w r p (cell_size t) j v m size k ne)
    ∙ ap₂ (λ es v. set es (flat_index t args) v) (sym (dump_entries_lem t r w p m l i))
        (ap (simple_entry r (p + j * cell_size t)) written
          ∙ new_entry w r p (cell_size t) j v m size h k)
