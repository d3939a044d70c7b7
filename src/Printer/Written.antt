-- ===== src/Printer/Written.antt =====
-- What a write changes among the labelled entries that `printDumpStat` of src/printer.cpp prints.
use native.Mathlib.Decide.{ℕ_discrete}
use stat_log.Base.{
  ℕ, ◌+◌, ◌*◌, ◌^◌, ◌<◌, ◌≡◌, ◌≢◌, ◌⊎◌, sym, ap, ◌∙◌, inl, inr, Bool, some, List, [], ◌∷◌, ◌++◌,
  Bytes, decimal, length, get_elem?, set, length-map, get_elem?-set_self, get_elem?-set_ne, arith,
  >>=-eq-some,
}
use mathlib.Core.Option.{some-injective}
use stat_log.Memory.{Mem}
use stat_log.Memory.Words.{read_word}
use stat_log.Stats.{StatType, Repr, WritePolicy, simple}
use stat_log.Stats.Operation.{OpState, write}
use stat_log.Stats.Control.{simple_entry}
use stat_log.Stats.Flat.{leaf_of, dims, IsInhabited}
use stat_log.Stats.Address.{num_cells, cell_size, progression, length-progression}
use stat_log.Stats.Written.{flat_index, written_value}
use stat_log.Stats.Dump.{dump_entries, dump_entries_lem, dump_entries-write, IsRepr, updated}
use stat_log.Printer.Text.{TextTools}
use stat_log.Printer.Dump.{dim_indices, label, in_dim_ranges, per_dim_ranges, idx_to_dim_string}
use stat_log.Printer.Labels.{
  AreIndices, product, row_major, num_cells-product, dim_indices-flat_index, row_major-dim_indices,
  flat_index_lem,
}

length-dump_entries :
    (t : StatType) (r : Repr) (w : WritePolicy) (p : ℕ) (m : Mem)
    → leaf_of t ≡ simple r w
    → IsInhabited t
    → length (dump_entries t p m) ≡ product (dims t)
length-dump_entries t r w p m l i =
    ap length (dump_entries_lem t r w p m l i)
    ∙ length-map (λ q. simple_entry r q m) (progression p (cell_size t) (num_cells t))
    ∙ length-progression p (cell_size t) (num_cells t)
    ∙ num_cells-product t

-- The label stands for the indices that the printer makes of the number, whatever is selected.
idx_to_dim_string-label :
    (tools : TextTools) (sizes : List ℕ) (ranges : Bytes) (k : ℕ) (l : Bytes) (printed : Bool)
    → idx_to_dim_string tools sizes ranges k ≡ some (l, printed)
    → l ≡ label (dim_indices sizes k)
unfolding idx_to_dim_string
idx_to_dim_string-label tools sizes ranges k l printed e =
    let (b, found, same) =
      >>=-eq-some (in_dim_ranges tools (per_dim_ranges tools ranges) (dim_indices sizes k))
        (λ do_print. some (label (dim_indices sizes k), do_print)) e in
    ap (λ x. x.0) (sym (some-injective _ _ same))

-- After a write with indices in range that succeeded, into a statistic of counters or statuses, of a
-- representation that keeps its bytes, and with a value that fits it, for each entry of a DUMP_STAT
-- and the label that the printer gives it, whatever it is asked to print: the entry whose label
-- stands for the indices of the write is the cell's old number updated by the write policy, and each
-- entry whose label stands for others is what it was.
pub idx_to_dim_string-write :
    (tools : TextTools) (t : StatType) (r : Repr) (w : WritePolicy) (p : ℕ) (is : List ℕ) (v : ℕ)
    (st : OpState t) (m : Mem) (s : OpState t × Mem) (ranges : Bytes) (k : ℕ) (l : Bytes)
    (printed : Bool)
    → leaf_of t ≡ simple r w
    → IsInhabited t
    → IsRepr r
    → AreIndices (dims t) is
    → written_value t (is ++ v ∷ []) < 256 ^ r.size
    → write t p (is ++ v ∷ []) st m ≡ some s
    → k < length (dump_entries t p m)
    → idx_to_dim_string tools (dims t) ranges k ≡ some (l, printed)
    → ((dim_indices (dims t) k ≡ is)
        × (l ≡ label is)
        × (get_elem? (dump_entries t p s.1) k
            ≡ some (
                decimal (
                  r.to_ulong (
                    updated w r
                      (read_word m (p + k * r.size) r.size)
                      (written_value t (is ++ v ∷ [])))))))
      ⊎ ((dim_indices (dims t) k ≢ is)
          × (l ≡ label (dim_indices (dims t) k))
          × (get_elem? (dump_entries t p s.1) k ≡ get_elem? (dump_entries t p m) k))
idx_to_dim_string-write tools t r w p is v st m s ranges k l printed leaf i h ins fits e inside
      shown =
    let j = flat_index t (is ++ v ∷ []) in
    let text = idx_to_dim_string-label tools (dims t) ranges k l printed shown in
    let value = λ (c : ℕ). decimal (
      r.to_ulong
        (updated w r (read_word m (p + c * r.size) r.size) (written_value t (is ++ v ∷ [])))) in
    let dumped = dump_entries-write t r w p (is ++ v ∷ []) st m s leaf i h fits e in
    elim (ℕ_discrete k j) [
      | yes same ↦
          let named : dim_indices (dims t) k ≡ is =
            ap (dim_indices (dims t)) same ∙ dim_indices-flat_index t is v ins in
          inl (
            named,
            text ∙ ap label named,
            ap (λ es. get_elem? es k) dumped
                ∙ ap (λ c. get_elem? (set (dump_entries t p m) c (value c)) k) (sym same)
                ∙ get_elem?-set_self (dump_entries t p m) k (value k) inside,
          )
      | no other ↦ inr (
        (λ named. other (number named)),
        text,
        ap (λ es. get_elem? es k) dumped
            ∙ get_elem?-set_ne (dump_entries t p m) j k (value j) (λ x. other (sym x)),
      )
    ]
  where
    -- The number that the labels of the write stand for.
    number : dim_indices (dims t) k ≡ is → k ≡ flat_index t (is ++ v ∷ [])
    number named =
        let below : k < product (dims t) =
          omega (arith, length-dump_entries t r w p m leaf i, inside) in
        sym (row_major-dim_indices (dims t) k below).1
        ∙ ap (λ js. row_major (dims t) js 0) named
        ∙ flat_index_lem t is v ins
