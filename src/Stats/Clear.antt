-- ===== src/Stats/Clear.antt =====
-- CLEAR_STAT and then DUMP_STAT, for counters, statuses and accumulators at any nesting.
use native.Mathlib.Nat.{one-le-pow}
use stat_log.Base.{
  ℕ, zero, suc, ◌+◌, ◌*◌, ◌<◌, ◌≡◌, refl, sym, ap, ap₂, ◌∙◌, inl, false, List, [], ◌∷◌, ◌++◌, map,
  append_assoc, append-nil, replicate, All, arith, Bytes, decimal, length, ltb, if◌then◌else◌, ◌==◌,
}
use stat_log.Command.{StatCmd, StatCmdOutput, empty_output}
use stat_log.Memory.{Mem, SameOutside, SameOutside-refl, SameOutside-trans, SameOutside-widen}
use stat_log.Memory.Words.{read_word, write_word-SameOutside, read-write_word, read_word-outside}
use stat_log.Stats.{
  Repr, WritePolicy, Feature, StatType, simple, null_stat, accumulator, stat_array, shared_size,
  features_size,
}
use stat_log.Stats.Control.{
  do_stat_command, simple_entry, accum_entry, accum_values, values, max_width, is_print_stat_type,
}
use stat_log.Stats.Flat.{leaf_of, IsInhabited, fold_cells}
use stat_log.Stats.Cells.{do_stat_command-cells}
use stat_log.Stats.Address.{
  progression, num_cells, shared_size-cells, cell_size, cells_lem, next_address, first_address,
}
use stat_log.Stats.Dump.{dump_entries}

-- The memory that a CLEAR_STAT leaves.
unfoldable pub clear : StatType → ℕ → Mem → Mem
clear t p m = (do_stat_command t p StatCmd.clear_stat empty_output m).1

-- The innermost statistics that print something.
pub data Prints : StatType → Type 0 where
  simple_prints : (r : Repr) (w : WritePolicy) → Prints (simple r w)
  accum_prints : (fs : List Feature) → Prints (accumulator fs)

-- The entry of such a statistic.
unfoldable pub leaf_entry : StatType → ℕ → Mem → Bytes
leaf_entry (simple r w) q m = simple_entry r q m
leaf_entry (accumulator fs) q m = accum_entry fs q m
leaf_entry _ q m = []

fold_cells-entries :
    (t : StatType) (ps : List ℕ) (out : StatCmdOutput) (m : Mem)
    → Prints t
    → (fold_cells (do_stat_command t) StatCmd.dump_stat ps (out, m)).0.entries
      ≡ out.entries ++ map (λ q. leaf_entry t q m) ps
unfolding fold_cells do_stat_command leaf_entry
fold_cells-entries t [] out m h = sym (append-nil out.entries)
fold_cells-entries _ (p ∷ ps) out m (simple_prints r w) =
    fold_cells-entries (simple r w) ps _ m (simple_prints r w)
    ∙ append_assoc out.entries (simple_entry r p m ∷ []) (map (λ q. simple_entry r q m) ps)
fold_cells-entries _ (p ∷ ps) out m (accum_prints fs) =
    fold_cells-entries (accumulator fs) ps _ m (accum_prints fs)
    ∙ append_assoc out.entries (accum_entry fs p m ∷ []) (map (λ q. accum_entry fs q m) ps)

-- What a cleared cell holds: zero in a simple statistic, and a set control word in an accumulator,
-- whose values stay as they were.
abbrev pub IsCleared : StatType → ℕ → Mem → Type 0
IsCleared (simple r w) q m = read_word m q r.size ≡ 0
IsCleared (accumulator fs) q m = read_word m (q + features_size fs) 4 ≡ 1
IsCleared null_stat q m = Unit {0}
IsCleared (stat_array n t) q m = Unit {0}

leaf_clear :
    (t : StatType) (q : ℕ) (out : StatCmdOutput) (m : Mem)
    → Prints t
    → let r = do_stat_command t q StatCmd.clear_stat out m in
      IsCleared t q r.1 × SameOutside q (shared_size t) m r.1
unfolding do_stat_command shared_size
leaf_clear _ q out m (simple_prints r w) = (
  read-write_word m q r.size 0 (one-le-pow r.size 256 (omega arith)),
  write_word-SameOutside m q r.size 0,
)
leaf_clear _ q out m (accum_prints fs) = (
  read-write_word m (q + features_size fs) 4 1 (omega arith),
  SameOutside-widen q (features_size fs + 4) (q + features_size fs) 4 (omega arith) (omega arith)
      (write_word-SameOutside m (q + features_size fs) 4 1),
)

-- A change behind a cell keeps it cleared.
keep-IsCleared :
    (t : StatType) (q n : ℕ) (m m' : Mem)
    → Prints t
    → IsCleared t q m
    → SameOutside (q + shared_size t) n m m'
    → IsCleared t q m'
unfolding shared_size
keep-IsCleared _ q n m m' (simple_prints r w) c o =
    read_word-outside m m' (q + r.size) n q r.size o (inl (omega arith)) ∙ c
keep-IsCleared _ q n m m' (accum_prints fs) c o =
    read_word-outside m m' (q + (features_size fs + 4)) n (q + features_size fs) 4 o
      (inl (omega arith))
    ∙ c

fold_clear :
    (t : StatType) (k p : ℕ) (out : StatCmdOutput) (m : Mem)
    → Prints t
    → let r =
        fold_cells
          (do_stat_command t)
          StatCmd.clear_stat
          (progression p (shared_size t) k)
          (out, m) in
      ((i : ℕ) → i < k → IsCleared t (p + i * shared_size t) r.1)
      × SameOutside p (k * shared_size t) m r.1
unfolding fold_cells progression
fold_clear t zero p out m h = (λ i lt. absurd (omega arith), SameOutside-refl p _ m)
fold_clear t (suc k) p out m h =
    let s = do_stat_command t p StatCmd.clear_stat out m in
    let size = shared_size t in
    let first = leaf_clear t p out m h in
    let rest = fold_clear t k (p + size) s.0 s.1 h in
    (
      pick t k p _ (keep-IsCleared t p (k * size) s.1 _ h first.0 rest.1) rest.0,
      SameOutside-trans p (suc k * size)
          (SameOutside-widen p (suc k * size) p size (omega arith) (omega arith) first.1)
          (SameOutside-widen p (suc k * size) (p + size) (k * size) (omega arith) (omega arith)
            rest.1),
    )
  where
    pick :
        (t : StatType) (k p : ℕ) (m' : Mem)
        → IsCleared t p m'
        → ((i : ℕ) → i < k → IsCleared t (p + shared_size t + i * shared_size t) m')
        → (i : ℕ) → i < suc k
        → IsCleared t (p + i * shared_size t) m'
    pick t k p m' c cs zero lt = rw (first_address p (shared_size t)) c
    pick t k p m' c cs (suc i) lt = rw (next_address p (shared_size t) i) (cs i (omega arith))

-- Features whose text for an invalid value does not look at the memory.
abbrev pub AreBlankable : List Feature → Type 0
AreBlankable = All (λ f.
    (o o' : List ℕ) (width precision : ℕ)
    → f.dump o false width precision ≡ f.dump o' false width precision)

abbrev pub IsBlankable : StatType → Type 0
IsBlankable (simple r w) = Unit {0}
IsBlankable null_stat = Unit {0}
IsBlankable (accumulator fs) = AreBlankable fs
IsBlankable (stat_array n t) = Unit {0}

values-blank :
    (fs : List Feature) (width precision q q' : ℕ) (m m' : Mem)
    → AreBlankable fs
    → values fs false width precision q m ≡ values fs false width precision q' m'
unfolding values
values-blank [] width precision q q' m m' h = refl
values-blank (f ∷ fs) width precision q q' m m' (hf, h) =
    ap₂ ◌++◌ (hf _ _ width precision) (values-blank fs width precision _ _ m m' h)

accum_values-blank :
    (fs : List Feature) (q q' : ℕ) (m m' : Mem)
    → AreBlankable fs
    → accum_values fs false q m ≡ accum_values fs false q' m'
unfolding accum_values
accum_values-blank fs q q' m m' h =
    ap₂ (λ x y. if ltb 1 (length fs) then x else y)
      (values-blank fs (max_width fs + 4) (max_width fs) q q' m m' h)
      (values-blank fs 0 6 q q' m m' h)

-- What a cleared statistic prints: the number 0, and the zeros of the features.
unfoldable pub cleared_entry : StatType → Bytes
cleared_entry (simple r w) = decimal (r.to_ulong 0)
cleared_entry (accumulator fs) = accum_values fs false 0 (λ a. 0)
cleared_entry _ = []

accum_entry-cleared :
    (fs : List Feature) (q : ℕ) (m : Mem)
    → IsCleared (accumulator fs) q m
    → accum_entry fs q m ≡ accum_values fs false q m
unfolding accum_entry
accum_entry-cleared fs q m c = ap (λ v. accum_values fs (v == 0) q m) c

leaf_entry-cleared :
    (t : StatType) (q : ℕ) (m : Mem)
    → Prints t
    → IsBlankable t
    → IsCleared t q m
    → leaf_entry t q m ≡ cleared_entry t
unfolding leaf_entry cleared_entry simple_entry
leaf_entry-cleared _ q m (simple_prints r w) b c = ap (λ v. decimal (r.to_ulong v)) c
leaf_entry-cleared _ q m (accum_prints fs) b c =
    accum_entry-cleared fs q m c ∙ accum_values-blank fs q 0 m (λ a. 0) b

-- Every innermost statistic in the type prints; its features ignore the memory when invalid.
map-const :
    {A : Type 0} (f : ℕ → A) (v : A) (p s k : ℕ)
    → ((i : ℕ) → i < k → f (p + i * s) ≡ v)
    → map f (progression p s k) ≡ replicate k v
unfolding progression
map-const f v p s zero h = refl
map-const f v p s (suc k) h =
    ap₂ ◌∷◌ (rw (first_address p s) at (h 0 (omega arith)))
      (map-const f v (p + s) s k (λ i lt. rw (next_address p s i) at (h (suc i) (omega arith))))

-- For every statistic whose arrays are not empty and whose innermost type is simple or an
-- accumulator with features that print an invalid value without looking at it: CLEAR_STAT and then
-- DUMP_STAT prints the cleared entry once for each cell, and CLEAR_STAT changes no byte outside the
-- statistic.
pub dump_entries-clear :
    (t : StatType) (p : ℕ) (m : Mem)
    → IsInhabited t
    → Prints (leaf_of t)
    → IsBlankable (leaf_of t)
    → (dump_entries t p (clear t p m) ≡ replicate (num_cells t) (cleared_entry (leaf_of t)))
      × SameOutside p (shared_size t) m (clear t p m)
unfolding dump_entries clear
dump_entries-clear t p m i h b =
    let ps = progression p (cell_size t) (num_cells t) in
    let folded = fold_cells (do_stat_command (leaf_of t)) StatCmd.clear_stat ps (empty_output, m) in
    let cleared =
      (do_stat_command-cells t StatCmd.clear_stat p empty_output m
        (unfold is_print_stat_type in refl) i).0
      ∙ ap (λ qs. fold_cells (do_stat_command (leaf_of t)) StatCmd.clear_stat qs (empty_output, m))
          (cells_lem t p) in
    let facts = fold_clear (leaf_of t) (num_cells t) p empty_output m h in
    let dumped =
      do_stat_command-cells t StatCmd.dump_stat p empty_output folded.1
        (unfold is_print_stat_type in refl) i in
    (
      ap (λ s. (do_stat_command t p StatCmd.dump_stat empty_output s.1).0.entries) cleared
          ∙ ap (λ s. s.0.entries) dumped.0
          ∙ ap
              (λ qs.
                (fold_cells (do_stat_command (leaf_of t)) StatCmd.dump_stat qs
                  (empty_output, folded.1)).0.entries)
              (cells_lem t p)
          ∙ fold_cells-entries (leaf_of t) ps empty_output folded.1 h
          ∙ map-const (λ q. leaf_entry (leaf_of t) q folded.1) (cleared_entry (leaf_of t)) p
              (cell_size t) (num_cells t)
              (λ k lt. leaf_entry-cleared (leaf_of t) _ folded.1 h b (facts.0 k lt)),
      rw (ap (λ s. s.1) cleared, shared_size-cells t) facts.1,
    )
