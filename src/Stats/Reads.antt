-- ===== src/Stats/Reads.antt =====
-- What DUMP_STAT reads: doStatCommand of every statistic type (include/stat_log/stats) looks at the
-- statistic's own bytes only, and changes none.
use stat_log.Base.{
  decimal, ℕ, zero, suc, ◌+◌, ◌*◌, ◌≤◌, ◌<◌, ◌≡◌, refl, sym, ap, ap₂, ◌∙◌, Bool, List, [], ◌∷◌,
  ◌++◌, Bool-cases, inl, inr, if◌then◌else◌, ltb, ◌==◌, length, arith,
}
use stat_log.Command.{StatCmdOutput, dump_stat}
use stat_log.Memory.{Mem, load_congr}
use stat_log.Memory.Words.{read_word_congr}
use stat_log.Stats.{
  Repr, Feature, StatType, simple, null_stat, accumulator, stat_array, features_size, shared_size,
  is_array,
}
use stat_log.Stats.Control.{
  simple_entry, titles, values, accum_title, accum_values, accum_entry, max_width, for_range,
  leaf_array_command, nested_step, nested_array_command, push_entry, push_dimension,
  do_stat_command, Command, simple_command, null_command, accum_command,
}
use stat_log.Stats.Frame.{element_in_array}

-- Two memories agree on `n` bytes.
abbrev pub SameInside : ℕ → ℕ → Mem → Mem → Type 0
SameInside p n m m' = (a : ℕ) → p ≤ a → a < p + n → m' a ≡ m a

pub SameInside-narrow :
    (p n q k : ℕ) {m m' : Mem} → p ≤ q → q + k ≤ p + n → SameInside p n m m' → SameInside q k m m'
SameInside-narrow p n q k le₁ le₂ h a le lt = h a (omega arith) (omega arith)

module _ (m m' : Mem) where
  simple_entry_congr :
      (r : Repr) (p : ℕ) → SameInside p r.size m m' → simple_entry r p m' ≡ simple_entry r p m
  unfolding simple_entry
  simple_entry_congr r p h = ap (λ v. decimal (r.to_ulong v)) (read_word_congr m m' p r.size h)

  titles_congr :
      (fs : List Feature) (w p : ℕ)
      → SameInside p (features_size fs) m m'
      → titles fs w p m' ≡ titles fs w p m
  unfolding titles features_size
  titles_congr [] w p h = refl
  titles_congr (f ∷ fs) w p h =
      ap₂ (λ obj rest. f.title obj w ++ rest)
        (load_congr m m' p f.size (SameInside-narrow p _ p f.size (omega arith) (omega arith) h))
        (titles_congr fs w (p + f.size)
          (SameInside-narrow p _ (p + f.size) (features_size fs) (omega arith) (omega arith) h))

  values_congr :
      (fs : List Feature) (b : Bool) (w prec p : ℕ)
      → SameInside p (features_size fs) m m'
      → values fs b w prec p m' ≡ values fs b w prec p m
  unfolding values features_size
  values_congr [] b w prec p h = refl
  values_congr (f ∷ fs) b w prec p h =
      ap₂ (λ obj rest. f.dump obj b w prec ++ rest)
        (load_congr m m' p f.size (SameInside-narrow p _ p f.size (omega arith) (omega arith) h))
        (values_congr fs b w prec (p + f.size)
          (SameInside-narrow p _ (p + f.size) (features_size fs) (omega arith) (omega arith) h))

  accum_values_congr :
      (fs : List Feature) (b : Bool) (p : ℕ)
      → SameInside p (features_size fs) m m'
      → accum_values fs b p m' ≡ accum_values fs b p m
  unfolding accum_values
  accum_values_congr fs b p h =
      ap₂ (λ x y. if ltb 1 (length fs) then x else y)
        (values_congr fs b (max_width fs + 4) (max_width fs) p h) (values_congr fs b 0 6 p h)

  accum_entry_congr :
      (fs : List Feature) (p : ℕ)
      → SameInside p (features_size fs + 4) m m'
      → accum_entry fs p m' ≡ accum_entry fs p m
  unfolding accum_entry
  accum_entry_congr fs p h =
      ap (λ w. accum_values fs (w == 0) p m')
        (read_word_congr m m' (p + features_size fs) 4
          (SameInside-narrow p _ (p + features_size fs) 4 (omega arith) (omega arith) h))
      ∙ accum_values_congr fs _ p
          (SameInside-narrow p _ p (features_size fs) (omega arith) (omega arith) h)

-- The outputs are the same, and neither memory was changed.
abbrev Same : Mem → Mem → StatCmdOutput × Mem → StatCmdOutput × Mem → Type 0
Same m m' r r' = (r'.0 ≡ r.0) × (r.1 ≡ m) × (r'.1 ≡ m')

-- A loop keeps what its rounds keep.
for_range-keeps :
    {S : Type 0} (R : S → S → Type 0) (body body' : ℕ → S → S) (n : ℕ)
    → ((i : ℕ) (s s' : S) → i < n → R s s' → R (body i s) (body' i s'))
    → (k i : ℕ) (s s' : S) → i + k ≤ n
    → R s s'
    → R (for_range k i body s) (for_range k i body' s')
unfolding for_range
for_range-keeps R body body' n step zero i s s' le h = h
for_range-keeps R body body' n step (suc k) i s s' le h =
    for_range-keeps R body body' n step k (i + 1) (body i s) (body' i s') (omega arith)
      (step i s s' (omega arith) h)

Same-resp :
    (f : StatCmdOutput → Mem → StatCmdOutput × Mem) {m m' x x' : Mem} {out out' : StatCmdOutput}
    → out' ≡ out
    → x ≡ m
    → x' ≡ m'
    → Same m m' (f out m) (f out m')
    → Same m m' (f out x) (f out' x')
Same-resp f {m} {m'} {x} {x'} {out} {out'} e ex ex' h = (
  ap₂ (λ o w. (f o w).0) e ex' ∙ h.0 ∙ ap (λ w. (f out w).0) (sym ex),
  ap (λ w. (f out w).1) ex ∙ h.1,
  ap₂ (λ o w. (f o w).1) e ex' ∙ h.2,
)

-- The state of the loop over an array of arrays, with the dimensions kept aside.
abbrev SameNested : Mem → Mem → StatCmdOutput × Mem × List ℕ → StatCmdOutput × Mem × List ℕ → Type 0
SameNested m m' s s' = Same m m' (s.0, s.1) (s'.0, s'.1) × (s'.2 ≡ s.2)

-- An array whose elements' command reads the element only.
module _ (each : Command) (n size p : ℕ) (m m' : Mem)
    (same : (i : ℕ) (out : StatCmdOutput)
      → i < n
      → Same m m'
          (each (p + i * size) dump_stat out m)
          (each (p + i * size) dump_stat out m')) where
  leaf_array-Same :
      (out : StatCmdOutput)
      → Same m m'
          (leaf_array_command n size each p dump_stat out m)
          (leaf_array_command n size each p dump_stat out m')
  unfolding leaf_array_command
  leaf_array-Same out =
      for_range-keeps (Same m m') (λ i s. each (p + i * size) dump_stat (s.0) (s.1))
        (λ i s. each (p + i * size) dump_stat (s.0) (s.1)) n
        (λ i s s' lt h. Same-resp (each (p + i * size) dump_stat) h.0 h.1 h.2 (same i (s.0) lt)) n 0
        (out, m) (out, m') (omega arith) (refl, refl, refl)

  nested_step-Same :
      (i : ℕ) (s s' : StatCmdOutput × Mem × List ℕ)
      → i < n
      → SameNested m m' s s'
      → SameNested m m'
          (nested_step size each p dump_stat i s)
          (nested_step size each p dump_stat i s')
  unfolding nested_step
  nested_step-Same i (out, w, ds) (out', w', ds') lt (h, e) =
      let r = Same-resp (each (p + i * size) dump_stat) h.0 h.1 h.2 (same i out lt) in
      (
        (ap (λ (o : StatCmdOutput). record o { dimension_sizes = [] }) (r.0), r.1, r.2),
        ap₂ (λ (o : StatCmdOutput) l. if i == 0 then o.dimension_sizes else l) (r.0) e,
      )

  nested_array-Same :
      (out : StatCmdOutput)
      → Same m m'
          (nested_array_command n size each p dump_stat out m)
          (nested_array_command n size each p dump_stat out m')
  unfolding nested_array_command
  nested_array-Same out =
      let (h, e) =
        for_range-keeps (SameNested m m') (nested_step size each p dump_stat)
          (nested_step size each p dump_stat) n nested_step-Same n 0 (out, m, out.dimension_sizes)
          (out, m', out.dimension_sizes) (omega arith) ((refl, refl, refl), refl) in
      (ap₂ (λ (o : StatCmdOutput) l. record o { dimension_sizes = l }) (h.0) e, h.1, h.2)

-- DUMP_STAT of any statistic prints the same from two memories that agree on the statistic's bytes,
-- and changes neither.
pub do_stat_command-dump :
    (t : StatType) (p : ℕ) (out : StatCmdOutput) (m m' : Mem)
    → SameInside p (shared_size t) m m'
    → ((do_stat_command t p dump_stat out m').0 ≡ (do_stat_command t p dump_stat out m).0)
      × ((do_stat_command t p dump_stat out m).1 ≡ m)
      × ((do_stat_command t p dump_stat out m').1 ≡ m')
unfolding do_stat_command simple_command null_command accum_command shared_size accum_title
do_stat_command-dump (simple r w) p out m m' h =
    (ap (push_entry out) (simple_entry_congr m m' r p h), refl, refl)
do_stat_command-dump null_stat p out m m' h = (refl, refl, refl)
do_stat_command-dump (accumulator fs) p out m m' h = (
  ap₂ (λ title e. push_entry (record out { entry_title = title }) e)
      (titles_congr m m' fs (max_width fs + 4) p
        (SameInside-narrow p _ p (features_size fs) (omega arith) (omega arith) h))
      (accum_entry_congr m m' fs p h),
  refl,
  refl,
)
do_stat_command-dump (stat_array n t) p out m m' h =
    let size = shared_size t in
    let each : (i : ℕ) (o : StatCmdOutput)
        → i < n
        → Same m m' (do_stat_command t (p + i * size) dump_stat o m)
            (do_stat_command t (p + i * size) dump_stat o m') =
      λ i o lt. do_stat_command-dump t (p + i * size) o m m' (
        SameInside-narrow p (n * size) (p + i * size) size (omega arith)
          (omega (arith, element_in_array n size i lt)) h) in
    elim (Bool-cases (is_array t)) [
      | inl e ↦
          rw e (nested_array-Same (do_stat_command t) n size p m m' each (push_dimension out n))
      | inr e ↦ rw e (leaf_array-Same (do_stat_command t) n size p m m' each (push_dimension out n))
    ]
