-- ===== src/BitStatus/Counts.antt =====
-- The counters that writeBitStatus (include/stat_log/util/bit_status.h) raises in an array with one
-- for each bit.
use stat_log.Base.{
  ℕ, zero, suc, ◌+◌, ◌*◌, ◌%◌, ◌^◌, ◌≤◌, ◌<◌, ◌≡◌, ◌≢◌, refl, sym, ap, ◌∙◌, inl, inr, Bool, true,
  false, ◌&&◌, Bool-cases, ◌⊎◌, subst, some, List, [], ◌∷◌, set, get_elem?-some, length, length-set,
  leb, ltb, if◌then◌else◌, arith, Option,
}
use native.Mathlib.Decide.{dec_lt}
use stat_log.Memory.{Mem}
use stat_log.Memory.Words.{read_word, read_word-outside}
use stat_log.Stats.{
  StatType, simple_counter, int_repr, increment, stat_array, shared_size, is_array,
}
use stat_log.Stats.Operation.{write, policy_write, is_index, inner_args, last_arg, write_element}
use stat_log.Stats.Dump.{read-increment}
use stat_log.Stats.Frame.{policy_write-SameOutside}
use stat_log.Stats.Count.{int-IsRepr}
use stat_log.BitStatus.{bit_is_set, write_bits, write_bit_status}

abbrev pub counters : ℕ → StatType
counters n = stat_array n (simple_counter int_repr)

-- `writeStat` of the array at `p`.
abbrev pub write_counter : ℕ → ℕ → List ℕ → List (Unit {0}) × Mem → Option (List (Unit {0}) × Mem)
write_counter n p args s = write (counters n) p args (s.0) (s.1)

write_counter_lem :
    (n p i : ℕ) (st : List (Unit {0})) (m : Mem)
    → n < 2 ^ 31
    → length st ≡ n
    → i < n
    → (st' : List (Unit {0})) × (write_counter n p (i ∷ 1 ∷ []) (st, m)
        ≡ some (st', policy_write increment int_repr (p + i * 4) 1 m))
      × (length st' ≡ n)
unfolding write write_element inner_args is_index shared_size is_array last_arg
write_counter_lem n p i st m small len lt =
    let (e, at) = get_elem?-some st i (omega (arith, len, lt)) in
    let inside : is_index n i ≡ true = ground (arith, small, lt) in
    (set st i e, rw inside (rw at refl), length-set st i e ∙ len)

counter_elsewhere :
    (p i j : ℕ) (m : Mem)
    → j ≢ i
    → read_word (policy_write increment int_repr (p + i * 4) 1 m) (p + j * 4) 4
      ≡ read_word m (p + j * 4) 4
counter_elsewhere p i j m ne =
    read_word-outside m _ (p + i * 4) 4 (p + j * 4) 4
      (policy_write-SameOutside increment int_repr (p + i * 4) 1 m)
      (elim (dec_lt j i) [
        | yes lt ↦ inl (omega (arith, lt))
        | no not_lt ↦ inr (omega (arith, not_lt, ne))
      ])

-- A counter that is raised or not.
unfoldable pub raised : Bool → ℕ → ℕ
raised b x = if b then (x + 1) % 2 ^ 32 else x

-- Whether the `k` bits from the `i`-th on have the `j`-th, and it is set.
due : ℕ → ℕ → ℕ → Bool → Bool
due k i j b = leb i j && (ltb j (i + k) && b)

due-other : (k i j : ℕ) (b : Bool) → j ≢ i → due k (i + 1) j b ≡ due (suc k) i j b
unfolding due
due-other k i j b ne = ground arith

due-first : (k i : ℕ) (b : Bool) → due (suc k) i i b ≡ b
unfolding due
due-first k i true = ground arith
due-first k i false = ground arith

due-later : (k i : ℕ) (b : Bool) → due k (i + 1) i b ≡ false
unfolding due
due-later k i b = ground arith

due-none : (i j : ℕ) (b : Bool) → due zero i j b ≡ false
unfolding due
due-none i j b = ground arith

raised-false : (x : ℕ) → raised false x ≡ x
unfolding raised
raised-false x = refl

raised-true : (x : ℕ) → (x + 1) % 2 ^ 32 ≡ raised true x
unfolding raised
raised-true x = refl

eq_or_ne : (a c : ℕ) → (a ≡ c) ⊎ (a ≢ c)
eq_or_ne a c = elim (dec_lt a c) [
  | yes lt ↦ inr (omega (arith, lt))
  | no not_lt ↦ elim (dec_lt c a) [
    | yes gt ↦ inr (omega (arith, gt))
    | no not_gt ↦ inl (omega (arith, not_lt, not_gt))
  ]
]

due-all : (k j : ℕ) (b : Bool) → due k 0 j b ≡ (ltb j k && b)
unfolding due
due-all k j true = ground arith
due-all k j false = ground arith

-- What a pass over a bit does to the counters, before the rest of the bits.
due_step :
    (v p k i j : ℕ) (m m' m'' : Mem) (b : Bool)
    → bit_is_set v i ≡ b
    → ((l : ℕ) → l ≢ i → read_word m' (p + l * 4) 4 ≡ read_word m (p + l * 4) 4)
    → read_word m' (p + i * 4) 4 ≡ raised b (read_word m (p + i * 4) 4)
    → read_word m'' (p + j * 4) 4
      ≡ raised (due k (i + 1) j (bit_is_set v j)) (read_word m' (p + j * 4) 4)
    → read_word m'' (p + j * 4) 4
      ≡ raised (due (suc k) i j (bit_is_set v j)) (read_word m (p + j * 4) 4)
due_step v p k i j m m' m'' b e others here rest = elim (eq_or_ne j i) [
  | inl same ↦
      subst
        (λ l.
          read_word m'' (p + l * 4) 4
          ≡ raised (due (suc k) i l (bit_is_set v l)) (read_word m (p + l * 4) 4))
        (sym same)
        (subst
            (λ l.
              read_word m'' (p + l * 4) 4
              ≡ raised (due k (i + 1) l (bit_is_set v l)) (read_word m' (p + l * 4) 4))
            same rest
          ∙ ap (λ c. raised c (read_word m' (p + i * 4) 4)) (due-later k i (bit_is_set v i))
          ∙ raised-false (read_word m' (p + i * 4) 4)
          ∙ here
          ∙ ap (λ c. raised c (read_word m (p + i * 4) 4))
              (sym (due-first k i (bit_is_set v i) ∙ e)))
  | inr ne ↦
      rest
      ∙ ap (λ c. raised c (read_word m' (p + j * 4) 4)) (due-other k i j (bit_is_set v j) ne)
      ∙ ap (raised (due (suc k) i j (bit_is_set v j))) (others j ne)
]

module _ (n p v : ℕ) (small : n < 2 ^ 31) where
  write_bits_lem :
      (k i : ℕ) (st : List (Unit {0})) (m : Mem)
      → length st ≡ n
      → i + k ≤ n
      → (r : List (Unit {0}) × Mem) × (write_bits (write_counter n p) v [] k i (st, m) ≡ some r)
        × ((j : ℕ)
            → read_word r.1 (p + j * 4) 4
              ≡ raised (due k i j (bit_is_set v j)) (read_word m (p + j * 4) 4))
  unfolding write_bits
  write_bits_lem zero i st m len le = (
    (st, m),
    refl,
    λ j. sym (
        ap (λ b. raised b (read_word m (p + j * 4) 4)) (due-none i j (bit_is_set v j))
        ∙ raised-false (read_word m (p + j * 4) 4)),
  )
  write_bits_lem (suc k) i st m len le = elim (Bool-cases (bit_is_set v i)) [
    | inl e ↦
        let (st', done, len') = write_counter_lem n p i st m small len (omega (arith, le)) in
        let m' = policy_write increment int_repr (p + i * 4) 1 m in
        let (r, run, after) = write_bits_lem k (i + 1) st' m' len' (omega (arith, le)) in
        (
          r,
          rw e (rw done run),
          λ j.
              due_step v p k i j m m' (r.1) true e (λ l ne. counter_elsewhere p i l m ne)
                (read-increment int_repr (p + i * 4) 1 m int-IsRepr
                  ∙ raised-true (read_word m (p + i * 4) 4))
                (after j),
        )
    | inr e ↦
        let (r, run, after) = write_bits_lem k (i + 1) st m len (omega (arith, le)) in
        (
          r,
          rw e run,
          λ j.
              due_step v p k i j m m (r.1) false e (λ l ne. refl)
                (sym (raised-false (read_word m (p + i * 4) 4))) (after j),
        )
  ]

  -- writeBitStatus of a status of some bytes, into an array of as many `int` counters as the status has
  -- bits or more, succeeds, adds 1 to the counter of every bit that is set, modulo 2^32, and leaves
  -- the other counters as they were.
  pub write_bit_status-counters :
      (size : ℕ) (st : List (Unit {0})) (m : Mem)
      → length st ≡ n
      → size * 8 ≤ n
      → (r : List (Unit {0}) × Mem) × (write_bit_status (write_counter n p) v [] size (st, m)
          ≡ some r)
        × ((j : ℕ)
            → read_word r.1 (p + j * 4) 4
              ≡ raised (ltb j (size * 8) && bit_is_set v j) (read_word m (p + j * 4) 4))
  unfolding write_bit_status
  write_bit_status-counters size st m len le =
      let (r, run, after) = write_bits_lem (size * 8) 0 st m len (omega (arith, le)) in
      (
        r,
        run,
        λ j.
            after j
            ∙ ap (λ b. raised b (read_word m (p + j * 4) 4))
                (due-all (size * 8) j (bit_is_set v j)),
      )
