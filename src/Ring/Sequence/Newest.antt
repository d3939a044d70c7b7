-- ===== src/Ring/Sequence/Newest.antt =====
-- The newest entries that the ring has room for: what is left of a sequence in the memory of
-- src/shared_memory_logger.cpp, and where the search for the first entry stops.
use native.Mathlib.Decide.{dec_le, dec_lt}
use native.Mathlib.Nat.{add-mod_right, mod-lt}
use stat_log.Base.{
  ℕ, ◌+◌, ◌-◌, ◌%◌, ◌≤◌, ◌<◌, ◌≡◌, ◌≢◌, refl, sym, ap, subst, ◌∙◌, ◌⊎◌, inl, inr, some, none, true,
  false, Bool, List, [], ◌∷◌, All, leb, Bool-cases, arith,
}
use stat_log.Memory.{Mem}
use stat_log.Ring.{TimeStamp}
use stat_log.Ring.Retriever.{num_blocks, time_stamp, is_later, find_first}
use stat_log.Ring.First.{find_first-least}
use stat_log.Ring.Around.{position_of}
use stat_log.Ring.Sequence.{
  IsLoggable, Entry, blocks_of, log_blocks, Left, NoStart, Holds, blocks_of-positive,
}

-- The longest end of the sequence that has at most `n` blocks.
unfoldable pub newest : ℕ → List Entry → List Entry
newest n [] = []
newest n (e ∷ es) = elim (leb (log_blocks (e ∷ es)) n) [ true ↦ e ∷ es | false ↦ newest n es ]

-- Each entry has a later time than those before it.
abbrev pub Ascending : List Entry → Type 0
Ascending [] = Unit
Ascending (e ∷ es) = All (λ x. is_later x.time e.time ≡ true) es × Ascending es

pub newest-Ascending : (n : ℕ) (es : List Entry) → Ascending es → Ascending (newest n es)
unfolding newest
newest-Ascending n [] h = tt
newest-Ascending n (e ∷ es) h = elim (Bool-cases (leb (log_blocks (e ∷ es)) n)) [
  | inl fits ↦ rw (fits, newest) h
  | inr large ↦ rw (large, newest) (newest-Ascending n es h.1)
]

pub newest-some :
    (n : ℕ) (e : Entry) (es : List Entry)
    → All (λ x. IsLoggable x × (blocks_of x ≤ n)) (e ∷ es)
    → (x : Entry) × (xs : List Entry) × (newest n (e ∷ es) ≡ x ∷ xs)
unfolding newest
newest-some n e [] ((ok, h), hs) =
    (e, [], let fits : leb (log_blocks (e ∷ [])) n ≡ true = ground arith in rw (fits, newest) refl)
newest-some n e (e' ∷ es) ((ok, h), hs) = elim (Bool-cases (leb (log_blocks (e ∷ e' ∷ es)) n)) [
  | inl fits ↦ (e, e' ∷ es, rw (fits, newest) refl)
  | inr large ↦ let (x, xs, eq) = newest-some n e' es hs in (x, xs, rw (large, newest) eq)
]

not_both : {b : Bool} → b ≡ true → b ≡ false → ⊥
not_both h k = ground arith

module _ (size n end : ℕ) (m : Mem) where
  Left-Holds :
      (es : List Entry) (p : ℕ) → end ≤ p + n → Left size n end m p es → Holds size n m p es
  Left-Holds [] p late left = tt
  Left-Holds (e ∷ es) p late (here, marks, left) = (
    here late,
    λ q ge lt. marks q (omega arith) lt (omega arith),
    Left-Holds es (p + blocks_of e) (omega arith) left,
  )

  -- The newest entries are whole, from some position on, and no other entry starts in the round.
  pub newest-Holds :
      (es : List Entry) (p : ℕ)
      → p + log_blocks es ≡ end
      → Left size n end m p es
      → NoStart n m end (p + n)
      → (s : ℕ) × (s + log_blocks (newest n es) ≡ end)
        × (log_blocks (newest n es) ≤ n)
        × NoStart n m end (s + n)
        × Holds size n m s (newest n es)
  unfolding newest
  newest-Holds [] p last left free = (p, last, omega arith, free, tt)
  newest-Holds (e ∷ es) p last left free = elim (Bool-cases (leb (log_blocks (e ∷ es)) n)) [
    | inl fits ↦
        let small : log_blocks (e ∷ es) ≤ n = ground arith in
        rw (fits, newest)
          (p, last, small, free, Left-Holds (e ∷ es) p (omega (arith, last, small)) left)
    | inr large ↦
        let big : n < log_blocks (e ∷ es) = ground arith in
        rw (large, newest)
          (newest-Holds es (p + blocks_of e) (omega (arith, last)) left.2 (λ q ge lt.
            ap (λ x. num_blocks m (x % n)) (omega (arith, last, big))
            ∙ ap (num_blocks m) (add-mod_right (q - n) n)
            ∙ left.1 (q - n) (omega (arith, last, big)) (omega (arith, last, big))
                (omega (arith, last, big))))
  ]

  later_start :
      (es : List Entry) (t : TimeStamp) (p q : ℕ)
      → All (λ x. is_later x.time t ≡ true) es
      → Holds size n m p es
      → p ≤ q
      → q < p + log_blocks es
      → (num_blocks m (q % n) ≡ 0) ⊎ (is_later (time_stamp m (q % n)) t ≡ true)
  later_start [] t p q later holds ge lt = absurd (omega arith)
  later_start (e ∷ es) t p q (first, later) (here, marks, rest) ge lt =
      elim (dec_le (p + blocks_of e) q) [
        | yes behind ↦ later_start es t (p + blocks_of e) q later rest behind (omega arith)
        | no before ↦ elim (dec_le (p + 1) q) [
          | yes inner ↦ inl (marks q inner (omega (arith, before)))
          | no outer ↦
              let at : p ≡ q = omega arith in
              inr (
                subst (λ x. is_later (time_stamp m (x % n)) t ≡ true) at
                  (ap (λ u. is_later u t) here.time_read ∙ first))
        ]
      ]

  -- The search finds the first of the entries.
  pub first_found :
      (e : Entry) (es : List Entry) (s : ℕ)
      → s + log_blocks (e ∷ es) ≡ end
      → log_blocks (e ∷ es) ≤ n
      → NoStart n m end (s + n)
      → Holds size n m s (e ∷ es)
      → All (λ x. is_later x.time e.time ≡ true) es
      → (t : TimeStamp) × (find_first m n 0 none ≡ some (s % n, t))
  first_found e es s last fits free (here, marks, holds) later =
      let pos = blocks_of-positive e in
      let used : num_blocks m (s % n) ≢ 0 = λ z. omega (arith, z, here.blocks_read, pos) in
      let (b, t, returns, (lt, starts, at), least) =
        find_first-least m n (s % n) (mod-lt s (omega (arith, fits, pos))) used in
      let (q, ge, up, same) = position_of n s b lt in
      let start : num_blocks m (q % n) ≢ 0 = λ z. starts (ap (num_blocks m) (sym same) ∙ z) in
      let first : q ≡ s = elim (dec_le (s + 1) q) [
        | no h ↦ omega arith
        | yes h ↦ absurd (elim (dec_lt q (s + blocks_of e)) [
          | yes inner ↦ start (marks q h inner)
          | no outer ↦ elim (dec_lt q end) [
            | no behind ↦ start (free q (omega arith) up)
            | yes inside ↦
                elim (later_start es e.time (s + blocks_of e) q later holds (omega arith)
                  (omega (arith, last))) [
                    | inl z ↦ start z
                    | inr h' ↦ not_both h' (
                        ap (λ b'. is_later (time_stamp m b') e.time) same
                        ∙ ap (λ u. is_later u e.time) (sym at)
                        ∙ ap (is_later t) (sym here.time_read)
                        ∙ least)
                  ]
          ]
        ])
      ] in
      (t, returns ∙ ap (λ x. some (x, t)) (sym same ∙ ap (λ x. x % n) first))
