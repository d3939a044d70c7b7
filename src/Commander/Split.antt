-- ===== src/Commander/Split.antt =====
-- What `getHeadTail` returns.
use stat_log.Base.{
  ℕ, suc, ◌≡◌, ◌≢◌, refl, ap, ap₂, ◌∙◌, ◌⊎◌, inl, inr, none, some, [], ◌∷◌, ◌++◌, Bytes, take, drop,
  length, All, arith,
}
use native.Mathlib.Decide.{ℕ_discrete}
use stat_log.Commander.{find, split_at, get_head_tail}

abbrev pub Lacks : ℕ → Bytes → Type 0
Lacks c = All (λ x. x ≢ c)

find_in_front : (s rest : Bytes) (c : ℕ) → Lacks c s → find (s ++ c ∷ rest) c ≡ some (length s)
unfolding find
find_in_front [] rest c h = ground arith
find_in_front (x ∷ s) rest c (ne, h) = ground (arith, find_in_front s rest c h)

find_missing : (s : Bytes) (c : ℕ) → Lacks c s → find s c ≡ none
unfolding find
find_missing [] c h = refl
find_missing (x ∷ s) c (ne, h) = ground (arith, find_missing s c h)

take_front : (s rest : Bytes) → take (length s) (s ++ rest) ≡ s
take_front [] rest = refl
take_front (x ∷ s) rest = ap (λ t. x ∷ t) (take_front s rest)

drop_front : (s rest : Bytes) (c : ℕ) → drop (suc (length s)) (s ++ c ∷ rest) ≡ rest
drop_front [] rest c = refl
drop_front (x ∷ s) rest c = drop_front s rest c

-- The first delimiter divides the text.
pub get_head_tail-append :
    (s rest : Bytes) (c : ℕ) → Lacks c s → get_head_tail (s ++ c ∷ rest) c ≡ (s, rest)
unfolding get_head_tail
get_head_tail-append s rest c h =
    ap (split_at (s ++ c ∷ rest)) (find_in_front s rest c h)
    ∙ ap₂ (λ a b. (a, b)) (take_front s (c ∷ rest)) (drop_front s rest c)

-- Without a delimiter the tail is empty.
pub get_head_tail-missing : (s : Bytes) (c : ℕ) → Lacks c s → get_head_tail s c ≡ (s, [])
unfolding get_head_tail
get_head_tail-missing s c h = ap (split_at s) (find_missing s c h)

-- Every text either lacks the delimiter or has a first one.
first_delimiter :
    (s : Bytes) (c : ℕ) → Lacks c s ⊎ ((a : Bytes) × (b : Bytes) × (s ≡ a ++ c ∷ b) × Lacks c a)
first_delimiter [] c = inl tt
first_delimiter (x ∷ s) c = elim (ℕ_discrete x c) [
  | yes e ↦ inr ([], s, ap (λ y. y ∷ s) e, tt)
  | no ne ↦ elim (first_delimiter s c) [
    | inl l ↦ inl (ne, l)
    | inr (a, b, e, l) ↦ inr (x ∷ a, b, ap (λ t. x ∷ t) e, (ne, l))
  ]
]

-- For every text and delimiter the head holds no delimiter, and either the text holds none, is the
-- head, and the tail is empty, or the text is the head, a delimiter and the tail.
pub get_head_tail_lem :
    (s : Bytes) (c : ℕ)
    → Lacks c (get_head_tail s c).0
      × ((Lacks c s × ((get_head_tail s c).0 ≡ s) × ((get_head_tail s c).1 ≡ []))
          ⊎ (s ≡ (get_head_tail s c).0 ++ c ∷ (get_head_tail s c).1))
get_head_tail_lem s c = elim (first_delimiter s c) [
  | inl l ↦ rw (get_head_tail-missing s c l) (l, inl (l, refl, refl))
  | inr (a, b, e, l) ↦ rw (e, get_head_tail-append a b c l) (l, inr refl)
]
