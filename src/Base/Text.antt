-- ===== src/Base/Text.antt =====
-- Text as the list of its bytes, with C++'s `==` on strings and the decimal form of a number that
-- `operator<<` writes.
use Prim.Native.Nat.{ℕ, zero, suc, ◌+◌, ◌/◌, ◌%◌, ◌≤◌, ◌*◌, ◌<◌}
use Prim.Native.Char.{code}
use Prim.Native.String.{String}
use mathlib.Core.Path.{◌≡◌, refl, ap, ◌∙◌}
use mathlib.Core.Logic.{◌↔◌, inl, inr}
use stat_log.Base.Lists.{All}
use mathlib.Core.Bool.{Bool, true, false, ◌&&◌}
use mathlib.Core.List.{List, [], ◌∷◌}
use native.Mathlib.Omega.{arith}
use stat_log.Base.Tests.{Bool-cases, ltb→lt, ◌==◌, ltb, if◌then◌else◌}

abbrev pub Bytes : Type 0
Bytes = List ℕ

-- The code points of a literal; its bytes, when it is ASCII.
abbrev pub codes : String → Bytes
codes String.[] = []
codes (String.◌∷◌ c s) = code c ∷ codes s

unfoldable pub text_eq : Bytes → Bytes → Bool
text_eq [] [] = true
text_eq (a ∷ s) (b ∷ t) = a == b && text_eq s t
text_eq _ _ = false

pub text_eq_refl : (s : Bytes) → text_eq s s ≡ true
unfolding text_eq
text_eq_refl [] = refl
text_eq_refl (a ∷ s) = ground (arith, text_eq_refl s)

pub eq_of_text_eq : (s t : Bytes) → text_eq s t ≡ true → s ≡ t
unfolding text_eq
eq_of_text_eq [] [] h = refl
eq_of_text_eq [] (b ∷ t) h = ground arith
eq_of_text_eq (a ∷ s) [] h = ground arith
eq_of_text_eq (a ∷ s) (b ∷ t) h = ground (arith, eq_of_text_eq s t)

pub text_eq_iff : (s t : Bytes) → (text_eq s t ≡ true) ↔ (s ≡ t)
text_eq_iff s t = (eq_of_text_eq s t, λ e. rw e (text_eq_refl t))

unfoldable pub is_empty : Bytes → Bool
is_empty [] = true
is_empty (_ ∷ _) = false

-- Decimal digits, most significant first; the fuel is the number itself, which has fewer digits.
decimal_loop : ℕ → ℕ → Bytes → Bytes
decimal_loop zero n acc = acc
decimal_loop (suc f) n acc =
    let rest = decimal_loop f (n / 10) ((48 + n % 10) ∷ acc) in
    if ltb n 10 then (48 + n) ∷ acc else rest

unfoldable pub decimal : ℕ → Bytes
unfolding decimal_loop
decimal n = decimal_loop (suc n) n []

decimal_loop-digits :
    (f n : ℕ) (acc : Bytes) → All (λ x. 48 ≤ x) acc → All (λ x. 48 ≤ x) (decimal_loop f n acc)
unfolding decimal_loop
decimal_loop-digits zero n acc h = h
decimal_loop-digits (suc f) n acc h = elim (Bool-cases (ltb n 10)) [
  | inl e ↦ rw e (omega arith, h)
  | inr e ↦ rw e (decimal_loop-digits f (n / 10) ((48 + n % 10) ∷ acc) (omega arith, h))
]

pub decimal-digits : (n : ℕ) → All (λ x. 48 ≤ x) (decimal n)
unfolding decimal
decimal-digits n = decimal_loop-digits (suc n) n [] tt

decimal_loop-ne-nil : (f n a : ℕ) (acc : Bytes) → is_empty (decimal_loop f n (a ∷ acc)) ≡ false
unfolding decimal_loop is_empty
decimal_loop-ne-nil zero n a acc = refl
decimal_loop-ne-nil (suc f) n a acc =
    ground (arith, decimal_loop-ne-nil f (n / 10) (48 + n % 10) (a ∷ acc))

pub is_empty-decimal : (n : ℕ) → is_empty (decimal n) ≡ false
unfolding decimal decimal_loop is_empty
is_empty-decimal n = ground (arith, decimal_loop-ne-nil n (n / 10) (48 + n % 10) [])

-- Any way of reading digits one after the other, from the left, reads a decimal as its number.
module _ {ℓ} {A : Type ℓ} (read : Bytes → ℕ → A) where
  decimal_loop-read :
      ((d n : ℕ) (acc : Bytes) → d < 10 → read ((48 + d) ∷ acc) n ≡ read acc (n * 10 + d))
      → (f n : ℕ) (acc : Bytes) → n < f
      → read (decimal_loop f n acc) 0 ≡ read acc n
  unfolding decimal_loop
  decimal_loop-read step zero n acc h = elim h [ ]
  decimal_loop-read step (suc f) n acc h = elim (Bool-cases (ltb n 10)) [
    | inl e ↦ rw e (step n 0 acc (ltb→lt n 10 e) ∙ ap (read acc) (omega arith))
    | inr e ↦ rw e (
        decimal_loop-read step f (n / 10) ((48 + n % 10) ∷ acc) (ground arith)
        ∙ step (n % 10) (n / 10) acc (omega arith)
        ∙ ap (read acc) (omega arith))
  ]

  pub read-decimal :
      ((d n : ℕ) (acc : Bytes) → d < 10 → read ((48 + d) ∷ acc) n ≡ read acc (n * 10 + d))
      → (n : ℕ) → read (decimal n) 0 ≡ read [] n
  unfolding decimal
  read-decimal step n = decimal_loop-read step (suc n) n [] (omega arith)
