-- ===== src/Histogram/Small.antt =====
-- A small histogram for the tests: integers, written with 100 added, in the place of `double`.
use stat_log.Base.{
  ℕ, zero, suc, ◌+◌, ◌-◌, ◌*◌, ◌/◌, ◌<◌, ◌≡◌, refl, true, some, List, [], ◌∷◌, ltb, if◌then◌else◌,
  get_elem?, subst_some, arith,
}
use stat_log.Histogram.{Floats}
use stat_log.Histogram.Bins.{IsAscending}

abbrev pub integers : Floats ℕ
integers = record {
  less = ltb;
  add = λ a b. a + b - 100;
  sub = λ a b. a + 100 - b;
  mul = λ a b. if ltb a 100 then 100 - (100 - a) * (b - 100) else 100 + (a - 100) * (b - 100);
  div = λ a b. 100 + (a - 100) / (b - 100);
  of_nat = λ n. n + 100;
}

abbrev pub positions : List ℕ
positions = 100 ∷ 110 ∷ 120 ∷ []

less_of : (a b p q : ℕ) → ltb a b ≡ true → some a ≡ some p → some b ≡ some q → ltb p q ≡ true
less_of a b p q h e f =
    subst_some (λ z. ltb z q ≡ true) a p e (subst_some (λ z. ltb a z ≡ true) b q f h)

rising :
    (i j : ℕ) (p q : ℕ)
    → i < j
    → get_elem? positions i ≡ some p
    → get_elem? positions j ≡ some q
    → ltb p q ≡ true
rising i zero p q lt e f = absurd (omega arith)
rising zero (suc zero) p q lt e f = less_of 100 110 p q refl e f
rising zero (suc (suc zero)) p q lt e f = less_of 100 120 p q refl e f
rising (suc zero) (suc zero) p q lt e f = absurd (omega arith)
rising (suc zero) (suc (suc zero)) p q lt e f = less_of 110 120 p q refl e f
rising (suc (suc i)) (suc zero) p q lt e f = absurd (omega arith)
rising (suc (suc i)) (suc (suc zero)) p q lt e f = absurd (omega arith)
rising i (suc (suc (suc j))) p q lt e f = cc

pub positions-IsAscending : IsAscending integers positions
positions-IsAscending = record { trans = λ a b c h k. ground (arith, h, k); rises = rising }
