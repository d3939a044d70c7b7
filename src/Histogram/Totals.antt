-- ===== src/Histogram/Totals.antt =====
-- The counts of all bins together (histogram_impl of
-- include/stat_log/stats/accumulator_types/boost_hist.hpp).
use mathlib.Core.Option.{some-injective}
use stat_log.Base.{
  ℕ, zero, suc, ◌+◌, ◌≡◌, refl, ap, ◌∙◌, some, List, [], ◌∷◌, get_elem?, set, length, length-set,
  ◌>>=◌, arith,
}
use stat_log.Histogram.{Floats, add_samples}
use stat_log.Histogram.Bins.{IsAscending, add_sample_lem}

module _ {D : Type 0} (floats : Floats D) where
  -- How many samples there are in all bins.
  unfoldable pub total : List ℕ → ℕ
  total [] = 0
  total (c ∷ cs) = c + total cs

  total-set :
      (counts : List ℕ) (i c : ℕ)
      → get_elem? counts i ≡ some c
      → total (set counts i (c + 1)) ≡ total counts + 1
  unfolding total
  total-set [] i c e = cc
  total-set (d ∷ counts) zero c e = omega (arith, some-injective d c e)
  total-set (d ∷ counts) (suc i) c e = omega (arith, total-set counts i c e)

  -- When the positions rise, as many as there are bins and two more, the histogram takes any samples,
  -- and each of them is counted in one bin: the counts of all bins grow by the number of the samples.
  pub add_samples-total :
      (n : ℕ) (ps : List D) (xs : List D) (counts : List ℕ)
      → length ps ≡ n + 2
      → IsAscending floats ps
      → length counts ≡ n + 2
      → (counts' : List ℕ) × (add_samples floats xs
            (record { num_bins = n; bin_positions = ps; samples_in_bin = counts })
          ≡ some (record { num_bins = n; bin_positions = ps; samples_in_bin = counts' }))
        × (length counts' ≡ n + 2)
        × (total counts' ≡ total counts + length xs)
  unfolding add_samples
  add_samples-total n ps [] counts size ascending len = (counts, refl, len, omega arith)
  add_samples-total n ps (x ∷ xs) counts size ascending len =
      let (b, c, _, at, added) = add_sample_lem floats n ps size ascending x counts len in
      let (counts', run, len', sum) =
        add_samples-total n ps xs (set counts b (c + 1)) size ascending
          (length-set counts b (c + 1) ∙ len) in
      (
        counts',
        ap (λ r. r >>= add_samples floats xs) added ∙ run,
        len',
        omega (arith, sum, total-set counts b c at),
      )
