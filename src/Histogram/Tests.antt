-- ===== src/Histogram/Tests.antt =====
-- A histogram with one bin from 10 to 20, over integers that are written with 100 added.
use stat_log.Base.{ℕ, ◌+◌, ◌≡◌, refl, some, List, [], ◌∷◌, length}
use stat_log.Histogram.Small.{integers, positions, positions-IsAscending}
use stat_log.Histogram.{Histogram, new_histogram, bin_of, add_samples}
use stat_log.Histogram.Bins.{InBin, bin_of_lem}
use stat_log.Histogram.Totals.{total, add_samples-total}

constructed :
    new_histogram integers 1 110 120
    ≡ record { num_bins = 1; bin_positions = positions; samples_in_bin = 0 ∷ 0 ∷ 0 ∷ [] }
unfolding new_histogram
constructed = refl

abbrev filled : ℕ → ℕ → ℕ → Histogram integers
filled a b c = record { num_bins = 1; bin_positions = positions; samples_in_bin = a ∷ b ∷ c ∷ [] }

counted : add_samples integers (105 ∷ 110 ∷ 119 ∷ 120 ∷ []) (filled 0 0 0) ≡ some (filled 1 2 1)
unfolding add_samples
counted = refl

bin_of_lem_example :
    (b : ℕ) × (bin_of integers 1 positions 110 ≡ some b)
    × InBin integers 1 positions 110 b
    × ((i : ℕ) → InBin integers 1 positions 110 i → i ≡ b)
bin_of_lem_example = bin_of_lem integers 1 positions refl positions-IsAscending 110

add_samples-total_example :
    (counts' : List ℕ) × (add_samples integers (105 ∷ 110 ∷ []) (filled 0 0 0)
      ≡ some (record { num_bins = 1; bin_positions = positions; samples_in_bin = counts' }))
    × (length counts' ≡ 3)
    × (total integers counts' ≡ total integers (0 ∷ 0 ∷ 0 ∷ []) + 2)
add_samples-total_example =
    add_samples-total integers 1 positions (105 ∷ 110 ∷ []) (0 ∷ 0 ∷ 0 ∷ []) refl
      positions-IsAscending refl
