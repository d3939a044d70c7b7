-- ===== src/Histogram/Image/Tests.antt =====
-- A histogram of `int` with one bin from 10 to 20, and its image.
use native.Mathlib.Nat.{mod-lt}
use stat_log.Base.{
  ℕ, ◌+◌, ◌-◌, ◌%◌, ◌^◌, ◌≡◌, refl, true, false, some, inr, List, [], ◌∷◌, ◌++◌, Bytes, codes,
  decimal, map, arith,
}
use stat_log.Histogram.Small
use stat_log.Histogram.Small.{integers}
use stat_log.Histogram.{range, new_histogram, add_samples, result}
use stat_log.Histogram.Totals.{total}
use stat_log.Histogram.Image.{histogram_feature, Tuples, IsLayout, Ranges}
use stat_log.Histogram.Image.Fields.{starts_text, values_text}
use stat_log.Histogram.Image.Dumped.{positions, feature, histogram_feature-shown}

-- `std::tuple<int, size_t>` keeps its last member first.
abbrev tuples : Tuples ℕ
tuples = record {
  tuple_size = 16;
  start_offset = 8;
  start_size = 4;
  value_offset = 0;
  value_size = 8;
  of_sample = λ a. a + 100;
  to_start = λ x. (x - 100) % 256 ^ 4;
  to_value = λ x. (x - 100) % 256 ^ 8;
  show_sample = λ prec v. decimal v;
  show_bin = λ prec v. decimal v;
}

tuples-IsLayout : IsLayout tuples
tuples-IsLayout = record {
  start_inside = omega arith;
  value_inside = omega arith;
  apart = inr (omega arith);
  start_fits = λ x. mod-lt (x - 100) (omega arith);
  value_fits = λ x. mod-lt (x - 100) (omega arith);
}

abbrev ranges : Ranges ℕ
ranges = record { num_bins = 1; min_range = 110; max_range = 120 }

abbrev name : Bytes
name = codes "histogram (count)"

-- Two samples in the bin and one above it.
abbrev samples : List ℕ
samples = 12 ∷ 19 ∷ 40 ∷ []

entry_of_samples :
    (feature integers tuples ranges false name).dump
      ((feature integers tuples ranges false name).serialize samples)
      true
      0
      0
    ≡ codes "0       " ++ codes "2       " ++ codes "1       "
unfolding histogram_feature decimal
entry_of_samples = refl

histogram_feature-shown_example :
    (counts : List ℕ) × (add_samples integers
        (map tuples.of_sample samples)
        (new_histogram integers 1 110 120)
      ≡ some (record {
        num_bins = 1;
        bin_positions = positions integers tuples ranges false;
        samples_in_bin = counts;
      }))
    × (total integers counts ≡ 3)
    × ((feature integers tuples ranges false name).title
          ((feature integers tuples ranges false name).serialize samples)
          21
        ≡ starts_text tuples
            (result integers false 3 (positions integers tuples ranges false) counts))
    × ((feature integers tuples ranges false name).dump
          ((feature integers tuples ranges false name).serialize samples)
          true
          21
          6
        ≡ values_text tuples
            (result integers false 3 (positions integers tuples ranges false) counts))
unfolding range
histogram_feature-shown_example =
    histogram_feature-shown integers tuples ranges false name samples 21 6
      Small.positions-IsAscending tuples-IsLayout
