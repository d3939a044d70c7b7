-- ===== src/Stats/Scalars.antt =====
-- The features with one value: mean.h, max.h, min.h and count.h of
-- include/stat_log/stats/accumulator_types. What boost extracts, and how a stream prints it, are
-- parameters; `size` is that of the accumulator's `sample_type`.
use stat_log.Base.{ℕ, List, Bytes, codes}
use stat_log.Stats.{Scalar}

module _ (extract : List ℕ → ℕ) (show : ℕ → ℕ → Bytes) (size : ℕ) where
  abbrev pub mean_traits : Scalar
  mean_traits = record { stat_name = codes "mean"; size = size; extract = extract; show = show }

  abbrev pub max_traits : Scalar
  max_traits = record { stat_name = codes "max"; size = size; extract = extract; show = show }

  abbrev pub min_traits : Scalar
  min_traits = record { stat_name = codes "min"; size = size; extract = extract; show = show }

-- The count is a `size_t`.
abbrev pub count_traits : (List ℕ → ℕ) → (ℕ → ℕ → Bytes) → Scalar
count_traits extract show = record {
  stat_name = codes "count";
  size = 8;
  extract = extract;
  show = show;
}
