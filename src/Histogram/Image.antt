-- ===== src/Histogram/Image.antt =====
-- The shared image of a histogram, traits_common_hist and HistogramGeneric of
-- include/stat_log/stats/accumulator_types/histogram.h: an array of tuples (bin start, bin value), as
-- a feature of an accumulator. Where the members of a `std::tuple` lie, how a `double` is converted
-- and how a stream prints a value are parameters. The bytes between the members, which nothing
-- writes, are 0 as in new shared memory.
pub mod Fields
pub mod Dumped
mod Tests
use stat_log.Base.{
  ℕ, zero, suc, ◌+◌, ◌*◌, ◌≤◌, ◌<◌, ◌^◌, ◌⊎◌, Bool, Option, none, some, List, [], ◌∷◌, ◌++◌, Bytes,
  map, length, get_elem?, if◌then◌else◌,
}
use stat_log.Memory.{Mem, load}
use stat_log.Memory.Words.{read_word, write_word}
use stat_log.Stats.{Feature, pad}
use stat_log.Histogram.{Floats, new_histogram, add_samples, result}

-- `shared_type` is an array of these tuples; values are their bit patterns. `show_sample` and
-- `show_bin` print with a precision.
pub record Tuples (D : Type 0) : Type 0 where
  pub tuple_size : ℕ
  pub start_offset : ℕ
  pub start_size : ℕ
  pub value_offset : ℕ
  pub value_size : ℕ
  pub of_sample : ℕ → D
  pub to_start : D → ℕ
  pub to_value : D → ℕ
  pub show_sample : ℕ → ℕ → Bytes
  pub show_bin : ℕ → ℕ → Bytes

-- The members lie in the tuple, apart from each other, and what is converted fits them.
pub record IsLayout {D : Type 0} (t : Tuples D) : Type 0 where
  pub start_inside : t.start_offset + t.start_size ≤ t.tuple_size
  pub value_inside : t.value_offset + t.value_size ≤ t.tuple_size
  pub apart :
      (t.start_offset + t.start_size ≤ t.value_offset)
      ⊎ (t.value_offset + t.value_size ≤ t.start_offset)
  pub start_fits : (x : D) → t.to_start x < 256 ^ t.start_size
  pub value_fits : (x : D) → t.to_value x < 256 ^ t.value_size

-- The template arguments.
pub record Ranges (D : Type 0) : Type 0 where
  pub num_bins : ℕ
  pub min_range : D
  pub max_range : D

-- An object's bytes by their offset.
abbrev pub image : List ℕ → Mem
image bytes a = elim (get_elem? bytes a) [ none ↦ 0 | some b ↦ b ]

module _ {D : Type 0} (floats : Floats D) (t : Tuples D) (r : Ranges D) (is_density : Bool) where
  abbrev pub num_hist_bins : ℕ
  num_hist_bins = r.num_bins + 2

  -- What the extractor gives after the samples.
  unfoldable pub hist : List ℕ → List (D × D)
  unfolding new_histogram add_samples result
  hist acc =
      elim (add_samples floats (map t.of_sample acc)
        (new_histogram floats r.num_bins r.min_range r.max_range)) [
          | none ↦ []
          | some h ↦ result floats is_density (length acc) h.bin_positions h.samples_in_bin
        ]

  -- The loop of `serialize`.
  unfoldable pub write_tuples : List (D × D) → ℕ → Mem → Mem
  unfolding write_word
  write_tuples [] p m = m
  write_tuples (x ∷ xs) p m =
      let m₁ = write_word m (p + t.start_offset) t.start_size (t.to_start x.0) in
      write_tuples xs (p + t.tuple_size)
        (write_word m₁ (p + t.value_offset) t.value_size (t.to_value x.1))

  -- The loops of `getTitle` and `dumpStat`, `k` tuples to go. The precision of the title's stream is
  -- the default.
  unfoldable pub title_fields : ℕ → ℕ → Mem → Bytes
  unfolding read_word pad
  title_fields zero p m = []
  title_fields (suc k) p m =
      pad 8 (t.show_sample 6 (read_word m (p + t.start_offset) t.start_size))
      ++ title_fields k (p + t.tuple_size) m

  unfoldable pub value_fields : Bool → ℕ → ℕ → Mem → Bytes
  unfolding read_word pad
  value_fields is_valid zero p m = []
  value_fields is_valid (suc k) p m =
      pad 8 (
        if is_valid
        then t.show_bin 4 (read_word m (p + t.value_offset) t.value_size)
        else t.show_sample 4 0)
      ++ value_fields is_valid k (p + t.tuple_size) m

  -- The feature. Its width and precision replace those that the accumulator sets.
  unfoldable pub histogram_feature : Bytes → Feature
  unfolding hist write_tuples title_fields value_fields load
  histogram_feature name = record {
    stat_name = name;
    size = num_hist_bins * t.tuple_size;
    serialize = λ acc. load (write_tuples (hist acc) 0 (λ a. 0)) 0 (num_hist_bins * t.tuple_size);
    title = λ obj w. title_fields num_hist_bins 0 (image obj);
    dump = λ obj is_valid w prec. value_fields is_valid num_hist_bins 0 (image obj);
  }
