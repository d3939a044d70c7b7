-- ===== src/Histogram.antt =====
-- The histograms of include/stat_log/stats/accumulator_types/boost_hist.hpp: histogram_impl. `double`
-- is a type with the operations that the code uses; the counts, which are doubles that `++` raises,
-- are exact up to 2^53 and stand as numbers.
pub mod Bins
mod Small
pub mod Totals
pub mod Image
mod Tests
use stat_log.Base.{
  ℕ, zero, suc, ◌+◌, ◌-◌, Bool, Option, none, some, List, [], ◌∷◌, map, get_elem?, set, replicate,
  ◌>>=◌, if◌then◌else◌,
}

-- The operations of `double`; `less` is its `<`, and `>=` is the negation, as there is no NaN.
pub record Floats (D : Type 0) : Type 0 where
  pub less : D → D → Bool
  pub add : D → D → D
  pub sub : D → D → D
  pub mul : D → D → D
  pub div : D → D → D
  pub of_nat : ℕ → D

-- The numbers from `i` on, `k` of them.
unfoldable pub range : ℕ → ℕ → List ℕ
range zero i = []
range (suc k) i = i ∷ range k (i + 1)

module _ {D : Type 0} (floats : Floats D) where
  pub record Histogram : Type 0 where
    pub num_bins : ℕ
    pub bin_positions : List D
    pub samples_in_bin : List ℕ

  -- `minimum + (i - 1.0) * bin_size`
  abbrev pub bin_position : D → D → ℕ → D
  bin_position minimum bin_size i =
      floats.add minimum (floats.mul (floats.sub (floats.of_nat i) (floats.of_nat 1)) bin_size)

  -- The constructor; `numeric::average` divides.
  unfoldable pub new_histogram : ℕ → D → D → Histogram
  unfolding range
  new_histogram num_bins min_range max_range =
      let bin_size = floats.div (floats.sub max_range min_range) (floats.of_nat num_bins) in
      record {
        num_bins = num_bins;
        bin_positions = map (bin_position min_range bin_size) (range (num_bins + 2) 0);
        samples_in_bin = replicate (num_bins + 2) 0;
      }

  -- `std::upper_bound`: how many positions come before the first that is above the sample.
  unfoldable pub upper_bound : List D → D → ℕ
  upper_bound [] x = 0
  upper_bound (p ∷ ps) x = let rest = upper_bound ps x in if floats.less x p then 0 else suc rest

  -- The bin of a sample.
  unfoldable pub bin_of : ℕ → List D → D → Option ℕ
  unfolding upper_bound
  bin_of num_bins positions x = get_elem? positions 1 >>= λ first.
      get_elem? positions (num_bins + 1) >>= λ last. some (
        if floats.less x first
        then 0
        else if floats.less x last
        then upper_bound positions x - 1
        else num_bins + 1)

  -- `operator()`
  unfoldable pub add_sample : D → Histogram → Option Histogram
  unfolding bin_of
  add_sample x h = bin_of h.num_bins h.bin_positions x >>= λ i.
      get_elem? h.samples_in_bin i >>= λ count.
      some (record h { samples_in_bin = set h.samples_in_bin i (count + 1) })

  unfoldable pub add_samples : List D → Histogram → Option Histogram
  unfolding add_sample
  add_samples [] h = some h
  add_samples (x ∷ xs) h = add_sample x h >>= add_samples xs

  -- `result`: each position with its count, or with its share of all samples.
  unfoldable pub result : Bool → ℕ → List D → List ℕ → List (D × D)
  result is_density cnt [] counts = []
  result is_density cnt (p ∷ ps) [] = []
  result is_density cnt (p ∷ ps) (c ∷ cs) =
      (p, if is_density then floats.div (floats.of_nat c) (floats.of_nat cnt) else floats.of_nat c)
      ∷ result is_density cnt ps cs
