-- ===== src/Histogram/Image/Dumped.antt =====
-- What the control side shows of a histogram that was serialised
-- (include/stat_log/stats/accumulator_types/histogram.h and boost_hist.hpp).
use stat_log.Base.{
  ℕ, zero, suc, ◌+◌, ◌*◌, ◌≡◌, refl, sym, ap, ◌∙◌, Bool, true, some, List, [], ◌∷◌, Bytes, map,
  length, length-map, length-replicate, replicate, arith,
}
use stat_log.Memory.{load, length-load}
use stat_log.Stats.{Feature}
use stat_log.Histogram.{Floats, Histogram, range, bin_position, new_histogram, add_samples, result}
use stat_log.Histogram.Bins.{IsAscending}
use stat_log.Histogram.Totals.{total, add_samples-total}
use stat_log.Histogram.Image.{
  Tuples, IsLayout, Ranges, image, hist, write_tuples, title_fields, value_fields,
  histogram_feature,
}
use stat_log.Histogram.Image.Fields.{image-load, starts_text, values_text, fields_lem}

length-range : (k i : ℕ) → length (range k i) ≡ k
unfolding range
length-range zero i = refl
length-range (suc k) i = ap suc (length-range k (i + 1))

module _ {D : Type 0} (floats : Floats D) where
  length-result :
      (is_density : Bool) (cnt : ℕ) (ps : List D) (cs : List ℕ)
      → length cs ≡ length ps
      → length (result floats is_density cnt ps cs) ≡ length ps
  unfolding result
  length-result is_density cnt [] cs h = refl
  length-result is_density cnt (p ∷ ps) [] h = absurd (omega (arith, h))
  length-result is_density cnt (p ∷ ps) (c ∷ cs) h =
      ap suc (length-result is_density cnt ps cs (omega (arith, h)))

  total-replicate : (k : ℕ) → total floats (replicate k 0) ≡ 0
  unfolding total
  total-replicate zero = refl
  total-replicate (suc k) = omega (arith, total-replicate k)

module _ {D : Type 0} (floats : Floats D) (t : Tuples D) (r : Ranges D) (is_density : Bool) where
  -- The positions of the bins' starts.
  abbrev pub positions : List D
  positions =
      map
        (bin_position floats r.min_range
          (floats.div (floats.sub r.max_range r.min_range) (floats.of_nat r.num_bins)))
        (range (r.num_bins + 2) 0)

  length-positions : length positions ≡ r.num_bins + 2
  length-positions = length-map _ (range (r.num_bins + 2) 0) ∙ length-range (r.num_bins + 2) 0

  abbrev pub feature : Bytes → Feature
  feature name = histogram_feature floats t r is_density name

  -- What is shown of the image of some pairs, one for each bin.
  shown :
      (name : Bytes) (acc : List ℕ) (w prec : ℕ)
      → IsLayout t
      → length (hist floats t r is_density acc) ≡ r.num_bins + 2
      → ((feature name).title ((feature name).serialize acc) w
          ≡ starts_text t (hist floats t r is_density acc))
        × ((feature name).dump ((feature name).serialize acc) true w prec
            ≡ values_text t (hist floats t r is_density acc))
  unfolding histogram_feature
  shown name acc w prec ok len =
      let xs = hist floats t r is_density acc in
      let size = (r.num_bins + 2) * t.tuple_size in
      let m = write_tuples floats t r is_density xs 0 (λ a. 0) in
      let whole : length xs * t.tuple_size ≡ size = ap (λ k. k * t.tuple_size) len in
      let (starts, values) =
        fields_lem floats t r is_density ok xs 0 (λ a. 0) (image (load m 0 size))
          (λ a ge lt. image-load size m 0 a (omega (arith, lt, whole)) ∙ ap m (omega arith)) in
      (
        ap (λ k. title_fields floats t r is_density k 0 (image (load m 0 size))) (sym len) ∙ starts,
        ap (λ k. value_fields floats t r is_density true k 0 (image (load m 0 size))) (sym len)
            ∙ values,
      )

  hist_lem :
      (acc : List ℕ) (h : Histogram floats)
      → add_samples floats
          (map t.of_sample acc)
          (new_histogram floats r.num_bins r.min_range r.max_range)
        ≡ some h
      → hist floats t r is_density acc
        ≡ result floats is_density (length acc) h.bin_positions h.samples_in_bin
  unfolding hist
  hist_lem acc h e = rw (e, hist) refl

  -- When the positions of the bins rise, and the members of a tuple lie in it, apart from each other,
  -- and what is converted fits them: the histogram takes any samples, counts each in one bin, and what
  -- the control side reads of its serialised image are the starts of all bins, with the outer two, as
  -- the title, and the counts (or shares) of all bins as the entry, each in its field.
  pub histogram_feature-shown :
      (name : Bytes) (acc : List ℕ) (w prec : ℕ)
      → IsAscending floats positions
      → IsLayout t
      → (counts : List ℕ) × (add_samples floats
            (map t.of_sample acc)
            (new_histogram floats r.num_bins r.min_range r.max_range)
          ≡ some (record {
            num_bins = r.num_bins;
            bin_positions = positions;
            samples_in_bin = counts;
          }))
        × (total floats counts ≡ length acc)
        × ((feature name).title ((feature name).serialize acc) w
            ≡ starts_text t (result floats is_density (length acc) positions counts))
        × ((feature name).dump ((feature name).serialize acc) true w prec
            ≡ values_text t (result floats is_density (length acc) positions counts))
  unfolding new_histogram
  histogram_feature-shown name acc w prec ascending ok =
      let (counts, run, len, sum) =
        add_samples-total floats r.num_bins positions (map t.of_sample acc)
          (replicate (r.num_bins + 2) 0) length-positions ascending
          (length-replicate (r.num_bins + 2) 0) in
      let pairs = hist_lem acc _ run in
      let (title, entry) = shown name acc w prec ok (
        ap length pairs
        ∙ length-result floats is_density (length acc) positions counts (len ∙ sym length-positions)
        ∙ length-positions) in
      (
        counts,
        run,
        omega (arith, sum, total-replicate floats (r.num_bins + 2), length-map t.of_sample acc),
        title ∙ ap (starts_text t) pairs,
        entry ∙ ap (values_text t) pairs,
      )

  -- The image has the size that the accumulator reckons with.
  pub length-serialize :
      (name : Bytes) (acc : List ℕ) → length ((feature name).serialize acc) ≡ (feature name).size
  unfolding histogram_feature
  length-serialize name acc = length-load _ 0 ((r.num_bins + 2) * t.tuple_size)
