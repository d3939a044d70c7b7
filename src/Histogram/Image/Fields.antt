-- ===== src/Histogram/Image/Fields.antt =====
-- What is read back of the tuples of a histogram
-- (include/stat_log/stats/accumulator_types/histogram.h).
use stat_log.Base.{
  ℕ, zero, suc, ◌+◌, ◌*◌, ◌≤◌, ◌<◌, ◌≡◌, refl, ap, ap₂, ◌∙◌, inl, inr, Bool, true, List, [], ◌∷◌,
  ◌++◌, Bytes, length, arith,
}
use stat_log.Memory.{Mem, load}
use stat_log.Memory.Words.{
  read_word, write_word, write_word-SameOutside, read-write_word, read_word-outside,
  read_word_congr,
}
use stat_log.Stats.{pad}
use stat_log.Histogram.{Floats}
use stat_log.Histogram.Image.{
  Tuples, IsLayout, Ranges, image, write_tuples, title_fields, value_fields,
}

-- The bytes of a part of memory stand where they stood.
pub image-load : (n : ℕ) (m : Mem) (p a : ℕ) → a < n → image (load m p n) a ≡ m (p + a)
unfolding load
image-load zero m p a h = absurd (omega arith)
image-load (suc n) m p zero h = ap m (omega arith)
image-load (suc n) m p (suc a) h = image-load n m (p + 1) a (omega arith) ∙ ap m (omega arith)

module _ {D : Type 0} (t : Tuples D) where
  -- The texts of the fields, from the pairs themselves.
  unfoldable pub starts_text : List (D × D) → Bytes
  unfolding pad
  starts_text [] = []
  starts_text (x ∷ xs) = pad 8 (t.show_sample 6 (t.to_start x.0)) ++ starts_text xs

  unfoldable pub values_text : List (D × D) → Bytes
  unfolding pad
  values_text [] = []
  values_text (x ∷ xs) = pad 8 (t.show_bin 4 (t.to_value x.1)) ++ values_text xs

module _ {D : Type 0} (floats : Floats D) (t : Tuples D) (r : Ranges D) (is_density : Bool)
    (ok : IsLayout t) where
  abbrev one : (x : D × D) (p : ℕ) (m : Mem) → Mem
  one x p m =
      write_word (write_word m (p + t.start_offset) t.start_size (t.to_start x.0))
        (p + t.value_offset) t.value_size (t.to_value x.1)

  -- The tuples that follow leave those below them alone.
  write_tuples-below :
      (xs : List (D × D)) (p a : ℕ) (m : Mem)
      → a < p
      → write_tuples floats t r is_density xs p m a ≡ m a
  unfolding write_tuples
  write_tuples-below [] p a m h = refl
  write_tuples-below (x ∷ xs) p a m h =
      write_tuples-below xs (p + t.tuple_size) a (one x p m) (omega arith)
      ∙ write_word-SameOutside (write_word m (p + t.start_offset) t.start_size (t.to_start x.0))
          (p + t.value_offset) t.value_size (t.to_value x.1) a (inl (omega arith))
      ∙ write_word-SameOutside m (p + t.start_offset) t.start_size (t.to_start x.0) a
          (inl (omega arith))

  start_read :
      (x : D × D) (p : ℕ) (m : Mem)
      → read_word (one x p m) (p + t.start_offset) t.start_size ≡ t.to_start x.0
  start_read x p m =
      let m₁ = write_word m (p + t.start_offset) t.start_size (t.to_start x.0) in
      read_word-outside m₁ (one x p m) (p + t.value_offset) t.value_size (p + t.start_offset)
        t.start_size (write_word-SameOutside m₁ (p + t.value_offset) t.value_size (t.to_value x.1))
        (elim ok.apart [ inl h ↦ inl (omega (arith, h)) | inr h ↦ inr (omega (arith, h)) ])
      ∙ read-write_word m (p + t.start_offset) t.start_size (t.to_start x.0) (ok.start_fits x.0)

  value_read :
      (x : D × D) (p : ℕ) (m : Mem)
      → read_word (one x p m) (p + t.value_offset) t.value_size ≡ t.to_value x.1
  value_read x p m =
      read-write_word (write_word m (p + t.start_offset) t.start_size (t.to_start x.0))
        (p + t.value_offset) t.value_size (t.to_value x.1) (ok.value_fits x.1)

  -- Every memory that has the bytes of the tuples gives their fields.
  pub fields_lem :
      (xs : List (D × D)) (p : ℕ) (m m' : Mem)
      → ((a : ℕ)
          → p ≤ a
          → a < p + length xs * t.tuple_size
          → m' a ≡ write_tuples floats t r is_density xs p m a)
      → (title_fields floats t r is_density (length xs) p m' ≡ starts_text t xs)
        × (value_fields floats t r is_density true (length xs) p m' ≡ values_text t xs)
  unfolding title_fields value_fields write_tuples starts_text values_text
  fields_lem [] p m m' same = (refl, refl)
  fields_lem (x ∷ xs) p m m' same =
      let size = t.tuple_size in
      let step : suc (length xs) * size ≡ size + length xs * size = omega arith in
      let here : (q k : ℕ)
          → p ≤ q
          → q + k ≤ p + size
          → read_word m' q k ≡ read_word (one x p m) q k =
        λ q k ge le. read_word_congr (one x p m) m' q k (λ a lo hi.
          same a (omega (arith, lo, ge)) (omega (arith, hi, le, step))
          ∙ write_tuples-below xs (p + size) a (one x p m) (omega (arith, hi, le))) in
      let (starts, rest) =
        fields_lem xs (p + size) (one x p m) m'
          (λ a ge lt. same a (omega (arith, ge)) (omega (arith, lt, step))) in
      let start =
        here (p + t.start_offset) t.start_size (omega arith) (omega (arith, ok.start_inside))
        ∙ start_read x p m in
      let value =
        here (p + t.value_offset) t.value_size (omega arith) (omega (arith, ok.value_inside))
        ∙ value_read x p m in
      (
        ap₂ ◌++◌ (ap (λ v. pad 8 (t.show_sample 6 v)) start) starts,
        ap₂ ◌++◌ (ap (λ v. pad 8 (t.show_bin 4 v)) value) rest,
      )
