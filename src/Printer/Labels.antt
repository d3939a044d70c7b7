-- ===== src/Printer/Labels.antt =====
-- The labels of the cells: `idx_to_dim_string` of src/printer.cpp takes a number apart into indices
-- as the row-major order of the entries puts it together.
use mathlib.Core.List.{reverse, reverse_aux, reverse-reverse}
use native.Mathlib.Nat.{
  div-add-mod', mod-lt, div-lt_iff_lt-mul, mul_comm, mul_assoc, add-mul, mul-le-mul_right,
}
use stat_log.Base.{
  ℕ, zero, suc, ◌+◌, ◌*◌, ◌/◌, ◌%◌, ◌<◌, ◌≤◌, ◌≡◌, refl, sym, ap, ap₂, subst, ◌∙◌, List, [], ◌∷◌,
  ◌++◌, arith,
}
use stat_log.Stats.Frame.{element_in_array}
use stat_log.Stats.{StatType, simple, null_stat, accumulator, stat_array}
use stat_log.Stats.Flat.{dims}
use stat_log.Stats.Address.{num_cells}
use stat_log.Stats.Written.{flat_index}
use stat_log.Printer.Dump.{dim_indices, dim_indices_loop}

-- The row-major number of some indices behind a number.
unfoldable pub row_major : List ℕ → List ℕ → ℕ → ℕ
row_major [] is a = a
row_major (d ∷ ds) [] a = a
row_major (d ∷ ds) (i ∷ is) a = row_major ds is (a * d + i)

unfoldable pub product : List ℕ → ℕ
product [] = 1
product (d ∷ ds) = d * product ds

-- Each index below its size, as many as there are dimensions.
unfoldable pub AreIndices : List ℕ → List ℕ → Type 0
AreIndices [] [] = Unit
AreIndices [] (i ∷ is) = ⊥
AreIndices (d ∷ ds) [] = ⊥
AreIndices (d ∷ ds) (i ∷ is) = (i < d) × AreIndices ds is

product_pos : (d p k : ℕ) → k < d * p → 0 < d
product_pos zero p k h = absurd (omega arith)
product_pos (suc d) p k h = omega arith

div_below : (d p k : ℕ) → k < d * p → k / d < p
div_below d p k h =
    (div-lt_iff_lt-mul (product_pos d p k h)).1 (subst (λ x. k < x) (mul_comm d p) h)

loop-row_major :
    (ds tl acc : List ℕ) (idx : ℕ)
    → idx < product ds
    → row_major (reverse_aux ds tl) (dim_indices_loop ds idx acc) 0 ≡ row_major tl acc idx
unfolding row_major product dim_indices_loop
loop-row_major [] tl acc idx h = ap (row_major tl acc) (omega arith)
loop-row_major (d ∷ ds) tl acc idx h =
    loop-row_major ds (d ∷ tl) ((idx % d) ∷ acc) (idx / d) (div_below d (product ds) idx h)
    ∙ ap (row_major tl acc) (div-add-mod' idx d)

loop-AreIndices :
    (ds tl acc : List ℕ) (idx : ℕ)
    → idx < product ds
    → AreIndices tl acc
    → AreIndices (reverse_aux ds tl) (dim_indices_loop ds idx acc)
unfolding product dim_indices_loop AreIndices
loop-AreIndices [] tl acc idx h v = v
loop-AreIndices (d ∷ ds) tl acc idx h v =
    loop-AreIndices ds (d ∷ tl) ((idx % d) ∷ acc) (idx / d) (div_below d (product ds) idx h)
      (mod-lt idx (product_pos d (product ds) idx h), v)

regroup : (a d t : ℕ) → a * (d * t) ≡ d * a * t
regroup a d t = sym (ap (λ x. x * t) (mul_comm d a) ∙ mul_assoc a d t)

product-reverse_aux : (ds tl : List ℕ) → product (reverse_aux ds tl) ≡ product ds * product tl
unfolding product
product-reverse_aux [] tl = omega arith
product-reverse_aux (d ∷ ds) tl =
    product-reverse_aux ds (d ∷ tl) ∙ regroup (product ds) d (product tl)

product-reverse : (ds : List ℕ) → product (reverse ds) ≡ product ds
unfolding product
product-reverse ds = product-reverse_aux ds [] ∙ omega arith

-- The indices that the printer makes of the number of a cell are below the sizes, one for each
-- dimension, and are the cell's in row-major order.
pub row_major-dim_indices :
    (sizes : List ℕ) (idx : ℕ)
    → idx < product sizes
    → AreIndices sizes (dim_indices sizes idx) × (row_major sizes (dim_indices sizes idx) 0 ≡ idx)
unfolding dim_indices AreIndices row_major
row_major-dim_indices sizes idx h =
    let below : idx < product (reverse sizes) = omega (arith, product-reverse sizes) in
    let back : reverse_aux (reverse sizes) [] ≡ sizes = reverse-reverse sizes in
    (
      subst (λ ds. AreIndices ds (dim_indices_loop (reverse sizes) idx [])) back
          (loop-AreIndices (reverse sizes) [] [] idx below tt),
      subst (λ ds. row_major ds (dim_indices_loop (reverse sizes) idx []) 0 ≡ idx) back
          (loop-row_major (reverse sizes) [] [] idx below),
    )

not_below : (a b d i j : ℕ) → i < d → a * d + i ≡ b * d + j → ¬ (a < b)
not_below a b d i j h e lt = omega (arith, e, element_in_array b d a lt)

last_index : (a b d i j : ℕ) → i < d → j < d → a * d + i ≡ b * d + j → (a ≡ b) × (i ≡ j)
last_index a b d i j h k e =
    let same : a ≡ b = omega (arith, not_below a b d i j h e, not_below b a d j i k (sym e)) in
    (same, omega (arith, e, ap (λ (x : ℕ). x * d) same))

row_major_injective :
    (ds is js : List ℕ) (a b : ℕ)
    → AreIndices ds is
    → AreIndices ds js
    → row_major ds is a ≡ row_major ds js b
    → (a ≡ b) × (is ≡ js)
unfolding AreIndices row_major
row_major_injective [] [] [] a b v w e = (e, refl)
row_major_injective [] [] (j ∷ js) a b v w e = absurd w
row_major_injective [] (i ∷ is) js a b v w e = absurd v
row_major_injective (d ∷ ds) [] js a b v w e = absurd v
row_major_injective (d ∷ ds) (i ∷ is) [] a b v w e = absurd w
row_major_injective (d ∷ ds) (i ∷ is) (j ∷ js) a b (hi, v) (hj, w) e =
    let (same, rest) = row_major_injective ds is js (a * d + i) (b * d + j) v w e in
    let (same_a, same_i) = last_index a b d i j hi hj same in (same_a, ap₂ ◌∷◌ same_i rest)

-- As many cells as the sizes say.
pub num_cells-product : (t : StatType) → num_cells t ≡ product (dims t)
unfolding num_cells product dims
num_cells-product (stat_array n t) = ap (λ k. n * k) (num_cells-product t)
num_cells-product (simple r w) = refl
num_cells-product null_stat = refl
num_cells-product (accumulator fs) = refl

distribute : (a n i c f : ℕ) → i * c + f + a * (n * c) ≡ f + (a * n + i) * c
distribute a n i c f = omega (arith, sym (mul_assoc a n c), add-mul (a * n) i c)

flat_index-row_major :
    (t : StatType) (is : List ℕ) (a v : ℕ)
    → AreIndices (dims t) is
    → row_major (dims t) is a ≡ flat_index t (is ++ v ∷ []) + a * num_cells t
unfolding row_major dims flat_index num_cells AreIndices
flat_index-row_major (stat_array n t) [] a v h = absurd h
flat_index-row_major (stat_array n t) (i ∷ is) a v (lt, h) =
    flat_index-row_major t is (a * n + i) v h
    ∙ sym (distribute a n i (num_cells t) (flat_index t (is ++ v ∷ [])))
flat_index-row_major (simple r w) [] a v h = omega arith
flat_index-row_major (simple r w) (i ∷ is) a v h = absurd h
flat_index-row_major null_stat [] a v h = omega arith
flat_index-row_major null_stat (i ∷ is) a v h = absurd h
flat_index-row_major (accumulator fs) [] a v h = omega arith
flat_index-row_major (accumulator fs) (i ∷ is) a v h = absurd h

row_major_lt :
    (ds is : List ℕ) (a : ℕ) → AreIndices ds is → row_major ds is a < (a + 1) * product ds
unfolding row_major product AreIndices
row_major_lt [] [] a h = omega arith
row_major_lt [] (i ∷ is) a h = absurd h
row_major_lt (d ∷ ds) [] a h = absurd h
row_major_lt (d ∷ ds) (i ∷ is) a (lt, h) =
    let ih = row_major_lt ds is (a * d + i) h in
    let wide : (a * d + i + 1) * product ds ≤ (a + 1) * d * product ds =
      mul-le-mul_right (product ds) (omega (arith, lt, add-mul a 1 d)) in
    omega (arith, ih, wide, mul_assoc (a + 1) d (product ds))

-- The number of the cell that indices in range name, and what the printer makes of it.
pub flat_index_lem :
    (t : StatType) (is : List ℕ) (v : ℕ)
    → AreIndices (dims t) is
    → row_major (dims t) is 0 ≡ flat_index t (is ++ v ∷ [])
flat_index_lem t is v h = flat_index-row_major t is 0 v h ∙ omega arith

-- For indices in range, the printer takes the number of the cell that they name apart into them.
pub dim_indices-flat_index :
    (t : StatType) (is : List ℕ) (v : ℕ)
    → AreIndices (dims t) is
    → dim_indices (dims t) (flat_index t (is ++ v ∷ [])) ≡ is
dim_indices-flat_index t is v h =
    let number = flat_index_lem t is v h in
    let inside : flat_index t (is ++ v ∷ []) < product (dims t) =
      omega (arith, number, row_major_lt (dims t) is 0 h) in
    let (valid, back) = row_major-dim_indices (dims t) (flat_index t (is ++ v ∷ [])) inside in
    (row_major_injective (dims t) (dim_indices (dims t) (flat_index t (is ++ v ∷ []))) is 0 0 valid
      h (back ∙ sym number)).1
