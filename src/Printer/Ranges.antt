-- ===== src/Printer/Ranges.antt =====
-- The index ranges behind a tag name on the command line, and what `belongs_to_range` and
-- `idx_to_dim_string` of src/printer.cpp make of them.
use stat_log.Base.{
  ℕ, ◌<◌, ◌≤◌, ◌≡◌, ◌≢◌, refl, ap, ◌∙◌, Bool, true, false, ◌&&◌, ◌||◌, some, List, [], ◌∷◌, Bytes,
  decimal, decimal-digits, is_empty-decimal, is_empty, leb, ◌==◌, All, All-append, map, arith,
}
use stat_log.Commander.Split.{Lacks}
use stat_log.Printer.{max_size}
use stat_log.Printer.Text.{TextTools, join}
use stat_log.Printer.Dump.{
  in_range, in_ranges, belongs_to_range, in_dim_ranges, per_dim_ranges, idx_to_dim_string, or_else,
  dim_indices, label,
}

-- `n`, `n-m`, `n-` and `-m`.
pub data Range : Type 0 where
  single : ℕ → Range
  between : ℕ → ℕ → Range
  from_on : ℕ → Range
  up_to : ℕ → Range

unfoldable pub ends : Range → List Bytes
ends (single n) = decimal n ∷ []
ends (between n m) = decimal n ∷ decimal m ∷ []
ends (from_on n) = decimal n ∷ [] ∷ []
ends (up_to m) = [] ∷ decimal m ∷ []

abbrev pub range_text : Range → Bytes
range_text r = join b'-' (ends r)

unfoldable pub contains : Range → ℕ → Bool
contains (single n) v = n == v
contains (between n m) v = leb n v && leb v m
contains (from_on n) v = leb n v
contains (up_to m) v = leb v m

-- The numbers fit a `size_t`, and none is the one that stands for "not a number".
unfoldable pub IsBounded : Range → Type 0
IsBounded (single n) = n < max_size
IsBounded (between n m) = (n < max_size) × (m < max_size)
IsBounded (from_on n) = n < max_size
IsBounded (up_to m) = m < max_size

abbrev pub any_contains : List Range → ℕ → Bool
any_contains [] v = false
any_contains (r ∷ rs) v = contains r v || any_contains rs v

-- The text of the ranges of one dimension, and of several.
abbrev pub ranges_text : List Range → Bytes
ranges_text rs = join b'.' (map range_text rs)

abbrev pub selection_text : List (List Range) → Bytes
selection_text sel = join b',' (map ranges_text sel)

abbrev pub selects : List (List Range) → List ℕ → Bool
selects [] is = true
selects (rs ∷ sel) [] = true
selects (rs ∷ sel) (i ∷ is) = any_contains rs i && selects sel is

-- A character below the digits is not in a number.
decimal-Lacks : (c n : ℕ) → c < 48 → Lacks c (decimal n)
decimal-Lacks c n h = digits_lack (decimal n) (decimal-digits n)
  where
    digits_lack : (s : Bytes) → All (λ x. 48 ≤ x) s → Lacks c s
    digits_lack [] d = tt
    digits_lack (x ∷ s) (d, ds) = ((λ e. omega arith), digits_lack s ds)

Lacks-join : (c d : ℕ) (ss : List Bytes) → d ≢ c → All (Lacks c) ss → Lacks c (join d ss)
unfolding join
Lacks-join c d [] ne h = tt
Lacks-join c d (s ∷ []) ne (hs, h) = hs
Lacks-join c d (s ∷ t ∷ ss) ne (hs, h) =
    All-append (λ x. x ≢ c) s (d ∷ join d (t ∷ ss)) hs (ne, Lacks-join c d (t ∷ ss) ne h)

ends-Lacks : (c : ℕ) (r : Range) → c < 48 → All (Lacks c) (ends r)
unfolding ends
ends-Lacks c (single n) h = (decimal-Lacks c n h, tt)
ends-Lacks c (between n m) h = (decimal-Lacks c n h, (decimal-Lacks c m h, tt))
ends-Lacks c (from_on n) h = (decimal-Lacks c n h, (tt, tt))
ends-Lacks c (up_to m) h = (tt, (decimal-Lacks c m h, tt))

range_text-Lacks : (c : ℕ) (r : Range) → c < 48 → 45 ≢ c → Lacks c (range_text r)
range_text-Lacks c r h ne = Lacks-join c b'-' (ends r) ne (ends-Lacks c r h)

ranges-Lacks : (c : ℕ) (rs : List Range) → c < 48 → 45 ≢ c → All (Lacks c) (map range_text rs)
ranges-Lacks c [] h ne = tt
ranges-Lacks c (r ∷ rs) h ne = (range_text-Lacks c r h ne, ranges-Lacks c rs h ne)

module _ (tools : TextTools) where
  split_ends : (r : Range) → tools.split b'-' (range_text r) ≡ ends r
  unfolding ends
  split_ends (single n) =
      tools.split-join b'-' (decimal n) [] (ends-Lacks b'-' (single n) (omega arith))
  split_ends (between n m) =
      tools.split-join b'-' (decimal n) (decimal m ∷ [])
        (ends-Lacks b'-' (between n m) (omega arith))
  split_ends (from_on n) =
      tools.split-join b'-' (decimal n) ([] ∷ []) (ends-Lacks b'-' (from_on n) (omega arith))
  split_ends (up_to m) =
      tools.split-join b'-' [] (decimal m ∷ []) (ends-Lacks b'-' (up_to m) (omega arith))

  in_range_lem :
      (r : Range) (v : ℕ)
      → IsBounded r
      → v ≤ max_size
      → in_range tools (ends r) v ≡ some (contains r v)
  unfolding in_range ends contains IsBounded or_else
  in_range_lem (single n) v b h = rw (tools.lexical_cast-decimal n (omega arith)) (ground arith)
  in_range_lem (between n m) v (b, b') h =
      rw (tools.lexical_cast-decimal n (omega arith))
        (rw (tools.lexical_cast-decimal m (omega arith)) refl)
  in_range_lem (from_on n) v b h =
      rw (tools.lexical_cast-decimal n (omega arith)) (rw (tools.lexical_cast-empty) (ground arith))
  in_range_lem (up_to m) v b h =
      rw (tools.lexical_cast-empty) (rw (tools.lexical_cast-decimal m (omega arith)) (ground arith))

  in_ranges_lem :
      (rs : List Range) (v : ℕ)
      → All IsBounded rs
      → v ≤ max_size
      → in_ranges tools (map range_text rs) v ≡ some (any_contains rs v)
  unfolding in_ranges
  in_ranges_lem [] v b h = refl
  in_ranges_lem (r ∷ rs) v (b, bs) h =
      rw (split_ends r) (rw (in_range_lem r v b h) (rw (in_ranges_lem rs v bs h) (ground arith)))

  -- A number of a `size_t` belongs to a text of ranges, one or more, exactly when one of them contains
  -- it, if the ranges' numbers are less than the largest `size_t`.
  pub belongs_to_range_lem :
      (r : Range) (rs : List Range) (v : ℕ)
      → All IsBounded (r ∷ rs)
      → v ≤ max_size
      → belongs_to_range tools (ranges_text (r ∷ rs)) v ≡ some (any_contains (r ∷ rs) v)
  unfolding belongs_to_range
  belongs_to_range_lem r rs v b h =
      ap (λ parts. in_ranges tools parts v)
        (tools.split-join b'.' (range_text r) (map range_text rs)
          (ranges-Lacks b'.' (r ∷ rs) (omega arith) (λ e. omega arith)))
      ∙ in_ranges_lem (r ∷ rs) v b h

  -- What a selection needs: for each dimension one range at least, and numbers that fit.
  abbrev pub IsSelection : List (List Range) → Type 0
  IsSelection [] = Unit
  IsSelection ([] ∷ sel) = ⊥
  IsSelection ((r ∷ rs) ∷ sel) = All IsBounded (r ∷ rs) × IsSelection sel

  in_dim_ranges_lem :
      (sel : List (List Range)) (is : List ℕ)
      → IsSelection sel
      → All (λ i. i ≤ max_size) is
      → in_dim_ranges tools (map ranges_text sel) is ≡ some (selects sel is)
  unfolding in_dim_ranges
  in_dim_ranges_lem [] is b h = refl
  in_dim_ranges_lem (rs ∷ sel) [] b h = refl
  in_dim_ranges_lem ([] ∷ sel) (i ∷ is) b h = absurd b
  in_dim_ranges_lem ((r ∷ rs) ∷ sel) (i ∷ is) (b, bs) (hi, h) =
      rw (belongs_to_range_lem r rs i b hi) (rw (in_dim_ranges_lem sel is bs h) (ground arith))

  ranges_text-Lacks : (rs : List Range) → Lacks b',' (ranges_text rs)
  ranges_text-Lacks rs =
      Lacks-join b',' b'.' (map range_text rs) (λ e. omega arith)
        (ranges-Lacks b',' rs (omega arith) (λ e. omega arith))

  selection-Lacks : (sel : List (List Range)) → All (Lacks b',') (map ranges_text sel)
  selection-Lacks [] = tt
  selection-Lacks (rs ∷ sel) = (ranges_text-Lacks rs, selection-Lacks sel)

  is_empty-join :
      (c : ℕ) (s : Bytes) (ss : List Bytes)
      → is_empty s ≡ false
      → is_empty (join c (s ∷ ss)) ≡ false
  unfolding join is_empty
  is_empty-join c [] ss h = cc
  is_empty-join c (x ∷ s) [] h = refl
  is_empty-join c (x ∷ s) (t ∷ ss) h = refl

  is_empty-range_text : (r : Range) → is_empty (range_text r) ≡ false
  unfolding ends
  is_empty-range_text (single n) = is_empty-join b'-' (decimal n) [] (is_empty-decimal n)
  is_empty-range_text (between n m) =
      is_empty-join b'-' (decimal n) (decimal m ∷ []) (is_empty-decimal n)
  is_empty-range_text (from_on n) = is_empty-join b'-' (decimal n) ([] ∷ []) (is_empty-decimal n)
  is_empty-range_text (up_to m) = unfold join is_empty in refl

  -- The printer shows an entry exactly when each of its indices is contained in one of the ranges
  -- given for its dimension, and labels it with all its indices; a dimension without ranges shows
  -- all. The ranges are one or more for each dimension that they are given for, with numbers less
  -- than the largest `size_t`, and the indices of the entry are such numbers too.
  pub idx_to_dim_string_lem :
      (r : Range) (rs : List Range) (sel : List (List Range)) (sizes : List ℕ) (idx : ℕ)
      → IsSelection ((r ∷ rs) ∷ sel)
      → All (λ i. i ≤ max_size) (dim_indices sizes idx)
      → idx_to_dim_string tools sizes (selection_text ((r ∷ rs) ∷ sel)) idx
        ≡ some (label (dim_indices sizes idx), selects ((r ∷ rs) ∷ sel) (dim_indices sizes idx))
  unfolding idx_to_dim_string per_dim_ranges
  idx_to_dim_string_lem r rs sel sizes idx b h =
      let filled : is_empty (selection_text ((r ∷ rs) ∷ sel)) ≡ false =
        is_empty-join b',' (ranges_text (r ∷ rs)) (map ranges_text sel)
          (is_empty-join b'.' (range_text r) (map range_text rs) (is_empty-range_text r)) in
      let parts =
        tools.split-join b',' (ranges_text (r ∷ rs)) (map ranges_text sel)
          (selection-Lacks ((r ∷ rs) ∷ sel)) in
      rw filled
        (rw parts (rw (in_dim_ranges_lem ((r ∷ rs) ∷ sel) (dim_indices sizes idx) b h) refl))
