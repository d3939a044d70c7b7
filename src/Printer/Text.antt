-- ===== src/Printer/Text.antt =====
-- What the printer and the command line use of boost's string algorithms and lexical_cast, with the
-- documented behaviour that they rely on; and the pieces of src/printer.cpp that are plain text.
use stat_log.Base.{
  ℕ, ◌+◌, ◌-◌, ◌^◌, ◌<◌, ◌≡◌, Option, none, some, List, [], ◌∷◌, ◌++◌, Bytes, decimal, All, ltb,
  if◌then◌else◌, replicate,
}
use stat_log.Commander.Split.{Lacks}

-- The parts of a text with a separator between them.
unfoldable pub join : ℕ → List Bytes → Bytes
join c [] = []
join c (s ∷ []) = s
join c (s ∷ t ∷ ss) = s ++ (c ∷ join c (t ∷ ss))

-- `boost::split(result, text, is_any_of(...))` for one separator, which keeps empty parts, and
-- `boost::lexical_cast<size_t>`, where `none` is `bad_lexical_cast`.
pub record TextTools : Type 0 where
  pub split : ℕ → Bytes → List Bytes
  pub lexical_cast : Bytes → Option ℕ
  pub split-join :
      (c : ℕ) (s : Bytes) (ss : List Bytes)
      → All (Lacks c) (s ∷ ss)
      → split c (join c (s ∷ ss)) ≡ s ∷ ss
  pub lexical_cast-decimal : (n : ℕ) → n < 2 ^ 64 → lexical_cast (decimal n) ≡ some n
  pub lexical_cast-empty : lexical_cast [] ≡ none

-- `indent`: tabs. The argument is a difference of two `size_t`.
unfoldable pub indent : ℕ → ℕ → Bytes
indent depth min_depth =
    replicate (if ltb depth min_depth then depth + 2 ^ 64 - min_depth else depth - min_depth) b'\t'
