-- ===== src/Printer/Small.antt =====
-- A split and a lexical_cast that behave as the tools of src/printer.cpp and src/utils.cpp must, so that
-- the assumptions about boost can be met and the code runs in tests.
use stat_log.Base.{
  is_empty, is_empty-decimal, read-decimal, ◌∙◌, ℕ, ◌+◌, ◌-◌, ◌*◌, ◌^◌, ◌<◌, ◌≡◌, refl, ap, false,
  ◌&&◌, Option, none, some, List, [], ◌∷◌, ◌++◌, Bytes, decimal, All, leb, ltb, ◌==◌, if◌then◌else◌,
  arith,
}
use stat_log.Commander.Split.{Lacks}
use stat_log.Printer.Text.{TextTools, join}

split_front : Bytes → List Bytes → List Bytes
split_front s [] = s ∷ []
split_front s (t ∷ ts) = (s ++ t) ∷ ts

unfoldable pub split : ℕ → Bytes → List Bytes
unfolding split_front
split c [] = [] ∷ []
split c (x ∷ s) = if x == c then [] ∷ split c s else split_front (x ∷ []) (split c s)

split_front_part : (c : ℕ) (s t : Bytes) → Lacks c s → split c (s ++ (c ∷ t)) ≡ s ∷ split c t
unfolding split
split_front_part c [] t h = ground arith
split_front_part c (x ∷ s) t (ne, h) = ground (arith, split_front_part c s t h)

split_whole : (c : ℕ) (s : Bytes) → Lacks c s → split c s ≡ s ∷ []
unfolding split
split_whole c [] h = refl
split_whole c (x ∷ s) (ne, h) = ground (arith, split_whole c s h)

pub split_joined :
    (c : ℕ) (s : Bytes) (ss : List Bytes)
    → All (Lacks c) (s ∷ ss)
    → split c (join c (s ∷ ss)) ≡ s ∷ ss
unfolding join
split_joined c s [] (h, _) = split_whole c s h
split_joined c s (t ∷ ss) (h, hs) =
    split_front_part c s (join c (t ∷ ss)) h ∙ ap (λ r. s ∷ r) (split_joined c t ss hs)

digits_value : Bytes → ℕ → Option ℕ
digits_value [] n = some n
digits_value (c ∷ s) n = if leb 48 c && ltb c 58 then digits_value s (n * 10 + (c - 48)) else none

unfoldable pub lexical_cast : Bytes → Option ℕ
unfolding digits_value
lexical_cast [] = none
lexical_cast (c ∷ s) = digits_value (c ∷ s) 0

digits_value-step :
    (d n : ℕ) (acc : Bytes)
    → d < 10
    → digits_value ((48 + d) ∷ acc) n ≡ digits_value acc (n * 10 + d)
unfolding digits_value
digits_value-step d n acc h = ground arith

lexical_cast-digits : (s : Bytes) → is_empty s ≡ false → lexical_cast s ≡ digits_value s 0
unfolding lexical_cast is_empty
lexical_cast-digits [] h = cc
lexical_cast-digits (c ∷ s) h = refl

pub decimal_cast : (n : ℕ) → n < 2 ^ 64 → lexical_cast (decimal n) ≡ some n
unfolding digits_value
decimal_cast n h =
    lexical_cast-digits (decimal n) (is_empty-decimal n)
    ∙ read-decimal digits_value digits_value-step n

pub empty_cast : lexical_cast [] ≡ none
unfolding lexical_cast
empty_cast = refl

abbrev pub small_tools : TextTools
small_tools = record {
  split = split;
  lexical_cast = lexical_cast;
  split-join = split_joined;
  lexical_cast-decimal = decimal_cast;
  lexical_cast-empty = empty_cast;
}
