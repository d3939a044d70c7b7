-- ===== src/Base/Int.antt =====
-- The values of a C++ `int`, over the native numbers, under the library's names.
use Prim.Native.Nat.{ℕ}
use mathlib.Core.Bool.{Bool, false}
use mathlib.Core.Option.{Option, none}
use mathlib.Core.List.{List}
use stat_log.Base.Tests.{leb}
use stat_log.Base.Lists.{get_elem?}

-- `negsuc n` is -(n + 1).
pub data ℤ : Type 0 where
  pos : ℕ → ℤ
  negsuc : ℕ → ℤ

-- `(int)n <= i`
abbrev pub le_int : ℕ → ℤ → Bool
le_int n (pos i) = leb n i
le_int n (negsuc i) = false

-- Subscripting by an `int`: `none` is an access outside the array.
abbrev pub at_int {ℓ} : {A : Type ℓ} → List A → ℤ → Option A
at_int xs (pos i) = get_elem? xs i
at_int xs (negsuc i) = none
