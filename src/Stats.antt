-- ===== src/Stats.antt =====
-- The statistic types of include/stat_log/stats: what a tag's `stat_tag_to_type` may name, and the
-- `shared_type` of each, with its size in the shared memory.
pub mod Operation
pub mod Control
pub mod Scalars
pub mod Frame
pub mod Flat
pub mod Visits
pub mod Cells
pub mod Address
pub mod Written
pub mod Dump
pub mod Reads
pub mod Clear
pub mod Count
pub mod Protocol
mod Tests
use stat_log.Base.{
  ℕ, zero, suc, ◌+◌, ◌-◌, ◌*◌, ◌%◌, ◌^◌, ◌<◌, Bool, true, false, List, [], ◌∷◌, ◌++◌, Bytes, length,
  replicate, ltb, if◌then◌else◌,
}
use stat_log.Memory.Words.{le_bytes, le_value}

-- A fundamental type as the code uses it: values are their bit patterns, `add` is `+=`, and
-- `to_ulong` is the cast to `unsigned long` (signed overflow wraps, as the compilers in use do;
-- for `double` both are operations of the platform).
pub record Repr : Type 0 where
  pub size : ℕ
  pub add : ℕ → ℕ → ℕ
  pub to_ulong : ℕ → ℕ

-- `int`.
abbrev pub int_repr : Repr
int_repr = record {
  size = 4;
  add = λ a b. (a + b) % 2 ^ 32;
  to_ulong = λ a. if ltb a (2 ^ 31) then a else a + 2 ^ 64 - 2 ^ 32;
}

-- IncrementPolicy and AssignPolicy.
pub data WritePolicy : Type 0 where
  increment assign : WritePolicy

-- A feature of a boost accumulator set as `accumulator::traits` shows it to the library. The
-- accumulator itself is boost's: it is taken as the samples that it was fed, and `serialize` gives
-- the bytes of the feature's value after those.
pub record Feature : Type 0 where
  pub stat_name : Bytes
  pub size : ℕ
  pub serialize : List ℕ → List ℕ
  -- the title, from the object's bytes and the stream's width
  pub title : List ℕ → ℕ → Bytes
  -- the text of the value, from the object's bytes, `is_valid`, the width and the precision
  pub dump : List ℕ → Bool → ℕ → ℕ → Bytes

-- What boost and the user give for a feature with one value: the extractor, and how a stream with a
-- given precision prints the `shared_type`.
pub record Scalar : Type 0 where
  pub stat_name : Bytes
  pub size : ℕ
  pub extract : List ℕ → ℕ
  pub show : ℕ → ℕ → Bytes

-- A left-aligned field.
unfoldable pub pad : ℕ → Bytes → Bytes
pad w s = s ++ replicate (w - length s) b' '

-- `traits_common` of accumulator_common.h.
unfoldable pub scalar_feature : Scalar → Feature
unfolding pad le_bytes le_value
scalar_feature f = record {
  stat_name = f.stat_name;
  size = f.size;
  serialize = λ acc. le_bytes f.size (if ltb 0 (length acc) then f.extract acc else 0);
  title = λ obj w. pad w f.stat_name;
  dump =
      λ obj is_valid w prec. pad w (if is_valid then f.show prec (le_value obj) else f.show prec 0);
}

-- Statistic types. `StatArray<N, int>` stands for an array of SimpleCounter<int>.
pub data StatType : Type 0 where
  simple : Repr → WritePolicy → StatType
  null_stat : StatType
  accumulator : List Feature → StatType
  stat_array : ℕ → StatType → StatType

abbrev pub simple_counter : Repr → StatType
simple_counter r = simple r increment

abbrev pub simple_status : Repr → StatType
simple_status r = simple r assign

unfoldable pub features_size : List Feature → ℕ
features_size [] = 0
features_size (f ∷ fs) = f.size + features_size fs

-- `sizeof(control_word)`
abbrev pub control_word_size : ℕ
control_word_size = 4

-- `getSharedSize`, the size of `shared_type`.
unfoldable pub shared_size : StatType → ℕ
unfolding features_size
shared_size (simple r p) = r.size
shared_size null_stat = 4
shared_size (accumulator fs) = features_size fs + control_word_size
shared_size (stat_array n t) = n * shared_size t

-- `is_serialization_deferred`
unfoldable pub is_serialization_deferred : StatType → Bool
is_serialization_deferred (simple r p) = false
is_serialization_deferred null_stat = false
is_serialization_deferred (accumulator fs) = true
is_serialization_deferred (stat_array n t) = is_serialization_deferred t

-- A StatArray of StatArrays has an implementation of its own.
unfoldable pub is_array : StatType → Bool
is_array (stat_array n t) = true
is_array _ = false
