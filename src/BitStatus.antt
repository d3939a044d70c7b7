-- ===== src/BitStatus.antt =====
-- writeBitStatus of include/stat_log/util/bit_status.h: one writeStat for each bit that is set.
pub mod Counts
mod Tests
use stat_log.Base.{
  ℕ, zero, suc, ◌+◌, ◌*◌, ◌/◌, ◌%◌, ◌^◌, Bool, Option, some, List, [], ◌∷◌, ◌++◌, ◌==◌, ◌>>=◌,
  if◌then◌else◌,
}

-- `bs[i]` of the bitset made of the status.
unfoldable pub bit_is_set : ℕ → ℕ → Bool
bit_is_set bitstatus i = (bitstatus / 2 ^ i) % 2 == 1

-- `write_stat` is stat_log::writeStat<TAG> on the state of the program, with its arguments.
module _ {S : Type 0} (write_stat : List ℕ → S → Option S) (bitstatus : ℕ) (indices : List ℕ) where
  -- The loop, `k` bits from the `i`-th on.
  unfoldable pub write_bits : ℕ → ℕ → S → Option S
  unfolding bit_is_set
  write_bits zero i s = some s
  write_bits (suc k) i s =
      let written = write_stat (indices ++ i ∷ 1 ∷ []) s >>= write_bits k (i + 1) in
      let skipped = write_bits k (i + 1) s in if bit_is_set bitstatus i then written else skipped

  -- `writeBitStatus`, for a status of some bytes.
  unfoldable pub write_bit_status : ℕ → S → Option S
  unfolding write_bits
  write_bit_status size s = write_bits (size * 8) 0 s
