-- ===== src/Ring/Sequence.antt =====
-- A sequence of entries that one generator writes (doWriteData of src/shared_memory_logger.cpp),
-- each with the lock held, and what the memory then holds, block by block.
pub mod Steps
pub mod Newest
pub mod Printed
mod Tests
use native.Mathlib.Decide.{dec_le}
use native.Mathlib.Nat.{mod-eq_of_lt}
use stat_log.Base.{
  ℕ, zero, suc, ◌+◌, ◌*◌, ◌/◌, ◌-◌, ◌^◌, ◌%◌, ◌≤◌, ◌<◌, ◌≡◌, ◌≢◌, refl, sym, ap, subst, ◌∙◌, inl,
  inr, Option, some, true, List, [], ◌∷◌, ◌++◌, length, length-append, All, Bytes, ◌>>=◌, arith,
}
use stat_log.Memory.{Mem}
use stat_log.Memory.Words.{read_word_congr}
use stat_log.Ring.{
  Generator, TimeStamp, do_write_data, num_log_bufs, block, next_block, tag_name_offset,
  log_level_name_offset, tag_name_size, log_level_name_size,
}
use stat_log.Ring.Retriever.{c_string, read_text, num_blocks, time_stamp}
use stat_log.Ring.Avoid.{Ahead-Avoids, end-Avoids}
use stat_log.Ring.Strings.{IsText}
use stat_log.Ring.Kept.{InBlock, Keeps, Marked}
use stat_log.Ring.Found.{IsKept, num_log_bufs-Fits}
use stat_log.Ring.Entry.{do_write_data_lem}

pub record Entry : Type 0 where
  pub text : Bytes
  pub tag : Bytes
  pub level : Bytes
  pub time : TimeStamp

-- The entries that their header can hold and that are read back as they were written.
pub record IsLoggable (e : Entry) : Type 0 where
  pub text_IsText : IsText e.text
  pub tag_IsText : IsText e.tag
  pub tag_short : length e.tag < tag_name_size
  pub level_IsText : IsText e.level
  pub level_short : length e.level < log_level_name_size
  pub sec_small : e.time.sec < 2 ^ 64
  pub usec_small : e.time.usec < 2 ^ 64

abbrev pub blocks_of : Entry → ℕ
blocks_of e = num_log_bufs (length (e.text ++ 0 ∷ []))

abbrev pub log_blocks : List Entry → ℕ
log_blocks [] = 0
log_blocks (e ∷ es) = blocks_of e + log_blocks es

unfoldable pub write_log : ℕ → List Entry → Generator → Option Generator
unfolding do_write_data
write_log n [] g = some g
write_log n (e ∷ es) g =
    do_write_data n true (e.text ++ 0 ∷ []) e.tag e.level e.time g >>= λ g'. write_log n es g'

-- What the retriever reads of an entry in the block `i`.
pub record IsLogged (size n : ℕ) (m : Mem) (i : ℕ) (e : Entry) : Type 0 where
  pub text_read : read_text size n m i ≡ some e.text
  pub blocks_read : num_blocks m i ≡ blocks_of e
  pub time_read : time_stamp m i ≡ e.time
  pub tag_read : c_string size m (block i + tag_name_offset) ≡ some e.tag
  pub level_read : c_string size m (block i + log_level_name_offset) ≡ some e.level

-- Positions are counted on without end, the block at a position being its remainder by `n`. No
-- entry starts in the blocks from `p` up to `k`.
abbrev pub NoStart : ℕ → Mem → ℕ → ℕ → Type 0
NoStart n m p k = (q : ℕ) → p ≤ q → q < k → num_blocks m (q % n) ≡ 0

-- What is left of the entries that were written from the position `p` on, when the generator stands
-- at `end`: of an entry whose first block was not written again, all; of the others, the blocks that
-- go on with them.
abbrev pub Left : ℕ → ℕ → ℕ → Mem → ℕ → List Entry → Type 0
Left size n end m p [] = Unit
Left size n end m p (e ∷ es) =
    (end ≤ p + n → IsLogged size n m (p % n) e)
    × ((q : ℕ) → p < q → q < p + blocks_of e → end ≤ q + n → num_blocks m (q % n) ≡ 0)
    × Left size n end m (p + blocks_of e) es

-- The entries stand one behind the other from the position `p` on.
abbrev pub Holds : ℕ → ℕ → Mem → ℕ → List Entry → Type 0
Holds size n m p [] = Unit
Holds size n m p (e ∷ es) =
    IsLogged size n m (p % n) e
    × NoStart n m (p + 1) (p + blocks_of e)
    × Holds size n m (p + blocks_of e) es

pub blocks_of-positive : (e : Entry) → 0 < blocks_of e
blocks_of-positive e =
    let (j, h, fits) =
      num_log_bufs-Fits (length (e.text ++ 0 ∷ []))
        (omega (arith, length-append e.text (0 ∷ []))) in
    omega (arith, h)
