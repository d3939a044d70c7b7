-- ===== src/Ring.antt =====
-- The ring of log blocks in shared memory, src/shared_memory_logger.cpp: its layout and the
-- generator, shared_mem_logger_generator. The memory is the bytes from `shm_ptr` on, so that
-- address 0 is the first byte behind the lock. `new (lock)` and the mapping of the region are
-- calls of boost::interprocess: whether `try_to_lock` got the lock is an argument, and the size of
-- the lock is a parameter of the number of blocks.
pub mod Retriever
pub mod Avoid
pub mod Strings
pub mod Around
pub mod Kept
pub mod Blocks
pub mod Loop
pub mod First
pub mod Header
pub mod Found
pub mod Entry
pub mod Sequence
pub mod Locked
mod Tests
use stat_log.Base.{
  ℕ, zero, suc, ◌+◌, ◌-◌, ◌*◌, ◌/◌, ◌%◌, min, Bool, true, false, Option, none, some, List, [], ◌∷◌,
  ◌++◌, length, take, drop, replicate, Bytes, ltb, ◌==◌, if◌then◌else◌, ◌>>=◌,
}
use stat_log.Memory.{Mem, store}
use stat_log.Memory.Words.{write_word}

abbrev pub bytes_per_log_buf : ℕ
bytes_per_log_buf = 512

-- `sizeof(LogHeader)` and `sizeof(LogHeaderCommon)` on a machine with 8-byte `time_t`.
abbrev pub header_size : ℕ
header_size = 48

abbrev pub common_header_size : ℕ
common_header_size = 4

abbrev pub max_chars_in_first_block : ℕ
max_chars_in_first_block = bytes_per_log_buf - header_size

abbrev pub max_chars_in_other_blocks : ℕ
max_chars_in_other_blocks = bytes_per_log_buf - common_header_size

-- Offsets in LogHeader.
abbrev pub sec_offset : ℕ
sec_offset = 8

abbrev pub usec_offset : ℕ
usec_offset = 16

abbrev pub tag_name_offset : ℕ
tag_name_offset = 24

abbrev pub log_level_name_offset : ℕ
log_level_name_offset = 40

abbrev pub tag_name_size : ℕ
tag_name_size = 16

abbrev pub log_level_name_size : ℕ
log_level_name_size = 8

abbrev pub ceil_divide : ℕ → ℕ → ℕ
ceil_divide a b = (a + b - 1) / b

abbrev pub num_log_entries : ℕ → ℕ → ℕ
num_log_entries shm_size lock_size = (shm_size - lock_size) / bytes_per_log_buf

abbrev pub block : ℕ → ℕ
block i = i * bytes_per_log_buf

abbrev pub next_block : ℕ → ℕ → ℕ
next_block n i = (i + 1) % n

-- `std::strncpy` of a C string: cut or padded with NULs to the size.
abbrev pub strncpy : Mem → ℕ → Bytes → ℕ → Mem
strncpy m p s size = store m p (take size (s ++ replicate size 0))

pub record TimeStamp : Type 0 where
  pub sec : ℕ
  pub usec : ℕ

-- What a generator keeps, with the memory that it shares.
pub record Generator : Type 0 where
  pub current_log_entry : ℕ
  pub memory : Mem

-- As constructed, the memory set to 0.
abbrev pub new_generator : Generator
new_generator = record { current_log_entry = 0; memory = λ a. 0 }

unfoldable pub num_log_bufs : ℕ → ℕ
num_log_bufs len =
    1
    + (if ltb max_chars_in_first_block len
        then ceil_divide (len - max_chars_in_first_block) max_chars_in_other_blocks
        else 0)

unfoldable pub write_header : ℕ → ℕ → TimeStamp → Bytes → Bytes → Mem → Mem
unfolding write_word store
write_header p bufs time tag_name log_level_name m =
    let m₁ = write_word m p 4 bufs in
    let m₂ = write_word m₁ (p + sec_offset) 8 time.sec in
    let m₃ = write_word m₂ (p + usec_offset) 8 time.usec in
    let m₄ = strncpy m₃ (p + tag_name_offset) tag_name tag_name_size in
    strncpy m₄ (p + log_level_name_offset) log_level_name log_level_name_size

-- `while(bytes_to_write > 0)`, on fuel; `none` is a loop that has not ended.
unfoldable pub write_blocks : ℕ → ℕ → ℕ → ℕ → ℕ → Bytes → Mem → Option Mem
unfolding write_word store
write_blocks zero n bytes_to_write data_ptr cur buf m = none
write_blocks (suc f) n zero data_ptr cur buf m = some m
write_blocks (suc f) n (suc k) data_ptr cur buf m =
    let m₁ = store m data_ptr (take (suc k) buf) in
    let buf₁ = drop (suc k) buf in
    let k₁ = min (length buf₁) max_chars_in_other_blocks in
    let cur₁ = next_block n cur in
    elim (k₁ == 0) [
      | true ↦ write_blocks f n k₁ data_ptr cur buf₁ m₁
      | false ↦
          write_blocks f n k₁ (block cur₁ + common_header_size) cur₁ buf₁
            (write_word m₁ (block cur₁) 4 0)
    ]

-- `doWriteData`; without the lock the entry is dropped.
unfoldable pub do_write_data :
    ℕ → Bool → Bytes → Bytes → Bytes → TimeStamp → Generator → Option Generator
unfolding num_log_bufs write_header write_blocks
do_write_data n locked buf tag_name log_level_name time g =
    let start = g.current_log_entry in
    let bufs = num_log_bufs (length buf) in
    let m = write_header (block start) bufs time tag_name log_level_name g.memory in
    let written =
      write_blocks (length buf + 2) n (min (length buf) max_chars_in_first_block)
        (block start + header_size) start buf m in
    if locked
    then (written >>= λ m'. some (record { current_log_entry = (start + bufs) % n; memory = m' }))
    else some g
