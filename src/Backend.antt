-- ===== src/Backend.antt =====
-- Opening shared memory: shared_mem_backend::setParams of src/shared_mem_backend.cpp, and the
-- constructor of shared_mem_logger_retriever in src/shared_memory_logger.cpp. What
-- boost::interprocess makes of the calls is an argument.
mod Tests
use stat_log.Base.{ℕ, ◌+◌, ◌-◌, Bool, List, [], ◌++◌, Bytes, codes, replicate, if◌then◌else◌}
use stat_log.Memory.{Mem, store}
use stat_log.Ring.{num_log_entries}
use stat_log.Control.{Retriever}

-- The region, from its address on, and its size; or an interprocess_exception, or another one.
pub data Opening : Type 0 where
  opened : Mem → ℕ → Opening
  interprocess_exception : Opening
  other_exception : Opening

-- A value, or the exit of the process with a code and what was written to `std::cerr`.
pub data Opened {ℓ} (A : Type ℓ) : Type ℓ where
  mapped : A → Opened A
  exited : ℕ → Bytes → Opened A

-- `setParams`: the memory that getMemoryPtr gives. The operational side truncates the object to
-- `size` bytes and sets them to 0.
unfoldable pub set_backend : Opening → Bytes → ℕ → Bool → Opened Mem
unfolding store
set_backend (opened m region_size) name size is_operational =
    mapped (if is_operational then store m 0 (replicate size 0) else m)
set_backend interprocess_exception name size is_operational = exited 1 (
    codes "setParams: Could not open logger shared memory = "
    ++ name
    ++ (if is_operational then [] else codes ".  Is the generator program running?")
    ++ codes "\n")
set_backend other_exception name size is_operational =
    exited 1 (codes "Unknown exception in shared_mem_backend ctor!\n")

-- The retriever's constructor, with the size of the lock. Its log memory begins behind the lock, and
-- getLog copies the region from there on to its end.
unfoldable pub open_retriever : Opening → Bytes → ℕ → ℕ → Opened Retriever
open_retriever (opened m region_size) shm_name shm_size lock_size = mapped (record {
  num_log_entries = num_log_entries shm_size lock_size;
  size = region_size - lock_size;
  contents = λ a. m (lock_size + a);
})
open_retriever interprocess_exception shm_name shm_size lock_size = exited 1 (
    codes "Could not open logger shared memory = "
    ++ shm_name
    ++ codes ".  Is the generator program running?\n")
open_retriever other_exception shm_name shm_size lock_size =
    exited 1 (codes "Unknown exception in shared_mem_logger_retriever ctor!\n")
