-- ===== src/Operational/Statements.antt =====
-- A run of log statements `getLog<Tag>(level, idx) << v1 << v2 ...;` of the program, from getLog of
-- include/stat_log/stat_log.h to what getLog of src/shared_memory_logger.cpp prints of them. The
-- values stand as the texts that the stream makes of them; the time is that of the destructor.
pub mod Printed
mod Tests
use stat_log.Base.{
  ℕ, ◌+◌, Bool, not, ◌&&◌, Option, some, List, [], ◌∷◌, ◌++◌, Bytes, leb, is_empty, true,
  if◌then◌else◌, ◌>>=◌, get_elem?, set,
}
use stat_log.Memory.{Mem}
use stat_log.Levels.{log_level_names}
use stat_log.Segment.{Placed, get_placed}
use stat_log.Proxy.{insert_all, destroy}
use stat_log.Proxy.Logged.{joined}
use stat_log.Ring.{Generator, TimeStamp}
use stat_log.Ring.Sequence.{Entry}
use stat_log.Operational.{get_log}

pub record Statement : Type 0 where
  pub tag : ℕ
  pub level : ℕ
  pub values : List Bytes
  pub time : TimeStamp

-- `n` blocks in the ring, the levels in `m`, the logger `idx`.
module _ (n idx : ℕ) (logs : List Placed) (m : Mem) where
  -- The proxy is destroyed at the end of the statement, with the lock held.
  unfoldable pub run_statement : Statement → List Generator → Option (List Generator)
  unfolding get_log insert_all destroy
  run_statement st loggers = get_log st.tag st.level idx logs loggers m >>= λ r.
      destroy n true st.time (insert_all (r.1) st.values) (r.0) >>= λ logger.
      some (set loggers idx logger)

  unfoldable pub run_statements : List Statement → List Generator → Option (List Generator)
  unfolding run_statement
  run_statements [] loggers = some loggers
  run_statements (st ∷ sts) loggers =
      run_statement st loggers >>= λ loggers'. run_statements sts loggers'

  -- Independent of the run: the entry of a statement, if its level is not below the one that is set
  -- for its tag and it inserts anything.
  entry_if : Placed → Bytes → Statement → List Entry
  unfolding is_empty
  entry_if a name st =
      if leb (m (a.shared_ptr + idx)) st.level && not (is_empty (joined st.values))
      then record { text = joined st.values; tag = a.handle.tag.name; level = name; time = st.time }
        ∷ []
      else []

  unfoldable pub entries_of : List Statement → Option (List Entry)
  unfolding get_placed entry_if
  entries_of [] = some []
  entries_of (st ∷ sts) = get_placed st.tag logs >>= λ a.
      get_elem? log_level_names st.level >>= λ name.
      entries_of sts >>= λ rest. some (entry_if a name st ++ rest)
