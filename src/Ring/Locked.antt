-- ===== src/Ring/Locked.antt =====
-- The lock of the ring (src/shared_memory_logger.cpp): the threads of the program write, and the
-- control process copies, while they interleave. doWriteData only tries to take the lock, and a
-- writer that does not get it drops its entry; getLog waits for it. What others could see of the
-- ring while a writer holds the lock is left open.
pub mod Copied
mod Tests
use stat_log.Base.{ℕ, ◌≡◌, ◌≢◌, true, false, some, List, [], ◌∷◌, ◌++◌}
use stat_log.Ring.{Generator, new_generator, do_write_data}
use stat_log.Ring.Sequence.{Entry}

-- Who has the lock: a writer with its entry and what it found, one whose write has ended, a reader.
pub data Holder : Type 0 where
  nobody : Holder
  writer : Entry → Generator → Holder
  written : Holder
  reader : Holder

-- `generator` is `currentLogEntry` and the memory as they stand. `logged` are the entries whose
-- write has ended, the oldest first.
pub record Shared : Type 0 where
  pub holder : Holder
  pub generator : Generator
  pub logged : List Entry

abbrev pub started : Shared
started = record { holder = nobody; generator = new_generator; logged = [] }

module _ (n : ℕ) where
  pub data Step : Shared → Shared → Type 0 where
    takes :
        (s : Shared) (e : Entry)
        → s.holder ≡ nobody
        → Step s (record s { holder = writer e s.generator })
    drops :
        (s : Shared) (e : Entry) (g : Generator)
        → s.holder ≢ nobody
        → do_write_data n false (e.text ++ 0 ∷ []) e.tag e.level e.time s.generator ≡ some g
        → Step s (record s { generator = g })
    writes :
        (s : Shared) (e : Entry) (g g' : Generator)
        → s.holder ≡ writer e g
        → Step s (record s { generator = g' })
    ends :
        (s : Shared) (e : Entry) (g g' : Generator)
        → s.holder ≡ writer e g
        → do_write_data n true (e.text ++ 0 ∷ []) e.tag e.level e.time g ≡ some g'
        → Step s (record { holder = written; generator = g'; logged = s.logged ++ e ∷ [] })
    releases : (s : Shared) → s.holder ≡ written → Step s (record s { holder = nobody })
    reads : (s : Shared) → s.holder ≡ nobody → Step s (record s { holder = reader })
    leaves : (s : Shared) → s.holder ≡ reader → Step s (record s { holder = nobody })

  pub data Reaches : Shared → Shared → Type 0 where
    done : (s : Shared) → Reaches s s
    step : {s t u : Shared} → Reaches s t → Step t u → Reaches s u
