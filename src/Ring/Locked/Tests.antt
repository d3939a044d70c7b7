-- ===== src/Ring/Locked/Tests.antt =====
-- A writer, a dropped entry and a reader on a ring of two blocks, and the witnesses of the theorems.
use stat_log.Base.{
  ℕ, ◌≡◌, ◌≤◌, refl, ap, true, false, Option, some, [], ◌∷◌, ◌++◌, Bytes, codes, arith,
}
use stat_log.Memory.{store}
use stat_log.Command.{default_log_output_command}
use stat_log.Ring.{Generator, new_generator, do_write_data, write_header, num_log_bufs}
use stat_log.Ring.Retriever.{get_log}
use stat_log.Ring.Sequence.{Entry, IsLoggable, blocks_of}
use stat_log.Ring.Sequence.Printed.{log_output}
use stat_log.Ring.Locked.{
  Holder, nobody, writer, written, reader, Shared, started, takes, drops, ends, releases, reads,
  Reaches, done, step,
}
use stat_log.Ring.Locked.Copied.{get_log-reader}

abbrev entry : Entry
entry = record {
  text = codes "HI";
  tag = codes "RX";
  level = codes "INFO";
  time = record { sec = 1000; usec = 7 };
}

entry-IsLoggable : IsLoggable entry
entry-IsLoggable = record {
  text_IsText = (omega arith, (omega arith, tt));
  tag_IsText = (omega arith, (omega arith, tt));
  tag_short = omega arith;
  level_IsText = (omega arith, (omega arith, (omega arith, (omega arith, tt))));
  level_short = omega arith;
  sec_small = omega arith;
  usec_small = omega arith;
}

abbrev after : Generator
after = record {
  current_log_entry = 1;
  memory =
      store (write_header 0 1 entry.time entry.tag entry.level new_generator.memory) 48
        (entry.text ++ 0 ∷ []);
}

stored :
    do_write_data 2 true (entry.text ++ 0 ∷ []) entry.tag entry.level entry.time new_generator
    ≡ some after
unfolding do_write_data
stored = refl

dropped :
    do_write_data 2 false (entry.text ++ 0 ∷ []) entry.tag entry.level entry.time new_generator
    ≡ some new_generator
unfolding do_write_data
dropped = refl

-- One writer has the lock, a second one comes in vain.
abbrev during : Shared
during = record { holder = writer entry new_generator; generator = new_generator; logged = [] }

is_held : Holder → ℕ
is_held nobody = 0
is_held (writer e g) = 1
is_held written = 1
is_held reader = 1

during_reached : Reaches 2 started during
unfolding is_held
during_reached =
    step (step (done started) (takes started entry refl))
      (drops during entry new_generator (λ h. omega (arith, ap is_held h)) dropped)

abbrev copying : Shared
copying = record { holder = reader; generator = after; logged = entry ∷ [] }

copying_reached : Reaches 2 started copying
copying_reached =
    step
      (step (step during_reached (ends during entry new_generator after refl stored))
        (releases (record { holder = written; generator = after; logged = entry ∷ [] }) refl))
      (reads (record { holder = nobody; generator = after; logged = entry ∷ [] }) refl)

entry_blocks : blocks_of entry ≤ 2
unfolding num_log_bufs
entry_blocks = omega arith

abbrev clock : ℕ → Option Bytes
clock t = some (codes "10:00")

get_log-reader_example :
    get_log clock default_log_output_command 1100 2 after.memory
    ≡ log_output clock default_log_output_command 2 (entry ∷ [])
get_log-reader_example =
    get_log-reader 2 clock default_log_output_command 1100 copying copying_reached refl
      (omega arith) (omega arith) (omega arith) ((entry-IsLoggable, entry_blocks), tt) (tt, tt)
