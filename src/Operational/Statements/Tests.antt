-- ===== src/Operational/Statements/Tests.antt =====
-- A run of log statements at concrete levels, and the witness of its theorem.
use stat_log.Base.{
  ℕ, ◌≡◌, ◌≢◌, refl, Option, some, List, [], ◌∷◌, ◌++◌, Bytes, codes, get_elem?, arith,
}
use stat_log.Memory.{Mem}
use stat_log.Command.{default_log_output_command}
use stat_log.Tags.{op_logger}
use stat_log.Segment.{Placed, get_placed}
use stat_log.Ring.{Generator, TimeStamp, new_generator, num_log_bufs}
use stat_log.Ring.Retriever
use stat_log.Ring.Retriever.{is_later}
use stat_log.Ring.Retriever.Lines.{log_text}
use stat_log.Ring.Sequence.{Entry, IsLoggable}
use stat_log.Ring.Sequence.Newest.{newest}
use stat_log.Ring.Sequence.Printed.{log_output}
use stat_log.Operational.Statements.{Statement, run_statements, entries_of}
use stat_log.Operational.Statements.Printed.{get_log-run_statements}

-- All levels are INFO.
abbrev at_info : Mem
at_info a = 1

abbrev place : Placed
place = record {
  handle = record { kind = op_logger; tag = record { index = 6; name = codes "L" } };
  shared_ptr = 40;
}

abbrev at : ℕ → TimeStamp
at us = record { sec = 1000; usec = us }

-- The statement of level DEBUG is not logged, and the one without values is not either.
abbrev statements : List Statement
statements =
    record { tag = 6; level = 3; values = codes "x=" ∷ codes "1" ∷ []; time = at 1 }
    ∷ record { tag = 6; level = 0; values = codes "no" ∷ []; time = at 2 }
    ∷ record { tag = 6; level = 2; values = []; time = at 3 }
    ∷ record { tag = 6; level = 2; values = codes "y" ∷ []; time = at 4 }
    ∷ []

abbrev first_entry : Entry
first_entry = record { text = codes "x=1"; tag = codes "L"; level = codes "ERROR"; time = at 1 }

abbrev second_entry : Entry
second_entry = record { text = codes "y"; tag = codes "L"; level = codes "ALERT"; time = at 4 }

first_entry-IsLoggable : IsLoggable first_entry
first_entry-IsLoggable = record {
  text_IsText = (omega arith, (omega arith, (omega arith, tt)));
  tag_IsText = (omega arith, tt);
  tag_short = omega arith;
  level_IsText = (omega arith, (omega arith, (omega arith, (omega arith, (omega arith, tt)))));
  level_short = omega arith;
  sec_small = omega arith;
  usec_small = omega arith;
}

second_entry-IsLoggable : IsLoggable second_entry
second_entry-IsLoggable = record {
  text_IsText = (omega arith, tt);
  tag_IsText = (omega arith, tt);
  tag_short = omega arith;
  level_IsText = (omega arith, (omega arith, (omega arith, (omega arith, (omega arith, tt)))));
  level_short = omega arith;
  sec_small = omega arith;
  usec_small = omega arith;
}

abbrev logged : List Entry
logged = first_entry ∷ second_entry ∷ []

statements_logged : entries_of 2 1 (place ∷ []) at_info statements ≡ some logged
unfolding entries_of get_placed
statements_logged = refl

abbrev clock : ℕ → Option Bytes
clock t = some (codes "10:00")

logged_text :
    log_output clock default_log_output_command 2 logged
    ≡ some (codes "10:00.1: L: ERROR: x=1\n" ++ codes "10:00.4: L: ALERT: y\n")
unfolding log_output log_text newest num_log_bufs
logged_text = refl

-- The second of two loggers.
abbrev loggers : List Generator
loggers = new_generator ∷ new_generator ∷ []

get_log-run_statements_example :
    (loggers' : List Generator) × (g : Generator) × (run_statements 2 1
        (place ∷ [])
        at_info
        statements
        loggers
      ≡ some loggers')
    × (get_elem? loggers' 1 ≡ some g)
    × ((j : ℕ) → 1 ≢ j → get_elem? loggers' j ≡ get_elem? loggers j)
    × (Retriever.get_log clock default_log_output_command 1100 2 g.memory
        ≡ log_output clock default_log_output_command 2 logged)
unfolding is_later num_log_bufs
get_log-run_statements_example =
    get_log-run_statements 2 1 (place ∷ []) at_info clock default_log_output_command 1100 statements
      logged loggers (omega arith) refl statements_logged (omega arith) (omega arith) (omega arith)
      ((first_entry-IsLoggable, omega arith), ((second_entry-IsLoggable, omega arith), tt))
      ((refl, tt), (tt, tt))
