-- ===== src/Control/Exit/Tests.antt =====
-- DUMP_LOG of a control program after one entry, and the witness of its theorem.
use stat_log.Base.{ℕ, ◌≡◌, ◌≤◌, refl, true, Option, some, [], ◌∷◌, ◌++◌, Bytes, codes, arith}
use stat_log.Memory.{store}
use stat_log.Command.{default_log_output_command, dump_log, output_arg}
use stat_log.Tags.{TagTree, leaf, stat_tag_hierarchy}
use stat_log.Stats.{StatType, simple_counter, int_repr}
use stat_log.Ring.{Generator, new_generator, do_write_data, write_header, num_log_bufs}
use stat_log.Ring.Retriever.Lines.{log_text}
use stat_log.Ring.Sequence.{Entry, IsLoggable, blocks_of, write_log}
use stat_log.Ring.Sequence.Newest.{newest}
use stat_log.Ring.Sequence.Printed.{log_output}
use stat_log.Printer.{new_printer}
use stat_log.Control.{Control, TagDisplayDesc, exited, parse_user_commands}
use stat_log.Control.Exit.{parse_user_commands-write_log}

abbrev entry : Entry
entry = record {
  text = codes "HI";
  tag = codes "RX";
  level = codes "INFO";
  time = record { sec = 1000; usec = 7 };
}

entry-IsLoggable : IsLoggable entry
entry-IsLoggable = record {
  text_IsText = (omega arith, (omega arith, tt));
  tag_IsText = (omega arith, (omega arith, tt));
  tag_short = omega arith;
  level_IsText = (omega arith, (omega arith, (omega arith, (omega arith, tt))));
  level_short = omega arith;
  sec_small = omega arith;
  usec_small = omega arith;
}

abbrev after : Generator
after = record {
  current_log_entry = 1;
  memory =
      store (write_header 0 1 entry.time entry.tag entry.level new_generator.memory) 48
        (entry.text ++ 0 ∷ []);
}

stored :
    do_write_data 2 true (entry.text ++ 0 ∷ []) entry.tag entry.level entry.time new_generator
    ≡ some after
unfolding do_write_data
stored = refl

entry_blocks : blocks_of entry ≤ 2
unfolding num_log_bufs
entry_blocks = omega arith

abbrev clock : ℕ → Option Bytes
clock t = some (codes "10:00")

entry_written : write_log 2 (entry ∷ []) new_generator ≡ some after
unfolding write_log do_write_data
entry_written = refl

entry_output :
    log_output clock default_log_output_command 2 (entry ∷ [])
    ≡ some (codes "10:00.7: RX: INFO: HI\n")
unfolding log_output log_text newest num_log_bufs
entry_output = refl

abbrev tree : TagTree
tree = leaf (record { index = 1; name = codes "A" })

abbrev types : ℕ → StatType
types i = simple_counter int_repr

abbrev control : Control
control = record {
  the_stats = [];
  the_logs = [];
  loggers = record { num_log_entries = 2; size = 1100; contents = after.memory } ∷ [];
  printer = new_printer;
  memory = λ a. 0;
}

abbrev whole : TagDisplayDesc
whole = record { tag_hname = []; print_options = record { array_indices = [] } }

parse_user_commands-write_log_example :
    parse_user_commands types clock
      (stat_tag_hierarchy tree)
      (stat_tag_hierarchy tree)
      (whole ∷ [], dump_log, output_arg default_log_output_command)
      control
    ≡ exited 0 (codes "10:00.7: RX: INFO: HI\n")
parse_user_commands-write_log_example =
    parse_user_commands-write_log types clock (stat_tag_hierarchy tree) (stat_tag_hierarchy tree)
      whole [] default_log_output_command control 1100 2 0 (entry ∷ []) after
      (codes "10:00.7: RX: INFO: HI\n") (omega arith) (omega arith) (omega arith)
      ((entry-IsLoggable, entry_blocks), tt) (tt, tt) entry_written refl refl entry_output
