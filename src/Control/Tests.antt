-- ===== src/Control/Tests.antt =====
-- A control program with two statistics and a log, and the theorems about it.
use stat_log.Levels.{get_level}
use stat_log.Segment.{Placed, get_placed}
use stat_log.Control.Leveled.{AreLevels}
use stat_log.Control.Leveled.Commanded.{parse_user_commands-log_level}
use stat_log.Base.{
  All, ◌≢◌, ◌+◌, ℕ, ◌≡◌, refl, true, some, Option, List, [], ◌∷◌, codes, Bytes, pos, arith, map,
}
use stat_log.Command.{
  log_level, level_arg, LogLevelCommand, dump_stat, dump_log, empty, output_arg,
  default_log_output_command,
}
use stat_log.Memory.{Mem}
use stat_log.Tags.{
  node_tag, Tag, TagTree, leaf, nil, cons, stat_tag_hierarchy, insert_node, gen_tag_hierarchy,
  leaf_kind, parent_kind,
}
use stat_log.Tags.Flatten.{preorder}
use stat_log.Tags.Handles.{count}
use stat_log.Commander.Select.{IsDotFree, select}
use stat_log.Segment.{init}
use stat_log.Stats.{StatType, simple_counter, int_repr, increment}
use stat_log.Stats.Operation.{policy_write}
use stat_log.Printer.{set_command}
use stat_log.Printer.Displays.{calls}
use stat_log.Operational.{OpHandle, op_handle}
use stat_log.Operational.Separate.{write_stats}
use stat_log.Ring.Retriever.{get_log}
use stat_log.Control.{
  Control, Retriever, running, exited, parse_user_commands, new_control, add_retriever,
  TagDisplayDesc,
}
use stat_log.Control.Send.{dump_of}
use stat_log.Control.Dumped.{
  Choice, description, choices_calls, AreDistinct, parse_user_commands-dump,
}
use stat_log.Control.Others.{dump_of-write_stats, fresh_handles}

abbrev tag : ℕ → Bytes → Tag
tag i name = record { index = i; name = name }

abbrev stat_tree : TagTree
stat_tree =
    TagTree.parent (tag 1 (codes "A"))
      (cons (leaf (tag 2 (codes "B"))) (cons (leaf (tag 3 (codes "C"))) nil))

abbrev log_tree : TagTree
log_tree = leaf (tag 6 (codes "L"))

abbrev types : ℕ → StatType
types i = simple_counter int_repr

abbrev strftime : ℕ → Option Bytes
strftime t = some (codes "now")

abbrev blank : Mem
blank a = 0

abbrev control : Control
control = new_control types 100 stat_tree log_tree blank

are_distinct : AreDistinct (stat_tag_hierarchy stat_tree) (stat_tag_hierarchy log_tree)
unfolding count preorder gen_tag_hierarchy stat_tag_hierarchy
are_distinct i = ground arith

dot_free : IsDotFree (stat_tag_hierarchy stat_tree)
unfolding IsDotFree gen_tag_hierarchy stat_tag_hierarchy
dot_free = omega arith

abbrev choices : List Choice
choices =
    record {
      head = codes "A";
      rest = codes "C" ∷ [];
      options = record { array_indices = codes "0" };
    }
    ∷ []

parse_user_commands-dump_example :
    parse_user_commands types strftime
      (stat_tag_hierarchy stat_tree)
      (stat_tag_hierarchy log_tree)
      (map description choices, dump_stat, empty)
      control
    ≡ running (record control {
      printer =
          calls
            (set_command control.printer dump_stat)
            (choices_calls types (stat_tag_hierarchy stat_tree) control choices);
    })
parse_user_commands-dump_example =
    parse_user_commands-dump types 100 stat_tree log_tree blank strftime empty choices are_distinct
      dot_free ((((cc), omega arith), (((cc), omega arith), tt)), tt)

abbrev written : ℕ → Mem → Mem
written v m = policy_write increment int_repr 104 v m

abbrev handles : List (OpHandle types)
handles = fresh_handles types 100 stat_tree log_tree blank

dump_of-write_stats_example :
    dump_of types (record control { memory = written 7 (written 5 blank) }) 3
    ≡ dump_of types (record control { memory = written 5 blank }) 3
unfolding write_stats op_handle insert_node gen_tag_hierarchy leaf_kind parent_kind init
dump_of-write_stats_example =
    dump_of-write_stats types 100 stat_tree log_tree blank 3 ((2, 5 ∷ []) ∷ []) ((2, 7 ∷ []) ∷ [])
      blank (handles, written 5 blank) (handles, written 7 (written 5 blank)) refl refl
      (omega arith, tt)

abbrev whole : TagDisplayDesc
whole = record { tag_hname = []; print_options = record { array_indices = [] } }

abbrev stored : Retriever
stored = record { num_log_entries = 2; size = 1025; contents = blank }

abbrev with_logger : Control
with_logger = (add_retriever control stored).0

empty_log :
    parse_user_commands types strftime
      (stat_tag_hierarchy stat_tree)
      (stat_tag_hierarchy log_tree)
      (whole ∷ [], dump_log, output_arg default_log_output_command)
      with_logger
    ≡ exited 0 (codes "Empty log!\n")
unfolding parse_user_commands get_log new_control
empty_log = refl

-- All levels of the program are INFO.
abbrev at_info : Control
at_info = new_control types 100 stat_tree log_tree (λ a. 1)

abbrev to_error : LogLevelCommand
to_error = record { set_log_level = true; logger_idx = pos 2; new_log_level = codes "ERROR" }

abbrev to_log : Choice
to_log = record { head = codes "L"; rest = []; options = record { array_indices = [] } }

logs-AreDistinct : AreDistinct (stat_tag_hierarchy log_tree) (stat_tag_hierarchy stat_tree)
unfolding count preorder gen_tag_hierarchy stat_tag_hierarchy
logs-AreDistinct i = ground arith

logs-IsDotFree : IsDotFree (stat_tag_hierarchy log_tree)
unfolding IsDotFree gen_tag_hierarchy stat_tag_hierarchy
logs-IsDotFree = omega arith

at_info-memory : at_info.memory ≡ (λ a. 1)
unfolding new_control init insert_node gen_tag_hierarchy leaf_kind parent_kind
at_info-memory = refl

at_info-AreLevels : AreLevels types to_error 2 3 at_info.the_logs at_info.memory
at_info-AreLevels i a found = rw (at_info-memory) (omega arith)

parse_user_commands-log_level_example :
    (c' : Control) × (parse_user_commands types strftime
        (stat_tag_hierarchy stat_tree)
        (stat_tag_hierarchy log_tree)
        (description to_log ∷ [], log_level, level_arg to_error)
        at_info
      ≡ running c')
    × All
        (λ n.
          (a : Placed)
          → get_placed (node_tag n).index at_info.the_logs ≡ some a
          → get_level a.shared_ptr (pos 2) c'.memory ≡ some 3)
        (select (codes "L") [] (stat_tag_hierarchy log_tree))
    × ((b : ℕ)
        → All
            (λ n.
              (a : Placed)
              → get_placed (node_tag n).index at_info.the_logs ≡ some a
              → a.shared_ptr + 2 ≢ b)
            (select (codes "L") [] (stat_tag_hierarchy log_tree))
        → c'.memory b ≡ at_info.memory b)
parse_user_commands-log_level_example =
    parse_user_commands-log_level types 100 stat_tree log_tree (λ a. 1) strftime to_error 2 3 to_log
      logs-AreDistinct logs-IsDotFree ((cc, omega arith), tt)
      (record { four = omega arith; at = refl; set = refl; named = refl }) at_info-AreLevels
