-- ===== src/CommandLine/Tests.antt =====
-- A command line from its text to what the printer shows.
use stat_log.Base.{
  ℕ, ◌≡◌, refl, true, false, none, some, Option, [], ◌∷◌, codes, Bytes, arith, ℤ, is_empty,
}
use stat_log.Command.{dump_stat}
use stat_log.Memory.{Mem}
use stat_log.Tags.{
  TagTree, leaf, parent, nil, cons, stat_tag_hierarchy, insert_node, gen_tag_hierarchy, leaf_kind,
  parent_kind,
}
use stat_log.Tags.Flatten.{preorder}
use stat_log.Tags.Handles.{count}
use stat_log.Commander.{find, get_head_tail, go, process_command}
use stat_log.Commander.Select.{IsDotFree, dotted}
use stat_log.Stats.{StatType, simple_counter, int_repr, stat_array}
use stat_log.Printer.{set_command}
use stat_log.Printer.Text.{join}
use stat_log.Printer.Small.{small_tools, split, lexical_cast}
use stat_log.Printer.Dump.{show_output}
use stat_log.Printer.Displays.{calls}
use stat_log.Control.{running, Outcome, exited, fault, parse_user_commands, new_control, Control}
use stat_log.Control.Dumped.{Choice, choices_calls, AreDistinct}
use stat_log.CommandLine.{VariablesMap, parse_command_line_args}
use stat_log.CommandLine.Dump.{IsDump, program, parse_user_commands-command_line}

abbrev stat_tree : TagTree
stat_tree =
    parent (record { index = 1; name = codes "A" })
      (cons (leaf (record { index = 2; name = codes "B" }))
        (cons (leaf (record { index = 3; name = codes "C" })) nil))

abbrev log_tree : TagTree
log_tree = leaf (record { index = 6; name = codes "L" })

abbrev types : ℕ → StatType
types i = stat_array 2 (simple_counter int_repr)

abbrev blank : Mem
blank a = 0

abbrev strftime : ℕ → Option Bytes
strftime t = none

abbrev to_int : Bytes → Option ℤ
to_int s = none

-- --dump-stats --tags A.C:1
abbrev dump : VariablesMap
dump = record {
  tags = some (codes "A.C:1" ∷ []);
  show_tags = false;
  stat_types = false;
  dump_stats = true;
  clear_stats = false;
  log_level = none;
  output_log = false;
  help = false;
}

abbrev choice : Choice
choice = record {
  head = codes "A";
  rest = codes "C" ∷ [];
  options = record { array_indices = codes "1" };
}

dump-IsDump : IsDump small_tools dump choice []
unfolding dotted join is_empty
dump-IsDump = record {
  tags = refl;
  no_show_tags = refl;
  no_stat_types = refl;
  dump_stats = refl;
  no_help = refl;
}

are_distinct : AreDistinct (stat_tag_hierarchy stat_tree) (stat_tag_hierarchy log_tree)
unfolding count preorder gen_tag_hierarchy stat_tag_hierarchy
are_distinct i = ground arith

dot_free : IsDotFree (stat_tag_hierarchy stat_tree)
unfolding IsDotFree gen_tag_hierarchy stat_tag_hierarchy
dot_free = omega arith

abbrev control : Control
control = new_control types 100 stat_tree log_tree blank

parse_user_commands-command_line_example :
    program
      (λ r.
        parse_user_commands types strftime
          (stat_tag_hierarchy stat_tree)
          (stat_tag_hierarchy log_tree)
          r
          control)
      (parse_command_line_args small_tools to_int dump none)
    ≡ some (
        running (record control {
          printer =
              calls
                (set_command control.printer dump_stat)
                (choices_calls types (stat_tag_hierarchy stat_tree) control (choice ∷ []));
        }))
unfolding dotted
parse_user_commands-command_line_example =
    parse_user_commands-command_line small_tools types 100 stat_tree log_tree blank strftime to_int
      dump none choice [] dump-IsDump ((omega arith, omega arith), tt)
      ((((cc), omega arith), (((cc), omega arith), tt)), tt) are_distinct dot_free

shown : Outcome → Option Bytes
unfolding show_output
shown (running c) = show_output small_tools c.printer
shown (exited code text) = none
shown fault = none

dumped : Option Outcome → Option Bytes
unfolding shown
dumped none = none
dumped (some o) = shown o

dump_run :
    dumped (
      program
        (λ r.
          parse_user_commands types strftime
            (stat_tag_hierarchy stat_tree)
            (stat_tag_hierarchy log_tree)
            r
            control)
        (parse_command_line_args small_tools to_int dump none))
    ≡ some (codes "STAT VALUES:\nC\n1: 0\n")
unfolding dumped parse_user_commands parse_command_line_args new_control split lexical_cast
    gen_tag_hierarchy insert_node leaf_kind parent_kind find get_head_tail process_command go
dump_run = refl
