-- ===== src/CommandLine/Dump.antt =====
-- --dump-stats with --tags, from the text on the command line to the printer: parseCommandLineArgs of
-- src/utils.cpp and parseUserCommands of include/stat_log/stat_log.h.
use stat_log.Base.{
  ℕ, ◌≡◌, refl, sym, ap, ◌∙◌, inl, inr, true, false, Bool, Bool-cases, Option, none, some, List, [],
  ◌∷◌, map, All, Bytes, ℤ, is_empty, if◌then◌else◌,
}
use stat_log.Command.{StatCmd, CmdArg, dump_stat, empty}
use stat_log.Commander.Split.{Lacks}
use stat_log.Commander.Select.{dotted, IsDotFree}
use stat_log.Memory.{Mem}
use stat_log.Tags.{TagTree, stat_tag_hierarchy}
use stat_log.Stats.{StatType}
use stat_log.Printer.{set_command}
use stat_log.Printer.Text.{TextTools, join}
use stat_log.Printer.Displays.{calls}
use stat_log.Control.{Outcome, running, TagDisplayDesc, parse_user_commands, new_control}
use stat_log.Control.Dumped.{
  Choice, description, choices_calls, IsPath, AreDistinct, parse_user_commands-dump,
}
use stat_log.CommandLine.{
  VariablesMap, LogVariables, Parsed, parsed, shows_help, fails, desc_of_parts, tag_descs,
  tag_disp_descs, parse_command, unless_help, parse_descs, value_or, parse_command_line_args,
}

-- A path as it is written behind --tags, with the ranges behind a colon if there are any.
abbrev pub choice_text : Choice → Bytes
choice_text ch =
    if is_empty ch.options.array_indices
    then dotted ch.head ch.rest
    else join b':' (dotted ch.head ch.rest ∷ ch.options.array_indices ∷ [])

abbrev pub HasNoColon : Choice → Type 0
HasNoColon ch = Lacks b':' (dotted ch.head ch.rest) × Lacks b':' ch.options.array_indices

-- What the program does with what it has parsed.
abbrev pub program : (List TagDisplayDesc × StatCmd × CmdArg → Outcome) → Parsed → Option Outcome
program run (parsed r) = some (run r)
program run shows_help = none
program run fails = none

is_empty-nil : (s : Bytes) → is_empty s ≡ true → s ≡ []
unfolding is_empty
is_empty-nil [] e = refl
is_empty-nil (c ∷ s) e = cc

module _ (tools : TextTools) where
  desc_of_parts-choice_text :
      (ch : Choice)
      → HasNoColon ch
      → desc_of_parts tools (tools.split b':' (choice_text ch)) ≡ some (description ch)
  unfolding desc_of_parts join
  desc_of_parts-choice_text ch (h, k) = elim (Bool-cases (is_empty ch.options.array_indices)) [
    | inl e ↦
        ap (λ b. desc_of_parts tools (tools.split b':' (text b))) e
        ∙ ap (desc_of_parts tools) (tools.split-join b':' (dotted ch.head ch.rest) [] (h, tt))
        ∙ ap
            (λ s. some (record {
              tag_hname = dotted ch.head ch.rest;
              print_options = record { array_indices = s };
            }))
            (sym (is_empty-nil ch.options.array_indices e))
    | inr e ↦
        ap (λ b. desc_of_parts tools (tools.split b':' (text b))) e
        ∙ ap (desc_of_parts tools) (
            tools.split-join b':' (dotted ch.head ch.rest) (ch.options.array_indices ∷ [])
              (h, (k, tt)))
  ]
    where
      text : Bool → Bytes
      text b =
          if b
          then dotted ch.head ch.rest
          else join b':' (dotted ch.head ch.rest ∷ ch.options.array_indices ∷ [])

  tag_descs-choices :
      (chs : List Choice)
      → All HasNoColon chs
      → tag_descs tools (map choice_text chs) ≡ some (map description chs)
  unfolding tag_descs
  tag_descs-choices [] h = refl
  tag_descs-choices (ch ∷ chs) (hc, h) =
      rw (desc_of_parts-choice_text ch hc) (rw (tag_descs-choices chs h) refl)

  -- The command line of a dump: the flags before --dump-stats are not given, nor is --help.
  pub record IsDump (vm : VariablesMap) (ch : Choice) (chs : List Choice) : Type 0 where
    pub tags : vm.tags ≡ some (map choice_text (ch ∷ chs))
    pub no_show_tags : vm.show_tags ≡ false
    pub no_stat_types : vm.stat_types ≡ false
    pub dump_stats : vm.dump_stats ≡ true
    pub no_help : vm.help ≡ false

  parse_command-dump :
      {ch : Choice} {chs : List Choice} (to_int : Bytes → Option ℤ) (vm : VariablesMap)
      (log : Option LogVariables) (descs : List TagDisplayDesc)
      → IsDump vm ch chs
      → unless_help false (parse_command to_int vm log descs) ≡ parsed (descs, dump_stat, empty)
  unfolding parse_command unless_help
  parse_command-dump to_int vm log descs d =
      simp (d.no_show_tags, d.no_stat_types, d.dump_stats) refl

  parse_command_line_args-choices :
      (to_int : Bytes → Option ℤ) (vm : VariablesMap) (log : Option LogVariables) (ch : Choice)
      (chs : List Choice)
      → IsDump vm ch chs
      → All HasNoColon (ch ∷ chs)
      → parse_command_line_args tools to_int vm log
        ≡ parsed (map description (ch ∷ chs), dump_stat, empty)
  unfolding parse_command_line_args tag_disp_descs parse_descs value_or
  parse_command_line_args-choices to_int vm log ch chs d h =
      ap (λ o. parse_descs to_int vm log (tag_disp_descs tools (value_or [] o))) d.tags
      ∙ ap (parse_descs to_int vm log) (tag_descs-choices (ch ∷ chs) h)
      ∙ ap (λ b. unless_help b (parse_command to_int vm log (map description (ch ∷ chs)))) d.no_help
      ∙ parse_command-dump to_int vm log (map description (ch ∷ chs)) d

  -- `--dump-stats --tags` with some dotted paths without empty parts and index ranges behind them,
  -- neither with a colon: after init, when no tag stands twice in the statistics or also in the logs
  -- and no name of a statistic holds a dot, the control program hands the printer for each path its
  -- ranges and the dump of every statistic at and below it, in depth-first order.
  pub parse_user_commands-command_line :
      (types : ℕ → StatType) (start : ℕ) (stat_tree log_tree : TagTree) (m : Mem)
      (strftime : ℕ → Option Bytes) (to_int : Bytes → Option ℤ) (vm : VariablesMap)
      (log : Option LogVariables) (ch : Choice) (chs : List Choice)
      → IsDump vm ch chs
      → All HasNoColon (ch ∷ chs)
      → All IsPath (ch ∷ chs)
      → AreDistinct (stat_tag_hierarchy stat_tree) (stat_tag_hierarchy log_tree)
      → IsDotFree (stat_tag_hierarchy stat_tree)
      → program
          (λ r.
            parse_user_commands types strftime
              (stat_tag_hierarchy stat_tree)
              (stat_tag_hierarchy log_tree)
              r
              (new_control types start stat_tree log_tree m))
          (parse_command_line_args tools to_int vm log)
        ≡ some (
            running (record (new_control types start stat_tree log_tree m) {
              printer =
                  calls
                    (set_command (new_control types start stat_tree log_tree m).printer dump_stat)
                    (choices_calls types
                      (stat_tag_hierarchy stat_tree)
                      (new_control types start stat_tree log_tree m)
                      (ch ∷ chs));
            }))
  parse_user_commands-command_line types start stat_tree log_tree m strftime to_int vm log ch chs d
        colons paths distinct free =
      ap
        (program (λ r.
          parse_user_commands types strftime (stat_tag_hierarchy stat_tree)
            (stat_tag_hierarchy log_tree) r (new_control types start stat_tree log_tree m)))
        (parse_command_line_args-choices to_int vm log ch chs d colons)
      ∙ ap some (
          parse_user_commands-dump types start stat_tree log_tree m strftime empty (ch ∷ chs)
            distinct free paths)
