-- ===== src/CommandLine.antt =====
-- parseCommandLineArgs of src/utils.cpp. What boost::program_options finds on the command line is a
-- parameter: the entries of the variables map after the first store, and those that the second one
-- adds for --output-log.
pub mod Dump
mod Tests
use stat_log.Base.{
  ℕ, Bool, true, false, not, ◌||◌, Option, none, some, List, [], ◌∷◌, Bytes, ◌>>=◌, if◌then◌else◌,
  ℤ, pos,
}
use stat_log.Command.{
  StatCmd, CmdArg, empty, level_arg, output_arg, LogLevelCommand, default_log_level_command,
  LogOutputCommand, default_log_output_command,
}
use stat_log.Printer.{PrintOptions}
use stat_log.Printer.Text.{TextTools}
use stat_log.Control.{TagDisplayDesc}

-- `none` is an option that was not given.
pub record VariablesMap : Type 0 where
  pub tags : Option (List Bytes)
  pub show_tags : Bool
  pub stat_types : Bool
  pub dump_stats : Bool
  pub clear_stats : Bool
  pub log_level : Option (List Bytes)
  pub output_log : Bool
  pub help : Bool

pub record LogVariables : Type 0 where
  pub help : Bool
  pub out_file : Option Bytes
  pub log_idx : Option ℤ
  pub no_tag : Bool
  pub no_time_stamp : Bool
  pub no_log_level : Bool
  pub exclude_tags : Option (List Bytes)
  pub exclude_log_levels : Option (List Bytes)

-- `shows_help` exits with code 0; `fails` is an exception of program_options, or an access outside
-- `tag_indices`.
pub data Parsed : Type 0 where
  parsed : List TagDisplayDesc × StatCmd × CmdArg → Parsed
  shows_help : Parsed
  fails : Parsed

abbrev pub default_tag_desc : TagDisplayDesc
default_tag_desc = record { tag_hname = []; print_options = record { array_indices = [] } }

unfoldable pub value_or {ℓ} : {A : Type ℓ} → A → Option A → A
value_or a none = a
value_or a (some x) = x

-- `--log-level`: `lexical_cast<int>` of the index is a parameter; a bad one leaves the index 0.
unfoldable pub level_command : (Bytes → Option ℤ) → List Bytes → LogLevelCommand
unfolding value_or
level_command to_int [] = default_log_level_command
level_command to_int (idx ∷ []) = record default_log_level_command {
  logger_idx = value_or (pos 0) (to_int idx);
}
level_command to_int (idx ∷ level ∷ []) = record {
  set_log_level = true;
  logger_idx = value_or (pos 0) (to_int idx);
  new_log_level = level;
}
level_command to_int (idx ∷ level ∷ other ∷ rest) = record default_log_level_command {
  logger_idx = value_or (pos 0) (to_int idx);
}

-- `--output-log`
unfoldable pub output_command : LogVariables → LogOutputCommand
unfolding value_or
output_command vm = record {
  logger_idx = value_or (pos 0) vm.log_idx;
  output_filename = value_or [] vm.out_file;
  exclude_tags = value_or [] vm.exclude_tags;
  exclude_log_levels = value_or [] vm.exclude_log_levels;
  show_tag = not vm.no_tag;
  show_time_stamp = not vm.no_time_stamp;
  show_log_level = not vm.no_log_level;
}

-- The command behind the descriptions; the help of --output-log comes before that of the program.
unfoldable pub parse_command :
    (Bytes → Option ℤ) → VariablesMap → Option LogVariables → List TagDisplayDesc → Parsed
unfolding level_command output_command
parse_command to_int vm log descs =
    let level : Parsed = elim vm.log_level [
      | some args ↦ parsed (descs, StatCmd.log_level, level_arg (level_command to_int args))
      | none ↦
          let output : Parsed = elim log [
            | none ↦ fails
            | some l ↦
                if vm.help || l.help
                then shows_help
                else parsed (descs, StatCmd.dump_log, output_arg (output_command l))
          ] in
          if vm.output_log then output else parsed (descs, StatCmd.no_cmd, empty)
    ] in
    if vm.show_tags
    then parsed (descs, StatCmd.print_tag, empty)
    else if vm.stat_types
    then parsed (descs, StatCmd.print_stat_type, empty)
    else if vm.dump_stats
    then parsed (descs, StatCmd.dump_stat, empty)
    else if vm.clear_stats
    then parsed (descs, StatCmd.clear_stat, empty)
    else level

-- `if(vm.count("help"))` at the end.
unfoldable pub unless_help : Bool → Parsed → Parsed
unless_help true (parsed r) = shows_help
unless_help _ p = p

unfoldable pub parse_descs :
    (Bytes → Option ℤ) → VariablesMap → Option LogVariables → Option (List TagDisplayDesc) → Parsed
unfolding parse_command unless_help
parse_descs to_int vm log none = fails
parse_descs to_int vm log (some descs) = unless_help vm.help (parse_command to_int vm log descs)

module _ (tools : TextTools) where
  -- The parts of a tag at ':': a name, and index ranges.
  unfoldable pub desc_of_parts : List Bytes → Option TagDisplayDesc
  desc_of_parts [] = none
  desc_of_parts (name ∷ []) = some (record default_tag_desc { tag_hname = name })
  desc_of_parts (name ∷ indices ∷ rest) =
      some (record { tag_hname = name; print_options = record { array_indices = indices } })

  unfoldable pub tag_descs : List Bytes → Option (List TagDisplayDesc)
  unfolding desc_of_parts
  tag_descs [] = some []
  tag_descs (tag ∷ tags) =
      desc_of_parts (tools.split b':' tag) >>= λ d. tag_descs tags >>= λ ds. some (d ∷ ds)

  -- Without tags, one description that names none.
  unfoldable pub tag_disp_descs : List Bytes → Option (List TagDisplayDesc)
  unfolding tag_descs
  tag_disp_descs [] = some (default_tag_desc ∷ [])
  tag_disp_descs (tag ∷ tags) = tag_descs (tag ∷ tags)

  -- `parseCommandLineArgs`
  unfoldable pub parse_command_line_args :
      (Bytes → Option ℤ) → VariablesMap → Option LogVariables → Parsed
  unfolding tag_disp_descs parse_descs value_or
  parse_command_line_args to_int vm log =
      parse_descs to_int vm log (tag_disp_descs (value_or [] vm.tags))
