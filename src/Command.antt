-- ===== src/Command.antt =====
-- The commands of include/stat_log/util/command.h: the enumeration, its two classifying tests and
-- the structs that travel with a command (a `boost::any` holds one of them).
use stat_log.Base.{ℕ, ℤ, pos, Bool, true, false, List, [], Bytes}

pub data StatCmd : Type 0 where
  no_cmd print_stat_type dump_stat clear_stat dump_timeseries log_level dump_log print_tag : StatCmd

unfoldable pub is_statistic_command : StatCmd → Bool
is_statistic_command StatCmd.print_stat_type = true
is_statistic_command StatCmd.dump_stat = true
is_statistic_command StatCmd.clear_stat = true
is_statistic_command StatCmd.dump_timeseries = true
is_statistic_command StatCmd.print_tag = true
is_statistic_command StatCmd.no_cmd = false
is_statistic_command StatCmd.log_level = false
is_statistic_command StatCmd.dump_log = false

unfoldable pub is_log_command : StatCmd → Bool
is_log_command StatCmd.log_level = true
is_log_command StatCmd.dump_log = true
is_log_command StatCmd.print_tag = true
is_log_command StatCmd.no_cmd = false
is_log_command StatCmd.print_stat_type = false
is_log_command StatCmd.dump_stat = false
is_log_command StatCmd.clear_stat = false
is_log_command StatCmd.dump_timeseries = false

pub record LogLevelCommand : Type 0 where
  pub set_log_level : Bool
  pub logger_idx : ℤ
  pub new_log_level : Bytes

pub record LogOutputCommand : Type 0 where
  pub logger_idx : ℤ
  pub output_filename : Bytes
  pub exclude_tags : List Bytes
  pub exclude_log_levels : List Bytes
  pub show_tag : Bool
  pub show_time_stamp : Bool
  pub show_log_level : Bool

-- The default member initialisers.
abbrev pub default_log_level_command : LogLevelCommand
default_log_level_command = record { set_log_level = false; logger_idx = pos 0; new_log_level = [] }

abbrev pub default_log_output_command : LogOutputCommand
default_log_output_command = record {
  logger_idx = pos 0;
  output_filename = [];
  exclude_tags = [];
  exclude_log_levels = [];
  show_tag = true;
  show_time_stamp = true;
  show_log_level = true;
}

-- The string view of one statistic.
pub record StatCmdOutput : Type 0 where
  pub entry_title : Bytes
  pub entries : List Bytes
  pub dimension_sizes : List ℕ

abbrev pub empty_output : StatCmdOutput
empty_output = record { entry_title = []; entries = []; dimension_sizes = [] }

-- What a command's `boost::any` may hold.
pub data CmdArg : Type 0 where
  empty : CmdArg
  level_arg : LogLevelCommand → CmdArg
  output_arg : LogOutputCommand → CmdArg
