-- ===== src/Control.antt =====
-- The control side, LogStatControl of include/stat_log/stat_log.h, with the handles GenericControlStat,
-- StatParent and GenericControlLogger of include/stat_log/util/stat_log_impl.h: parseUserCommands
-- behind the parsing of the command line, sendCommand, outputLog and showOutput. A logger is the
-- retriever of src/shared_memory_logger.cpp.
pub mod Send
pub mod Dumped
pub mod Leveled
pub mod Others
pub mod Exit
mod Tests
use stat_log.Base.{
  ℕ, zero, suc, ◌+◌, Bool, true, false, ◌&&◌, Option, none, some, List, [], ◌∷◌, ◌++◌, map, Bytes,
  codes, decimal, ◌-◌, length, if◌then◌else◌, ◌>>=◌, ℤ, pos, negsuc, le_int, at_int,
}
use stat_log.Command.{
  StatCmd, StatCmdOutput, empty_output, CmdArg, empty, level_arg, output_arg,
  default_log_level_command, is_statistic_command, is_log_command,
}
use stat_log.Memory.{Mem}
use stat_log.Tags.{
  TagTree, TagNode, node_tag, node_depth, HandleKind, stat_parent, control_stat, control_logger,
  stat_tag_hierarchy,
}
use stat_log.Tags.Handles.{is_found_in_list}
use stat_log.Commander.{tag_commander}
use stat_log.Stats.{StatType}
use stat_log.Stats.Control.{do_command}
use stat_log.Levels.{do_log_command}
use stat_log.Printer.{
  Printer, PrintOptions, TagInfo, new_printer, set_command, set_print_options, add_stat_output,
  add_log_output,
}
use stat_log.Printer.Text.{TextTools}
use stat_log.Printer.Dump.{show_output}
use stat_log.Ring.Retriever.{get_log}
use stat_log.Segment.{Placed, Segment, init, get_placed}

pub record TagDisplayDesc : Type 0 where
  pub tag_hname : Bytes
  pub print_options : PrintOptions

-- A shared_mem_logger_retriever: its blocks, and its region with the copy that getLog makes of it.
pub record Retriever : Type 0 where
  pub num_log_entries : ℕ
  pub size : ℕ
  pub contents : Mem

-- The members of a control object, and the shared memory of the statistics and logs.
pub record Control : Type 0 where
  pub the_stats : List Placed
  pub the_logs : List Placed
  pub loggers : List Retriever
  pub printer : Printer
  pub memory : Mem

-- `std::exit` with a code, and what was written before it; `fault` is an access outside an array, a
-- bad_any_cast, a call that does not compile, or the end of the process inside a command.
pub data Outcome : Type 0 where
  running : Control → Outcome
  exited : ℕ → Bytes → Outcome
  fault : Outcome

abbrev pub or_fault : Option Control → Outcome
or_fault none = fault
or_fault (some c) = running c

-- What comes after a statement that may end the process.
unfoldable pub and_then : Outcome → (Control → Outcome) → Outcome
and_then (running c) f = f c
and_then (exited code text) f = exited code text
and_then fault f = fault

abbrev pub tag_info : TagNode → TagInfo
tag_info n = record {
  name = (node_tag n).name;
  tag_index = (node_tag n).index;
  depth = node_depth n;
}

-- `doCommand` of a log's handle; `any_cast` is done for LOG_LEVEL only.
unfoldable pub log_command : HandleKind → ℕ → StatCmd → CmdArg → Bytes → Mem → Option (Bytes × Mem)
unfolding do_log_command
log_command control_logger ptr cmd (level_arg arg) out m = do_log_command cmd arg ptr out m
log_command control_logger ptr StatCmd.log_level _ out m = none
log_command control_logger ptr cmd _ out m = do_log_command cmd default_log_level_command ptr out m
log_command _ ptr cmd arg out m = none

-- A retriever's getLog writes to std::cout or to a file.
-- Where it prints nothing, `fault` stands for the exit with code 1 on a time without a text, too.
abbrev pub logger_output : Option Bytes → Outcome
logger_output none = fault
logger_output (some text) = exited 0 text

-- The message on an index that is too large.
abbrev pub invalid_index : ℤ → ℕ → Bytes
invalid_index idx n =
    codes "Invalid log index = "
    ++ (elim idx [ pos i ↦ decimal i | negsuc i ↦ codes "-" ++ decimal (1 + i) ])
    ++ (elim n [
      | zero ↦ codes ". No configured loggers!\n"
      | suc k ↦ codes ". Valid indices = 0..." ++ decimal k ++ codes "\n"
    ])

-- `addLogger`
abbrev pub add_retriever : Control → Retriever → Control × ℕ
add_retriever c logger =
    let loggers = c.loggers ++ logger ∷ [] in (record c { loggers = loggers }, length loggers - 1)

-- `types` is stat_tag_to_type.
module _ (types : ℕ → StatType) where
  -- `doCommand` of a statistic's handle.
  unfoldable pub stat_command :
      HandleKind → ℕ → ℕ → StatCmd → StatCmdOutput → Mem → Option (StatCmdOutput × Mem)
  unfolding do_command
  stat_command stat_parent i ptr cmd out m = some (out, m)
  stat_command control_stat i ptr cmd out m = some (do_command (types i) ptr cmd out m)
  stat_command _ i ptr cmd out m = none

  unfoldable pub send_stat : StatCmd → TagNode → Control → Option Control
  unfolding get_placed stat_command add_stat_output
  send_stat cmd n c = get_placed (node_tag n).index c.the_stats >>= λ a.
      stat_command a.handle.kind a.handle.tag.index a.shared_ptr cmd empty_output c.memory >>= λ r.
      some (record c { printer = add_stat_output c.printer (tag_info n) r.0; memory = r.1 })

  unfoldable pub send_log : StatCmd → CmdArg → TagNode → Control → Option Control
  unfolding get_placed log_command add_log_output
  send_log cmd arg n c = get_placed (node_tag n).index c.the_logs >>= λ a.
      log_command a.handle.kind a.shared_ptr cmd arg [] c.memory >>= λ r.
      some (record c { printer = add_log_output c.printer (tag_info n) r.0; memory = r.1 })

  -- The overload of `sendCommand` that enable_if leaves; the call does not compile with none or two.
  unfoldable pub send_command : StatCmd → CmdArg → TagNode → Control → Option Control
  unfolding is_found_in_list send_stat send_log
  send_command cmd arg n c =
      let i = (node_tag n).index in
      let is_stat = is_found_in_list i (map (λ a. a.handle) c.the_stats) in
      let is_log = is_found_in_list i (map (λ a. a.handle) c.the_logs) in
      if is_stat
      then if is_log then none else send_stat cmd n c
      else if is_log
      then send_log cmd arg n c
      else none

  module _ (strftime : ℕ → Option Bytes) where
    -- `outputLog`
    unfoldable pub output_log : CmdArg → Control → Outcome
    unfolding get_log
    output_log (output_arg params) c =
        let shown : Outcome = elim (at_int c.loggers params.logger_idx) [
          | none ↦ fault
          | some l ↦ logger_output (get_log strftime params l.size l.num_log_entries l.contents)
        ] in
        if le_int (length c.loggers) params.logger_idx
        then exited 1 (invalid_index params.logger_idx (length c.loggers))
        else shown
    output_log _ c = fault

    module _ (stats logs : TagNode) where
      -- The logs, behind the statistics.
      unfoldable pub command_logs : StatCmd → CmdArg → TagDisplayDesc → Option Control → Outcome
      unfolding is_log_command tag_commander send_command output_log
      command_logs cmd arg desc none = fault
      command_logs cmd arg desc (some c) =
          let to_logs = or_fault (tag_commander (send_command cmd arg) logs desc.tag_hname cmd c) in
          let shown = output_log arg c in
          if is_log_command cmd
          then elim cmd [ StatCmd.dump_log ↦ shown | _ ↦ to_logs ]
          else running c

      -- One description of the loop of `parseUserCommands`: the statistics, then the logs.
      unfoldable pub command_tag : StatCmd → CmdArg → TagDisplayDesc → Control → Outcome
      unfolding is_statistic_command tag_commander send_command command_logs
      command_tag cmd arg desc c =
          let c₁ = record c { printer = set_print_options c.printer desc.print_options } in
          let to_stats = tag_commander (send_command cmd arg) stats desc.tag_hname cmd c₁ in
          command_logs cmd arg desc (if is_statistic_command cmd then to_stats else some c₁)

      unfoldable pub command_tags : StatCmd → CmdArg → List TagDisplayDesc → Control → Outcome
      unfolding command_tag and_then
      command_tags cmd arg [] c = running c
      command_tags cmd arg (desc ∷ descs) c =
          and_then (command_tag cmd arg desc c) (command_tags cmd arg descs)

      -- `parseUserCommands`, with what parseCommandLineArgs makes of the command line.
      unfoldable pub parse_user_commands :
          List TagDisplayDesc × StatCmd × CmdArg → Control → Outcome
      unfolding command_tags
      parse_user_commands (descs, cmd, arg) c =
          command_tags cmd arg descs (record c { printer = set_command c.printer cmd })

  -- A control object after its init.
  unfoldable pub new_control : ℕ → TagTree → TagTree → Mem → Control
  unfolding init
  new_control shm_start stat_tree log_tree m =
      let s = init types false shm_start stat_tree log_tree m in
      record {
        the_stats = s.stats;
        the_logs = s.logs;
        loggers = [];
        printer = new_printer;
        memory = s.memory;
      }

-- `showOutput`
abbrev pub control_show_output : TextTools → Control → Option Bytes
control_show_output tools c = show_output tools c.printer
