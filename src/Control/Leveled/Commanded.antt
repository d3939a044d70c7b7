-- ===== src/Control/Leveled/Commanded.antt =====
-- LOG_LEVEL of a path of the command line and the levels that the program then sees
-- (parseUserCommands of include/stat_log/stat_log.h, getLevel of
-- include/stat_log/loggers/logger_common.h).
use stat_log.Base.{
  All_mono, true, ℕ, ◌+◌, ◌<◌, ◌≡◌, ◌≢◌, refl, sym, ap, subst, ◌∙◌, false, List, [], ◌∷◌, All,
  Bytes, arith, Option, some, pos,
}
use stat_log.Command.{log_level, level_arg, LogLevelCommand}
use stat_log.Memory.{Mem}
use stat_log.Tags.{Tag, TagTree, TagNode, node_tag, stat_tag_hierarchy, leaf_kind, parent_kind}
use stat_log.Tags.Flatten.{preorder, tags_of}
use stat_log.Tags.Handles.{count, count-list}
use stat_log.Commander.Select.{run, select, IsDotFree, tag_commander-select}
use stat_log.Levels.{get_level}
use stat_log.Levels.Command.{get_level_lem}
use stat_log.Stats.{StatType}
use stat_log.Printer.{set_command, set_print_options}
use stat_log.Segment.{Placed, get_placed}
use stat_log.Segment.Lookup.{handles_of, tag_list_creator-All}
use stat_log.Control.{
  Control, running, and_then, send_command, command_logs, command_tag, command_tags,
  parse_user_commands,
}
use stat_log.Control.Dumped.{
  AreDistinct, Choice, description, IsPath, select-AllNodes, counted, the_control, stats_lem,
  logs_lem,
}
use stat_log.Control.Leveled.{IsControlLog, IsLog, AreLevels, IsSetting, Leveled, run-log_level}

module _ (types : ℕ → StatType) (arg : LogLevelCommand) (idx l : ℕ) where
  command_tags-log_level :
      (strftime : ℕ → Option Bytes) (stats logs : TagNode) (ch : Choice) (c : Control)
      → IsDotFree logs
      → IsPath ch
      → IsSetting types arg idx l
      → All IsControlLog (handles_of c.the_logs)
      → All (λ t. IsLog c t.index) (preorder logs)
      → AreLevels types arg idx l c.the_logs c.memory
      → (w : Leveled types arg idx l
          (record c { printer = set_print_options c.printer ch.options })
          (select ch.head ch.rest logs)
          (run
            (send_command types log_level (level_arg arg))
            (select ch.head ch.rest logs)
            (record c { printer = set_print_options c.printer ch.options })))
        × (command_tags types strftime stats logs log_level (level_arg arg) (description ch ∷ []) c
            ≡ running (record c { printer = w.shown; memory = w.after }))
  unfolding command_tags command_tag command_logs and_then
  command_tags-log_level strftime stats logs ch c free (hc, hp) s kinds is_log valid =
      let c₁ = record c { printer = set_print_options c.printer ch.options } in
      let send = send_command types log_level (level_arg arg) in
      let w =
        run-log_level types arg idx l (select ch.head ch.rest logs) c₁ s kinds
          (select-AllNodes (λ t. IsLog c t.index) ch.head ch.rest logs is_log) valid in
      let sent =
        tag_commander-select send logs ch.head ch.rest log_level c₁ (λ e. cc) free hc hp
        ∙ w.returns in
      (w, rw sent refl)

module _ (types : ℕ → StatType) (start : ℕ) (stat_tree log_tree : TagTree) (m : Mem) where
  abbrev control : Control
  control = the_control types start stat_tree log_tree m

  kinds_of_logs : All IsControlLog (handles_of control.the_logs)
  unfolding leaf_kind parent_kind
  kinds_of_logs = subst (All IsControlLog) (sym (logs_lem types start stat_tree log_tree m)) (
      tag_list_creator-All IsControlLog false false (λ t. refl) (λ t. refl)
        (stat_tag_hierarchy log_tree))

  new_control-IsLog :
      (i : ℕ)
      → AreDistinct (stat_tag_hierarchy log_tree) (stat_tag_hierarchy stat_tree)
      → 0 < count i (preorder (stat_tag_hierarchy log_tree))
      → IsLog control i
  new_control-IsLog i distinct h =
      let (once, absent) = distinct i in
      (
        ap (λ hs. count i (tags_of hs)) (logs_lem types start stat_tree log_tree m)
            ∙ count-list false false (stat_tag_hierarchy log_tree) i
            ∙ omega (arith, once, h),
        ap (λ hs. count i (tags_of hs)) (stats_lem types start stat_tree log_tree m)
            ∙ count-list false true (stat_tag_hierarchy stat_tree) i
            ∙ absent h,
      )

  all_logs :
      (ts : List Tag)
      → AreDistinct (stat_tag_hierarchy log_tree) (stat_tag_hierarchy stat_tree)
      → All (λ t. 0 < count t.index (preorder (stat_tag_hierarchy log_tree))) ts
      → All (λ t. IsLog control t.index) ts
  all_logs [] distinct h = tt
  all_logs (t ∷ ts) distinct (ht, h) =
      (new_control-IsLog t.index distinct ht, all_logs ts distinct h)

  -- After init, when no tag stands twice in the logs or also in the statistics and no name of a log
  -- holds a dot: LOG_LEVEL with the name of a level, for one of the four loggers, whose levels were
  -- all among those that have a name, and a dotted path without empty parts, sets that level for
  -- every log at and below the path, as getLevel of the program reads it, and changes no other byte
  -- of the shared memory.
  pub parse_user_commands-log_level :
      (strftime : ℕ → Option Bytes) (arg : LogLevelCommand) (idx l : ℕ) (ch : Choice)
      → AreDistinct (stat_tag_hierarchy log_tree) (stat_tag_hierarchy stat_tree)
      → IsDotFree (stat_tag_hierarchy log_tree)
      → IsPath ch
      → IsSetting types arg idx l
      → AreLevels types arg idx l control.the_logs control.memory
      → (c' : Control) × (parse_user_commands types strftime
            (stat_tag_hierarchy stat_tree)
            (stat_tag_hierarchy log_tree)
            (description ch ∷ [], log_level, level_arg arg)
            control
          ≡ running c')
        × All
            (λ n.
              (a : Placed)
              → get_placed (node_tag n).index control.the_logs ≡ some a
              → get_level a.shared_ptr (pos idx) c'.memory ≡ some l)
            (select ch.head ch.rest (stat_tag_hierarchy log_tree))
        × ((b : ℕ)
            → All
                (λ n.
                  (a : Placed)
                  → get_placed (node_tag n).index control.the_logs ≡ some a
                  → a.shared_ptr + idx ≢ b)
                (select ch.head ch.rest (stat_tag_hierarchy log_tree))
            → c'.memory b ≡ control.memory b)
  unfolding parse_user_commands
  parse_user_commands-log_level strftime arg idx l ch distinct free path s valid =
      let logs = stat_tag_hierarchy log_tree in
      let c = record control { printer = set_command control.printer log_level } in
      let (w, ran) =
        command_tags-log_level types arg idx l strftime (stat_tag_hierarchy stat_tree) logs ch c
          free path s kinds_of_logs
          (all_logs (preorder logs) distinct
            (counted (preorder logs) (preorder logs) (λ i. omega arith)))
          valid in
      (
        record c { printer = w.shown; memory = w.after },
        ran,
        All_mono
            (λ n h a found. get_level_lem a.shared_ptr idx w.after s.four ∙ ap some (h a found))
            (select ch.head ch.rest logs) w.levels,
        w.others,
      )
