-- ===== src/Control/Leveled.antt =====
-- LOG_LEVEL from the command line's descriptions to the levels in shared memory: parseUserCommands and
-- sendCommand of include/stat_log/stat_log.h with the tag commander and the handles of the logs.
pub mod Commanded
use mathlib.Core.Option.{some-injective}
use stat_log.Base.{
  get_elem?-length, ℕ, zero, suc, ◌+◌, ◌≤◌, ◌<◌, ◌≡◌, ◌≢◌, refl, sym, ap, subst, ◌∙◌, ◌⊎◌, inl, inr,
  true, false, List, [], ◌∷◌, ◌++◌, map, All, Bytes, arith, Option, some, none, Bool, ◌>>=◌, pos,
  get_elem?, length, ◌==◌, Bool-cases,
}
use stat_log.Command.{StatCmd, log_level, CmdArg, level_arg, LogLevelCommand}
use stat_log.Memory.{Mem, put}
use stat_log.Tags.{
  Tag, TagTree, TagNode, node_tag, stat_tag_hierarchy, tag_list_creator, Handle, HandleKind,
  control_logger, leaf_kind, parent_kind,
}
use stat_log.Tags.Flatten.{preorder, tags_of}
use stat_log.Tags.Handles.{count, count-list, is_found-eq-count}
use stat_log.Commander.Select.{run, select, IsDotFree, tag_commander-select}
use stat_log.Levels.{log_level_names, num_loggers, get_level, do_log_command}
use stat_log.Levels.Command.{do_log_command-put, get_level_lem}
use stat_log.Stats.{StatType}
use stat_log.Printer.{Printer, add_log_output, set_command, set_print_options}
use stat_log.Segment.{Placed, get_placed}
use stat_log.Segment.Lookup.{handles_of, get_placed_lem, IsFound-All}
use stat_log.Control.{
  Control, TagDisplayDesc, running, tag_info, log_command, send_log, send_command, command_logs,
  command_tag, command_tags, parse_user_commands, new_control, or_fault,
}
use stat_log.Control.Dumped.{AreDistinct, Choice, description, IsPath}

-- The class of the control side's logs.
abbrev pub IsControlLog : Handle → Type 0
IsControlLog h = h.kind ≡ control_logger

-- A tag that is one log and no statistic.
abbrev pub IsLog : Control → ℕ → Type 0
IsLog c i =
    (count i (tags_of (handles_of c.the_logs)) ≡ 1)
    × (count i (tags_of (handles_of c.the_stats)) ≡ 0)

module _ (types : ℕ → StatType) (arg : LogLevelCommand) (idx l : ℕ) where
  -- The levels of a logger are among those that have a name.
  abbrev pub AreLevels : List Placed → Mem → Type 0
  AreLevels logs m =
      (i : ℕ) (a : Placed)
      → get_placed i logs ≡ some a
      → m (a.shared_ptr + idx) < length log_level_names

  -- The command sets the level `l` of the logger `idx`.
  pub record IsSetting : Type 0 where
    pub four : idx < num_loggers
    pub at : arg.logger_idx ≡ pos idx
    pub set : arg.set_log_level ≡ true
    pub named : get_elem? log_level_names l ≡ some arg.new_log_level

  -- After LOG_LEVEL was sent to some nodes.
  pub record Leveled (c : Control) (ns : List TagNode) (r : Option Control) : Type 0 where
    pub shown : Printer
    pub after : Mem
    pub returns : r ≡ some (record c { printer = shown; memory = after })
    pub kept : (b : ℕ) → (after b ≡ c.memory b) ⊎ (after b ≡ l)
    pub levels :
        All
          (λ n.
            (a : Placed)
            → get_placed (node_tag n).index c.the_logs ≡ some a
            → after (a.shared_ptr + idx) ≡ l)
          ns
    pub others :
        (b : ℕ)
        → All
            (λ n.
              (a : Placed)
              → get_placed (node_tag n).index c.the_logs ≡ some a
              → a.shared_ptr + idx ≢ b)
            ns
        → after b ≡ c.memory b

  put-kept : (m : Mem) (p v b : ℕ) → (put m p v b ≡ m b) ⊎ (put m p v b ≡ v)
  put-kept m p v b = elim (Bool-cases (b == p)) [
    | inl e ↦ inr (rw e refl)
    | inr e ↦ inl (rw e refl)
  ]

  named-lt : IsSetting → l < length log_level_names
  named-lt s = get_elem?-length log_level_names l arg.new_log_level s.named

  send_command-send_log :
      (n : TagNode) (c : Control)
      → IsLog c (node_tag n).index
      → send_command types log_level (level_arg arg) n c
        ≡ send_log types log_level (level_arg arg) n c
  unfolding send_command
  send_command-send_log n c (once, absent) =
      let i = (node_tag n).index in
      rw
        (
          is_found-eq-count i (handles_of c.the_stats),
          is_found-eq-count i (handles_of c.the_logs),
          once,
          absent,
        )
        refl

  send_log_lem :
      (n : TagNode) (c : Control) (a : Placed) (out : Bytes) (m : Mem)
      → get_placed (node_tag n).index c.the_logs ≡ some a
      → a.handle.kind ≡ control_logger
      → do_log_command log_level arg a.shared_ptr [] c.memory ≡ some (out, m)
      → send_log types log_level (level_arg arg) n c
        ≡ some (record c { printer = add_log_output c.printer (tag_info n) out; memory = m })
  unfolding send_log log_command
  send_log_lem n c a out m found kind sent = rw found (rw kind (rw sent refl))

  -- The levels stay among those that have a name.
  kept-AreLevels :
      (logs : List Placed) (m m' : Mem)
      → l < length log_level_names
      → ((b : ℕ) → (m' b ≡ m b) ⊎ (m' b ≡ l))
      → AreLevels logs m
      → AreLevels logs m'
  kept-AreLevels logs m m' small kept h i a found = elim (kept (a.shared_ptr + idx)) [
    | inl e ↦ subst (λ v. v < length log_level_names) (sym e) (h i a found)
    | inr e ↦ subst (λ v. v < length log_level_names) (sym e) small
  ]

  nobody_addressed :
      (n : TagNode) (c : Control) (a : Placed) (b : ℕ)
      → get_placed (node_tag n).index c.the_logs ≡ some a
      → ((a' : Placed)
          → get_placed (node_tag n).index c.the_logs ≡ some a'
          → a'.shared_ptr + idx ≢ b)
      → put c.memory (a.shared_ptr + idx) l b ≡ c.memory b
  nobody_addressed n c a b found ne =
      let other : (b == a.shared_ptr + idx) ≡ false = ground (arith, ne a found) in rw other refl

  -- One more node in front, whose level was set.
  one_more :
      (n : TagNode) (ns : List TagNode) (c : Control) (a : Placed) (p : Printer)
      (r : Option Control)
      → get_placed (node_tag n).index c.the_logs ≡ some a
      → Leveled (record c { printer = p; memory = put c.memory (a.shared_ptr + idx) l }) ns r
      → Leveled c (n ∷ ns) r
  one_more n ns c a p r found w =
      let here = a.shared_ptr + idx in
      let written : put c.memory here l here ≡ l = ground arith in
      record {
        shown = w.shown;
        after = w.after;
        returns = w.returns;
        kept = λ b. elim (w.kept b) [
          | inr e ↦ inr e
          | inl e ↦ elim (put-kept c.memory here l b) [ inl f ↦ inl (e ∙ f) | inr f ↦ inr (e ∙ f) ]
        ];
        levels = (
          λ a' found'.
              let same : a ≡ a' = some-injective a a' (sym found ∙ found') in
              subst (λ x. w.after (x.shared_ptr + idx) ≡ l) same
                (elim (w.kept here) [ inl e ↦ e ∙ written | inr e ↦ e ]),
          w.levels,
        );
        others = λ b (ne, nes). w.others b nes ∙ nobody_addressed n c a b found ne;
      }

  run-log_level :
      (ns : List TagNode) (c : Control)
      → IsSetting
      → All IsControlLog (handles_of c.the_logs)
      → All (λ n. IsLog c (node_tag n).index) ns
      → AreLevels c.the_logs c.memory
      → Leveled c ns (run (send_command types log_level (level_arg arg)) ns c)
  unfolding run
  run-log_level [] c s kinds logs valid = record {
    shown = c.printer;
    after = c.memory;
    returns = refl;
    kept = λ b. inl refl;
    levels = tt;
    others = λ b h. refl;
  }
  run-log_level (n ∷ ns) c s kinds (is_log, logs) valid =
      let i = (node_tag n).index in
      let (a, found, position) = get_placed_lem i c.the_logs is_log.0 in
      let (out, sent) =
        do_log_command-put arg a.shared_ptr idx [] c.memory l s.four s.at (valid i a found) s.set
          s.named in
      let m = put c.memory (a.shared_ptr + idx) l in
      let p = add_log_output c.printer (tag_info n) out in
      let first =
        send_command-send_log n c is_log
        ∙ send_log_lem n c a out m found (IsFound-All IsControlLog i c.the_logs a kinds position)
            sent in
      rw first (
        one_more n ns c a p _ found (
          run-log_level ns (record c { printer = p; memory = m }) s kinds logs
            (kept-AreLevels c.the_logs c.memory m (named-lt s)
              (put-kept c.memory (a.shared_ptr + idx) l) valid)))
