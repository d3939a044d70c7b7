-- ===== src/Control/Dumped.antt =====
-- DUMP_STAT from the command line's descriptions to the printer: parseUserCommands of
-- include/stat_log/stat_log.h with the tag commander, the handles and the segment.
use stat_log.Base.{
  ℕ, ◌≤◌, ◌<◌, ◌≡◌, refl, sym, ap, subst, ◌∙◌, inl, inr, true, false, List, [], ◌∷◌, ◌++◌, map, All,
  All-append, Bytes, if◌then◌else◌, arith, text_eq, Option, Bool,
}
use stat_log.Command.{dump_stat, CmdArg}
use stat_log.Memory.{Mem}
use stat_log.Tags.{
  Tag, TagTree, TagNode, leaf_node, parent_node, TagNodes, nil_nodes, cons_nodes, node_tag,
  stat_tag_hierarchy, tag_list_creator, leaf_kind, parent_kind,
}
use stat_log.Tags.Flatten.{preorder, preorder_nodes, tags_of}
use stat_log.Tags.Handles.{count, count-list}
use stat_log.Commander.Select.{
  subtree, subtrees, select, select_nodes, dotted, IsPlain, IsDotFree, tag_commander-select,
}
use stat_log.Stats.{StatType}
use stat_log.Printer.{Printer, PrintOptions, set_command, set_print_options}
use stat_log.Printer.Displays.{Call, calls, call}
use stat_log.Segment.{init}
use stat_log.Segment.Lookup.{handles_of, handles_of-set_shm_pointers, tag_list_creator-All}
use stat_log.Control.{
  Control, TagDisplayDesc, running, and_then, command_logs, command_tag, command_tags,
  parse_user_commands, new_control, send_command,
}
use stat_log.Control.Send.{IsControlStat, IsStat, dump_call, dump_of, run-dump}

-- A tag of the statistics is none of the logs, and no tag stands twice.
abbrev pub AreDistinct : TagNode → TagNode → Type 0
AreDistinct stats logs =
    (i : ℕ)
    → (count i (preorder stats) ≤ 1) × (0 < count i (preorder stats) → count i (preorder logs) ≡ 0)

-- What holds of all tags of a hierarchy holds of the nodes that a path selects.
module _ (P : Tag → Type 0) where
  split_All : (xs ys : List Tag) → All P (xs ++ ys) → All P xs × All P ys
  split_All [] ys h = (tt, h)
  split_All (x ∷ xs) ys (px, h) = let (h₁, h₂) = split_All xs ys h in ((px, h₁), h₂)

  abbrev AllNodes : List TagNode → Type 0
  AllNodes ns = All (λ x. P (node_tag x)) ns

  mutual
    unfolding preorder subtree

    subtree-AllNodes : (n : TagNode) → All P (preorder n) → AllNodes (subtree n)
    subtree-AllNodes (leaf_node t p d) h = h
    subtree-AllNodes (parent_node t p d cs) (ht, h) = (ht, subtrees-AllNodes cs h)

    subtrees-AllNodes : (ns : TagNodes) → All P (preorder_nodes ns) → AllNodes (subtrees ns)
    subtrees-AllNodes nil_nodes h = tt
    subtrees-AllNodes (cons_nodes n ns) h =
        let (h₁, h₂) = split_All (preorder n) (preorder_nodes ns) h in
        All-append (λ x. P (node_tag x)) (subtree n) (subtrees ns) (subtree-AllNodes n h₁)
          (subtrees-AllNodes ns h₂)

  if-AllNodes : (b : Bool) (ns : List TagNode) → AllNodes ns → AllNodes (if b then ns else [])
  if-AllNodes true ns h = h
  if-AllNodes false ns h = tt

  mutual
    unfolding preorder select

    pub select-AllNodes :
        (c : Bytes) (p : List Bytes) (n : TagNode) → All P (preorder n) → AllNodes (select c p n)
    select-AllNodes c [] n h =
        if-AllNodes (text_eq c (node_tag n).name) (subtree n) (subtree-AllNodes n h)
    select-AllNodes c (d ∷ p) (leaf_node t q k) h = tt
    select-AllNodes c (d ∷ p) (parent_node t q k cs) (ht, h) =
        if-AllNodes (text_eq c t.name) (select_nodes d p cs) (select_nodes-AllNodes d p cs h)

    select_nodes-AllNodes :
        (c : Bytes) (p : List Bytes) (ns : TagNodes)
        → All P (preorder_nodes ns)
        → AllNodes (select_nodes c p ns)
    select_nodes-AllNodes c p nil_nodes h = tt
    select_nodes-AllNodes c p (cons_nodes n ns) h =
        let (h₁, h₂) = split_All (preorder n) (preorder_nodes ns) h in
        All-append (λ x. P (node_tag x)) (select c p n) (select_nodes c p ns)
          (select-AllNodes c p n h₁) (select_nodes-AllNodes c p ns h₂)

-- The tags of a list are in it.
pub counted :
    (ys xs : List Tag) → ((i : ℕ) → count i ys ≤ count i xs) → All (λ t. 0 < count t.index xs) ys
unfolding count
counted [] xs h = tt
counted (y ∷ ys) xs h = (ground (arith, h y.index), counted ys xs (λ i. omega (arith, h i)))

calls-append : (p : Printer) (xs ys : List Call) → calls p (xs ++ ys) ≡ calls (calls p xs) ys
unfolding calls
calls-append p [] ys = refl
calls-append p (x ∷ xs) ys = calls-append (call p x) xs ys

-- A dotted path of the command line, with the print options behind it.
pub record Choice : Type 0 where
  pub head : Bytes
  pub rest : List Bytes
  pub options : PrintOptions

abbrev pub description : Choice → TagDisplayDesc
description ch = record { tag_hname = dotted ch.head ch.rest; print_options = ch.options }

abbrev pub IsPath : Choice → Type 0
IsPath ch = IsPlain ch.head × All IsPlain ch.rest

module _ (types : ℕ → StatType) (stats : TagNode) where
  -- The calls of the printer for a path: its options, then each node that it selects.
  abbrev pub choice_calls : Control → Choice → List Call
  choice_calls c ch =
      Call.options ch.options ∷ map (dump_call types c) (select ch.head ch.rest stats)

  abbrev pub choices_calls : Control → List Choice → List Call
  choices_calls c [] = []
  choices_calls c (ch ∷ chs) = choice_calls c ch ++ choices_calls c chs

  choices_calls-printer :
      (c : Control) (p : Printer) (chs : List Choice)
      → choices_calls (record c { printer = p }) chs ≡ choices_calls c chs
  unfolding dump_of
  choices_calls-printer c p [] = refl
  choices_calls-printer c p (ch ∷ chs) =
      ap (λ rest. choice_calls c ch ++ rest) (choices_calls-printer c p chs)

  module _ (strftime : ℕ → Option Bytes) (logs : TagNode) (arg : CmdArg)
      (free : IsDotFree stats) where
    command_tag-dump :
        (ch : Choice) (c : Control)
        → IsPath ch
        → All IsControlStat (handles_of c.the_stats)
        → All (λ t. IsStat c t.index) (preorder stats)
        → command_tag types strftime stats logs dump_stat arg (description ch) c
          ≡ running (record c { printer = calls c.printer (choice_calls c ch) })
    unfolding command_tag command_logs calls call dump_of
    command_tag-dump ch c (hc, hp) kinds h =
        let c₁ = record c { printer = set_print_options c.printer ch.options } in
        ap (command_logs types strftime stats logs dump_stat arg (description ch)) (
          tag_commander-select (send_command types dump_stat arg) stats ch.head ch.rest dump_stat c₁
            (λ e. cc) free hc hp
          ∙ run-dump types arg (select ch.head ch.rest stats) c₁ kinds
              (select-AllNodes (λ t. IsStat c t.index) ch.head ch.rest stats h))

    command_tags-dump :
        (chs : List Choice) (c : Control)
        → All IsPath chs
        → All IsControlStat (handles_of c.the_stats)
        → All (λ t. IsStat c t.index) (preorder stats)
        → command_tags types strftime stats logs dump_stat arg (map description chs) c
          ≡ running (record c { printer = calls c.printer (choices_calls c chs) })
    unfolding command_tags and_then calls
    command_tags-dump [] c paths kinds h = refl
    command_tags-dump (ch ∷ chs) c (path, paths) kinds h =
        ap
          (λ o.
            and_then o (command_tags types strftime stats logs dump_stat arg (map description chs)))
          (command_tag-dump ch c path kinds h)
        ∙ (command_tags-dump chs (record c { printer = calls c.printer (choice_calls c ch) }) paths
              kinds h
            ∙ ap
                (λ cs.
                  running (record c { printer = calls (calls c.printer (choice_calls c ch)) cs }))
                (choices_calls-printer c (calls c.printer (choice_calls c ch)) chs)
            ∙ ap (λ p. running (record c { printer = p }))
                (sym (calls-append c.printer (choice_calls c ch) (choices_calls c chs))))

module _ (types : ℕ → StatType) (start : ℕ) (stat_tree log_tree : TagTree) (m : Mem) where
  abbrev pub the_control : Control
  the_control = new_control types start stat_tree log_tree m

  pub stats_lem :
      handles_of the_control.the_stats ≡ tag_list_creator false true (stat_tag_hierarchy stat_tree)
  unfolding new_control init
  stats_lem = handles_of-set_shm_pointers types start _

  pub logs_lem :
      handles_of the_control.the_logs ≡ tag_list_creator false false (stat_tag_hierarchy log_tree)
  unfolding new_control init
  logs_lem = handles_of-set_shm_pointers types _ _

  pub kinds_lem : All IsControlStat (handles_of the_control.the_stats)
  unfolding leaf_kind parent_kind
  kinds_lem = subst (All IsControlStat) (sym stats_lem) (
      tag_list_creator-All IsControlStat false true (λ t. inl refl) (λ t. inr refl)
        (stat_tag_hierarchy stat_tree))

  pub new_control-IsStat :
      (i : ℕ)
      → AreDistinct (stat_tag_hierarchy stat_tree) (stat_tag_hierarchy log_tree)
      → 0 < count i (preorder (stat_tag_hierarchy stat_tree))
      → IsStat the_control i
  new_control-IsStat i distinct h =
      let (once, absent) = distinct i in
      (
        ap (λ hs. count i (tags_of hs)) stats_lem
            ∙ count-list false true (stat_tag_hierarchy stat_tree) i
            ∙ omega (arith, once, h),
        ap (λ hs. count i (tags_of hs)) logs_lem
            ∙ count-list false false (stat_tag_hierarchy log_tree) i
            ∙ absent h,
      )

  -- After init, when no tag stands twice in the statistics or also in the logs and no name of a
  -- statistic holds a dot, DUMP_STAT with any dotted paths, without empty parts, hands the printer
  -- for each path its print options and then the dump of every statistic at and below the path, in
  -- depth-first order, and changes neither the memory nor anything else.
  pub parse_user_commands-dump :
      (strftime : ℕ → Option Bytes) (arg : CmdArg) (chs : List Choice)
      → AreDistinct (stat_tag_hierarchy stat_tree) (stat_tag_hierarchy log_tree)
      → IsDotFree (stat_tag_hierarchy stat_tree)
      → All IsPath chs
      → parse_user_commands types strftime
          (stat_tag_hierarchy stat_tree)
          (stat_tag_hierarchy log_tree)
          (map description chs, dump_stat, arg)
          the_control
        ≡ running (record the_control {
          printer =
              calls
                (set_command the_control.printer dump_stat)
                (choices_calls types (stat_tag_hierarchy stat_tree) the_control chs);
        })
  unfolding parse_user_commands
  parse_user_commands-dump strftime arg chs distinct free paths =
      let stats = stat_tag_hierarchy stat_tree in
      let logs = stat_tag_hierarchy log_tree in
      let p = set_command the_control.printer dump_stat in
      command_tags-dump types stats strftime logs arg free chs (record the_control { printer = p })
        paths kinds_lem
        (all_stats (preorder stats) (counted (preorder stats) (preorder stats) (λ i. omega arith)))
      ∙ ap (λ cs. running (record the_control { printer = calls p cs }))
          (choices_calls-printer types stats the_control p chs)
    where
      all_stats :
          (ts : List Tag)
          → All (λ t. 0 < count t.index (preorder (stat_tag_hierarchy stat_tree))) ts
          → All (λ t. IsStat the_control t.index) ts
      all_stats [] h = tt
      all_stats (t ∷ ts) (ht, h) = (new_control-IsStat t.index distinct ht, all_stats ts h)
