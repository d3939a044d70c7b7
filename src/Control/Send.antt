-- ===== src/Control/Send.antt =====
-- DUMP_STAT sent to nodes of the control side's hierarchy (sendCommand of
-- include/stat_log/stat_log.h): what each of them adds to the printer.
use stat_log.Base.{
  ℕ, Option, ◌≡◌, refl, sym, ap, ◌∙◌, ◌⊎◌, inl, inr, none, some, List, [], ◌∷◌, map, All, ◌>>=◌,
}
use stat_log.Command.{StatCmd, dump_stat, StatCmdOutput, empty_output, CmdArg}
use stat_log.Memory.{Mem}
use stat_log.Tags.{TagNode, node_tag, Handle, HandleKind, stat_parent, control_stat}
use stat_log.Tags.Flatten.{tags_of}
use stat_log.Tags.Handles.{count, is_found-eq-count}
use stat_log.Commander.Select.{run}
use stat_log.Stats.{StatType}
use stat_log.Stats.Control.{do_command}
use stat_log.Stats.Reads.{do_stat_command-dump}
use stat_log.Printer.{add_stat_output}
use stat_log.Printer.Displays.{Call, calls, call}
use stat_log.Segment.{Placed, get_placed}
use stat_log.Segment.Lookup.{handles_of, get_placed_lem, IsFound-All}
use stat_log.Control.{Control, tag_info, stat_command, send_stat, send_command}

-- The classes of the control side's statistics.
abbrev pub IsControlStat : Handle → Type 0
IsControlStat h = (h.kind ≡ control_stat) ⊎ (h.kind ≡ stat_parent)

-- A tag that is one statistic and no log.
abbrev pub IsStat : Control → ℕ → Type 0
IsStat c i =
    (count i (tags_of (handles_of c.the_stats)) ≡ 1)
    × (count i (tags_of (handles_of c.the_logs)) ≡ 0)

module _ (types : ℕ → StatType) where
  -- What DUMP_STAT yields at a handle: nothing at a parent.
  unfoldable pub dump_at : HandleKind → ℕ → ℕ → Mem → StatCmdOutput
  unfolding do_command
  dump_at stat_parent i ptr m = empty_output
  dump_at _ i ptr m = (do_command (types i) ptr dump_stat empty_output m).0

  unfoldable pub dump_found : Mem → Option Placed → StatCmdOutput
  unfolding dump_at
  dump_found m none = empty_output
  dump_found m (some a) = dump_at a.handle.kind a.handle.tag.index a.shared_ptr m

  -- What DUMP_STAT of a tag yields.
  unfoldable pub dump_of : Control → ℕ → StatCmdOutput
  unfolding get_placed dump_found
  dump_of c i = dump_found c.memory (get_placed i c.the_stats)

  -- The call of the printer for a node.
  abbrev pub dump_call : Control → TagNode → Call
  dump_call c n = Call.stat (tag_info n) (dump_of c (node_tag n).index)

  stat_command-dump :
      (h : Handle) (i ptr : ℕ) (m : Mem)
      → IsControlStat h
      → stat_command types h.kind i ptr dump_stat empty_output m ≡ some (dump_at h.kind i ptr m, m)
  unfolding stat_command dump_at do_command
  stat_command-dump h i ptr m (inl e) =
      let kept = (do_stat_command-dump (types i) ptr empty_output m m (λ a _ _. refl)).1 in
      rw e (ap (λ w. some ((do_command (types i) ptr dump_stat empty_output m).0, w)) kept)
  stat_command-dump h i ptr m (inr e) = rw e refl

  send_stat-some :
      (cmd : StatCmd) (n : TagNode) (c : Control) (a : Placed) (out : StatCmdOutput) (m : Mem)
      → get_placed (node_tag n).index c.the_stats ≡ some a
      → stat_command types a.handle.kind a.handle.tag.index a.shared_ptr cmd empty_output c.memory
        ≡ some (out, m)
      → send_stat types cmd n c
        ≡ some (record c { printer = add_stat_output c.printer (tag_info n) out; memory = m })
  unfolding send_stat
  send_stat-some cmd n c a out m e f = rw e (rw f refl)

  dump_of-some :
      (c : Control) (i : ℕ) (a : Placed)
      → get_placed i c.the_stats ≡ some a
      → dump_of c i ≡ dump_at a.handle.kind a.handle.tag.index a.shared_ptr c.memory
  unfolding dump_of dump_found
  dump_of-some c i a e = ap (dump_found c.memory) e

  send_command-send_stat :
      (cmd : StatCmd) (arg : CmdArg) (n : TagNode) (c : Control)
      → IsStat c (node_tag n).index
      → send_command types cmd arg n c ≡ send_stat types cmd n c
  unfolding send_command
  send_command-send_stat cmd arg n c (once, absent) =
      let i = (node_tag n).index in
      rw
        (
          is_found-eq-count i (handles_of c.the_stats),
          is_found-eq-count i (handles_of c.the_logs),
          once,
          absent,
        )
        refl

  -- DUMP_STAT of a tag hands its dump to the printer, and changes nothing else.
  pub send_command-dump :
      (arg : CmdArg) (n : TagNode) (c : Control)
      → All IsControlStat (handles_of c.the_stats)
      → IsStat c (node_tag n).index
      → send_command types dump_stat arg n c
        ≡ some (record c { printer = call c.printer (dump_call c n) })
  unfolding call
  send_command-dump arg n c kinds is_stat =
      let i = (node_tag n).index in
      let (a, e, found) = get_placed_lem i c.the_stats (is_stat.0) in
      let kind = IsFound-All IsControlStat i c.the_stats a kinds found in
      send_command-send_stat dump_stat arg n c is_stat
      ∙ send_stat-some dump_stat n c a _ c.memory e
          (stat_command-dump a.handle a.handle.tag.index a.shared_ptr c.memory kind)
      ∙ ap (λ out. some (record c { printer = add_stat_output c.printer (tag_info n) out }))
          (sym (dump_of-some c i a e))

  -- DUMP_STAT sent to some nodes in turn.
  pub run-dump :
      (arg : CmdArg) (ns : List TagNode) (c : Control)
      → All IsControlStat (handles_of c.the_stats)
      → All (λ n. IsStat c (node_tag n).index) ns
      → run (send_command types dump_stat arg) ns c
        ≡ some (record c { printer = calls c.printer (map (dump_call c) ns) })
  unfolding calls dump_of run
  run-dump arg [] c kinds h = refl
  run-dump arg (n ∷ ns) c kinds (hn, h) =
      ap (λ r. r >>= run (send_command types dump_stat arg) ns) (send_command-dump arg n c kinds hn)
      ∙ run-dump arg ns (record c { printer = call c.printer (dump_call c n) }) kinds h
