-- ===== src/Control/Exit.antt =====
-- How DUMP_LOG ends the control program: outputLog, called by parseUserCommands of
-- include/stat_log/stat_log.h, on the ring that the program has written.
mod Tests
use stat_log.Base.{
  ℕ, zero, suc, ◌≡◌, ◌^◌, ◌<◌, ◌≤◌, refl, sym, ap, ◌∙◌, subst_some, Option, some, false, List, [],
  ◌∷◌, Bytes, All, get_elem?, length, pos, leb, arith,
}
use stat_log.Command.{dump_log, LogOutputCommand, output_arg}
use stat_log.Tags.{TagNode}
use stat_log.Stats.{StatType}
use stat_log.Ring.{Generator, new_generator, block}
use stat_log.Ring.Retriever.{get_log}
use stat_log.Ring.Sequence.{Entry, IsLoggable, blocks_of, write_log}
use stat_log.Ring.Sequence.Newest.{Ascending}
use stat_log.Ring.Sequence.Printed.{log_output, get_log-write_log}
use stat_log.Control.{
  Control, Retriever, TagDisplayDesc, exited, and_then, output_log, command_logs, command_tag,
  command_tags, parse_user_commands,
}

get_elem?-lt : {A : Type 0} (xs : List A) (i : ℕ) (v : A) → get_elem? xs i ≡ some v → i < length xs
get_elem?-lt [] i v e = cc
get_elem?-lt (x ∷ xs) zero v e = omega arith
get_elem?-lt (x ∷ xs) (suc i) v e = omega (arith, get_elem?-lt xs i v e)

module _ (types : ℕ → StatType) (strftime : ℕ → Option Bytes) (stats logs : TagNode)
    (desc : TagDisplayDesc) (descs : List TagDisplayDesc) (params : LogOutputCommand)
    (c : Control) where
  -- With the index of a logger whose log can be read.
  exited_lem :
      (i : ℕ) (l : Retriever) (text : Bytes)
      → params.logger_idx ≡ pos i
      → get_elem? c.loggers i ≡ some l
      → get_log strftime params l.size l.num_log_entries l.contents ≡ some text
      → parse_user_commands types strftime stats logs (desc ∷ descs, dump_log, output_arg params) c
        ≡ exited 0 text
  unfolding parse_user_commands command_tags and_then command_tag command_logs output_log
  exited_lem i l text e at shown =
      let inside : leb (length c.loggers) i ≡ false =
        ground (arith, get_elem?-lt c.loggers i l at) in
      rw e (rw inside (rw at (rw shown refl)))

  -- The program has written a sequence of entries under the conditions of such a sequence and of the
  -- ring, and the control program has a retriever whose copy is the memory of that ring. DUMP_LOG with
  -- the index of that retriever, whatever the tags and the other descriptions are, ends the control
  -- program with exit code 0 and with the text for the newest of these entries that fit the ring, less
  -- the excluded ones, where all their times have a text.
  pub parse_user_commands-write_log :
      (size n i : ℕ) (es : List Entry) (g : Generator) (text : Bytes)
      → 0 < n
      → block n < size
      → n < 2 ^ 32
      → All (λ x. IsLoggable x × (blocks_of x ≤ n)) es
      → Ascending es
      → write_log n es new_generator ≡ some g
      → get_elem? c.loggers i
        ≡ some (record { num_log_entries = n; size = size; contents = g.memory })
      → params.logger_idx ≡ pos i
      → log_output strftime params n es ≡ some text
      → parse_user_commands types strftime stats logs (desc ∷ descs, dump_log, output_arg params) c
        ≡ exited 0 text
  parse_user_commands-write_log size n i es g text pos_n room small oks later written at e shown =
      let (g', returns, printed) =
        get_log-write_log strftime params size n es pos_n room small oks later in
      let here =
        subst_some (λ x. get_log strftime params size n x.memory ≡ log_output strftime params n es)
          g' g (sym returns ∙ written) printed in
      exited_lem i _ text e at (here ∙ shown)
