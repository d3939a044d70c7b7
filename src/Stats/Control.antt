-- ===== src/Stats/Control.antt =====
-- The control side of the statistics: `ControlStatProxy` and `doStatCommand` of SimpleStat, NullStat,
-- AccumControl and StatArrayImpl.
use stat_log.Base.{
  ℕ, zero, suc, ◌+◌, ◌*◌, max, Bool, true, false, List, [], ◌∷◌, ◌++◌, Bytes, codes, decimal,
  length, ltb, ◌==◌, if◌then◌else◌,
}
use stat_log.Command.{StatCmd, StatCmdOutput, is_statistic_command}
use stat_log.Memory.{Mem, load}
use stat_log.Memory.Words.{read_word, write_word}
use stat_log.Stats.{
  Repr, Feature, StatType, simple, null_stat, accumulator, stat_array, features_size, shared_size,
  control_word_size, is_array,
}
use stat_log.Stats.Operation.{control_word_ptr}

abbrev pub push_entry : StatCmdOutput → Bytes → StatCmdOutput
push_entry out e = record out { entries = out.entries ++ e ∷ [] }

-- `ss << (unsigned long int)val`
unfoldable pub simple_entry : Repr → ℕ → Mem → Bytes
unfolding read_word decimal
simple_entry r ptr m = decimal (r.to_ulong (read_word m ptr r.size))

-- `SimpleStat::doStatCommand`
unfoldable pub simple_command : Repr → ℕ → StatCmd → StatCmdOutput → Mem → StatCmdOutput × Mem
unfolding simple_entry write_word
simple_command r ptr StatCmd.dump_stat out m = (push_entry out (simple_entry r ptr m), m)
simple_command r ptr StatCmd.print_stat_type out m =
    (record out { entry_title = codes "Simple Stat" }, m)
simple_command r ptr StatCmd.clear_stat out m = (out, write_word m ptr r.size 0)
simple_command r ptr _ out m = (out, m)

-- `NullStat::doStatCommand`
unfoldable pub null_command : StatCmd → StatCmdOutput → StatCmdOutput
null_command StatCmd.print_stat_type out = record out { entry_title = codes "NULL stat" }
null_command _ out = out

-- The longest name of a feature.
unfoldable pub max_width : List Feature → ℕ
max_width [] = 0
max_width (f ∷ fs) = max (length f.stat_name) (max_width fs)

unfoldable pub titles : List Feature → ℕ → ℕ → Mem → Bytes
unfolding load
titles [] max_pad ptr m = []
titles (f ∷ fs) max_pad ptr m =
    f.title (load m ptr f.size) max_pad ++ titles fs max_pad (ptr + f.size) m

-- Width and precision stay at the stream's defaults, 0 and 6, for a single field.
unfoldable pub values : List Feature → Bool → ℕ → ℕ → ℕ → Mem → Bytes
unfolding load
values [] is_valid width precision ptr m = []
values (f ∷ fs) is_valid width precision ptr m =
    f.dump (load m ptr f.size) is_valid width precision
    ++ values fs is_valid width precision (ptr + f.size) m

unfoldable pub accum_title : List Feature → ℕ → Mem → Bytes
unfolding titles max_width
accum_title fs ptr m = titles fs (max_width fs + 4) ptr m

unfoldable pub accum_values : List Feature → Bool → ℕ → Mem → Bytes
unfolding values max_width
accum_values fs is_valid ptr m =
    if ltb 1 (length fs)
    then values fs is_valid (max_width fs + 4) (max_width fs) ptr m
    else values fs is_valid 0 6 ptr m

unfoldable pub accum_entry : List Feature → ℕ → Mem → Bytes
unfolding accum_values read_word features_size
accum_entry fs ptr m =
    accum_values fs (read_word m (control_word_ptr fs ptr) control_word_size == 0) ptr m

unfoldable pub feature_names : List Feature → Bytes
feature_names [] = []
feature_names (f ∷ fs) = b' ' ∷ f.stat_name ++ feature_names fs

-- `AccumControl::doStatCommand`
unfoldable pub accum_command :
    List Feature → ℕ → StatCmd → StatCmdOutput → Mem → StatCmdOutput × Mem
unfolding accum_title accum_entry feature_names write_word features_size
accum_command fs ptr StatCmd.dump_stat out m =
    (push_entry (record out { entry_title = accum_title fs ptr m }) (accum_entry fs ptr m), m)
accum_command fs ptr StatCmd.print_stat_type out m =
    (record out { entry_title = codes "Accumulator:" ++ feature_names fs }, m)
accum_command fs ptr StatCmd.clear_stat out m =
    (out, write_word m (control_word_ptr fs ptr) control_word_size 1)
accum_command fs ptr _ out m = (out, m)

-- `for(size_t i = 0; i < Size; ++i)`: from `i` on, `k` rounds to go.
unfoldable pub for_range : {S : Type 0} → ℕ → ℕ → (ℕ → S → S) → S → S
for_range zero i body s = s
for_range (suc k) i body s = for_range k (i + 1) body (body i s)

abbrev pub push_dimension : StatCmdOutput → ℕ → StatCmdOutput
push_dimension out n = record out { dimension_sizes = out.dimension_sizes ++ n ∷ [] }

-- `"STAT_ARRAY [" << entryTitle << "] size = " << Size`
unfoldable pub array_title : Bytes → ℕ → Bytes
unfolding decimal
array_title title n = codes "STAT_ARRAY [" ++ (title ++ (codes "] size = " ++ decimal n))

unfoldable pub is_print_stat_type : StatCmd → Bool
is_print_stat_type StatCmd.print_stat_type = true
is_print_stat_type _ = false

abbrev pub Command : Type 0
Command = ℕ → StatCmd → StatCmdOutput → Mem → StatCmdOutput × Mem

-- The loop of an array of other statistics, whose own command is `each`.
unfoldable pub leaf_array_command : ℕ → ℕ → Command → Command
unfolding for_range
leaf_array_command n size each ptr cmd out m =
    for_range n 0 (λ i s. each (ptr + i * size) cmd s.0 s.1) (out, m)

-- The loop of an array of arrays: the dimensions that the first child reports are kept, and those
-- of every child are cleared behind it.
unfoldable pub nested_step :
    ℕ → Command → ℕ → StatCmd → ℕ → StatCmdOutput × Mem × List ℕ → StatCmdOutput × Mem × List ℕ
nested_step size each ptr cmd i (out, m, dim_sizes) =
    let r = each (ptr + i * size) cmd out m in
    (
      record (r.0) { dimension_sizes = [] },
      r.1,
      (if i == 0 then r.0.dimension_sizes else dim_sizes),
    )

unfoldable pub nested_array_command : ℕ → ℕ → Command → Command
unfolding for_range nested_step
nested_array_command n size each ptr cmd out m =
    let r = for_range n 0 (nested_step size each ptr cmd) (out, m, out.dimension_sizes) in
    (record (r.0) { dimension_sizes = r.2 }, r.1)

-- PRINT_STAT_TYPE asks the first element only.
unfoldable pub type_command : ℕ → Command → Command
unfolding array_title
type_command n each ptr cmd out m =
    let r = each ptr cmd out m in
    (record (r.0) { entry_title = array_title (r.0.entry_title) n }, r.1)

-- `doStatCommand`
unfoldable pub do_stat_command : StatType → Command
unfolding simple_command null_command accum_command is_array is_print_stat_type type_command
    leaf_array_command nested_array_command shared_size
do_stat_command (simple r p) ptr cmd out m = simple_command r ptr cmd out m
do_stat_command null_stat ptr cmd out m = (null_command cmd out, m)
do_stat_command (accumulator fs) ptr cmd out m = accum_command fs ptr cmd out m
do_stat_command (stat_array n t) ptr cmd out m =
    let out' = push_dimension out n in
    if is_print_stat_type cmd
    then type_command n (do_stat_command t) ptr cmd out' m
    else if is_array t
    then nested_array_command n (shared_size t) (do_stat_command t) ptr cmd out' m
    else leaf_array_command n (shared_size t) (do_stat_command t) ptr cmd out' m

-- `ControlStatProxy::doCommand`
unfoldable pub do_command : StatType → Command
unfolding do_stat_command is_statistic_command
do_command t ptr cmd out m =
    if is_statistic_command cmd then do_stat_command t ptr cmd out m else (out, m)
