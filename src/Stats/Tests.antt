-- ===== src/Stats/Tests.antt =====
-- Runs of the statistics on small inputs, and the theorems about them at such inputs.
use stat_log.Base.{
  ℕ, suc, ◌≡◌, refl, Option, some, none, List, [], ◌∷◌, codes, false, replicate, arith, decimal,
  length,
}
use stat_log.Command.{StatCmd, empty_output, StatCmdOutput}
use stat_log.Memory.{Mem, SameOutside, load}
use stat_log.Memory.Words.{read_word}
use stat_log.Stats.{
  StatType, simple_counter, int_repr, increment, stat_array, shared_size, accumulator, Scalar,
  Feature, scalar_feature,
}
use stat_log.Stats.Operation.{OpState, fresh, write, policy_write, do_serialize}
use stat_log.Stats.Control.{do_stat_command, accum_entry, is_print_stat_type}
use stat_log.Stats.Frame.{
  write-SameOutside, do_serialize-SameOutside, scalar_feature_sized, fresh-HasShape,
}
use stat_log.Stats.Flat.{cells, dims, leaf_of, fold_cells, forget}
use stat_log.Stats.Cells.{do_stat_command-cells}
use stat_log.Stats.Address.{num_cells}
use stat_log.Stats.Written.{flat_index, written_value}
use stat_log.Stats.Dump.{dump_entries, dump_entries-write}
use stat_log.Stats.Clear.{clear, cleared_entry, dump_entries-clear, simple_prints}
use stat_log.Stats.Count.{write_all, write_all-sum, int-IsRepr, sum}
use stat_log.Stats.Protocol.{
  Event, AccumState, View, steps, view_steps, view_entry, Represents, accum_entry-steps,
  stale_after_clear, steps-Represents,
}

abbrev grid : StatType
grid = stat_array 2 (stat_array 3 (simple_counter int_repr))

abbrev blank : Mem
blank a = 0

dump_after : Option (OpState grid × Mem) → StatCmdOutput
unfolding do_stat_command
dump_after none = empty_output
dump_after (some (st, m)) = (do_stat_command grid 100 StatCmd.dump_stat empty_output m).0

grid_run : dump_after (write grid 100 (1 ∷ 2 ∷ 7 ∷ []) (fresh grid) blank) ≡ record {
  entry_title = [];
  entries = codes "0" ∷ codes "0" ∷ codes "0" ∷ codes "0" ∷ codes "0" ∷ codes "7" ∷ [];
  dimension_sizes = 2 ∷ 3 ∷ [];
}
unfolding dump_after write fresh
grid_run = refl

grid_type :
    (do_stat_command grid 100 StatCmd.print_stat_type empty_output blank).0.entry_title
    ≡ codes "STAT_ARRAY [STAT_ARRAY [Simple Stat] size = 3] size = 2"
unfolding do_stat_command
grid_type = refl

out_of_range : write grid 100 (2 ∷ 0 ∷ 7 ∷ []) (fresh grid) blank ≡ none
unfolding write fresh
out_of_range = refl

abbrev grid_state : OpState grid × Mem
grid_state = (fresh grid, policy_write increment int_repr 120 7 blank)

grid_writes : write grid 100 (1 ∷ 2 ∷ 7 ∷ []) (fresh grid) blank ≡ some grid_state
unfolding write fresh
grid_writes = refl

dump_entries-write_example :
    dump_entries grid 100 grid_state.1
    ≡ codes "0" ∷ codes "0" ∷ codes "0" ∷ codes "0" ∷ codes "0" ∷ codes "7" ∷ []
unfolding dump_entries do_stat_command flat_index written_value read_word decimal leaf_of
dump_entries-write_example =
    dump_entries-write grid int_repr increment 100 (1 ∷ 2 ∷ 7 ∷ []) (fresh grid) blank grid_state
      refl (omega arith) int-IsRepr (omega arith) grid_writes

write-SameOutside_example : SameOutside 100 (shared_size grid) blank grid_state.1
write-SameOutside_example =
    write-SameOutside grid 100 (1 ∷ 2 ∷ 7 ∷ []) (fresh grid) blank grid_state grid_writes

do_stat_command-cells_example :
    let r = do_stat_command grid 100 StatCmd.dump_stat empty_output blank in
    ((forget (r.0), r.1)
      ≡ fold_cells
          (do_stat_command (leaf_of grid))
          StatCmd.dump_stat
          (100 ∷ 104 ∷ 108 ∷ 112 ∷ 116 ∷ 120 ∷ [])
          (empty_output, blank))
    × (r.0.dimension_sizes ≡ 2 ∷ 3 ∷ [])
unfolding cells dims is_print_stat_type shared_size
do_stat_command-cells_example =
    do_stat_command-cells grid StatCmd.dump_stat 100 empty_output blank refl (omega arith)

dump_entries-clear_example :
    (dump_entries grid 100 (clear grid 100 grid_state.1)
      ≡ replicate (num_cells grid) (cleared_entry (leaf_of grid)))
    × SameOutside 100 (shared_size grid) grid_state.1 (clear grid 100 grid_state.1)
dump_entries-clear_example =
    dump_entries-clear grid 100 grid_state.1 (omega arith)
      (unfold leaf_of in simple_prints int_repr increment) (unfold leaf_of in tt)

write_all-sum_example :
    read_word (write_all increment int_repr 8 (4294967295 ∷ 3 ∷ []) blank) 8 4 ≡ 2
unfolding read_word sum
write_all-sum_example = write_all-sum 8 (4294967295 ∷ 3 ∷ []) blank (omega arith)

-- The number of samples and their sum, as features.
length_of : List ℕ → ℕ
length_of [] = 0
length_of (v ∷ vs) = suc (length_of vs)

abbrev count_scalar : Scalar
count_scalar = record {
  stat_name = codes "count";
  size = 8;
  extract = length_of;
  show = λ precision v. decimal v;
}

abbrev count_feature : Feature
count_feature = scalar_feature count_scalar

abbrev sized_features : List Feature
sized_features = count_feature ∷ []

abbrev start : AccumState
start = record { acc = []; memory = blank }

abbrev start_view : View
start_view = record { samples = []; shown = []; pending = false }

start-Represents : Represents sized_features 0 start start_view
unfolding scalar_feature load read_word length_of shared_size
start-Represents = record { samples = refl; shown = (refl, tt); word = refl }

count_scalar_sized : (acc : List ℕ) → length (count_feature.serialize acc) ≡ count_feature.size
count_scalar_sized = scalar_feature_sized count_scalar

abbrev events : List Event
events = Event.sample 5 ∷ Event.sample 6 ∷ Event.serialization ∷ []

accum_entry-steps_example :
    (accum_entry sized_features 0 (steps sized_features 0 events start).memory ≡ codes "2")
    × ((steps sized_features 0 events start).acc ≡ 5 ∷ 6 ∷ [])
unfolding view_entry view_steps scalar_feature length_of decimal
accum_entry-steps_example =
    accum_entry-steps sized_features 0 events start start_view (count_scalar_sized, tt)
      start-Represents

-- Two samples, a pass, a CLEAR_STAT and one more sample: the entry still says 2.
abbrev used : AccumState
used = steps sized_features 0 events start

used-Represents :
    Represents sized_features 0 used
      (record { samples = 5 ∷ 6 ∷ []; shown = 5 ∷ 6 ∷ []; pending = false })
unfolding view_steps
used-Represents =
    steps-Represents sized_features 0 (count_scalar_sized, tt) events start start_view
      start-Represents

stale_after_clear_example :
    accum_entry sized_features 0
      (steps sized_features 0 (Event.clear ∷ Event.sample 9 ∷ []) used).memory
    ≡ codes "2"
unfolding view_entry scalar_feature length_of decimal
stale_after_clear_example =
    stale_after_clear sized_features 0 9 used
      (record { samples = 5 ∷ 6 ∷ []; shown = 5 ∷ 6 ∷ []; pending = false })
      (count_scalar_sized, tt) used-Represents

abbrev accums : StatType
accums = stat_array 2 (accumulator sized_features)

do_serialize-SameOutside_example :
    SameOutside 64 (shared_size accums) blank (do_serialize accums 64 (fresh accums) blank)
do_serialize-SameOutside_example =
    do_serialize-SameOutside accums 64 (fresh accums) blank (count_scalar_sized, tt)
      (fresh-HasShape accums)
