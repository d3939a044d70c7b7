-- ===== src/Printer/Tests.antt =====
-- Runs of the printer, and the witnesses of its theorems.
use stat_log.Base.{
  ℕ, ◌≡◌, ◌≢◌, ◌⊎◌, refl, true, decimal, get_elem?, none, some, List, [], ◌∷◌, codes, arith,
}
use stat_log.Command.{StatCmd, StatCmdOutput}
use stat_log.Stats.{StatType, simple_counter, int_repr, stat_array, increment}
use stat_log.Stats.Flat.{dims, leaf_of}
use stat_log.Stats.Written.{written_value}
use stat_log.Printer.{
  Printer, TagInfo, new_printer, add_stat_output, set_command, set_print_options,
}
use stat_log.Printer.Dump.{show_output, dim_indices, label, belongs_to_range, idx_to_dim_string}
use stat_log.Printer.Small.{small_tools, split, lexical_cast}
use stat_log.Printer.Labels.{AreIndices}
use stat_log.Printer.Written.{idx_to_dim_string-write}
use stat_log.Memory.{Mem}
use stat_log.Memory.Words.{read_word}
use stat_log.Stats.Operation.{OpState, fresh, write, policy_write}
use stat_log.Stats.Control.{do_stat_command}
use stat_log.Stats.Dump.{dump_entries}
use stat_log.Stats.Count.{int-IsRepr}
use stat_log.Printer.Ranges.{
  single, between, from_on, selection_text, ranges_text, any_contains, selects, IsBounded,
  belongs_to_range_lem, idx_to_dim_string_lem,
}
use stat_log.Printer.Displays.{Call, calls, IsPrintable, calls-IsPrintable}

abbrev info : ℕ → ℕ → TagInfo
info i d = record { name = codes "TAG"; tag_index = i; depth = d }

abbrev table : StatCmdOutput
table = record {
  entry_title = codes "T";
  entries = codes "a" ∷ codes "b" ∷ codes "c" ∷ codes "d" ∷ [];
  dimension_sizes = 2 ∷ 2 ∷ [];
}

abbrev filled : Printer
filled =
    add_stat_output
      (set_print_options (set_command new_printer StatCmd.dump_stat)
        (record { array_indices = codes "0-1,1" }))
      (info 1 0) table

column_shown :
    show_output small_tools filled ≡ some (codes "STAT VALUES:\nTAG\n     T\n0,1: b\n1,1: d\n")
unfolding show_output add_stat_output split lexical_cast
column_shown = refl

-- Three ends are written behind the two variables.
three_ends : belongs_to_range small_tools (codes "1-2-3") 1 ≡ none
unfolding belongs_to_range split
three_ends = refl

abbrev grid : StatType
grid = stat_array 2 (stat_array 3 (simple_counter int_repr))

abbrev blank : Mem
blank a = 0

grid_state : OpState grid × Mem
grid_state = (fresh grid, policy_write increment int_repr 120 7 blank)

grid_writes : write grid 100 (1 ∷ 2 ∷ 7 ∷ []) (fresh grid) blank ≡ some grid_state
unfolding write fresh grid_state
grid_writes = refl

label_of_five : idx_to_dim_string small_tools (2 ∷ 3 ∷ []) [] 5 ≡ some (codes "1,2: ", true)
unfolding idx_to_dim_string
label_of_five = refl

idx_to_dim_string-write_example :
    ((dim_indices (2 ∷ 3 ∷ []) 5 ≡ 1 ∷ 2 ∷ [])
      × (codes "1,2: " ≡ label (1 ∷ 2 ∷ []))
      × (get_elem? (dump_entries grid 100 grid_state.1) 5 ≡ some (codes "7")))
    ⊎ ((dim_indices (2 ∷ 3 ∷ []) 5 ≢ 1 ∷ 2 ∷ [])
        × (codes "1,2: " ≡ label (dim_indices (2 ∷ 3 ∷ []) 5))
        × (get_elem? (dump_entries grid 100 grid_state.1) 5
            ≡ get_elem? (dump_entries grid 100 blank) 5))
unfolding AreIndices dims leaf_of written_value dump_entries do_stat_command read_word decimal
idx_to_dim_string-write_example =
    idx_to_dim_string-write small_tools grid int_repr increment 100 (1 ∷ 2 ∷ []) 7 (fresh grid)
      blank grid_state [] 5 (codes "1,2: ") true refl (omega arith) int-IsRepr
      (omega arith, (omega arith, tt)) (omega arith) grid_writes (omega arith) label_of_five

belongs_to_range_lem_example :
    belongs_to_range small_tools (ranges_text (between 1 3 ∷ single 8 ∷ [])) 8
    ≡ some (any_contains (between 1 3 ∷ single 8 ∷ []) 8)
unfolding IsBounded
belongs_to_range_lem_example =
    belongs_to_range_lem small_tools (between 1 3) (single 8 ∷ []) 8
      ((omega arith, omega arith), (omega arith, tt)) (omega arith)

idx_to_dim_string_lem_example :
    idx_to_dim_string small_tools
      (2 ∷ 3 ∷ [])
      (selection_text ((single 1 ∷ []) ∷ (from_on 1 ∷ []) ∷ []))
      5
    ≡ some (
      label (dim_indices (2 ∷ 3 ∷ []) 5),
      selects ((single 1 ∷ []) ∷ (from_on 1 ∷ []) ∷ []) (dim_indices (2 ∷ 3 ∷ []) 5),
    )
unfolding IsBounded dim_indices
idx_to_dim_string_lem_example =
    idx_to_dim_string_lem small_tools (single 1) [] ((from_on 1 ∷ []) ∷ []) (2 ∷ 3 ∷ []) 5
      ((omega arith, tt), ((omega arith, tt), tt)) (omega arith, (omega arith, tt))

abbrev some_calls : List Call
some_calls =
    Call.stat (info 1 3) table ∷ Call.log (info 2 2) (codes "L") ∷ Call.stat (info 1 3) table ∷ []

calls-IsPrintable_example : IsPrintable (calls new_printer some_calls)
calls-IsPrintable_example = calls-IsPrintable some_calls

once_shown : (calls new_printer some_calls).min_tag_depth ≡ 2
unfolding calls
once_shown = refl
