-- ===== src/Printer/Dump.antt =====
-- What showOutput writes, src/printer.cpp: printDumpStat with its lambdas, printStatType,
-- printLogOutput and printTags. `none` is the access outside `vals` of belongs_to_range.
use mathlib.Core.List.{reverse}
use stat_log.Base.{
  ℕ, ◌+◌, ◌/◌, ◌%◌, Bool, true, false, ◌&&◌, ◌||◌, Option, none, some, List, [], ◌∷◌, ◌++◌, Bytes,
  codes, decimal, is_empty, leb, ◌==◌, if◌then◌else◌, ◌>>=◌, length, replicate,
}
use stat_log.Command.{StatCmd}
use stat_log.Printer.{Printer, StatDisplay, LogDisplay, TagInfo, max_size}
use stat_log.Printer.Text.{TextTools, indent}

-- `dim_indices`: the last dimension first, the sizes given in that order.
unfoldable pub dim_indices_loop : List ℕ → ℕ → List ℕ → List ℕ
dim_indices_loop [] idx acc = acc
dim_indices_loop (d ∷ ds) idx acc = dim_indices_loop ds (idx / d) ((idx % d) ∷ acc)

unfoldable pub dim_indices : List ℕ → ℕ → List ℕ
unfolding dim_indices_loop
dim_indices sizes idx = dim_indices_loop (reverse sizes) idx []

-- `ss << dim_indices[i] << ","`, and ": " behind the last.
unfoldable pub label : List ℕ → Bytes
unfolding decimal
label [] = []
label (i ∷ []) = decimal i ++ codes ": "
label (i ∷ j ∷ is) = decimal i ++ (codes "," ++ label (j ∷ is))

-- `convert_str_to_number` into a variable with an initial value.
unfoldable pub or_else : ℕ → Option ℕ → ℕ
or_else initial none = initial
or_else initial (some n) = n

module _ (tools : TextTools) where
  -- One range, its ends split at '-'.
  unfoldable pub in_range : List Bytes → ℕ → Option Bool
  unfolding or_else
  in_range [] val = some true
  in_range (s ∷ []) val =
      let n = or_else max_size (tools.lexical_cast s) in some (n == val || n == max_size)
  in_range (s ∷ t ∷ []) val = some (
      leb (or_else 0 (tools.lexical_cast s)) val
      && leb val (or_else max_size (tools.lexical_cast t)))
  in_range (s ∷ t ∷ u ∷ rest) val = none

  unfoldable pub in_ranges : List Bytes → ℕ → Option Bool
  unfolding in_range
  in_ranges [] val = some false
  in_ranges (r ∷ rs) val =
      let rest = in_ranges rs val in
      in_range (tools.split b'-' r) val >>= λ b. if b then some true else rest

  unfoldable pub belongs_to_range : Bytes → ℕ → Option Bool
  unfolding in_ranges
  belongs_to_range range_str val = in_ranges (tools.split b'.' range_str) val

  -- `do_print`: once it is false, no further range is looked at.
  unfoldable pub in_dim_ranges : List Bytes → List ℕ → Option Bool
  unfolding belongs_to_range
  in_dim_ranges [] is = some true
  in_dim_ranges (r ∷ rs) [] = some true
  in_dim_ranges (r ∷ rs) (i ∷ is) =
      let rest = in_dim_ranges rs is in belongs_to_range r i >>= λ b. if b then rest else some false

  unfoldable pub per_dim_ranges : Bytes → List Bytes
  unfolding is_empty
  per_dim_ranges array_indices =
      if is_empty array_indices then [] else tools.split b',' array_indices

  -- `idx_to_dim_string`: the label, and whether to print.
  unfoldable pub idx_to_dim_string : List ℕ → Bytes → ℕ → Option (Bytes × Bool)
  unfolding in_dim_ranges per_dim_ranges dim_indices label
  idx_to_dim_string sizes array_indices idx =
      in_dim_ranges (per_dim_ranges array_indices) (dim_indices sizes idx) >>= λ do_print.
      some (label (dim_indices sizes idx), do_print)

  -- The entries from the `i`-th on.
  unfoldable pub show_entries : List ℕ → Bytes → ℕ → List Bytes → Option Bytes
  unfolding idx_to_dim_string
  show_entries sizes array_indices i [] = some []
  show_entries sizes array_indices i (e ∷ es) = idx_to_dim_string sizes array_indices i >>= λ r.
      show_entries sizes array_indices (i + 1) es >>= λ rest.
      some (if r.1 then r.0 ++ (e ++ (codes "\n" ++ rest)) else rest)

  unfoldable pub show_title : List ℕ → Bytes → Bytes → Option Bytes
  unfolding idx_to_dim_string is_empty
  show_title sizes array_indices title =
      let spaces = idx_to_dim_string sizes array_indices 0 >>= λ r.
      some (replicate (length (r.0)) b' ' ++ (title ++ codes "\n")) in
      if is_empty title then some [] else spaces

  unfoldable pub show_stat : StatDisplay → Option Bytes
  unfolding show_title show_entries
  show_stat d =
      let out = d.stat_output in
      let indices = d.print_options.array_indices in
      let shown = show_title out.dimension_sizes indices out.entry_title >>= λ title.
      show_entries out.dimension_sizes indices 0 out.entries >>= λ entries.
      some (d.tag_info.name ++ (codes "\n" ++ (title ++ entries))) in
      elim out.entries [ [] ↦ some [] | _ ∷ _ ↦ shown ]

  unfoldable pub show_stats : List StatDisplay → Option Bytes
  unfolding show_stat
  show_stats [] = some []
  show_stats (d ∷ ds) = show_stat d >>= λ s. show_stats ds >>= λ rest. some (s ++ rest)

  -- `printDumpStat`
  unfoldable pub print_dump_stat : Printer → Option Bytes
  unfolding show_stats
  print_dump_stat p = show_stats p.stat_tags >>= λ s.
      some ((elim p.stat_tags [ [] ↦ [] | _ ∷ _ ↦ codes "STAT VALUES:\n" ]) ++ s)

-- A heading stands only over something.
unfoldable pub heading : {A : Type 0} → Bytes → List A → Bytes
heading h [] = []
heading h (_ ∷ _) = h

-- A tag's name, indented below the least depth.
unfoldable pub name_line : ℕ → TagInfo → Bytes
unfolding indent
name_line min_depth t = indent t.depth min_depth ++ (t.name ++ codes "\n")

unfoldable pub type_lines : ℕ → List StatDisplay → Bytes
unfolding name_line is_empty
type_lines min_depth [] = []
type_lines min_depth (d ∷ ds) =
    name_line min_depth d.tag_info
    ++ ((if is_empty d.stat_output.entry_title
          then []
          else indent d.tag_info.depth min_depth
            ++ (codes "  " ++ (d.stat_output.entry_title ++ codes "\n")))
        ++ type_lines min_depth ds)

unfoldable pub print_stat_type : Printer → Bytes
unfolding heading type_lines
print_stat_type p =
    heading (codes "STAT TYPES:\n") p.stat_tags ++ type_lines p.min_tag_depth p.stat_tags

unfoldable pub log_lines : ℕ → List LogDisplay → Bytes
unfolding name_line
log_lines min_depth [] = []
log_lines min_depth (d ∷ ds) =
    name_line min_depth d.tag_info
    ++ (indent d.tag_info.depth min_depth
        ++ (codes "  " ++ (d.log_output ++ (codes "\n" ++ log_lines min_depth ds))))

unfoldable pub print_log_output : Printer → Bytes
unfolding heading log_lines
print_log_output p =
    heading (codes "LOG LEVELS:\n") p.log_tags ++ log_lines p.min_tag_depth p.log_tags

unfoldable pub name_lines : {A : Type 0} → (A → TagInfo) → ℕ → List A → Bytes
unfolding name_line
name_lines info min_depth [] = []
name_lines info min_depth (d ∷ ds) = name_line min_depth (info d) ++ name_lines info min_depth ds

unfoldable pub print_tags : Printer → Bytes
unfolding heading name_lines
print_tags p =
    heading (codes "STATS:\n") p.stat_tags
    ++ (name_lines (λ d. d.tag_info) p.min_tag_depth p.stat_tags
        ++ (heading (codes "LOG LEVELS:\n") p.log_tags
            ++ name_lines (λ d. d.tag_info) p.min_tag_depth p.log_tags))

-- `showOutput`
unfoldable pub show_output : TextTools → Printer → Option Bytes
unfolding print_stat_type print_dump_stat print_log_output print_tags
show_output tools p = elim p.the_cmd [
  | StatCmd.print_stat_type ↦ some (print_stat_type p)
  | StatCmd.dump_stat ↦ print_dump_stat tools p
  | StatCmd.log_level ↦ some (print_log_output p)
  | StatCmd.print_tag ↦ some (print_tags p)
  | _ ↦ some []
]
