-- ===== src/Stats/Flat.antt =====
-- The flat view of a statistic: the addresses of its innermost statistics in row-major order, and
-- what a command does at each in turn.
use stat_log.Base.{ℕ, zero, suc, ◌+◌, ◌*◌, ◌<◌, ◌≡◌, refl, List, [], ◌∷◌, ◌++◌}
use stat_log.Command.{StatCmd, StatCmdOutput}
use stat_log.Memory.{Mem}
use stat_log.Stats.{StatType, simple, null_stat, accumulator, stat_array, shared_size}
use stat_log.Stats.Control.{Command}

-- The innermost statistic, and the sizes of the dimensions, outermost first.
unfoldable pub leaf_of : StatType → StatType
leaf_of (stat_array n t) = leaf_of t
leaf_of t = t

unfoldable pub dims : StatType → List ℕ
dims (stat_array n t) = n ∷ dims t
dims t = []

unfoldable pub cells_from : (ℕ → List ℕ) → ℕ → ℕ → ℕ → ℕ → List ℕ
cells_from cells size ptr zero i = []
cells_from cells size ptr (suc k) i = cells (ptr + i * size) ++ cells_from cells size ptr k (i + 1)

unfoldable pub cells : StatType → ℕ → List ℕ
unfolding cells_from
cells (stat_array n t) ptr = cells_from (cells t) (shared_size t) ptr n 0
cells t ptr = ptr ∷ []

-- Every array has an element.
abbrev pub IsInhabited : StatType → Type 0
IsInhabited (stat_array n t) = (0 < n) × IsInhabited t
IsInhabited (simple r p) = Unit {0}
IsInhabited null_stat = Unit {0}
IsInhabited (accumulator fs) = Unit {0}

-- An output without its dimensions.
abbrev pub forget : StatCmdOutput → StatCmdOutput
forget out = record out { dimension_sizes = [] }

-- A command at each of some addresses in turn.
unfoldable pub fold_cells : Command → StatCmd → List ℕ → StatCmdOutput × Mem → StatCmdOutput × Mem
fold_cells each cmd [] s = s
fold_cells each cmd (p ∷ ps) s = fold_cells each cmd ps (each p cmd s.0 s.1)

pub fold_cells-append :
    (each : Command) (cmd : StatCmd) (ps qs : List ℕ) (s : StatCmdOutput × Mem)
    → fold_cells each cmd (ps ++ qs) s ≡ fold_cells each cmd qs (fold_cells each cmd ps s)
unfolding fold_cells
fold_cells-append each cmd [] qs s = refl
fold_cells-append each cmd (p ∷ ps) qs s = fold_cells-append each cmd ps qs _
