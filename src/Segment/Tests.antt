-- ===== src/Segment/Tests.antt =====
-- A segment with two statistics and two logs, and the theorems about segments at it.
use stat_log.Base.{
  ℕ, ◌+◌, ◌≤◌, ◌≡◌, refl, true, false, [], ◌∷◌, codes, map, arith, if◌then◌else◌, ◌==◌,
}
use stat_log.Memory.{Mem}
use stat_log.Tags.{
  Tag, TagTree, leaf, parent, nil, cons, op_stat, op_logger, insert_node, gen_tag_hierarchy,
  leaf_kind, parent_kind, stat_parent,
}
use stat_log.Stats.{StatType, simple_counter, int_repr, stat_array}
use stat_log.Segment.{Placed, init, kind_size}
use stat_log.Segment.Places.{total_size, init_bounds, init_apart, size_of}
use stat_log.Segment.Sides.{place, init-sides}
use stat_log.Segment.Init.{init_zero}

abbrev tag : ℕ → Tag
tag i = record { index = i; name = codes "TAG" }

abbrev stat_tree : TagTree
stat_tree = parent (tag 1) (cons (leaf (tag 2)) (cons (leaf (tag 3)) nil))

abbrev log_tree : TagTree
log_tree = parent (tag 5) (cons (leaf (tag 6)) nil)

abbrev types : ℕ → StatType
types i = if i == 3 then stat_array 2 (simple_counter int_repr) else simple_counter int_repr

abbrev garbage : Mem
garbage a = a + 7

abbrev counters : Placed
counters = record { handle = record { kind = op_stat; tag = tag 3 }; shared_ptr = 100 }

abbrev counter : Placed
counter = record { handle = record { kind = op_stat; tag = tag 2 }; shared_ptr = 108 }

abbrev logger : Placed
logger = record { handle = record { kind = op_logger; tag = tag 6 }; shared_ptr = 112 }

stats_run :
    (init types true 100 stat_tree log_tree garbage).stats
    ≡ counters
      ∷ counter
      ∷ record { handle = record { kind = stat_parent; tag = tag 1 }; shared_ptr = 112 }
      ∷ []
unfolding init insert_node gen_tag_hierarchy leaf_kind parent_kind
stats_run = refl

-- The control side finds the memory as it is.
control_run : (init types false 100 stat_tree log_tree garbage).memory 100 ≡ 107
unfolding init insert_node gen_tag_hierarchy leaf_kind parent_kind
control_run = refl

init_bounds_example :
    (100 ≤ 108) × (108 + size_of types counter ≤ 100 + total_size types true stat_tree log_tree)
unfolding init insert_node gen_tag_hierarchy leaf_kind parent_kind kind_size
init_bounds_example = init_bounds types true 100 stat_tree log_tree garbage 1 counter refl

init_apart_example : 108 + size_of types counter ≤ 112
unfolding init insert_node gen_tag_hierarchy leaf_kind parent_kind kind_size
init_apart_example =
    init_apart types true 100 stat_tree log_tree garbage 1 3 counter logger (omega arith) refl refl

init-sides_example :
    (map (place types) (init types true 100 stat_tree log_tree garbage).stats
      ≡ map (place types) (init types false 100 stat_tree log_tree garbage).stats)
    × (map (place types) (init types true 100 stat_tree log_tree garbage).logs
        ≡ map (place types) (init types false 100 stat_tree log_tree garbage).logs)
init-sides_example = init-sides types 100 stat_tree log_tree garbage garbage

init_zero_example : (init types true 100 stat_tree log_tree garbage).memory 105 ≡ 0
unfolding init insert_node gen_tag_hierarchy leaf_kind parent_kind kind_size
init_zero_example =
    init_zero types 100 stat_tree log_tree garbage 0 105 counters refl refl (omega arith)
      (omega arith)
