-- ===== src/Commander/Tests.antt =====
-- Commands sent into a small hierarchy, with the tags that they reach recorded in order.
use stat_log.Base.{ℕ, ◌≡◌, refl, some, Option, List, [], ◌∷◌, ◌++◌, codes, arith, text_eq, is_empty}
use stat_log.Command.{dump_stat}
use stat_log.Tags.{Tag, TagNode, leaf_node, parent_node, nil_nodes, cons_nodes, node_tag}
use stat_log.Commander.{tag_commander, get_head_tail, find, process_command, go}
use stat_log.Commander.Select.{select, dotted, run, tag_commander-select, IsDotFree}

abbrev a_tag : Tag
a_tag = record { index = 1; name = codes "A" }

abbrev b_tag : Tag
b_tag = record { index = 2; name = codes "B" }

abbrev c_tag : Tag
c_tag = record { index = 3; name = codes "C" }

abbrev nodes : TagNode
nodes =
    parent_node a_tag a_tag 0
      (cons_nodes (leaf_node b_tag a_tag 1) (cons_nodes (leaf_node c_tag a_tag 1) nil_nodes))

abbrev note : TagNode → List ℕ → Option (List ℕ)
note n s = some (s ++ (node_tag n).index ∷ [])

path_run : tag_commander note nodes (codes "A.C") dump_stat [] ≡ some (3 ∷ [])
unfolding tag_commander get_head_tail find text_eq is_empty process_command go
path_run = refl

nodes-IsDotFree : IsDotFree nodes
unfolding IsDotFree
nodes-IsDotFree = omega arith

tag_commander-select_example :
    tag_commander note nodes (dotted (codes "A") (codes "C" ∷ [])) dump_stat []
    ≡ run note (select (codes "A") (codes "C" ∷ []) nodes) []
tag_commander-select_example =
    tag_commander-select note nodes (codes "A") (codes "C" ∷ []) dump_stat [] (cc) nodes-IsDotFree
      ((cc), omega arith) (((cc), omega arith), tt)
