-- ===== src/Tags/Tests.antt =====
-- The tags of test/include on a smaller scale, and the theorems about hierarchies at them.
use stat_log.Base.{ltb, ◌≢◌, none, ◌≡◌, refl, some, true, [], ◌∷◌, codes}
use stat_log.Tags.{
  Tag, TagTree, leaf, parent, nil, cons, Handle, op_stat, stat_parent, stat_tag_hierarchy,
  tag_list_creator, node_depth, node_parent, top_tag, gen_tag_hierarchy, insert_node, leaf_kind,
  parent_kind,
}
use stat_log.Tags.Flatten.{preorder}
use stat_log.Tags.Handles.{get_handle, is_found_in_list, count, get_handle_lem}
use stat_log.Tags.Depth.{IsWellFormed, declared, stat_tag_hierarchy_lem}

abbrev mac : Tag
mac = record { index = 2; name = codes "MAC_STATS" }

abbrev sis : Tag
sis = record { index = 3; name = codes "SIS_STAT" }

abbrev ip : Tag
ip = record { index = 4; name = codes "IP_PKTS_SENT" }

abbrev top : Tag
top = record { index = 1; name = codes "TOP_STAT" }

abbrev tree : TagTree
tree = parent top (cons (parent mac (cons (leaf ip) nil)) (cons (leaf sis) nil))

list_run :
    tag_list_creator true true (stat_tag_hierarchy tree)
    ≡ record { kind = op_stat; tag = sis }
      ∷ record { kind = op_stat; tag = ip }
      ∷ record { kind = stat_parent; tag = mac }
      ∷ record { kind = stat_parent; tag = top }
      ∷ []
unfolding tag_list_creator stat_tag_hierarchy gen_tag_hierarchy insert_node leaf_kind parent_kind
list_run = refl

get_handle_lem_example :
    (count 4 (preorder (stat_tag_hierarchy tree)) ≡ 1
      → (h : Handle) × (get_handle 4 (tag_list_creator true true (stat_tag_hierarchy tree))
          ≡ some h)
        × (h.tag.index ≡ 4))
    × (count 4 (preorder (stat_tag_hierarchy tree)) ≢ 1
        → get_handle 4 (tag_list_creator true true (stat_tag_hierarchy tree)) ≡ none)
    × (is_found_in_list 4 (tag_list_creator true true (stat_tag_hierarchy tree))
        ≡ ltb 0 (count 4 (preorder (stat_tag_hierarchy tree))))
get_handle_lem_example = get_handle_lem true true (stat_tag_hierarchy tree) 4

stat_tag_hierarchy_lem_example :
    IsWellFormed (stat_tag_hierarchy tree)
    × (node_depth (stat_tag_hierarchy tree) ≡ 0)
    × (node_parent (stat_tag_hierarchy tree) ≡ top_tag)
    × (declared (stat_tag_hierarchy tree) ≡ tree)
stat_tag_hierarchy_lem_example = stat_tag_hierarchy_lem tree
