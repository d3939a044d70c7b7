-- ===== src/Tags/Depth.antt =====
-- What GenTagHierarchy records in each `TagNode`.
use stat_log.Base.{ℕ, ◌+◌, ◌≡◌, refl, ap, ap₂}
use stat_log.Tags.{
  Tag, TagTree, leaf, parent, TagForest, nil, cons, TagNode, leaf_node, parent_node, TagNodes,
  nil_nodes, cons_nodes, node_parent, node_depth, gen_tag_hierarchy, gen_children,
  stat_tag_hierarchy, top_tag,
}

-- The children of a node name it as their parent and stand one level below it, throughout.
mutual
  pub IsWellFormed : TagNode → Type 0
  IsWellFormed (leaf_node t p d) = Unit
  IsWellFormed (parent_node t p d cs) = AreChildren t (d + 1) cs

  pub AreChildren : Tag → ℕ → TagNodes → Type 0
  AreChildren p d nil_nodes = Unit
  AreChildren p d (cons_nodes n ns) =
      (node_parent n ≡ p) × (node_depth n ≡ d) × IsWellFormed n × AreChildren p d ns

-- The declaration that a node stands for.
mutual
  pub declared : TagNode → TagTree
  declared (leaf_node t p d) = leaf t
  declared (parent_node t p d cs) = parent t (declared_children cs)

  pub declared_children : TagNodes → TagForest
  declared_children nil_nodes = nil
  declared_children (cons_nodes n ns) = cons (declared n) (declared_children ns)

mutual
  unfolding gen_tag_hierarchy IsWellFormed

  hierarchy-IsWellFormed : (t : TagTree) (p : Tag) (d : ℕ) → IsWellFormed (gen_tag_hierarchy t p d)
  hierarchy-IsWellFormed (leaf t) p d = tt
  hierarchy-IsWellFormed (parent t cs) p d = children-AreChildren cs t (d + 1)

  children-AreChildren : (ts : TagForest) (p : Tag) (d : ℕ) → AreChildren p d (gen_children ts p d)
  children-AreChildren nil p d = tt
  children-AreChildren (cons (leaf t) ts) p d = (refl, refl, tt, children-AreChildren ts p d)
  children-AreChildren (cons (parent t cs) ts) p d =
      (refl, refl, children-AreChildren cs t (d + 1), children-AreChildren ts p d)

mutual
  unfolding gen_tag_hierarchy declared

  declared-hierarchy : (t : TagTree) (p : Tag) (d : ℕ) → declared (gen_tag_hierarchy t p d) ≡ t
  declared-hierarchy (leaf t) p d = refl
  declared-hierarchy (parent t cs) p d = ap (parent t) (declared-children cs t (d + 1))

  declared-children :
      (ts : TagForest) (p : Tag) (d : ℕ) → declared_children (gen_children ts p d) ≡ ts
  declared-children nil p d = refl
  declared-children (cons t ts) p d = ap₂ cons (declared-hierarchy t p d) (declared-children ts p d)

-- The hierarchy generated from any declared tree starts at depth 0 below the top node, gives every
-- child its parent's tag and a depth one greater, and drops, adds or reorders no tag.
pub stat_tag_hierarchy_lem :
    (t : TagTree)
    → IsWellFormed (stat_tag_hierarchy t)
      × (node_depth (stat_tag_hierarchy t) ≡ 0)
      × (node_parent (stat_tag_hierarchy t) ≡ top_tag)
      × (declared (stat_tag_hierarchy t) ≡ t)
unfolding stat_tag_hierarchy gen_tag_hierarchy
stat_tag_hierarchy_lem (leaf t) =
    (hierarchy-IsWellFormed (leaf t) top_tag 0, refl, refl, declared-hierarchy (leaf t) top_tag 0)
stat_tag_hierarchy_lem (parent t cs) = (
  hierarchy-IsWellFormed (parent t cs) top_tag 0,
  refl,
  refl,
  declared-hierarchy (parent t cs) top_tag 0,
)
