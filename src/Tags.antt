-- ===== src/Tags.antt =====
-- The tag hierarchies of include/stat_log/util/stat_log_impl.h and defs.h: the tree that the user
-- declares, the `TagNode`s that GenTagHierarchy makes of it, and the flat lists `TheStats` and
-- `TheLogs` with one handle for each node.
pub mod Flatten
pub mod Handles
pub mod Depth
mod Tests
use stat_log.Base.{ℕ, ◌+◌, Bool, true, false, List, [], ◌∷◌, Bytes}

-- A tag struct: `index` stands for the type's identity (`std::type_index`), `name` is its SL_NAME.
pub record Tag : Type 0 where
  pub index : ℕ
  pub name : Bytes

-- A tag struct without, and with, a member type `children`.
mutual
  pub data TagTree : Type 0 where
    leaf : Tag → TagTree
    parent : Tag → TagForest → TagTree

  pub data TagForest : Type 0 where
    nil : TagForest
    cons : TagTree → TagForest → TagForest

-- `TagNode<T, P, Depth, C>`; the child list of a leaf is `void`.
mutual
  pub data TagNode : Type 0 where
    leaf_node : Tag → Tag → ℕ → TagNode
    parent_node : Tag → Tag → ℕ → TagNodes → TagNode

  pub data TagNodes : Type 0 where
    nil_nodes : TagNodes
    cons_nodes : TagNode → TagNodes → TagNodes

abbrev pub node_tag : TagNode → Tag
node_tag (leaf_node t p d) = t
node_tag (parent_node t p d c) = t

abbrev pub node_parent : TagNode → Tag
node_parent (leaf_node t p d) = p
node_parent (parent_node t p d c) = p

abbrev pub node_depth : TagNode → ℕ
node_depth (leaf_node t p d) = d
node_depth (parent_node t p d c) = d

-- `GenTagHierarchy<T, Parent, Depth>`: the children are transformed with T and Depth + 1.
unfoldable mutual
  pub gen_tag_hierarchy : TagTree → Tag → ℕ → TagNode
  gen_tag_hierarchy (leaf t) p d = leaf_node t p d
  gen_tag_hierarchy (parent t cs) p d = parent_node t p d (gen_children cs t (d + 1))

  pub gen_children : TagForest → Tag → ℕ → TagNodes
  gen_children nil p d = nil_nodes
  gen_children (cons t ts) p d = cons_nodes (gen_tag_hierarchy t p d) (gen_children ts p d)

-- `TopNode` of LogStatBase, the parent of the root.
abbrev pub top_tag : Tag
top_tag = record { index = 0; name = [] }

unfoldable pub stat_tag_hierarchy : TagTree → TagNode
stat_tag_hierarchy t = gen_tag_hierarchy t top_tag 0

-- The class of a handle.
pub data HandleKind : Type 0 where
  stat_parent op_stat control_stat op_logger control_logger : HandleKind

-- The handle of a node: `tag_node` and the class.
pub record Handle : Type 0 where
  pub kind : HandleKind
  pub tag : Tag

-- `this_node` of stat_log_inserter, for a leaf.
unfoldable pub leaf_kind : Bool → Bool → HandleKind
leaf_kind true true = op_stat
leaf_kind false true = control_stat
leaf_kind true false = op_logger
leaf_kind false false = control_logger

-- `this_node` of tag_list_creator_helper, for a parent: a log parent is a logger of its own.
unfoldable pub parent_kind : Bool → Bool → HandleKind
parent_kind _ true = stat_parent
parent_kind true false = op_logger
parent_kind false false = control_logger

-- `tag_list_creator_helper` and `stat_log_inserter`: push_front of this node, then a fold over the
-- children.
module _ (is_op is_stat : Bool) where
  unfoldable mutual
    pub insert_node : List Handle → TagNode → List Handle
    insert_node acc (leaf_node t p d) = record { kind = leaf_kind is_op is_stat; tag = t } ∷ acc
    insert_node acc (parent_node t p d cs) =
        insert_nodes (record { kind = parent_kind is_op is_stat; tag = t } ∷ acc) cs

    pub insert_nodes : List Handle → TagNodes → List Handle
    insert_nodes acc nil_nodes = acc
    insert_nodes acc (cons_nodes n ns) = insert_nodes (insert_node acc n) ns

  unfoldable pub tag_list_creator : TagNode → List Handle
  tag_list_creator n = insert_node [] n
