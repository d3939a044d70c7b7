-- ===== src/Tags/Flatten.antt =====
-- What the fold of tag_list_creator computes: the nodes in reverse depth-first order.
use mathlib.Core.List.{reverse, reverse_aux}
use stat_log.Base.{◌≡◌, refl, Bool, List, [], ◌∷◌, ◌++◌, map}
use stat_log.Tags.{
  Tag, TagNode, leaf_node, parent_node, TagNodes, nil_nodes, cons_nodes, Handle, insert_node,
  insert_nodes, tag_list_creator,
}

-- A node before its children, the children in order.
unfoldable mutual
  pub preorder : TagNode → List Tag
  preorder (leaf_node t p d) = t ∷ []
  preorder (parent_node t p d cs) = t ∷ preorder_nodes cs

  pub preorder_nodes : TagNodes → List Tag
  preorder_nodes nil_nodes = []
  preorder_nodes (cons_nodes n ns) = preorder n ++ preorder_nodes ns

abbrev pub tags_of : List Handle → List Tag
tags_of hs = map (λ h. h.tag) hs

pub reverse_aux-append {ℓ} :
    {A : Type ℓ} (xs ys zs : List A)
    → reverse_aux (xs ++ ys) zs ≡ reverse_aux ys (reverse_aux xs zs)
reverse_aux-append [] ys zs = refl
reverse_aux-append (x ∷ xs) ys zs = reverse_aux-append xs ys (x ∷ zs)

module _ (is_op is_stat : Bool) where
  mutual
    unfolding insert_node preorder

    tags_of-insert_node :
        (n : TagNode) (acc : List Handle)
        → tags_of (insert_node is_op is_stat acc n) ≡ reverse_aux (preorder n) (tags_of acc)
    tags_of-insert_node (leaf_node t p d) acc = refl
    tags_of-insert_node (parent_node t p d cs) acc = tags_of-insert_nodes cs _

    tags_of-insert_nodes :
        (ns : TagNodes) (acc : List Handle)
        → tags_of (insert_nodes is_op is_stat acc ns)
          ≡ reverse_aux (preorder_nodes ns) (tags_of acc)
    tags_of-insert_nodes nil_nodes acc = refl
    tags_of-insert_nodes (cons_nodes n ns) acc = rw (
      tags_of-insert_nodes ns (insert_node is_op is_stat acc n),
      tags_of-insert_node n acc,
      reverse_aux-append,
    )

  -- Whether for the operational or the control side, for statistics or for logs, the flat list holds
  -- each node of the hierarchy once, in reverse depth-first order.
  pub tags_of-tag_list_creator :
      (n : TagNode) → tags_of (tag_list_creator is_op is_stat n) ≡ reverse (preorder n)
  unfolding tag_list_creator
  tags_of-tag_list_creator n = tags_of-insert_node n []
