-- ===== src/Segment/Sides.antt =====
-- The operational and the control side agree on the segment (LogStatBase::init of
-- include/stat_log/util/stat_log_impl.h): they compute the same places.
use stat_log.Base.{ℕ, ◌+◌, ◌≡◌, refl, sym, ap, ap₂, ◌∙◌, Bool, true, false, List, [], ◌∷◌, map}
use stat_log.Memory.{Mem}
use stat_log.Tags.{
  Tag, TagTree, TagNode, leaf_node, parent_node, TagNodes, nil_nodes, cons_nodes, Handle, leaf_kind,
  parent_kind, insert_node, insert_nodes, stat_tag_hierarchy, tag_list_creator,
}
use stat_log.Stats.{StatType}
use stat_log.Segment.{Placed, kind_size, handle_size, set_shm_pointers, init}

-- What both sides know of a handle: its tag and its size.
module _ (types : ℕ → StatType) where
  abbrev sized : Handle → Tag × ℕ
  sized h = (h.tag, handle_size types h)

  leaf_size :
      (is_stat : Bool) (i : ℕ)
      → kind_size types (leaf_kind true is_stat) i ≡ kind_size types (leaf_kind false is_stat) i
  unfolding leaf_kind kind_size
  leaf_size true i = refl
  leaf_size false i = refl

  parent_size :
      (is_stat : Bool) (i : ℕ)
      → kind_size types (parent_kind true is_stat) i ≡ kind_size types (parent_kind false is_stat) i
  unfolding parent_kind kind_size
  parent_size true i = refl
  parent_size false i = refl

  module _ (is_stat : Bool) where
    mutual
      unfolding insert_node

      insert_node-sides :
          (n : TagNode) (acc acc' : List Handle)
          → map sized acc ≡ map sized acc'
          → map sized (insert_node true is_stat acc n)
            ≡ map sized (insert_node false is_stat acc' n)
      insert_node-sides (leaf_node t p d) acc acc' e =
          ap₂ (λ s rest. (t, s) ∷ rest) (leaf_size is_stat t.index) e
      insert_node-sides (parent_node t p d cs) acc acc' e =
          insert_nodes-sides cs _ _ (ap₂ (λ s rest. (t, s) ∷ rest) (parent_size is_stat t.index) e)

      insert_nodes-sides :
          (ns : TagNodes) (acc acc' : List Handle)
          → map sized acc ≡ map sized acc'
          → map sized (insert_nodes true is_stat acc ns)
            ≡ map sized (insert_nodes false is_stat acc' ns)
      insert_nodes-sides nil_nodes acc acc' e = e
      insert_nodes-sides (cons_nodes n ns) acc acc' e =
          insert_nodes-sides ns _ _ (insert_node-sides n acc acc' e)

    list-sides :
        (n : TagNode)
        → map sized (tag_list_creator true is_stat n) ≡ map sized (tag_list_creator false is_stat n)
    unfolding tag_list_creator
    list-sides n = insert_node-sides n [] [] refl

  -- A tag with the address of its handle and the size.
  abbrev pub place : Placed → Tag × ℕ × ℕ
  place a = (a.handle.tag, a.shared_ptr, handle_size types a.handle)

  places_from : ℕ → List (Tag × ℕ) → List (Tag × ℕ × ℕ) × ℕ
  places_from p [] = ([], p)
  places_from p ((t, s) ∷ ts) = ((t, p, s) ∷ (places_from (p + s) ts).0, (places_from (p + s) ts).1)

  -- The places, and the address behind them.
  abbrev placements : ℕ → List Handle → List (Tag × ℕ × ℕ) × ℕ
  placements p hs = (map place ((set_shm_pointers types p hs).0), (set_shm_pointers types p hs).1)

  placements_lem : (p : ℕ) (hs : List Handle) → placements p hs ≡ places_from p (map sized hs)
  unfolding set_shm_pointers places_from
  placements_lem p [] = refl
  placements_lem p (h ∷ hs) =
      ap (λ r. ((h.tag, p, handle_size types h) ∷ r.0, r.1))
        (placements_lem (p + handle_size types h) hs)

  same_places :
      (p q : ℕ) (hs ks : List Handle)
      → p ≡ q
      → map sized hs ≡ map sized ks
      → placements p hs ≡ placements q ks
  same_places p q hs ks e f = placements_lem p hs ∙ ap₂ places_from e f ∙ sym (placements_lem q ks)

  -- For the same trees, from the same start, both sides give every tag the same address and
  -- size, in the list of the statistics and in that of the logs, whatever the memory.
  pub init-sides :
      (start : ℕ) (stat_tree log_tree : TagTree) (m m' : Mem)
      → (map place (init types true start stat_tree log_tree m).stats
          ≡ map place (init types false start stat_tree log_tree m').stats)
        × (map place (init types true start stat_tree log_tree m).logs
            ≡ map place (init types false start stat_tree log_tree m').logs)
  unfolding init
  init-sides start stat_tree log_tree m m' =
      let stats =
        same_places start start _ _ refl (list-sides true (stat_tag_hierarchy stat_tree)) in
      (
        ap (λ r. r.0) stats,
        ap (λ r. r.0)
            (same_places _ _ _ _ (ap (λ r. r.1) stats)
              (list-sides false (stat_tag_hierarchy log_tree))),
      )
