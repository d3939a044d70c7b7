-- ===== src/Segment/Lookup.antt =====
-- Looking a handle up in the lists of a segment (getHandle of include/stat_log/stat_log.h): the handle
-- found is in the list and has the tag, and the lists hold the classes of their side only.
use stat_log.Base.{
  ℕ, zero, suc, ◌+◌, ◌<◌, ◌≡◌, refl, sym, ap, ◌∙◌, Bool, Bool-cases, inl, inr, some, List, [], ◌∷◌,
  map, get_elem?, All, arith, ◌==◌, if◌then◌else◌, subst_some, >>=-eq-some, get_elem?-map,
}
use stat_log.Tags.{
  Tag, TagNode, leaf_node, parent_node, TagNodes, nil_nodes, cons_nodes, Handle, leaf_kind,
  parent_kind, insert_node, insert_nodes, tag_list_creator,
}
use stat_log.Tags.Flatten.{tags_of}
use stat_log.Tags.Handles.{get_handle, get_handle-some, count}
use stat_log.Stats.{StatType}
use stat_log.Segment.{Placed, first_placed, get_placed, set_shm_pointers, handle_size}

-- The handles of a list with places.
abbrev pub handles_of : List Placed → List Handle
handles_of ps = map (λ a. a.handle) ps

pub handles_of-set_shm_pointers :
    (types : ℕ → StatType) (p : ℕ) (hs : List Handle)
    → handles_of ((set_shm_pointers types p hs).0) ≡ hs
unfolding set_shm_pointers
handles_of-set_shm_pointers types p [] = refl
handles_of-set_shm_pointers types p (h ∷ hs) =
    ap (λ rest. h ∷ rest) (handles_of-set_shm_pointers types (p + handle_size types h) hs)

-- A handle that a look-up gives.
pub record IsFound (i : ℕ) (ps : List Placed) (a : Placed) : Type 0 where
  pub index : a.handle.tag.index ≡ i
  pub position : ℕ
  pub member : get_elem? ps position ≡ some a

first_placed-IsFound :
    (i : ℕ) (ps : List Placed) (a : Placed) → first_placed i ps ≡ some a → IsFound i ps a
unfolding first_placed
first_placed-IsFound i [] a e = cc
first_placed-IsFound i (b ∷ ps) a e = elim (Bool-cases (b.handle.tag.index == i)) [
  | inl same ↦
      subst_some (IsFound i (b ∷ ps)) b a
        (ap (λ t. if t then some b else first_placed i ps) (sym same) ∙ e)
        (record { index = ground (arith, same); position = 0; member = refl })
  | inr other ↦
      let found =
        first_placed-IsFound i ps a
          (ap (λ t. if t then some b else first_placed i ps) (sym other) ∙ e) in
      record { index = found.index; position = suc found.position; member = found.member }
]

-- What a look-up gives is in the list.
pub get_placed-IsFound :
    (i : ℕ) (ps : List Placed) (a : Placed) → get_placed i ps ≡ some a → IsFound i ps a
unfolding get_placed
get_placed-IsFound i ps a e =
    let (h, _, e') = >>=-eq-some (get_handle i (handles_of ps)) _ e in
    first_placed-IsFound i ps a e'

first_placed_lem :
    (i : ℕ) (ps : List Placed)
    → 0 < count i (tags_of (handles_of ps))
    → (a : Placed) × (first_placed i ps ≡ some a) × IsFound i ps a
unfolding first_placed count
first_placed_lem i [] h = absurd (omega arith)
first_placed_lem i (a ∷ ps) h = elim (Bool-cases (a.handle.tag.index == i)) [
  | inl same ↦ (
    a,
    ap (λ t. if t then some a else first_placed i ps) same,
    record { index = ground (arith, same); position = 0; member = refl },
  )
  | inr other ↦
      let (b, e, found) = first_placed_lem i ps (ground (arith, h, other)) in
      (
        b,
        ap (λ t. if t then some a else first_placed i ps) other ∙ e,
        record { index = found.index; position = suc found.position; member = found.member },
      )
]

-- A tag that occurs once is found.
pub get_placed_lem :
    (i : ℕ) (ps : List Placed)
    → count i (tags_of (handles_of ps)) ≡ 1
    → (a : Placed) × (get_placed i ps ≡ some a) × IsFound i ps a
unfolding get_placed
get_placed_lem i ps once =
    let (h, e) = get_handle-some i (handles_of ps) once in
    let (a, f, found) = first_placed_lem i ps (omega (arith, once)) in (a, rw e f, found)

All-get_elem? :
    {A : Type 0} (P : A → Type 0) (xs : List A) (i : ℕ) (v : A)
    → All P xs
    → get_elem? xs i ≡ some v
    → P v
All-get_elem? P [] i v h e = cc
All-get_elem? P (x ∷ xs) zero v (px, h) e = subst_some P x v e px
All-get_elem? P (x ∷ xs) (suc i) v (px, h) e = All-get_elem? P xs i v h e

-- What holds of all handles holds of one that was found.
pub IsFound-All :
    (P : Handle → Type 0) (i : ℕ) (ps : List Placed) (a : Placed)
    → All P (handles_of ps)
    → IsFound i ps a
    → P a.handle
IsFound-All P i ps a h found =
    All-get_elem? P (handles_of ps) found.position a.handle h
      (get_elem?-map (λ x. x.handle) ps found.position a found.member)

-- Every handle of a list has the class of a leaf or of a parent.
module _ (P : Handle → Type 0) (is_op is_stat : Bool)
    (leaf : (t : Tag) → P (record { kind = leaf_kind is_op is_stat; tag = t }))
    (parent : (t : Tag) → P (record { kind = parent_kind is_op is_stat; tag = t })) where
  mutual
    unfolding insert_node

    insert_node-All :
        (n : TagNode) (acc : List Handle) → All P acc → All P (insert_node is_op is_stat acc n)
    insert_node-All (leaf_node t p d) acc h = (leaf t, h)
    insert_node-All (parent_node t p d cs) acc h = insert_nodes-All cs _ (parent t, h)

    insert_nodes-All :
        (ns : TagNodes) (acc : List Handle) → All P acc → All P (insert_nodes is_op is_stat acc ns)
    insert_nodes-All nil_nodes acc h = h
    insert_nodes-All (cons_nodes n ns) acc h = insert_nodes-All ns _ (insert_node-All n acc h)

  pub tag_list_creator-All : (n : TagNode) → All P (tag_list_creator is_op is_stat n)
  unfolding tag_list_creator
  tag_list_creator-All n = insert_node-All n [] tt
