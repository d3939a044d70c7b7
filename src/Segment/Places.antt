-- ===== src/Segment/Places.antt =====
-- Where the handles of a segment lie (LogStatBase::init of include/stat_log/util/stat_log_impl.h):
-- inside it, and apart.
use stat_log.Base.{
  ℕ, zero, suc, ◌+◌, ◌≤◌, ◌<◌, ◌≡◌, refl, sym, ap, ◌∙◌, Bool, true, false, some, List, [], ◌∷◌,
  ◌++◌, get_elem?, subst_some, arith,
}
use stat_log.Memory.{Mem}
use stat_log.Tags.{TagTree, Handle, stat_tag_hierarchy, tag_list_creator}
use stat_log.Stats.{StatType}
use stat_log.Segment.{Placed, Segment, handle_size, add_sizes, set_shm_pointers, init}

module _ (types : ℕ → StatType) where
  -- The sizes of some handles, added up.
  unfoldable pub sizes : List Handle → ℕ
  sizes [] = 0
  sizes (h ∷ hs) = handle_size types h + sizes hs

  pub add_sizes_lem : (total : ℕ) (hs : List Handle) → add_sizes types total hs ≡ total + sizes hs
  unfolding add_sizes sizes
  add_sizes_lem total [] = omega arith
  add_sizes_lem total (h ∷ hs) = add_sizes_lem (total + handle_size types h) hs ∙ omega arith

  pub end_lem : (p : ℕ) (hs : List Handle) → (set_shm_pointers types p hs).1 ≡ p + sizes hs
  unfolding set_shm_pointers sizes
  end_lem p [] = omega arith
  end_lem p (h ∷ hs) = end_lem (p + handle_size types h) hs ∙ omega arith

  pub places-append :
      (p : ℕ) (hs ks : List Handle)
      → (set_shm_pointers types p hs).0
          ++ (set_shm_pointers types ((set_shm_pointers types p hs).1) ks).0
        ≡ (set_shm_pointers types p (hs ++ ks)).0
  unfolding set_shm_pointers
  places-append p [] ks = refl
  places-append p (h ∷ hs) ks =
      ap (λ rest. record { handle = h; shared_ptr = p } ∷ rest)
        (places-append (p + handle_size types h) hs ks)

  -- The bytes of a placed handle.
  abbrev pub size_of : Placed → ℕ
  size_of a = handle_size types a.handle

  pub places_inside :
      (p i : ℕ) (hs : List Handle) (a : Placed)
      → get_elem? ((set_shm_pointers types p hs).0) i ≡ some a
      → (p ≤ a.shared_ptr) × (a.shared_ptr + size_of a ≤ p + sizes hs)
  unfolding set_shm_pointers sizes
  places_inside p i [] a e = cc
  places_inside p zero (h ∷ hs) a e =
      subst_some
        (λ x.
          (p ≤ x.shared_ptr) × (x.shared_ptr + size_of x ≤ p + (handle_size types h + sizes hs)))
        (record { handle = h; shared_ptr = p }) a e (omega arith, omega arith)
  places_inside p (suc i) (h ∷ hs) a e =
      let ih = places_inside (p + handle_size types h) i hs a e in
      (omega (arith, ih.0), omega (arith, ih.1))

  pub places_apart :
      (p i j : ℕ) (hs : List Handle) (a b : Placed)
      → i < j
      → get_elem? ((set_shm_pointers types p hs).0) i ≡ some a
      → get_elem? ((set_shm_pointers types p hs).0) j ≡ some b
      → a.shared_ptr + size_of a ≤ b.shared_ptr
  unfolding set_shm_pointers
  places_apart p i j [] a b lt e f = cc
  places_apart p i zero (h ∷ hs) a b lt e f = absurd (omega arith)
  places_apart p zero (suc j) (h ∷ hs) a b lt e f =
      let behind = (places_inside (p + handle_size types h) j hs b f).0 in
      subst_some (λ x. x.shared_ptr + size_of x ≤ b.shared_ptr)
        (record { handle = h; shared_ptr = p }) a e behind
  places_apart p (suc i) (suc j) (h ∷ hs) a b lt e f =
      places_apart (p + handle_size types h) i j hs a b (omega arith) e f

-- All handles of a segment, the statistics first.
abbrev pub handles : Segment → List Placed
handles s = s.stats ++ s.logs

-- The bytes that init asks for.
abbrev pub total_size : (ℕ → StatType) → Bool → TagTree → TagTree → ℕ
total_size types is_op stat_tree log_tree =
    add_sizes types (add_sizes types 0 (tag_list_creator is_op true (stat_tag_hierarchy stat_tree)))
      (tag_list_creator is_op false (stat_tag_hierarchy log_tree))

module _ (types : ℕ → StatType) (is_op : Bool) (start : ℕ) (stat_tree log_tree : TagTree)
    (m : Mem) where
  abbrev pub the_handles : List Handle
  the_handles =
      tag_list_creator is_op true (stat_tag_hierarchy stat_tree)
      ++ tag_list_creator is_op false (stat_tag_hierarchy log_tree)

  abbrev pub segment : Segment
  segment = init types is_op start stat_tree log_tree m

  pub handles-init : handles segment ≡ (set_shm_pointers types start the_handles).0
  unfolding init
  handles-init = places-append types start _ _

  sizes-append : (hs ks : List Handle) → sizes types (hs ++ ks) ≡ sizes types hs + sizes types ks
  unfolding sizes
  sizes-append [] ks = omega arith
  sizes-append (h ∷ hs) ks = omega (arith, sizes-append hs ks)

  pub total_size_lem : total_size types is_op stat_tree log_tree ≡ sizes types the_handles
  total_size_lem =
      let hs = tag_list_creator is_op true (stat_tag_hierarchy stat_tree) in
      let ks = tag_list_creator is_op false (stat_tag_hierarchy log_tree) in
      add_sizes_lem types (add_sizes types 0 hs) ks
      ∙ ap (λ k. k + sizes types ks) (add_sizes_lem types 0 hs)
      ∙ omega (arith, sizes-append hs ks)

  -- Every handle of a segment lies inside the bytes that init asks for, whatever the trees and the
  -- types of the statistics.
  pub init_bounds :
      (i : ℕ) (a : Placed)
      → get_elem? (handles segment) i ≡ some a
      → (start ≤ a.shared_ptr)
        × (a.shared_ptr + size_of types a ≤ start + total_size types is_op stat_tree log_tree)
  init_bounds i a e =
      let inside =
        places_inside types start i the_handles a
          (ap (λ hs. get_elem? hs i) (sym handles-init) ∙ e) in
      (inside.0, omega (arith, inside.1, total_size_lem))

  -- Of any two handles of a segment, statistics and logs together, the bytes of the one lie before
  -- those of the other.
  pub init_apart :
      (i j : ℕ) (a b : Placed)
      → i < j
      → get_elem? (handles segment) i ≡ some a
      → get_elem? (handles segment) j ≡ some b
      → a.shared_ptr + size_of types a ≤ b.shared_ptr
  init_apart i j a b lt e f =
      places_apart types start i j the_handles a b lt
        (ap (λ hs. get_elem? hs i) (sym handles-init) ∙ e)
        (ap (λ hs. get_elem? hs j) (sym handles-init) ∙ f)
