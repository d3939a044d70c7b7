-- ===== src/Segment/Init.antt =====
-- The memory that the operational side's init leaves behind (LogStatBase::init of
-- include/stat_log/util/stat_log_impl.h, setParams of src/shared_mem_backend.cpp and
-- LogOpProxy::setSharedPtr of include/stat_log/loggers/logger_common.h).
use native.Mathlib.Decide.{dec_lt}
use stat_log.Base.{
  ℕ, zero, suc, ◌+◌, ◌≤◌, ◌<◌, ◌≡◌, refl, sym, ap, ◌∙◌, inl, inr, true, some, List, [], ◌∷◌, ◌++◌,
  get_elem?, subst_some, length-replicate, replicate, arith,
}
use stat_log.Memory.{
  Mem, put, store, SameOutside, SameOutside-refl, SameOutside-trans, SameOutside-widen,
  store-SameOutside,
}
use stat_log.Tags.{
  TagTree, Handle, HandleKind, stat_parent, op_stat, control_stat, op_logger, control_logger,
}
use stat_log.Stats.{StatType}
use stat_log.Levels.{info, num_loggers, set_shared_ptr}
use stat_log.Segment.{
  Placed, Segment, handle_size, kind_size, set_shm_pointers, set_shared_ptrs, kind_set_shared_ptr,
  set_params, init,
}
use stat_log.Segment.Places.{
  sizes, size_of, handles, segment, total_size, the_handles, handles-init, places_inside,
  total_size_lem,
}

set_shared_ptr-SameOutside : (p : ℕ) (m : Mem) → SameOutside p num_loggers m (set_shared_ptr p m)
unfolding set_shared_ptr
set_shared_ptr-SameOutside p m a (inl h) = ground arith
set_shared_ptr-SameOutside p m a (inr h) = ground arith

set_shared_ptr_at : (p j : ℕ) (m : Mem) → j < num_loggers → set_shared_ptr p m (p + j) ≡ info
unfolding set_shared_ptr
set_shared_ptr_at p j m h = ground arith

stat_unset : (p : ℕ) (m : Mem) → kind_set_shared_ptr op_stat p m ≡ m
unfolding kind_set_shared_ptr
stat_unset p m = refl

logger_level :
    (p j : ℕ) (m : Mem) → j < num_loggers → kind_set_shared_ptr op_logger p m (p + j) ≡ info
unfolding kind_set_shared_ptr
logger_level p j m lt = set_shared_ptr_at p j m lt

module _ (types : ℕ → StatType) where
  kind-SameOutside :
      (k : HandleKind) (i p : ℕ) (m : Mem)
      → SameOutside p (kind_size types k i) m (kind_set_shared_ptr k p m)
  unfolding kind_set_shared_ptr kind_size
  kind-SameOutside stat_parent i p m = SameOutside-refl p 0 m
  kind-SameOutside op_stat i p m = SameOutside-refl p _ m
  kind-SameOutside control_stat i p m = SameOutside-refl p _ m
  kind-SameOutside op_logger i p m = set_shared_ptr-SameOutside p m
  kind-SameOutside control_logger i p m = SameOutside-refl p _ m

  ptrs-SameOutside :
      (p : ℕ) (hs : List Handle) (m : Mem)
      → SameOutside p (sizes types hs) m (set_shared_ptrs ((set_shm_pointers types p hs).0) m)
  unfolding set_shared_ptrs set_shm_pointers sizes
  ptrs-SameOutside p [] m = SameOutside-refl p 0 m
  ptrs-SameOutside p (h ∷ hs) m =
      let s = handle_size types h in
      let n = s + sizes types hs in
      SameOutside-trans p n
        (SameOutside-widen p n p s (omega arith) (omega arith)
          (kind-SameOutside h.kind h.tag.index p m))
        (SameOutside-widen p n (p + s) (sizes types hs) (omega arith) (omega arith)
          (ptrs-SameOutside (p + s) hs (kind_set_shared_ptr h.kind p m)))

  -- A logger's levels are set, and what comes later leaves them alone.
  ptrs_level :
      (p i j : ℕ) (hs : List Handle) (m : Mem) (a : Placed)
      → get_elem? ((set_shm_pointers types p hs).0) i ≡ some a
      → a.handle.kind ≡ op_logger
      → j < num_loggers
      → set_shared_ptrs ((set_shm_pointers types p hs).0) m (a.shared_ptr + j) ≡ info
  unfolding set_shared_ptrs set_shm_pointers
  ptrs_level p i j [] m a e k lt = cc
  ptrs_level p zero j (h ∷ hs) m a e k lt =
      subst_some
        (λ x.
          x.handle.kind ≡ op_logger
          → set_shared_ptrs ((set_shm_pointers types (p + handle_size types h) hs).0)
              (kind_set_shared_ptr h.kind p m) (x.shared_ptr + j)
            ≡ info)
        (record { handle = h; shared_ptr = p }) a e
        (λ kh.
          let size : handle_size types h ≡ num_loggers =
            ap (λ x. kind_size types x h.tag.index) kh ∙ unfold kind_size in refl in
          ptrs-SameOutside (p + handle_size types h) hs (kind_set_shared_ptr h.kind p m) (p + j)
            (inl (omega (arith, size, lt)))
          ∙ ap (λ x. kind_set_shared_ptr x p m (p + j)) kh
          ∙ logger_level p j m lt)
        k
  ptrs_level p (suc i) j (h ∷ hs) m a e k lt =
      ptrs_level (p + handle_size types h) i j hs (kind_set_shared_ptr h.kind p m) a e k lt

  -- Any other handle's bytes are left alone.
  ptrs_other :
      (p i x : ℕ) (hs : List Handle) (m : Mem) (a : Placed)
      → get_elem? ((set_shm_pointers types p hs).0) i ≡ some a
      → ((w : Mem) → kind_set_shared_ptr a.handle.kind a.shared_ptr w ≡ w)
      → a.shared_ptr ≤ x
      → x < a.shared_ptr + size_of types a
      → set_shared_ptrs ((set_shm_pointers types p hs).0) m x ≡ m x
  unfolding set_shared_ptrs set_shm_pointers
  ptrs_other p i x [] m a e k le lt = cc
  ptrs_other p zero x (h ∷ hs) m a e k le lt =
      subst_some
        (λ y.
          ((w : Mem) → kind_set_shared_ptr y.handle.kind y.shared_ptr w ≡ w)
          → y.shared_ptr ≤ x
          → x < y.shared_ptr + size_of types y
          → set_shared_ptrs ((set_shm_pointers types (p + handle_size types h) hs).0)
              (kind_set_shared_ptr h.kind p m) x
            ≡ m x)
        (record { handle = h; shared_ptr = p }) a e
        (λ kh ge below.
          ptrs-SameOutside (p + handle_size types h) hs (kind_set_shared_ptr h.kind p m) x
            (inl below)
          ∙ ap (λ w. w x) (kh m))
        k le lt
  ptrs_other p (suc i) x (h ∷ hs) m a e k le lt =
      let inside = places_inside types (p + handle_size types h) i hs a e in
      ptrs_other (p + handle_size types h) i x hs (kind_set_shared_ptr h.kind p m) a e k le lt
      ∙ kind-SameOutside h.kind h.tag.index p m x (inr (omega (arith, inside.0, le)))

set_shared_ptrs-append :
    (hs ks : List Placed) (m : Mem)
    → set_shared_ptrs (hs ++ ks) m ≡ set_shared_ptrs ks (set_shared_ptrs hs m)
unfolding set_shared_ptrs
set_shared_ptrs-append [] ks m = refl
set_shared_ptrs-append (h ∷ hs) ks m =
    set_shared_ptrs-append hs ks (kind_set_shared_ptr h.handle.kind h.shared_ptr m)

store-replicate : (m : Mem) (p n x : ℕ) → p ≤ x → x < p + n → store m p (replicate n 0) x ≡ 0
unfolding store
store-replicate m p zero x le lt = absurd (omega arith)
store-replicate m p (suc n) x le lt = elim (dec_lt p x) [
  | yes h ↦ store-replicate (put m p 0) (p + 1) n x (omega arith) (omega arith)
  | no h ↦
      store-SameOutside (put m p 0) (p + 1) (replicate n 0) n
        (omega (arith, length-replicate {A = ℕ} n 0)) x (inl (omega arith))
      ∙ ground arith
]

module _ (types : ℕ → StatType) (start : ℕ) (stat_tree log_tree : TagTree) (m : Mem) where
  abbrev the_segment : Segment
  the_segment = segment types true start stat_tree log_tree m

  abbrev cleared : Mem
  cleared = store m start (replicate (total_size types true stat_tree log_tree) 0)

  memory_lem :
      the_segment.memory
      ≡ set_shared_ptrs
          ((set_shm_pointers types start (the_handles types true start stat_tree log_tree m)).0)
          cleared
  unfolding init set_params
  memory_lem =
      sym (set_shared_ptrs-append the_segment.stats the_segment.logs cleared)
      ∙ ap (λ hs. set_shared_ptrs hs cleared) (handles-init types true start stat_tree log_tree m)

  -- After the operational side's init every level of every logger is INFO.
  init_level :
      (i j : ℕ) (a : Placed)
      → get_elem? (handles the_segment) i ≡ some a
      → a.handle.kind ≡ op_logger
      → j < num_loggers
      → the_segment.memory (a.shared_ptr + j) ≡ info
  init_level i j a e k lt =
      ap (λ w. w (a.shared_ptr + j)) memory_lem
      ∙ ptrs_level types start i j _ cleared a
          (ap (λ hs. get_elem? hs i) (sym (handles-init types true start stat_tree log_tree m)) ∙ e)
          k lt

  -- After the operational side's init every byte of every statistic is 0, whatever was in the memory.
  pub init_zero :
      (i x : ℕ) (a : Placed)
      → get_elem? (handles the_segment) i ≡ some a
      → a.handle.kind ≡ op_stat
      → a.shared_ptr ≤ x
      → x < a.shared_ptr + size_of types a
      → the_segment.memory x ≡ 0
  init_zero i x a e k le lt =
      let at =
        ap (λ hs. get_elem? hs i) (sym (handles-init types true start stat_tree log_tree m)) ∙ e in
      let inside = places_inside types start i _ a at in
      let total = total_size_lem types true start stat_tree log_tree m in
      ap (λ w. w x) memory_lem
      ∙ ptrs_other types start i x _ cleared a at
          (λ w. ap (λ c. kind_set_shared_ptr c a.shared_ptr w) k ∙ stat_unset a.shared_ptr w) le lt
      ∙ store-replicate m start (total_size types true stat_tree log_tree) x
          (omega (arith, inside.0, le)) (omega (arith, inside.1, lt, total))
