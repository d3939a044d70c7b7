-- ===== src/Segment.antt =====
-- The shared memory segment of a program: LogStatBase::init of include/stat_log/util/stat_log_impl.h,
-- which gives each handle its place, with the memory that setParams of src/shared_mem_backend.cpp
-- clears. The mapping of the segment is boost::interprocess: the address at which it starts is an
-- argument, and so is the memory found there.
pub mod Places
pub mod Sides
pub mod Init
pub mod Lookup
mod Tests
use stat_log.Base.{
  ℕ, zero, suc, ◌+◌, Bool, true, false, List, [], ◌∷◌, ◌++◌, map, replicate, if◌then◌else◌, Option,
  none, some, ◌>>=◌,
}
use stat_log.Memory.{Mem, store}
use stat_log.Tags.{
  TagTree, Handle, HandleKind, stat_parent, op_stat, control_stat, op_logger, control_logger,
  stat_tag_hierarchy, tag_list_creator,
}
use stat_log.Tags.Handles.{matches_tag, get_handle}
use stat_log.Stats.{StatType, shared_size}
use stat_log.Levels.{num_loggers, set_shared_ptr}

-- A handle whose setSharedPtr was called.
pub record Placed : Type 0 where
  pub handle : Handle
  pub shared_ptr : ℕ

-- What init leaves behind.
pub record Segment : Type 0 where
  pub stats : List Placed
  pub logs : List Placed
  pub memory : Mem

-- setSharedPtr, in memory: only LogOpProxy's writes.
unfoldable pub kind_set_shared_ptr : HandleKind → ℕ → Mem → Mem
unfolding set_shared_ptr
kind_set_shared_ptr op_logger ptr m = set_shared_ptr ptr m
kind_set_shared_ptr _ ptr m = m

unfoldable pub set_shared_ptrs : List Placed → Mem → Mem
unfolding kind_set_shared_ptr
set_shared_ptrs [] m = m
set_shared_ptrs (a ∷ rest) m =
    set_shared_ptrs rest (kind_set_shared_ptr a.handle.kind a.shared_ptr m)

-- `getHandle` of a list whose handles have their places.
unfoldable pub first_placed : ℕ → List Placed → Option Placed
unfolding matches_tag
first_placed i [] = none
first_placed i (a ∷ rest) = if matches_tag i a.handle then some a else first_placed i rest

unfoldable pub get_placed : ℕ → List Placed → Option Placed
unfolding get_handle first_placed
get_placed i placed = get_handle i (map (λ a. a.handle) placed) >>= λ h. first_placed i placed

-- `types` is stat_tag_to_type, which the user specialises for each tag.
module _ (types : ℕ → StatType) where
  -- `getSharedSize`
  unfoldable pub kind_size : HandleKind → ℕ → ℕ
  unfolding shared_size
  kind_size stat_parent i = 0
  kind_size op_stat i = shared_size (types i)
  kind_size control_stat i = shared_size (types i)
  kind_size op_logger i = num_loggers
  kind_size control_logger i = num_loggers

  abbrev pub handle_size : Handle → ℕ
  handle_size h = kind_size h.kind h.tag.index

  -- `total_shm_size += NodeType::getSharedSize()`
  unfoldable pub add_sizes : ℕ → List Handle → ℕ
  unfolding kind_size
  add_sizes total [] = total
  add_sizes total (h ∷ hs) = add_sizes (total + handle_size h) hs

  -- `set_shm_pointers`, with `shm_ptr` behind the last handle.
  unfoldable pub set_shm_pointers : ℕ → List Handle → List Placed × ℕ
  unfolding kind_size
  set_shm_pointers shm_ptr [] = ([], shm_ptr)
  set_shm_pointers shm_ptr (h ∷ hs) =
      let r = set_shm_pointers (shm_ptr + handle_size h) hs in
      (record { handle = h; shared_ptr = shm_ptr } ∷ r.0, r.1)

  -- `setParams`: the operational side sets the memory to 0.
  unfoldable pub set_params : Bool → ℕ → ℕ → Mem → Mem
  unfolding store
  set_params true shm_start size m = store m shm_start (replicate size 0)
  set_params false shm_start size m = m

  -- `init`
  unfoldable pub init : Bool → ℕ → TagTree → TagTree → Mem → Segment
  unfolding add_sizes set_shm_pointers set_params set_shared_ptrs tag_list_creator
      stat_tag_hierarchy
  init is_op shm_start stat_tree log_tree m =
      let the_stats = tag_list_creator is_op true (stat_tag_hierarchy stat_tree) in
      let the_logs = tag_list_creator is_op false (stat_tag_hierarchy log_tree) in
      let total = add_sizes (add_sizes 0 the_stats) the_logs in
      let stats = set_shm_pointers shm_start the_stats in
      let logs = set_shm_pointers (stats.1) the_logs in
      record {
        stats = stats.0;
        logs = logs.0;
        memory =
            set_shared_ptrs (logs.0)
              (set_shared_ptrs (stats.0) (set_params is_op shm_start total m));
      }
