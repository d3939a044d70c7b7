-- ===== src/Operational.antt =====
-- The operational side, LogStatOperational of include/stat_log/stat_log.h, with the handles
-- GenericOpStat, StatParent and GenericOpLogger of include/stat_log/util/stat_log_impl.h: writeStat,
-- the passes of the serialisation thread, addLogger and getLog. A logger is the ring of
-- src/shared_memory_logger.cpp. `none` is a call that does not compile, or a failed assertion.
pub mod Separate
pub mod Gate
pub mod Statements
pub mod Thread
mod Tests
use stat_log.Base.{
  ℕ, zero, suc, ◌+◌, ◌-◌, Bool, true, false, Option, none, some, List, [], ◌∷◌, ◌++◌, map, Bytes,
  leb, ◌==◌, if◌then◌else◌, ◌>>=◌, get_elem?, length, ℤ, pos,
}
use stat_log.Memory.{Mem}
use stat_log.Tags.{Tag, Handle, HandleKind, stat_parent}
use stat_log.Stats.{StatType, stat_array}
use stat_log.Stats.Operation.{OpState, fresh, write, do_serialize}
use stat_log.Levels.{get_level, log_level_names}
use stat_log.Segment.{Placed, get_placed}
use stat_log.Proxy.{LogGenProxy, new_proxy}
use stat_log.Ring.{Generator}

-- `types` is stat_tag_to_type.
module _ (types : ℕ → StatType) where
  -- StatParent, and GenericOpStat with its proxy.
  pub data OpHandle : Type 0 where
    parent : Tag → ℕ → OpHandle
    stat : (t : Tag) → ℕ → OpState (types t.index) → OpHandle

  abbrev pub op_tag : OpHandle → Tag
  op_tag (parent t ptr) = t
  op_tag (stat t ptr st) = t

  abbrev pub op_ptr : OpHandle → ℕ
  op_ptr (parent t ptr) = ptr
  op_ptr (stat t ptr st) = ptr

  -- As constructed and placed by init.
  unfoldable pub op_handle : HandleKind → Tag → ℕ → OpHandle
  unfolding fresh
  op_handle stat_parent t ptr = parent t ptr
  op_handle _ t ptr = stat t ptr (fresh (types t.index))

  abbrev pub op_handles : List Placed → List OpHandle
  op_handles placed = map (λ a. op_handle a.handle.kind a.handle.tag a.shared_ptr) placed

  -- `GenericOpStat::writeVal`; StatParent has none.
  unfoldable pub write_val : OpHandle → List ℕ → Mem → Option (OpHandle × Mem)
  unfolding write
  write_val (parent t ptr) args m = none
  write_val (stat t ptr st) args m =
      write (types t.index) ptr args st m >>= λ r. some (stat t ptr (r.0), r.1)

  -- How many handles have a tag: what the static_assert of getHandle counts.
  unfoldable pub num_matches : ℕ → List OpHandle → ℕ
  num_matches i [] = 0
  num_matches i (h ∷ hs) = (if (op_tag h).index == i then 1 else 0) + num_matches i hs

  unfoldable pub write_first : ℕ → List ℕ → List OpHandle → Mem → Option (List OpHandle × Mem)
  unfolding write_val
  write_first i args [] m = none
  write_first i args (h ∷ hs) m =
      let here = write_val h args m >>= λ r. some (r.0 ∷ hs, r.1) in
      let later = write_first i args hs m >>= λ r. some (h ∷ r.0, r.1) in
      if (op_tag h).index == i then here else later

  -- `writeStat<StatTag>(args...)`
  unfoldable pub write_stat : ℕ → List ℕ → List OpHandle → Mem → Option (List OpHandle × Mem)
  unfolding num_matches write_first
  write_stat i args hs m =
      let written = write_first i args hs m in if num_matches i hs == 1 then written else none

  -- `doSerialize`
  unfoldable pub handle_serialize : OpHandle → Mem → Mem
  unfolding do_serialize
  handle_serialize (parent t ptr) m = m
  handle_serialize (stat t ptr st) m = do_serialize (types t.index) ptr st m

  -- One round of the serialisation thread.
  unfoldable pub serialize_stats : List OpHandle → Mem → Mem
  unfolding handle_serialize
  serialize_stats [] m = m
  serialize_stats (h ∷ hs) m = serialize_stats hs (handle_serialize h m)

-- `addLogger`: the new list, and the index of the logger.
unfoldable pub add_logger {ℓ} : {A : Type ℓ} → List A → A → List A × ℕ
add_logger loggers logger = let loggers' = loggers ++ logger ∷ [] in (loggers', length loggers' - 1)

-- `getLog<LogTag>(log_level, log_idx)`: the logger's index, and the proxy. The assertion lets the
-- number of loggers through as an index; then there is no such logger.
unfoldable pub get_log :
    ℕ → ℕ → ℕ → List Placed → List Generator → Mem → Option (Generator × LogGenProxy)
unfolding get_placed get_level
get_log tag log_level log_idx logs loggers m =
    let proxy = get_placed tag logs >>= λ a.
    get_level a.shared_ptr (pos log_idx) m >>= λ cur_log_level.
    get_elem? loggers log_idx >>= λ logger. get_elem? log_level_names log_level >>= λ name.
    some (logger, new_proxy (leb cur_log_level log_level) a.handle.tag.name name) in
    if leb log_idx (length loggers) then proxy else none
