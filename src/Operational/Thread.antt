-- ===== src/Operational/Thread.antt =====
-- The serialisation thread of LogStatOperational, include/stat_log/stat_log.h: doInit, the thread's
-- loop and doStop, as steps that interleave. The program's own thread and the serialisation thread
-- share `serializer_running`; the test of the loop is one step, a pass over the statistics is another,
-- and so is a writeStat. init is called once, and first; stop may be called again.
pub mod Stopped
pub mod Runaway
mod Tests
use stat_log.Base.{ℕ, ◌≡◌, Bool, true, false, ◌||◌, some, List, [], ◌∷◌, if◌then◌else◌}
use stat_log.Memory.{Mem}
use stat_log.Tags.{Handle, HandleKind, stat_parent}
use stat_log.Stats.{StatType, is_serialization_deferred}
use stat_log.Operational.{OpHandle, parent, stat, write_stat, serialize_stats}

-- Where the program stands: before init, between init and stop, in the join of stop, behind stop.
pub data Main : Type 0 where
  constructed initialised joining stopped : Main

-- Where the serialisation thread stands: it does not exist, it is before its first assignment, it is
-- before the test of its loop, it has passed the test and is before a pass, it has returned.
pub data Thread : Type 0 where
  missing created testing passing returned : Thread

-- The program is behind init and not in a join.
unfoldable pub HasControl : Main → Type 0
HasControl initialised = Unit
HasControl stopped = Unit
HasControl constructed = ⊥
HasControl joining = ⊥

module _ (types : ℕ → StatType) where
  pub record State : Type 0 where
    pub main : Main
    pub thread : Thread
    pub serializer_running : Bool
    pub the_stats : List (OpHandle types)
    pub memory : Mem

  -- `need_deferred_serialization`
  unfoldable pub need_deferred_serialization : List (OpHandle types) → Bool
  unfolding is_serialization_deferred
  need_deferred_serialization [] = false
  need_deferred_serialization (parent t ptr ∷ hs) = need_deferred_serialization hs
  need_deferred_serialization (stat t ptr st ∷ hs) =
      is_serialization_deferred (types t.index) || need_deferred_serialization hs

  -- `doInit`
  unfoldable pub do_init : State → State
  unfolding need_deferred_serialization
  do_init s = record s {
    main = initialised;
    thread = if need_deferred_serialization s.the_stats then created else s.thread;
  }

  -- `doStop` up to its return or the join.
  unfoldable pub do_stop : State → State
  do_stop s =
      if s.serializer_running
      then record s { main = joining; serializer_running = false }
      else record s { main = stopped }

  -- One step of the thread: the first assignment; the test of the loop; a pass.
  unfoldable pub thread_step : State → State
  unfolding serialize_stats
  thread_step s = elim s.thread [
    | missing ↦ s
    | created ↦ record s { thread = testing; serializer_running = true }
    | testing ↦
        if s.serializer_running
        then record s { thread = passing }
        else record s { thread = returned }
    | passing ↦ record s { thread = testing; memory = serialize_stats types s.the_stats s.memory }
    | returned ↦ s
  ]

  -- What may happen next.
  pub data Step : State → State → Type 0 where
    does_init : (s : State) → s.main ≡ constructed → Step s (do_init s)
    does_write :
        (s : State) (i : ℕ) (args : List ℕ) (r : List (OpHandle types) × Mem)
        → HasControl s.main
        → write_stat types i args s.the_stats s.memory ≡ some r
        → Step s (record s { the_stats = r.0; memory = r.1 })
    does_stop : (s : State) → HasControl s.main → Step s (do_stop s)
    does_serialize : (s : State) → Step s (thread_step s)
    does_join :
        (s : State) → s.main ≡ joining → s.thread ≡ returned → Step s (record s { main = stopped })

  pub data Reaches : State → State → Type 0 where
    done : (s : State) → Reaches s s
    step : {s t u : State} → Reaches s t → Step t u → Reaches s u

  -- No further stop on the way.
  unfoldable pub IsStopless : {s t : State} → Reaches s t → Type 0
  IsStopless (done s) = Unit
  IsStopless (step r (does_stop s h)) = ⊥
  IsStopless (step r (does_init s h)) = IsStopless r
  IsStopless (step r (does_write s i args w h e)) = IsStopless r
  IsStopless (step r (does_serialize s)) = IsStopless r
  IsStopless (step r (does_join s h k)) = IsStopless r

  -- As constructed, with some handles that init has placed.
  abbrev pub constructed_state : List (OpHandle types) → Mem → State
  constructed_state hs m = record {
    main = constructed;
    thread = missing;
    serializer_running = false;
    the_stats = hs;
    memory = m;
  }
