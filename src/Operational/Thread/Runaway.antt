-- ===== src/Operational/Thread/Runaway.antt =====
-- A doStop of include/stat_log/stat_log.h that comes before the serialisation thread's first step.
use stat_log.Base.{ℕ, Bool, true, false, List}
use stat_log.Memory.{Mem}
use stat_log.Stats.{StatType}
use stat_log.Operational.{OpHandle}
use stat_log.Operational.Thread.{
  Main, stopped, Thread, created, testing, passing, State, do_init, do_stop, constructed_state,
}

module _ (types : ℕ → StatType) where
  -- The program is behind stop, and the thread has not begun or runs.
  IsRunaway : Main → Thread → Bool → Type 0
  IsRunaway stopped created false = Unit
  IsRunaway stopped testing true = Unit
  IsRunaway stopped passing true = Unit
  IsRunaway _ _ _ = ⊥

  abbrev IsRunawayState : State types → Type 0
  IsRunawayState s = IsRunaway s.main s.thread s.serializer_running

  -- The program that stops before the thread's first step.
  abbrev pub stopped_early : List (OpHandle types) → Mem → State types
  stopped_early hs m = do_stop types (do_init types (constructed_state types hs m))
