-- ===== src/Operational/Thread/Tests.antt =====
-- The serialisation thread with one accumulator.
use stat_log.Base.{ℕ, refl, List, [], ◌∷◌, codes}
use stat_log.Memory.{Mem}
use stat_log.Stats.{StatType, accumulator}
use stat_log.Operational.{OpHandle, stat}
use stat_log.Operational.Thread.{
  State, need_deferred_serialization, do_init, do_stop, thread_step, does_init, does_stop,
  does_serialize, HasControl, Reaches, done, step, constructed_state,
}
use stat_log.Operational.Thread.Stopped.{EndsSoon, joining_ends}
use stat_log.Operational.Thread.Runaway.{stopped_early}

abbrev types : ℕ → StatType
types i = accumulator []

abbrev blank : Mem
blank a = 0

abbrev handles : List (OpHandle types)
handles = stat (record { index = 2; name = codes "ACC" }) 100 (5 ∷ []) ∷ []

abbrev before : State types
before = thread_step types (do_init types (constructed_state types handles blank))

abbrev waiting : State types
waiting = do_stop types before

waiting_reached : Reaches types (constructed_state types handles blank) waiting
unfolding do_init thread_step HasControl
waiting_reached =
    step
      (step (step (done (constructed_state types handles blank)) (does_init _ refl))
        (does_serialize _))
      (does_stop before tt)

joining_ends_example : EndsSoon types waiting
unfolding do_stop do_init thread_step need_deferred_serialization
joining_ends_example = joining_ends types handles blank waiting waiting_reached refl

-- The program has stopped too early, and the thread goes on to its first pass.
abbrev early : State types
early = stopped_early types handles blank

abbrev running_on : State types
running_on = thread_step types (thread_step types early)

abbrev reached_running : Reaches types early running_on
reached_running =
    step (step (done early) (does_serialize early)) (does_serialize (thread_step types early))
