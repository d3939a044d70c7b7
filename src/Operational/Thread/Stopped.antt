-- ===== src/Operational/Thread/Stopped.antt =====
-- What doStop of include/stat_log/stat_log.h promises about the serialisation thread, and when it
-- does not keep it.
use stat_log.Base.{
  ℕ, ◌≡◌, ◌≢◌, ◌⊎◌, refl, sym, subst, Bool, true, false, Bool-cases, inl, inr, List,
}
use stat_log.Memory.{Mem}
use stat_log.Stats.{StatType}
use stat_log.Operational.{OpHandle, serialize_stats}
use stat_log.Operational.Thread.{
  Main, constructed, initialised, joining, stopped, Thread, missing, created, testing, passing,
  returned, HasControl, State, need_deferred_serialization, do_init, do_stop, thread_step, Step,
  does_init, does_write, does_stop, does_serialize, does_join, Reaches, done, step,
  constructed_state,
}

module _ (types : ℕ → StatType) where
  -- How the flag, the thread and the program fit together.
  IsCoherent : Main → Thread → Bool → Type 0
  IsCoherent constructed missing false = Unit
  IsCoherent initialised missing false = Unit
  IsCoherent initialised created false = Unit
  IsCoherent initialised testing true = Unit
  IsCoherent initialised passing true = Unit
  IsCoherent joining testing false = Unit
  IsCoherent joining passing false = Unit
  IsCoherent joining returned false = Unit
  IsCoherent stopped missing false = Unit
  IsCoherent stopped created false = Unit
  IsCoherent stopped testing true = Unit
  IsCoherent stopped passing true = Unit
  IsCoherent stopped returned false = Unit
  IsCoherent _ _ _ = ⊥

  abbrev IsCoherentState : State types → Type 0
  IsCoherentState s = IsCoherent s.main s.thread s.serializer_running

  module _ (hs : List (OpHandle types)) (mem : Mem) where
    abbrev pub at : Main → Thread → Bool → State types
    at m th b = record {
      main = m;
      thread = th;
      serializer_running = b;
      the_stats = hs;
      memory = mem;
    }

    do_init-IsCoherent :
        (th : Thread) (b : Bool)
        → IsCoherent constructed th b
        → IsCoherentState (do_init types (at constructed th b))
    unfolding do_init IsCoherent
    do_init-IsCoherent missing false h = elim (Bool-cases (need_deferred_serialization types hs)) [
      | inl e ↦ rw e tt
      | inr e ↦ rw e tt
    ]
    do_init-IsCoherent missing true h = absurd h
    do_init-IsCoherent created b h = absurd h
    do_init-IsCoherent testing b h = absurd h
    do_init-IsCoherent passing b h = absurd h
    do_init-IsCoherent returned b h = absurd h

    do_stop-IsCoherent :
        (m : Main) (th : Thread) (b : Bool)
        → HasControl m
        → IsCoherent m th b
        → IsCoherentState (do_stop types (at m th b))
    unfolding do_stop IsCoherent HasControl
    do_stop-IsCoherent constructed th b c h = absurd c
    do_stop-IsCoherent joining th b c h = absurd c
    do_stop-IsCoherent initialised missing false c h = tt
    do_stop-IsCoherent initialised missing true c h = absurd h
    do_stop-IsCoherent initialised created false c h = tt
    do_stop-IsCoherent initialised created true c h = absurd h
    do_stop-IsCoherent initialised testing false c h = absurd h
    do_stop-IsCoherent initialised testing true c h = tt
    do_stop-IsCoherent initialised passing false c h = absurd h
    do_stop-IsCoherent initialised passing true c h = tt
    do_stop-IsCoherent initialised returned b c h = absurd h
    do_stop-IsCoherent stopped missing false c h = tt
    do_stop-IsCoherent stopped missing true c h = absurd h
    do_stop-IsCoherent stopped created false c h = tt
    do_stop-IsCoherent stopped created true c h = absurd h
    do_stop-IsCoherent stopped testing false c h = absurd h
    do_stop-IsCoherent stopped testing true c h = tt
    do_stop-IsCoherent stopped passing false c h = absurd h
    do_stop-IsCoherent stopped passing true c h = tt
    do_stop-IsCoherent stopped returned false c h = tt
    do_stop-IsCoherent stopped returned true c h = absurd h

    thread_step-IsCoherent :
        (m : Main) (th : Thread) (b : Bool)
        → IsCoherent m th b
        → IsCoherentState (thread_step types (at m th b))
    unfolding thread_step IsCoherent
    thread_step-IsCoherent m missing b h = h
    thread_step-IsCoherent m returned b h = h
    thread_step-IsCoherent constructed testing true h = absurd h
    thread_step-IsCoherent initialised testing true h = tt
    thread_step-IsCoherent joining testing true h = absurd h
    thread_step-IsCoherent stopped testing true h = tt
    thread_step-IsCoherent constructed passing b h = absurd h
    thread_step-IsCoherent initialised passing false h = absurd h
    thread_step-IsCoherent initialised passing true h = tt
    thread_step-IsCoherent joining passing false h = tt
    thread_step-IsCoherent joining passing true h = absurd h
    thread_step-IsCoherent stopped passing false h = absurd h
    thread_step-IsCoherent stopped passing true h = tt
    thread_step-IsCoherent constructed created b h = absurd h
    thread_step-IsCoherent initialised created b h = tt
    thread_step-IsCoherent joining created b h = absurd h
    thread_step-IsCoherent stopped created b h = tt
    thread_step-IsCoherent constructed testing false h = absurd h
    thread_step-IsCoherent initialised testing false h = absurd h
    thread_step-IsCoherent joining testing false h = tt
    thread_step-IsCoherent stopped testing false h = absurd h

  join-IsCoherent : (b : Bool) → IsCoherent joining returned b → IsCoherent stopped returned b
  unfolding IsCoherent
  join-IsCoherent false h = tt
  join-IsCoherent true h = absurd h

  Step-IsCoherent : {s t : State types} → Step types s t → IsCoherentState s → IsCoherentState t
  Step-IsCoherent (does_init s e) h =
      subst (λ m. IsCoherentState (do_init types (record s { main = m }))) (sym e)
        (do_init-IsCoherent s.the_stats s.memory s.thread s.serializer_running
          (subst (λ m. IsCoherent m s.thread s.serializer_running) e h))
  Step-IsCoherent (does_write s i args r e f) h = h
  Step-IsCoherent (does_stop s e) h =
      do_stop-IsCoherent s.the_stats s.memory s.main s.thread s.serializer_running e h
  Step-IsCoherent (does_serialize s) h =
      thread_step-IsCoherent s.the_stats s.memory s.main s.thread s.serializer_running h
  Step-IsCoherent (does_join s e f) h =
      subst (λ th. IsCoherent stopped th s.serializer_running) (sym f)
        (join-IsCoherent s.serializer_running (
          subst (λ m. IsCoherent m returned s.serializer_running) e
            (subst (λ th. IsCoherent s.main th s.serializer_running) f h)))

  Reaches-IsCoherent :
      {s t : State types} → Reaches types s t → IsCoherentState s → IsCoherentState t
  Reaches-IsCoherent (done s) h = h
  Reaches-IsCoherent (step r x) h = Step-IsCoherent x (Reaches-IsCoherent r h)

  constructed-IsCoherent :
      (hs : List (OpHandle types)) (m : Mem) → IsCoherentState (constructed_state types hs m)
  unfolding IsCoherent
  constructed-IsCoherent hs m = tt

  -- The thread has returned in its next step, without a pass, and the join can return.
  abbrev pub EndsNow : State types → Type 0
  EndsNow s =
      ((thread_step types s).thread ≡ returned)
      × ((thread_step types s).memory ≡ s.memory)
      × Step types (thread_step types s) (record (thread_step types s) { main = stopped })

  -- So it is now, or behind the pass that the thread is at.
  abbrev pub EndsSoon : State types → Type 0
  EndsSoon s =
      ((s.thread ≢ passing) × EndsNow s)
      ⊎ ((s.thread ≡ passing)
          × ((thread_step types s).memory ≡ serialize_stats types s.the_stats s.memory)
          × EndsNow (thread_step types s))

  joining-EndsSoon :
      (th : Thread) (b : Bool) (hs : List (OpHandle types)) (m : Mem)
      → IsCoherent joining th b
      → EndsSoon (at hs m joining th b)
  unfolding IsCoherent thread_step
  joining-EndsSoon missing b hs m h = absurd h
  joining-EndsSoon created b hs m h = absurd h
  joining-EndsSoon testing true hs m h = absurd h
  joining-EndsSoon testing false hs m h = inl ((λ e. cc), (refl, refl, does_join _ refl refl))
  joining-EndsSoon passing true hs m h = absurd h
  joining-EndsSoon passing false hs m h = inr (refl, refl, (refl, refl, does_join _ refl refl))
  joining-EndsSoon returned true hs m h = absurd h
  joining-EndsSoon returned false hs m h = inl ((λ e. cc), (refl, refl, does_join _ refl refl))

  -- Whatever was written and serialised since the construction, and however often stop was called: when
  -- the program waits in the join of stop, the thread completes at most the pass that it has already
  -- passed the test for, returns in the step behind it without a further pass, and then the join can
  -- return.
  pub joining_ends :
      (hs : List (OpHandle types)) (m : Mem) (s : State types)
      → Reaches types (constructed_state types hs m) s
      → s.main ≡ joining
      → EndsSoon s
  joining_ends hs m s reached e =
      subst (λ x. EndsSoon (record s { main = x })) (sym e)
        (joining-EndsSoon s.thread s.serializer_running s.the_stats s.memory (
          subst (λ x. IsCoherent x s.thread s.serializer_running) e
            (Reaches-IsCoherent reached (constructed-IsCoherent hs m))))
