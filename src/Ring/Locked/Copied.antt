-- ===== src/Ring/Locked/Copied.antt =====
-- What the control process copies under the lock (src/shared_memory_logger.cpp), whatever the
-- threads of the program do before and meanwhile.
use stat_log.Base.{
  ℕ, ◌^◌, ◌≤◌, ◌<◌, ◌≡◌, refl, sym, ap, subst_some, ◌∙◌, true, false, Option, some, List, [], ◌∷◌,
  ◌++◌, All, Bytes, ◌>>=◌, bind-some,
}
use mathlib.Core.Option.{some-injective}
use stat_log.Command.{LogOutputCommand}
use stat_log.Ring.{Generator, new_generator, do_write_data, block}
use stat_log.Ring.Retriever.{get_log}
use stat_log.Ring.Sequence.{Entry, IsLoggable, blocks_of, write_log}
use stat_log.Ring.Sequence.Steps.{write_log-append}
use stat_log.Ring.Sequence.Newest.{Ascending}
use stat_log.Ring.Sequence.Printed.{log_output, get_log-write_log}
use stat_log.Ring.Locked.{
  Holder, nobody, writer, written, reader, Shared, started, Step, takes, drops, writes, ends,
  releases, reads, leaves, Reaches, done, step,
}

-- What the ring was when the lock was last free, or is for the one who reads.
settled : Holder → Generator → Generator
settled nobody g = g
settled (writer e g₀) g = g₀
settled written g = g
settled reader g = g

module _ (n : ℕ) where
  -- It holds the entries whose write has ended.
  IsSettled : Shared → Type 0
  IsSettled s = write_log n s.logged new_generator ≡ some (settled s.holder s.generator)

  unlocked :
      (e : Entry) (g : Generator)
      → do_write_data n false (e.text ++ 0 ∷ []) e.tag e.level e.time g ≡ some g
  unfolding do_write_data
  unlocked e g = refl

  write_log-one :
      (e : Entry) (g : Generator)
      → write_log n (e ∷ []) g ≡ do_write_data n true (e.text ++ 0 ∷ []) e.tag e.level e.time g
  unfolding write_log
  write_log-one e g = bind-some (do_write_data n true (e.text ++ 0 ∷ []) e.tag e.level e.time g)

  -- One more entry, from a generator that the earlier ones gave.
  write_log-snoc :
      (es : List Entry) (e : Entry) (g : Generator)
      → write_log n es new_generator ≡ some g
      → write_log n (es ++ e ∷ []) new_generator
        ≡ do_write_data n true (e.text ++ 0 ∷ []) e.tag e.level e.time g
  write_log-snoc es e g h =
      write_log-append n es (e ∷ []) new_generator
      ∙ ap (λ r. r >>= λ g'. write_log n (e ∷ []) g') h
      ∙ write_log-one e g

  Step-IsSettled : {s t : Shared} → Step n s t → IsSettled s → IsSettled t
  unfolding IsSettled settled
  Step-IsSettled (takes s e free) h = h ∙ ap (λ x. some (settled x s.generator)) free
  Step-IsSettled (drops s e g held run) h =
      h
      ∙ ap (λ x. some (settled s.holder x))
          (some-injective s.generator g (sym (unlocked e s.generator) ∙ run))
  Step-IsSettled (writes s e g g' held) h =
      h ∙ ap (λ x. some (settled x s.generator)) held ∙ sym (ap (λ x. some (settled x g')) held)
  Step-IsSettled (ends s e g g' held run) h =
      write_log-snoc s.logged e g (h ∙ ap (λ x. some (settled x s.generator)) held) ∙ run
  Step-IsSettled (releases s held) h = h ∙ ap (λ x. some (settled x s.generator)) held
  Step-IsSettled (reads s free) h = h ∙ ap (λ x. some (settled x s.generator)) free
  Step-IsSettled (leaves s held) h = h ∙ ap (λ x. some (settled x s.generator)) held

  Reaches-IsSettled : {s t : Shared} → Reaches n s t → IsSettled s → IsSettled t
  Reaches-IsSettled (done s) h = h
  Reaches-IsSettled (step r x) h = Step-IsSettled x (Reaches-IsSettled r h)

  started-IsSettled : IsSettled started
  unfolding IsSettled settled write_log
  started-IsSettled = refl

  -- Whatever interleaving of writers, dropped entries and readers has led there from the start: when
  -- the control process has the lock, what getLog makes of the memory that it copies is exactly the
  -- text for the entries whose write has ended, in the order of their ends, under the conditions on
  -- them and on the ring that a sequence of writes has; nothing of an entry that was dropped or is not
  -- ended is printed.
  pub get_log-reader :
      (strftime : ℕ → Option Bytes) (params : LogOutputCommand) (size : ℕ) (s : Shared)
      → Reaches n started s
      → s.holder ≡ reader
      → 0 < n
      → block n < size
      → n < 2 ^ 32
      → All (λ x. IsLoggable x × (blocks_of x ≤ n)) s.logged
      → Ascending s.logged
      → get_log strftime params size n s.generator.memory ≡ log_output strftime params n s.logged
  unfolding IsSettled settled
  get_log-reader strftime params size s run held some_blocks room small oks later =
      let (g, stored, printed) =
        get_log-write_log strftime params size n s.logged some_blocks room small oks later in
      let here : write_log n s.logged new_generator ≡ some s.generator =
        Reaches-IsSettled run started-IsSettled ∙ ap (λ x. some (settled x s.generator)) held in
      subst_some
        (λ g'. get_log strftime params size n g'.memory ≡ log_output strftime params n s.logged) g
        s.generator (sym stored ∙ here) printed
