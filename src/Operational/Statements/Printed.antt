-- ===== src/Operational/Statements/Printed.antt =====
-- What a run of log statements leaves in the ring, and what is printed of it (getLog and LogGenProxy
-- of include/stat_log, and src/shared_memory_logger.cpp).
use stat_log.Base.{
  set-same, set-set, get_elem?-length, ℕ, ◌+◌, ◌^◌, ◌≤◌, ◌<◌, ◌≡◌, ◌≢◌, refl, sym, ap, ◌∙◌, inl,
  inr, Bool, true, false, not, ◌&&◌, Option, some, List, [], ◌∷◌, ◌++◌, Bytes, All, leb, ltb,
  is_empty, if◌then◌else◌, ◌>>=◌, get_elem?, get_elem?-set_self, get_elem?-set_ne, set, Bool-cases,
  pos, >>=-eq-some, bind-some, bind_congr, bind_assoc, arith,
}
use mathlib.Core.Option.{some-injective}
use stat_log.Memory.{Mem}
use stat_log.Command.{LogOutputCommand}
use stat_log.Levels.{log_level_names, num_loggers, get_level, level_address}
use stat_log.Segment.{Placed, get_placed}
use stat_log.Proxy.{new_proxy, insert_all, destroy}
use stat_log.Proxy.Logged.{joined, destroy-enabled, insert_all_disabled, insert_all_lem}
use stat_log.Ring.{Generator, TimeStamp, new_generator, do_write_data, block}
use stat_log.Ring.Retriever
use stat_log.Ring.Sequence.{Entry, IsLoggable, blocks_of, write_log}
use stat_log.Ring.Sequence.Steps.{write_log-append}
use stat_log.Ring.Sequence.Newest.{Ascending}
use stat_log.Ring.Sequence.Printed.{log_output, get_log-write_log}
use stat_log.Operational.Gate.{get_log_lem}
use stat_log.Operational.Statements.{Statement, run_statement, run_statements, entry_if, entries_of}

level_of :
    (idx ptr : ℕ) (m : Mem) → idx < num_loggers → get_level ptr (pos idx) m ≡ some (m (ptr + idx))
unfolding get_level level_address
level_of idx ptr m h =
    let low : ltb num_loggers idx ≡ false = ground arith in
    let inside : ltb idx num_loggers ≡ true = ground arith in rw (low, inside) refl

-- What the destructor of a proxy writes, as a sequence of at most one entry.
destroy_lem :
    (n : ℕ) (b : Bool) (tag level : Bytes) (vs : List Bytes) (time : TimeStamp) (g : Generator)
    → destroy n true time (insert_all (new_proxy b tag level) vs) g
      ≡ write_log n
          (if b && not (is_empty (joined vs))
            then record { text = joined vs; tag = tag; level = level; time = time } ∷ []
            else [])
          g
unfolding destroy write_log
destroy_lem n false tag level vs time g =
    ap (λ p. destroy n true time p g) (insert_all_disabled tag level vs)
destroy_lem n true tag level vs time g = elim (Bool-cases (is_empty (joined vs))) [
  | inl e ↦ ap (λ p. destroy n true time p g) (insert_all_lem [] tag level vs) ∙ rw e refl
  | inr e ↦
      destroy-enabled n true time tag level vs g e
      ∙ sym (bind-some (do_write_data n true (joined vs ++ 0 ∷ []) tag level time g))
      ∙ rw e refl
]

module _ (n idx : ℕ) (logs : List Placed) (m : Mem) where
  run_statement_lem :
      (st : Statement) (a : Placed) (name : Bytes) (loggers : List Generator) (g : Generator)
      → idx < num_loggers
      → get_placed st.tag logs ≡ some a
      → get_elem? log_level_names st.level ≡ some name
      → get_elem? loggers idx ≡ some g
      → run_statement n idx logs m st loggers
        ≡ (write_log n (entry_if n idx logs m a name st) g >>= λ g'. some (set loggers idx g'))
  unfolding run_statement entry_if write_log
  run_statement_lem st a name loggers g four found named at =
      let got =
        get_log_lem st.tag st.level idx logs loggers a g name (m (a.shared_ptr + idx)) m found at
          named (get_elem?-length loggers idx g at) (level_of idx a.shared_ptr m four) in
      rw got (
        ap (λ r. r >>= λ g'. some (set loggers idx g'))
          (destroy_lem n (leb (m (a.shared_ptr + idx)) st.level) a.handle.tag.name name st.values
            st.time g))

  -- The run is the writes of the entries into the one logger.
  run_statements_lem :
      (sts : List Statement) (es : List Entry) (loggers : List Generator) (g : Generator)
      → idx < num_loggers
      → entries_of n idx logs m sts ≡ some es
      → get_elem? loggers idx ≡ some g
      → run_statements n idx logs m sts loggers
        ≡ (write_log n es g >>= λ g'. some (set loggers idx g'))
  unfolding run_statements entries_of write_log
  run_statements_lem [] es loggers g four h at =
      let none_left = some-injective [] es h in
      ap some (sym (set-same loggers idx g at))
      ∙ ap (λ es'. write_log n es' g >>= λ g'. some (set loggers idx g')) none_left
  run_statements_lem (st ∷ sts) es loggers g four h at =
      let (a, found, h₁) = >>=-eq-some (get_placed st.tag logs) _ h in
      let (name, named, h₂) = >>=-eq-some (get_elem? log_level_names st.level) _ h₁ in
      let (rest, later, h₃) = >>=-eq-some (entries_of n idx logs m sts) _ h₂ in
      let here = entry_if n idx logs m a name st in
      let next : (g₁ : Generator)
          → run_statements n idx logs m sts (set loggers idx g₁)
            ≡ (write_log n rest g₁ >>= λ g'. some (set loggers idx g')) =
        λ g₁.
          run_statements_lem sts rest (set loggers idx g₁) g₁ four later
            (get_elem?-set_self loggers idx g₁ (get_elem?-length loggers idx g at))
          ∙ bind_congr (write_log n rest g₁) (λ g'. some (set (set loggers idx g₁) idx g'))
              (λ g'. some (set loggers idx g')) (λ g'. ap some (set-set loggers idx g₁ g')) in
      let store : Generator → Option (List Generator) = λ g'. some (set loggers idx g') in
      ap (λ r. r >>= λ l. run_statements n idx logs m sts l)
        (run_statement_lem st a name loggers g four found named at)
      ∙ bind_assoc (write_log n here g) store (λ l. run_statements n idx logs m sts l)
      ∙ bind_congr (write_log n here g) (λ g₁. run_statements n idx logs m sts (set loggers idx g₁))
          (λ g₁. write_log n rest g₁ >>= store) next
      ∙ sym (bind_assoc (write_log n here g) (λ g₁. write_log n rest g₁) store)
      ∙ ap (λ r. r >>= store) (sym (write_log-append n here rest g))
      ∙ ap (λ es'. write_log n es' g >>= store) (some-injective (here ++ rest) es h₃)

  -- The program runs any statements that log to one of the four loggers, whose ring is new, while
  -- the levels stay as they are and with the lock held. A statement has an entry if its level is not
  -- below the one that is set for its tag and it inserts anything: the text of its values, with the
  -- tag and the level's name. The texts, tags and level names of these entries are without NULs, tags
  -- and level names are shorter than their fields, the times fit theirs, each entry takes no more
  -- blocks than the ring has, and each has a later time than those before it; the ring has a block,
  -- and less than 2 ^ 32 blocks, and the retriever's copy is larger than the ring. Then all
  -- statements run, the other loggers are left as they were, and the retriever prints, in the order
  -- of the statements, exactly the lines of the newest of these entries that the ring has room for,
  -- less the excluded ones (it exits where the time of one of them has no text), or that the log is
  -- empty when there is no entry.
  pub get_log-run_statements :
      (strftime : ℕ → Option Bytes) (params : LogOutputCommand) (size : ℕ) (sts : List Statement)
      (es : List Entry) (loggers : List Generator)
      → idx < num_loggers
      → get_elem? loggers idx ≡ some new_generator
      → entries_of n idx logs m sts ≡ some es
      → 0 < n
      → block n < size
      → n < 2 ^ 32
      → All (λ x. IsLoggable x × (blocks_of x ≤ n)) es
      → Ascending es
      → (loggers' : List Generator) × (g : Generator) × (run_statements n idx logs m sts loggers
          ≡ some loggers')
        × (get_elem? loggers' idx ≡ some g)
        × ((j : ℕ) → idx ≢ j → get_elem? loggers' j ≡ get_elem? loggers j)
        × (Retriever.get_log strftime params size n g.memory ≡ log_output strftime params n es)
  get_log-run_statements strftime params size sts es loggers four at h some_blocks room small oks
        later =
      let (g, written, printed) =
        get_log-write_log strftime params size n es some_blocks room small oks later in
      (
        set loggers idx g,
        g,
        run_statements_lem sts es loggers new_generator four h at
            ∙ ap (λ r. r >>= λ g'. some (set loggers idx g')) written,
        get_elem?-set_self loggers idx g (get_elem?-length loggers idx new_generator at),
        λ j ne. get_elem?-set_ne loggers idx j g ne,
        printed,
      )
