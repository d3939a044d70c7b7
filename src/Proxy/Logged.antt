-- ===== src/Proxy/Logged.antt =====
-- What is inserted into a LogGenProxy (include/stat_log/loggers/logger_common.h) and what of it
-- arrives in the ring of src/shared_memory_logger.cpp.
use stat_log.Base.{
  length, ℕ, ◌^◌, ◌≤◌, ◌<◌, ◌≡◌, refl, ap, ◌∙◌, Bool, true, false, some, List, [], ◌∷◌, ◌++◌, Bytes,
  is_empty, append_assoc, append-nil, sym,
}
use stat_log.Ring.{num_log_bufs, do_write_data, Generator, TimeStamp, block}
use stat_log.Ring.Strings.{IsText}
use stat_log.Ring.Blocks.{Closed}
use stat_log.Ring.Found.{IsEntry}
use stat_log.Ring.Entry.{do_write_data-IsEntry}
use stat_log.Proxy.{new_proxy, insert_all, hex_dump, destroy}

-- All values, one behind the other.
abbrev pub joined : List Bytes → Bytes
joined [] = []
joined (v ∷ vs) = v ++ joined vs

pub insert_all_lem :
    (s : Bytes) (tag level : Bytes) (vs : List Bytes)
    → insert_all (record (new_proxy true tag level) { text = s }) vs
      ≡ record (new_proxy true tag level) { text = s ++ joined vs }
unfolding insert_all
insert_all_lem s tag level [] =
    ap (λ t. record (new_proxy true tag level) { text = t }) (sym (append-nil s))
insert_all_lem s tag level (v ∷ vs) =
    insert_all_lem (s ++ v) tag level vs
    ∙ ap (λ t. record (new_proxy true tag level) { text = t }) (append_assoc s v (joined vs))

pub insert_all_disabled :
    (tag level : Bytes) (vs : List Bytes)
    → insert_all (new_proxy false tag level) vs ≡ new_proxy false tag level
unfolding insert_all
insert_all_disabled tag level [] = refl
insert_all_disabled tag level (v ∷ vs) = insert_all_disabled tag level vs

-- A proxy that is not enabled writes nothing, whatever is inserted into it or dumped.
pub destroy-disabled :
    (n : ℕ) (locked : Bool) (time : TimeStamp) (tag level buf label : Bytes) (vs : List Bytes)
    (g : Generator)
    → destroy n locked time (hex_dump (insert_all (new_proxy false tag level) vs) buf label) g
      ≡ some g
unfolding destroy hex_dump
destroy-disabled n locked time tag level buf label vs g =
    ap (λ p. destroy n locked time (hex_dump p buf label) g) (insert_all_disabled tag level vs)

pub destroy-enabled :
    (n : ℕ) (locked : Bool) (time : TimeStamp) (tag level : Bytes) (vs : List Bytes) (g : Generator)
    → is_empty (joined vs) ≡ false
    → destroy n locked time (insert_all (new_proxy true tag level) vs) g
      ≡ do_write_data n locked (joined vs ++ 0 ∷ []) tag level time g
unfolding destroy
destroy-enabled n locked time tag level vs g e =
    ap (λ p. destroy n locked time p g) (insert_all_lem [] tag level vs) ∙ rw e refl

-- What a statement inserts into an enabled proxy, if it is a text without NULs that is not empty,
-- is in the ring when the proxy is destroyed, for the retriever to read as one entry, under the
-- conditions of a write: the lock is held, the entry takes no more blocks than the ring has, these
-- and the time fit their fields, and the entry does not reach the end of the ring or the byte behind
-- the ring is a NUL in the retriever's copy.
destroy-IsEntry :
    (size n : ℕ) (time : TimeStamp) (tag level : Bytes) (vs : List Bytes) (g : Generator)
    → is_empty (joined vs) ≡ false
    → IsText (joined vs)
    → g.current_log_entry < n
    → block n ≤ size
    → num_log_bufs (length (joined vs ++ 0 ∷ [])) ≤ n
    → num_log_bufs (length (joined vs ++ 0 ∷ [])) < 2 ^ 32
    → time.sec < 2 ^ 64
    → time.usec < 2 ^ 64
    → Closed size n g.memory g.current_log_entry (num_log_bufs (length (joined vs ++ 0 ∷ [])))
    → (g' : Generator) × (destroy n true time (insert_all (new_proxy true tag level) vs) g
        ≡ some g')
      × IsEntry size n (joined vs) tag level time g g'.memory g.current_log_entry
destroy-IsEntry size n time tag level vs g e t lt inside enough small sec usec closed =
    let (g', returns, entry, stands, below) =
      do_write_data-IsEntry size n (joined vs) tag level time g lt inside t enough small sec usec
        closed in
    (g', destroy-enabled n true time tag level vs g e ∙ returns, entry)
