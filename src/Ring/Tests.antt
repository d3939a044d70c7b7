-- ===== src/Ring/Tests.antt =====
-- Runs of the ring of src/shared_memory_logger.cpp on small rings, and the witnesses of its theorems.
use stat_log.Ring.First.{Start, find_first-least}
use stat_log.Ring.Retriever.{find_first, time_stamp, is_later, num_blocks, c_string}
use stat_log.Base.{
  none, ◌>>=◌, ℕ, zero, suc, ◌+◌, ◌%◌, ◌<◌, ◌≡◌, refl, inl, inr, Option, some, true, false, [], ◌∷◌,
  ◌++◌, replicate, length, Bytes, codes, arith,
}
use stat_log.Memory.{store}
use stat_log.Command.{LogOutputCommand, default_log_output_command}
use stat_log.Ring.Retriever.{get_log}
use stat_log.Ring.{Generator, TimeStamp, new_generator, write_header, do_write_data, num_log_bufs}
use stat_log.Ring.Strings.{IsText}
use stat_log.Ring.Found.{IsEntry}
use stat_log.Ring.Entry.{do_write_data-IsEntry, do_write_data-others}

abbrev time : TimeStamp
time = record { sec = 1000; usec = 7 }

-- The generator stands on the last of two blocks, so that a long entry goes around.
abbrev at_end : Generator
at_end = record { current_log_entry = 1; memory = λ a. 0 }

abbrev long_text : Bytes
long_text = replicate 470 65

IsText-replicate : (n : ℕ) → IsText (replicate n 65)
IsText-replicate zero = tt
IsText-replicate (suc n) = (omega arith, IsText-replicate n)

long_text_blocks : num_log_bufs (length (long_text ++ 0 ∷ [])) ≡ 2
unfolding num_log_bufs
long_text_blocks = refl

do_write_data-IsEntry_example :
    (g' : Generator) × (do_write_data 2 true
        (long_text ++ 0 ∷ [])
        (codes "TAG")
        (codes "INFO")
        time
        at_end
      ≡ some g')
    × IsEntry 1100 2 long_text (codes "TAG") (codes "INFO") time at_end g'.memory 1
    × (g'.current_log_entry ≡ (1 + num_log_bufs (length (long_text ++ 0 ∷ []))) % 2)
    × (g'.current_log_entry < 2)
do_write_data-IsEntry_example =
    do_write_data-IsEntry 1100 2 long_text (codes "TAG") (codes "INFO") time at_end (omega arith)
      (omega arith) (IsText-replicate 470) (omega (arith, long_text_blocks))
      (omega (arith, long_text_blocks)) (omega arith) (omega arith) (inr (omega arith, refl))

abbrev hi : Bytes
hi = codes "HI"

abbrev after_hi : Generator
after_hi = record {
  current_log_entry = 1;
  memory =
      store (write_header 0 1 time (codes "TAG") (codes "INFO") new_generator.memory) 48
        (hi ++ 0 ∷ []);
}

hi_written :
    do_write_data 2 true (hi ++ 0 ∷ []) (codes "TAG") (codes "INFO") time new_generator
    ≡ some after_hi
unfolding do_write_data
hi_written = refl

hi_dropped :
    do_write_data 2 false (hi ++ 0 ∷ []) (codes "TAG") (codes "INFO") time after_hi ≡ some after_hi
unfolding do_write_data
hi_dropped = refl

do_write_data-others_example : after_hi.memory 600 ≡ 0
unfolding num_log_bufs
do_write_data-others_example =
    do_write_data-others 1100 2 hi (codes "TAG") (codes "INFO") time new_generator after_hi 1 600
      (omega arith) (omega arith) (omega arith, (omega arith, tt)) (omega arith) (omega arith)
      (omega arith) (omega arith) (inl (omega arith)) hi_written ((λ e. omega (arith, e)), tt)
      (omega arith, omega arith)

-- The time is shown as its seconds.
abbrev show : LogOutputCommand → Generator → Option Bytes
show params g = get_log (λ t. some (codes "10:00")) params 1100 2 g.memory

hi_shown : show default_log_output_command after_hi ≡ some (codes "10:00.7: TAG: INFO: HI\n")
unfolding get_log store write_header
hi_shown = refl

hi_excluded :
    show (record default_log_output_command { exclude_tags = codes "TAG" ∷ [] }) after_hi ≡ some []
unfolding get_log store write_header
hi_excluded = refl

empty_shown : show default_log_output_command new_generator ≡ some (codes "Empty log!\n")
unfolding get_log store write_header
empty_shown = refl

-- The microseconds are not padded, and a tag of 16 bytes runs on into the level.
abbrev long_tag : Option Generator
long_tag =
    do_write_data 2 true (hi ++ 0 ∷ []) (codes "ABCDEFGHIJKLMNOP") (codes "INFO") time new_generator

long_tag_shown :
    (long_tag >>= show default_log_output_command)
    ≡ some (codes "10:00.7: ABCDEFGHIJKLMNOPINFO: INFO: HI\n")
unfolding get_log store write_header do_write_data
long_tag_shown = refl

-- A copy that ends with the ring: the text that fills the last block is read beyond its end.
over_read :
    (do_write_data 2 true (long_text ++ 0 ∷ []) (codes "TAG") (codes "INFO") time at_end >>= λ g.
    c_string 1024 g.memory 560)
    ≡ none
unfolding do_write_data c_string store
over_read = refl

hi_blocks : num_blocks after_hi.memory 0 ≡ 1
unfolding num_blocks store write_header
hi_blocks = refl

find_first-least_example :
    (b : ℕ) × (t : TimeStamp) × (find_first after_hi.memory 2 0 none ≡ some (b, t))
    × Start after_hi.memory 2 b t
    × (is_later t (time_stamp after_hi.memory 0) ≡ false)
find_first-least_example =
    find_first-least after_hi.memory 2 0 (omega arith) (λ e. omega (arith, e, hi_blocks))
