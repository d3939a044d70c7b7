-- ===== src/Ring/Sequence/Tests.antt =====
-- Runs of sequences of log entries (src/shared_memory_logger.cpp) and the witness of their theorem.
use stat_log.Base.{
  ℕ, zero, suc, ◌>>=◌, ◌≡◌, refl, Option, some, List, [], ◌∷◌, ◌++◌, All, ◌≤◌, replicate, Bytes,
  codes, arith,
}
use stat_log.Command.{default_log_output_command}
use stat_log.Ring.{Generator, TimeStamp, new_generator, num_log_bufs, write_header}
use stat_log.Ring.Retriever.{get_log, is_later}
use stat_log.Ring.Retriever.Lines.{log_text}
use stat_log.Ring.Strings.{IsText}
use stat_log.Ring.Sequence.{Entry, IsLoggable, blocks_of, write_log}
use stat_log.Ring.Sequence.Newest.{newest}
use stat_log.Memory.{store}
use stat_log.Ring.Sequence.Printed.{log_output, get_log-write_log}

abbrev at_seven : TimeStamp
at_seven = record { sec = 1000; usec = 7 }

abbrev at_nine : TimeStamp
at_nine = record { sec = 1000; usec = 9 }

abbrev long : Entry
long = record { text = replicate 470 65; tag = codes "TX"; level = codes "INFO"; time = at_seven }

abbrev short : Entry
short = record { text = codes "HI"; tag = codes "RX"; level = codes "ERROR"; time = at_nine }

IsText-replicate : (n : ℕ) → IsText (replicate n 65)
IsText-replicate zero = tt
IsText-replicate (suc n) = (omega arith, IsText-replicate n)

long-IsLoggable : IsLoggable long
long-IsLoggable = record {
  text_IsText = IsText-replicate 470;
  tag_IsText = (omega arith, (omega arith, tt));
  tag_short = omega arith;
  level_IsText = (omega arith, (omega arith, (omega arith, (omega arith, tt))));
  level_short = omega arith;
  sec_small = omega arith;
  usec_small = omega arith;
}

short-IsLoggable : IsLoggable short
short-IsLoggable = record {
  text_IsText = (omega arith, (omega arith, tt));
  tag_IsText = (omega arith, (omega arith, tt));
  tag_short = omega arith;
  level_IsText = (omega arith, (omega arith, (omega arith, (omega arith, (omega arith, tt)))));
  level_short = omega arith;
  sec_small = omega arith;
  usec_small = omega arith;
}

-- The third entry takes the first block of the long one again.
abbrev third : Entry
third = record short { text = codes "YOU"; time = record { sec = 1001; usec = 0 } }

third-IsLoggable : IsLoggable third
third-IsLoggable = record {
  text_IsText = (omega arith, (omega arith, (omega arith, tt)));
  tag_IsText = short-IsLoggable.tag_IsText;
  tag_short = short-IsLoggable.tag_short;
  level_IsText = short-IsLoggable.level_IsText;
  level_short = short-IsLoggable.level_short;
  sec_small = omega arith;
  usec_small = omega arith;
}

abbrev three : List Entry
three = long ∷ short ∷ third ∷ []

long_blocks : blocks_of long ≡ 2
unfolding num_log_bufs
long_blocks = refl

short_blocks : blocks_of short ≡ 1
unfolding num_log_bufs
short_blocks = refl

third_blocks : blocks_of third ≡ 1
unfolding num_log_bufs
third_blocks = refl

abbrev clock : ℕ → Option Bytes
clock t = some (codes "10:00")

newest-three : newest 3 three ≡ short ∷ third ∷ []
unfolding newest num_log_bufs
newest-three = refl

three_text :
    log_text clock default_log_output_command (newest 3 three)
    ≡ some (codes "10:00.9: RX: ERROR: HI\n" ++ codes "10:00.0: RX: ERROR: YOU\n")
unfolding log_text newest num_log_bufs
three_text = refl

three-IsLoggable : All (λ x. IsLoggable x × (blocks_of x ≤ 3)) three
three-IsLoggable = (
  (long-IsLoggable, omega (arith, long_blocks)),
  (
    (short-IsLoggable, omega (arith, short_blocks)),
    ((third-IsLoggable, omega (arith, third_blocks)), tt),
  ),
)

get_log-write_log_example :
    (g : Generator) × (write_log 3 three new_generator ≡ some g)
    × (get_log clock default_log_output_command 1600 3 g.memory
        ≡ log_output clock default_log_output_command 3 three)
unfolding is_later
get_log-write_log_example =
    get_log-write_log clock default_log_output_command 1600 3 three (omega arith) (omega arith)
      (omega arith) three-IsLoggable ((refl, (refl, tt)), ((refl, tt), (tt, tt)))

-- With the same time twice, the search stops at the newer entry, which stands first in memory.
abbrev with_time : Entry → TimeStamp → Entry
with_time e t = record e { time = t }

same_time_shown :
    (write_log 2 (with_time short at_seven ∷ short ∷ with_time third at_nine ∷ []) new_generator
      >>= λ g. get_log clock default_log_output_command 1100 2 g.memory)
    ≡ some (codes "10:00.9: RX: ERROR: YOU\n" ++ codes "10:00.9: RX: ERROR: HI\n")
unfolding write_log get_log store write_header
same_time_shown = refl
