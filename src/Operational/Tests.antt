-- ===== src/Operational/Tests.antt =====
-- A logger's gate at concrete levels.
use stat_log.Base.{
  ℕ, ◌≡◌, ◌<◌, Bool, refl, true, some, List, [], ◌∷◌, codes, Bytes, pos, arith, leb,
}
use stat_log.Memory.{Mem}
use stat_log.Command.{log_level, LogLevelCommand}
use stat_log.Tags.{op_logger}
use stat_log.Segment.{Placed, get_placed}
use stat_log.Levels.{do_log_command}
use stat_log.Proxy.{new_proxy, insert_all, hex_dump, destroy}
use stat_log.Ring.{Generator, TimeStamp}
use stat_log.Operational.{get_log}
use stat_log.Operational.Gate.{get_log-do_log_command}

abbrev quiet : Mem
quiet a = 1

abbrev place : Placed
place = record {
  handle = record { kind = op_logger; tag = record { index = 6; name = codes "L" } };
  shared_ptr = 40;
}

abbrev logger : Generator
logger = record { memory = quiet; current_log_entry = 0 }

abbrev to_error : LogLevelCommand
to_error = record { set_log_level = true; logger_idx = pos 0; new_log_level = codes "ERROR" }

get_log-do_log_command_example :
    (out : Bytes) × (m' : Mem) × (do_log_command log_level to_error 40 [] quiet ≡ some (out, m'))
    × (get_log 6 2 0 (place ∷ []) (logger ∷ []) m'
        ≡ some (logger, new_proxy (leb 3 2) (codes "L") (codes "ALERT")))
    × ((n : ℕ) (locked : Bool) (time : TimeStamp) (vs : List Bytes) (buf label : Bytes)
        → 2 < 3
        → destroy n locked time
            (hex_dump (insert_all (new_proxy (leb 3 2) (codes "L") (codes "ALERT")) vs) buf label)
            logger
          ≡ some logger)
unfolding get_placed
get_log-do_log_command_example =
    get_log-do_log_command 6 2 0 (place ∷ []) (logger ∷ []) place logger (codes "ALERT") to_error []
      3 quiet refl refl refl (omega arith) (omega arith) refl (omega arith) refl refl
