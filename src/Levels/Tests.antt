-- ===== src/Levels/Tests.antt =====
-- Runs of LOG_LEVEL on concrete levels, and the witnesses of its theorems.
use stat_log.Base.{◌<◌, ◌≡◌, refl, true, none, some, Bytes, pos, codes, length, arith, ◌>>=◌}
use stat_log.Memory.{Mem, SameOutside}
use stat_log.Command.{LogLevelCommand, log_level}
use stat_log.Levels.{log_level_names, set_shared_ptr, do_log_command, get_level}
use stat_log.Levels.Command.{do_log_command-SameOutside}

abbrev levels : Mem
levels = set_shared_ptr 100 (λ a. 9)

abbrev to_error : LogLevelCommand
to_error = record { set_log_level = true; logger_idx = pos 2; new_log_level = codes "ERROR" }

starts_at_info : get_level 100 (pos 3) levels ≡ some 1
unfolding get_level set_shared_ptr
starts_at_info = refl

-- The assertion lets the index 4 through, which is no logger.
one_too_many : get_level 100 (pos 4) levels ≡ none
unfolding get_level
one_too_many = refl

error_set :
    (do_log_command log_level to_error 100 (codes "") levels >>= λ r. some r.0)
    ≡ some (codes "previous log level = INFO, new log level = ERROR")
unfolding do_log_command set_shared_ptr
error_set = refl

level_two : levels 102 ≡ 1
unfolding set_shared_ptr
level_two = refl

do_log_command-SameOutside_example :
    (out : Bytes) × (m' : Mem) × (do_log_command log_level to_error 100 (codes "") levels
      ≡ some (out, m'))
    × (m' 102 < length log_level_names)
    × SameOutside 102 1 levels m'
do_log_command-SameOutside_example =
    do_log_command-SameOutside to_error 100 2 (codes "") levels (omega arith) refl
      (omega (arith, level_two))
