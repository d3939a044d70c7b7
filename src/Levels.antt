-- ===== src/Levels.antt =====
-- The log levels of a tag in shared memory: LogLevelNames, LogOpProxy and LogControlProxy of
-- include/stat_log/loggers/logger_common.h. The four levels, one for each logger, are the bytes at
-- `ptr`.
pub mod Command
mod Tests
use stat_log.Base.{
  ℕ, zero, suc, ◌+◌, Bool, true, false, not, ◌&&◌, Option, none, some, List, [], ◌∷◌, ◌++◌, Bytes,
  codes, text_eq, get_elem?, le_int, ltb, if◌then◌else◌, ◌>>=◌, ℤ, pos, negsuc,
}
use stat_log.Memory.{Mem, put}
use stat_log.Command.{StatCmd, log_level, is_log_command, LogLevelCommand}

abbrev pub log_level_names : List Bytes
log_level_names = codes "DEBUG" ∷ codes "INFO" ∷ codes "ALERT" ∷ codes "ERROR" ∷ []

-- LogLevel::INFO
abbrev pub info : ℕ
info = 1

-- The number of loggers: the size of LogControlStorage.
abbrev pub num_loggers : ℕ
num_loggers = 4

set_levels : ℕ → ℕ → ℕ → Mem → Mem
set_levels zero p level m = m
set_levels (suc k) p level m = set_levels k (p + 1) level (put m p level)

-- `LogOpProxy::setSharedPtr`: every logger starts at INFO.
unfoldable pub set_shared_ptr : ℕ → Mem → Mem
unfolding set_levels
set_shared_ptr ptr m = set_levels num_loggers ptr info m

-- `(*shared_ptr)[idx]`; `none` is an index outside the array.
unfoldable pub level_address : ℕ → ℤ → Option ℕ
level_address ptr (pos i) = if ltb i num_loggers then some (ptr + i) else none
level_address ptr (negsuc i) = none

-- `LogOpProxy::getLevel`, its assertion as it stands.
unfoldable pub get_level : ℕ → ℤ → Mem → Option ℕ
unfolding level_address
get_level ptr (pos i) m =
    if ltb num_loggers i then none else level_address ptr (pos i) >>= λ a. some (m a)
get_level ptr (negsuc i) m = level_address ptr (negsuc i) >>= λ a. some (m a)

-- `std::find` in LogLevelNames, as a position from `i` on; the end is `none`.
unfoldable pub find_name : List Bytes → ℕ → Bytes → Option ℕ
unfolding text_eq
find_name [] i s = none
find_name (x ∷ xs) i s = if text_eq x s then some i else find_name xs (i + 1) s

-- An invalid name leaves the level as it is.
unfoldable pub new_level : Bytes → ℕ → ℕ
unfolding find_name
new_level name old = elim (find_name log_level_names 0 name) [ some l ↦ l | none ↦ old ]

-- The case LOG_LEVEL of `doCommand`, with the address of the level.
unfoldable pub log_level_command : LogLevelCommand → ℕ → Mem → Option (Bytes × Mem)
unfolding new_level
log_level_command arg a m =
    let old = get_elem? log_level_names (m a) in
    if arg.set_log_level
    then (old >>= λ before.
        get_elem? log_level_names (new_level arg.new_log_level (m a)) >>= λ after. some (
          codes "previous log level = " ++ before ++ codes ", new log level = " ++ after,
          put m a (new_level arg.new_log_level (m a)),
        ))
    else (old >>= λ name. some (codes "log level = " ++ name, m))

-- `LogControlProxy::doCommand`; `none` is the exit of the program on an index that is too large, or
-- an access outside an array.
unfoldable pub do_log_command : StatCmd → LogLevelCommand → ℕ → Bytes → Mem → Option (Bytes × Mem)
unfolding is_log_command level_address log_level_command
do_log_command StatCmd.log_level arg ptr log_output m =
    if le_int num_loggers arg.logger_idx
    then none
    else (level_address ptr arg.logger_idx >>= λ a. log_level_command arg a m)
do_log_command cmd arg ptr log_output m = some (log_output, m)
