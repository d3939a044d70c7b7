-- ===== src/Operational/Gate.antt =====
-- Which statements of the program log: getLog of include/stat_log/stat_log.h with the levels that the
-- control side sets (include/stat_log/loggers/logger_common.h).
use stat_log.Base.{
  ℕ, ◌+◌, Bool, ◌<◌, ◌≡◌, refl, true, false, some, List, Bytes, get_elem?, length, leb, pos, arith,
  sym, subst,
}
use stat_log.Memory.{Mem}
use stat_log.Command.{log_level, LogLevelCommand}
use stat_log.Levels.{log_level_names, num_loggers, get_level, do_log_command}
use stat_log.Levels.Command.{get_level-do_log_command}
use stat_log.Segment.{Placed, get_placed}
use stat_log.Proxy.{new_proxy, insert_all, hex_dump, destroy}
use stat_log.Proxy.Logged.{destroy-disabled}
use stat_log.Ring.{Generator, TimeStamp}
use stat_log.Operational.{get_log}

module _ (tag level idx : ℕ) (logs : List Placed) (loggers : List Generator) (a : Placed)
    (logger : Generator) (name : Bytes) where
  pub get_log_lem :
      (cur : ℕ) (m : Mem)
      → get_placed tag logs ≡ some a
      → get_elem? loggers idx ≡ some logger
      → get_elem? log_level_names level ≡ some name
      → idx < length loggers
      → get_level a.shared_ptr (pos idx) m ≡ some cur
      → get_log tag level idx logs loggers m
        ≡ some (logger, new_proxy (leb cur level) a.handle.tag.name name)
  unfolding get_log
  get_log_lem cur m found at named inside e =
      let asserted : leb idx (length loggers) ≡ true = ground (arith, inside) in
      rw asserted (rw found (rw e (rw at (rw named refl))))

  -- After LOG_LEVEL with the name of a level, for one of the four loggers of a tag, whose level was
  -- one of the four, getLog of the tag with that logger gives a proxy of the logger, enabled exactly
  -- when the level asked for is not below the one set; and when it is below, the statement leaves the
  -- logger as it is, whatever it inserts and dumps.
  pub get_log-do_log_command :
      (arg : LogLevelCommand) (log_output : Bytes) (l : ℕ) (m : Mem)
      → get_placed tag logs ≡ some a
      → get_elem? loggers idx ≡ some logger
      → get_elem? log_level_names level ≡ some name
      → idx < length loggers
      → idx < num_loggers
      → arg.logger_idx ≡ pos idx
      → m (a.shared_ptr + idx) < length log_level_names
      → arg.set_log_level ≡ true
      → get_elem? log_level_names l ≡ some arg.new_log_level
      → (out : Bytes) × (m' : Mem) × (do_log_command log_level arg a.shared_ptr log_output m
          ≡ some (out, m'))
        × (get_log tag level idx logs loggers m'
            ≡ some (logger, new_proxy (leb l level) a.handle.tag.name name))
        × ((n : ℕ) (locked : Bool) (time : TimeStamp) (vs : List Bytes) (buf label : Bytes)
            → level < l
            → destroy n locked time
                (hex_dump
                  (insert_all (new_proxy (leb l level) a.handle.tag.name name) vs)
                  buf
                  label)
                logger
              ≡ some logger)
  get_log-do_log_command arg log_output l m found at named inside four e valid set new =
      let (out, m', run, seen) =
        get_level-do_log_command arg a.shared_ptr idx log_output m l four e valid set new in
      (
        out,
        m',
        run,
        get_log_lem l m' found at named inside seen,
        λ n locked time vs buf label lt.
            let off : leb l level ≡ false = ground (arith, lt) in
            subst
              (λ b.
                destroy n locked time
                  (hex_dump (insert_all (new_proxy b a.handle.tag.name name) vs) buf label) logger
                ≡ some logger)
              (sym off) (destroy-disabled n locked time a.handle.tag.name name buf label vs logger),
      )
