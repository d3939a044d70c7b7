-- ===== src/Levels/Command.antt =====
-- What LOG_LEVEL does to the levels: LogControlProxy::doCommand and LogOpProxy::getLevel of
-- include/stat_log/loggers/logger_common.h.
use stat_log.Base.{
  ltb, leb, lt→ltb, ℕ, zero, suc, ◌+◌, ◌<◌, ◌≡◌, refl, sym, ap, subst, ◌∙◌, inl, inr, true, false,
  some, ◌++◌, Bytes, codes, Bool-cases, get_elem?, get_elem?-some, length, pos, arith,
}
use mathlib.Core.Option.{some-injective}
use stat_log.Memory.{Mem, put, SameOutside, SameOutside-refl}
use stat_log.Command.{log_level, LogLevelCommand}
use stat_log.Levels.{
  log_level_names, num_loggers, find_name, new_level, log_level_command, do_log_command, get_level,
  level_address,
}

new_level-lt : (s : Bytes) (old : ℕ) → old < 4 → new_level s old < 4
unfolding new_level find_name
new_level-lt s old h = ground arith

new_level_lem : (s : Bytes) (l old : ℕ) → get_elem? log_level_names l ≡ some s → new_level s old ≡ l
unfolding new_level find_name
new_level_lem s zero old e = subst (λ x. new_level x old ≡ 0) (some-injective _ s e) refl
new_level_lem s (suc zero) old e = subst (λ x. new_level x old ≡ 1) (some-injective _ s e) refl
new_level_lem s (suc (suc zero)) old e =
    subst (λ x. new_level x old ≡ 2) (some-injective _ s e) refl
new_level_lem s (suc (suc (suc zero))) old e =
    subst (λ x. new_level x old ≡ 3) (some-injective _ s e) refl
new_level_lem s (suc (suc (suc (suc l)))) old e = cc

put_self : (m : Mem) (a v : ℕ) → put m a v a ≡ v
put_self m a v = ground arith

put-SameOutside : (m : Mem) (a v : ℕ) → SameOutside a 1 m (put m a v)
put-SameOutside m a v b (inl h) = ground arith
put-SameOutside m a v b (inr h) = ground arith

pub get_level_lem :
    (ptr i : ℕ) (m : Mem) → i < num_loggers → get_level ptr (pos i) m ≡ some (m (ptr + i))
unfolding get_level level_address
get_level_lem ptr i m lt =
    let not_beyond : ltb num_loggers i ≡ false = ground arith in
    let inside : ltb i num_loggers ≡ true = lt→ltb i num_loggers lt in rw (not_beyond, inside) refl

module _ (arg : LogLevelCommand) (a : ℕ) (m : Mem) where
  set_command :
      m a < length log_level_names
      → arg.set_log_level ≡ true
      → (out : Bytes) × (log_level_command arg a m
          ≡ some (out, put m a (new_level arg.new_log_level (m a))))
  unfolding log_level_command
  set_command valid set =
      let (before, eb) = get_elem?-some log_level_names (m a) valid in
      let (after, ea) =
        get_elem?-some log_level_names (new_level arg.new_log_level (m a))
          (new_level-lt arg.new_log_level (m a) valid) in
      (
        codes "previous log level = " ++ before ++ codes ", new log level = " ++ after,
        rw set (rw eb (rw ea refl)),
      )

  show_command :
      m a < length log_level_names
      → arg.set_log_level ≡ false
      → (out : Bytes) × (log_level_command arg a m ≡ some (out, m))
  unfolding log_level_command
  show_command valid set =
      let (name, e) = get_elem?-some log_level_names (m a) valid in
      (codes "log level = " ++ name, rw set (rw e refl))

module _ (arg : LogLevelCommand) (ptr i : ℕ) (log_output : Bytes) (m : Mem) where
  do_log_command_lem :
      i < num_loggers
      → arg.logger_idx ≡ pos i
      → do_log_command log_level arg ptr log_output m ≡ log_level_command arg (ptr + i) m
  unfolding do_log_command level_address
  do_log_command_lem lt e =
      let not_beyond : leb num_loggers i ≡ false = ground arith in
      let inside : ltb i num_loggers ≡ true = lt→ltb i num_loggers lt in
      rw e (rw (not_beyond, inside) refl)

  -- LOG_LEVEL for one of the four loggers, whose level is one of the four, returns whatever the
  -- command asks for, leaves the level one of the four, and changes no other byte.
  pub do_log_command-SameOutside :
      i < num_loggers
      → arg.logger_idx ≡ pos i
      → m (ptr + i) < length log_level_names
      → (out : Bytes) × (m' : Mem) × (do_log_command log_level arg ptr log_output m
          ≡ some (out, m'))
        × (m' (ptr + i) < length log_level_names)
        × SameOutside (ptr + i) 1 m m'
  do_log_command-SameOutside lt e valid =
      let a = ptr + i in
      let run = do_log_command_lem lt e in
      elim (Bool-cases arg.set_log_level) [
        | inl set ↦
            let (out, returns) = set_command arg a m valid set in
            (
              out,
              put m a (new_level arg.new_log_level (m a)),
              run ∙ returns,
              subst (λ k. k < 4) (sym (put_self m a (new_level arg.new_log_level (m a))))
                  (new_level-lt arg.new_log_level (m a) valid),
              put-SameOutside m a (new_level arg.new_log_level (m a)),
            )
        | inr set ↦
            let (out, returns) = show_command arg a m valid set in
            (out, m, run ∙ returns, valid, SameOutside-refl a 1 m)
      ]

  -- LOG_LEVEL with a level's name, for one of the four loggers whose level is one of the four, makes
  -- the operational side see that level, whatever it was before.
  pub get_level-do_log_command :
      (l : ℕ)
      → i < num_loggers
      → arg.logger_idx ≡ pos i
      → m (ptr + i) < length log_level_names
      → arg.set_log_level ≡ true
      → get_elem? log_level_names l ≡ some arg.new_log_level
      → (out : Bytes) × (m' : Mem) × (do_log_command log_level arg ptr log_output m
          ≡ some (out, m'))
        × (get_level ptr (pos i) m' ≡ some l)
  get_level-do_log_command l lt e valid set name =
      let a = ptr + i in
      let (out, returns) = set_command arg a m valid set in
      (
        out,
        put m a (new_level arg.new_log_level (m a)),
        do_log_command_lem lt e ∙ returns,
        get_level_lem ptr i (put m a (new_level arg.new_log_level (m a))) lt
            ∙ ap some (
                put_self m a (new_level arg.new_log_level (m a))
                ∙ new_level_lem arg.new_log_level l (m a) name),
      )

  -- The same as a write of the level's number.
  pub do_log_command-put :
      (l : ℕ)
      → i < num_loggers
      → arg.logger_idx ≡ pos i
      → m (ptr + i) < length log_level_names
      → arg.set_log_level ≡ true
      → get_elem? log_level_names l ≡ some arg.new_log_level
      → (out : Bytes) × (do_log_command log_level arg ptr log_output m
          ≡ some (out, put m (ptr + i) l))
  do_log_command-put l lt e valid set name =
      let (out, returns) = set_command arg (ptr + i) m valid set in
      (
        out,
        do_log_command_lem lt e
            ∙ returns
            ∙ ap (λ v. some (out, put m (ptr + i) v))
                (new_level_lem arg.new_log_level l (m (ptr + i)) name),
      )
