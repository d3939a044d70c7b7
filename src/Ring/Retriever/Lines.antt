-- ===== src/Ring/Retriever/Lines.antt =====
-- What getLog of src/shared_memory_logger.cpp prints of one entry.
use stat_log.Base.{
  ℕ, ◌+◌, ◌≡◌, refl, ap, inl, inr, Option, some, true, false, not, ◌&&◌, Bool, List, [], ◌∷◌, ◌++◌,
  Bytes, ◌>>=◌, if◌then◌else◌, codes, decimal, Bool-cases,
}
use stat_log.Command.{LogOutputCommand}
use stat_log.Memory.{Mem}
use stat_log.Ring.{TimeStamp, block, tag_name_offset, log_level_name_offset}
use stat_log.Ring.Retriever.{
  c_string, found_string_in_list, is_excluded, should_print_entry, show_time, show_field,
  show_entry,
}
use stat_log.Ring.Sequence.{Entry, IsLogged}

-- The text for an entry and for a sequence, from the entries alone.
module _ (strftime : ℕ → Option Bytes) (params : LogOutputCommand) where
  is_shown : Entry → Bool
  unfolding found_string_in_list
  is_shown e =
      not (found_string_in_list params.exclude_tags e.tag)
      && not (found_string_in_list params.exclude_log_levels e.level)

  time_text : TimeStamp → Option Bytes
  unfolding decimal
  time_text t =
      if params.show_time_stamp
      then (strftime t.sec >>= λ s. some (s ++ codes "." ++ decimal t.usec ++ codes ": "))
      else some []

  field_text : Bool → Bytes → Bytes
  field_text shown s = if shown then s ++ codes ": " else []

  unfoldable pub log_line : Entry → Option Bytes
  unfolding is_shown time_text field_text
  log_line e = time_text e.time >>= λ time. some (
      if is_shown e
      then time
        ++ field_text params.show_tag e.tag
        ++ field_text params.show_log_level e.level
        ++ e.text
        ++ codes "\n"
      else [])

  unfoldable pub log_text : List Entry → Option Bytes
  unfolding log_line
  log_text [] = some []
  log_text (e ∷ es) = log_line e >>= λ line. log_text es >>= λ rest. some (line ++ rest)

module _ (strftime : ℕ → Option Bytes) (params : LogOutputCommand) (size n : ℕ) (m : Mem) where
  is_excluded_lem :
      (names : List Bytes) (p : ℕ) (s : Bytes)
      → c_string size m p ≡ some s
      → is_excluded strftime params size n m names p ≡ some (found_string_in_list names s)
  unfolding is_excluded found_string_in_list
  is_excluded_lem [] p s h = refl
  is_excluded_lem (x ∷ xs) p s h = rw h refl

  should_print_entry_lem :
      (i : ℕ) (e : Entry)
      → IsLogged size n m i e
      → should_print_entry strftime params size n m i ≡ some (is_shown strftime params e)
  unfolding should_print_entry is_shown
  should_print_entry_lem i e h =
      let tags = is_excluded_lem params.exclude_tags (block i + tag_name_offset) e.tag h.tag_read in
      let levels =
        is_excluded_lem params.exclude_log_levels (block i + log_level_name_offset) e.level
          h.level_read in
      elim (Bool-cases (found_string_in_list params.exclude_tags e.tag)) [
        | inl out ↦ rw tags (rw out refl)
        | inr in_list ↦ rw tags (rw in_list (rw levels refl))
      ]

  show_time_lem :
      (i : ℕ) (e : Entry)
      → IsLogged size n m i e
      → show_time strftime params size n m i ≡ time_text strftime params e.time
  unfolding show_time time_text
  show_time_lem i e h = ap (time_text strftime params) h.time_read

  show_field_lem :
      (shown : Bool) (p : ℕ) (s : Bytes)
      → c_string size m p ≡ some s
      → show_field strftime params size n m shown p ≡ some (field_text strftime params shown s)
  unfolding show_field field_text
  show_field_lem false p s h = refl
  show_field_lem true p s h = rw h refl

  pub show_entry_lem :
      (i : ℕ) (e : Entry)
      → IsLogged size n m i e
      → show_entry strftime params size n m i ≡ log_line strftime params e
  unfolding show_entry log_line
  show_entry_lem i e h =
      rw (should_print_entry_lem i e h, show_time_lem i e h)
        (elim (Bool-cases (is_shown strftime params e)) [
          | inl out ↦ rw out (
              rw
                (
                  show_field_lem params.show_tag (block i + tag_name_offset) e.tag h.tag_read,
                  show_field_lem params.show_log_level (block i + log_level_name_offset) e.level
                      h.level_read,
                  h.text_read,
                )
                refl)
          | inr in_list ↦ rw in_list refl
        ])
