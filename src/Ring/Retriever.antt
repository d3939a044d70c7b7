-- ===== src/Ring/Retriever.antt =====
-- The reading side, shared_mem_logger_retriever of src/shared_memory_logger.cpp. The memory is the
-- copy that getLog makes, `size` bytes long; reading a C string that has no NUL before the end of
-- the copy is `none`. The text that `localtime` and `strftime` make of a time is a parameter, `none`
-- for the null pointer, at which the program exits.
pub mod Lines
use stat_log.Base.{
  ℕ, zero, suc, ◌+◌, ◌-◌, ◌%◌, Bool, true, false, not, ◌&&◌, ◌||◌, Option, none, some, List, [],
  ◌∷◌, ◌++◌, Bytes, codes, text_eq, decimal, ltb, ◌==◌, if◌then◌else◌, ◌>>=◌,
}
use stat_log.Command.{LogOutputCommand}
use stat_log.Memory.{Mem}
use stat_log.Memory.Words.{read_word}
use stat_log.Ring.{
  TimeStamp, block, next_block, header_size, common_header_size, sec_offset, usec_offset,
  tag_name_offset, log_level_name_offset,
}

unfoldable pub c_string_loop : ℕ → Mem → ℕ → Option Bytes
c_string_loop zero m p = none
c_string_loop (suc k) m p = elim (m p == 0) [
  | true ↦ some []
  | false ↦ c_string_loop k m (p + 1) >>= λ s. some (m p ∷ s)
]

-- `output << ptr`
unfoldable pub c_string : ℕ → Mem → ℕ → Option Bytes
unfolding c_string_loop
c_string size m p = c_string_loop (size - p) m p

unfoldable pub num_blocks : Mem → ℕ → ℕ
unfolding read_word
num_blocks m i = read_word m (block i) 4

unfoldable pub time_stamp : Mem → ℕ → TimeStamp
unfolding read_word
time_stamp m i = record {
  sec = read_word m (block i + sec_offset) 8;
  usec = read_word m (block i + usec_offset) 8;
}

-- `operator>`, on times that are not before 1970.
unfoldable pub is_later : TimeStamp → TimeStamp → Bool
is_later a b = ltb b.sec a.sec || (a.sec == b.sec && ltb b.usec a.usec)

-- The search for the smallest time stamp: `k` blocks from the `i`-th on.
unfoldable pub find_first : Mem → ℕ → ℕ → Option (ℕ × TimeStamp) → Option (ℕ × TimeStamp)
unfolding num_blocks time_stamp is_later
find_first m zero i best = best
find_first m (suc k) i none =
    find_first m k (i + 1) (if num_blocks m i == 0 then none else some (i, time_stamp m i))
find_first m (suc k) i (some (j, t)) = find_first m k (i + 1) (
    if not (num_blocks m i == 0) && is_later t (time_stamp m i)
    then some (i, time_stamp m i)
    else some (j, t))

unfoldable pub found_string_in_list : List Bytes → Bytes → Bool
unfolding text_eq
found_string_in_list [] s = false
found_string_in_list (x ∷ xs) s = text_eq x s || found_string_in_list xs s

-- The blocks behind the first one: their text.
unfoldable pub read_rest : ℕ → ℕ → Mem → ℕ → ℕ → Option Bytes
unfolding c_string
read_rest size n m zero cur = some []
read_rest size n m (suc k) cur = c_string size m (block cur + common_header_size) >>= λ s.
    read_rest size n m k (next_block n cur) >>= λ r. some (s ++ r)

-- The text of the entry that starts in a block.
unfoldable pub read_text : ℕ → ℕ → Mem → ℕ → Option Bytes
unfolding c_string read_rest num_blocks
read_text size n m i = c_string size m (block i + header_size) >>= λ s.
    read_rest size n m (num_blocks m i - 1) (next_block n i) >>= λ r. some (s ++ r)

module _ (strftime : ℕ → Option Bytes) (params : LogOutputCommand) (size n : ℕ) (m : Mem) where
  -- A list of excluded names that is empty is not looked at.
  is_excluded : List Bytes → ℕ → Option Bool
  unfolding c_string found_string_in_list
  is_excluded [] p = some false
  is_excluded (x ∷ xs) p = c_string size m p >>= λ s. some (found_string_in_list (x ∷ xs) s)

  should_print_entry : ℕ → Option Bool
  unfolding is_excluded
  should_print_entry i = is_excluded params.exclude_tags (block i + tag_name_offset) >>= λ by_tag.
      elim by_tag [
        | true ↦ some false
        | false ↦
            is_excluded params.exclude_log_levels (block i + log_level_name_offset) >>= λ by_level.
            some (not by_level)
      ]

  -- `output << name << ": "`
  show_field : Bool → ℕ → Option Bytes
  unfolding c_string
  show_field false p = some []
  show_field true p = c_string size m p >>= λ s. some (s ++ codes ": ")

  -- The time is converted whether or not the entry is printed.
  show_time : ℕ → Option Bytes
  unfolding time_stamp decimal
  show_time i =
      if params.show_time_stamp
      then (strftime (time_stamp m i).sec >>= λ time.
          some (time ++ codes "." ++ decimal (time_stamp m i).usec ++ codes ": "))
      else some []

  unfoldable pub show_entry : ℕ → Option Bytes
  unfolding should_print_entry show_field show_time read_text
  show_entry i = should_print_entry i >>= λ should_print. show_time i >>= λ time.
      elim should_print [
        | false ↦ some []
        | true ↦ show_field params.show_tag (block i + tag_name_offset) >>= λ tag.
            show_field params.show_log_level (block i + log_level_name_offset) >>= λ level.
            read_text size n m i >>= λ text. some (time ++ tag ++ level ++ text ++ codes "\n")
      ]

  -- `while(num_log_entries_processed < numLogEntries)`, on fuel: every pass takes a block.
  unfoldable pub show_entries : ℕ → ℕ → ℕ → Option Bytes
  unfolding show_entry num_blocks
  show_entries zero processed cur = none
  show_entries (suc f) processed cur = elim (ltb processed n) [
    | false ↦ some []
    | true ↦ elim (num_blocks m cur == 0) [
      | true ↦ show_entries f (processed + 1) (next_block n cur)
      | false ↦ show_entry cur >>= λ line.
          show_entries f (processed + num_blocks m cur) ((cur + num_blocks m cur) % n) >>= λ rest.
          some (line ++ rest)
    ]
  ]

  -- `getLog`, the text that it writes.
  unfoldable pub get_log : Option Bytes
  unfolding find_first show_entries
  get_log = elim (find_first m n 0 none) [
    | none ↦ some (codes "Empty log!\n")
    | some first ↦ show_entries (n + 1) 0 first.0
  ]
