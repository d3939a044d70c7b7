-- ===== src/Proxy.antt =====
-- LogGenProxy and LoggerGenerator::writeData of include/stat_log/loggers/logger_common.h: what the
-- program inserts is gathered in a string stream, and the destructor hands it to the logger. A value
-- that is inserted stands here as the text that the stream makes of it; the logger is the ring of
-- src/shared_memory_logger.cpp.
pub mod Logged
mod Tests
use stat_log.Base.{
  ℕ, zero, suc, ◌+◌, ◌/◌, ◌%◌, Bool, true, false, Option, some, List, [], ◌∷◌, ◌++◌, Bytes, codes,
  is_empty, ltb, ◌==◌, if◌then◌else◌,
}
use stat_log.Ring.{Generator, TimeStamp, do_write_data}

pub record LogGenProxy : Type 0 where
  pub text : Bytes
  pub enabled : Bool
  pub tag_name : Bytes
  pub log_level_name : Bytes

abbrev pub new_proxy : Bool → Bytes → Bytes → LogGenProxy
new_proxy is_enabled tag level = record {
  text = [];
  enabled = is_enabled;
  tag_name = tag;
  log_level_name = level;
}

-- `operator<<`
unfoldable pub insert : LogGenProxy → Bytes → LogGenProxy
insert p value = if p.enabled then record p { text = p.text ++ value } else p

-- The statement `proxy << v1 << v2 ...`.
unfoldable pub insert_all : LogGenProxy → List Bytes → LogGenProxy
unfolding insert
insert_all p [] = p
insert_all p (v ∷ vs) = insert_all (insert p v) vs

hex_digit : ℕ → ℕ
hex_digit d = if ltb d 10 then 48 + d else 87 + d

-- `std::hex << std::setw(2)` with the fill character 0, and the separator behind the `i`-th byte.
hex_bytes : ℕ → Bytes → Bytes
unfolding hex_digit
hex_bytes i [] = []
hex_bytes i (b ∷ bs) =
    hex_digit (b / 16)
    ∷ hex_digit (b % 16)
    ∷ (if (i + 1) % 32 == 0 then 10 else 32)
    ∷ hex_bytes (i + 1) bs

unfoldable pub hex_dump : LogGenProxy → Bytes → Bytes → LogGenProxy
unfolding hex_bytes
hex_dump p buf label =
    if p.enabled then record p { text = p.text ++ label ++ codes "\n" ++ hex_bytes 0 buf } else p

-- `writeData`: the text with its NUL, and the time of the call.
abbrev pub write_data : ℕ → Bool → Bytes → Bytes → Bytes → TimeStamp → Generator → Option Generator
write_data n locked log_entry tag level time g =
    do_write_data n locked (log_entry ++ 0 ∷ []) tag level time g

-- The destructor.
unfoldable pub destroy : ℕ → Bool → TimeStamp → LogGenProxy → Generator → Option Generator
unfolding is_empty
destroy n locked time p g =
    let written = write_data n locked p.text p.tag_name p.log_level_name time g in
    if is_empty p.text then some g else written
