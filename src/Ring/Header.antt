-- ===== src/Ring/Header.antt =====
-- The header of an entry (LogHeader of src/shared_memory_logger.cpp): what doWriteData writes into
-- its fields is read back.
use stat_log.Base.{
  ℕ, some, ◌≤◌, ◌+◌, ◌^◌, ◌<◌, ◌≡◌, ◌∙◌, inl, ◌++◌, length, take, replicate, Bytes, length-append,
  length-take, length-replicate, arith,
}
use stat_log.Memory.{Mem, store-SameOutside, SameOutside, SameOutside-trans, SameOutside-widen}
use stat_log.Memory.Words.{
  read_word, write_word, write_word-SameOutside, read-write_word, read_word-outside,
}
use stat_log.Ring.Retriever.{c_string}
use stat_log.Ring.Strings.{IsText, c_string-strncpy}
use stat_log.Ring.{
  strncpy, tag_name_size, log_level_name_size, TimeStamp, write_header, header_size,
  tag_name_offset, log_level_name_offset, sec_offset, usec_offset,
}

strncpy-SameOutside :
    (m : Mem) (p : ℕ) (s : Bytes) (size : ℕ) → SameOutside p size m (strncpy m p s size)
strncpy-SameOutside m p s size =
    let padded : length (take size (s ++ replicate size 0)) ≡ size =
      length-take size (s ++ replicate size 0)
        (omega (arith, length-append s (replicate size 0), length-replicate {A = ℕ} size 0)) in
    store-SameOutside m p (take size (s ++ replicate size 0)) size (omega (arith, padded))

-- The header, field by field.
module _ (p bufs : ℕ) (time : TimeStamp) (tag level : Bytes) (m : Mem) where
  abbrev with_blocks : Mem
  with_blocks = write_word m p 4 bufs

  abbrev with_sec : Mem
  with_sec = write_word with_blocks (p + sec_offset) 8 time.sec

  abbrev with_usec : Mem
  with_usec = write_word with_sec (p + usec_offset) 8 time.usec

  abbrev pub with_tag : Mem
  with_tag = strncpy with_usec (p + tag_name_offset) tag tag_name_size

  abbrev pub header : Mem
  header = write_header p bufs time tag level m

  pub after_tag : SameOutside (p + log_level_name_offset) 8 with_tag header
  unfolding write_header
  after_tag = strncpy-SameOutside with_tag (p + log_level_name_offset) level log_level_name_size

  after_usec : SameOutside (p + tag_name_offset) 24 with_usec header
  after_usec =
      let q = p + tag_name_offset in
      SameOutside-trans q 24
        (SameOutside-widen q 24 q 16 (omega arith) (omega arith)
          (strncpy-SameOutside with_usec q tag tag_name_size))
        (SameOutside-widen q 24 (p + log_level_name_offset) 8 (omega arith) (omega arith) after_tag)

  after_sec : SameOutside (p + usec_offset) 32 with_sec header
  after_sec =
      let q = p + usec_offset in
      SameOutside-trans q 32
        (SameOutside-widen q 32 q 8 (omega arith) (omega arith)
          (write_word-SameOutside with_sec q 8 time.usec))
        (SameOutside-widen q 32 (p + tag_name_offset) 24 (omega arith) (omega arith) after_usec)

  after_blocks : SameOutside (p + sec_offset) 40 with_blocks header
  after_blocks =
      let q = p + sec_offset in
      SameOutside-trans q 40
        (SameOutside-widen q 40 q 8 (omega arith) (omega arith)
          (write_word-SameOutside with_blocks q 8 time.sec))
        (SameOutside-widen q 40 (p + usec_offset) 32 (omega arith) (omega arith) after_sec)

  pub write_header-SameOutside : SameOutside p header_size m header
  write_header-SameOutside =
      SameOutside-trans p 48
        (SameOutside-widen p 48 p 4 (omega arith) (omega arith) (write_word-SameOutside m p 4 bufs))
        (SameOutside-widen p 48 (p + sec_offset) 40 (omega arith) (omega arith) after_blocks)

  pub header_blocks : bufs < 256 ^ 4 → read_word header p 4 ≡ bufs
  header_blocks h =
      read_word-outside with_blocks header (p + sec_offset) 40 p 4 after_blocks (inl (omega arith))
      ∙ read-write_word m p 4 bufs h

  pub header_sec : time.sec < 256 ^ 8 → read_word header (p + sec_offset) 8 ≡ time.sec
  header_sec h =
      read_word-outside with_sec header (p + usec_offset) 32 (p + sec_offset) 8 after_sec
        (inl (omega arith))
      ∙ read-write_word with_blocks (p + sec_offset) 8 time.sec h

  pub header_usec : time.usec < 256 ^ 8 → read_word header (p + usec_offset) 8 ≡ time.usec
  header_usec h =
      read_word-outside with_usec header (p + tag_name_offset) 24 (p + usec_offset) 8 after_usec
        (inl (omega arith))
      ∙ read-write_word with_sec (p + usec_offset) 8 time.usec h

  -- A later memory has the same header.
  abbrev pub KeepsHeader : Mem → Type 0
  KeepsHeader m' = (a : ℕ) → p ≤ a → a < p + header_size → m' a ≡ header a

  pub header_tag :
      (size : ℕ) (m' : Mem)
      → IsText tag
      → length tag < tag_name_size
      → p + header_size ≤ size
      → KeepsHeader m'
      → c_string size m' (p + tag_name_offset) ≡ some tag
  header_tag size m' t short inside same =
      c_string-strncpy tag tag_name_size size with_usec m' (p + tag_name_offset) t short
        (omega arith)
        (λ a le lt. same a (omega arith) (omega arith) ∙ after_tag a (inl (omega arith)))

  pub header_level :
      (size : ℕ) (m' : Mem)
      → IsText level
      → length level < log_level_name_size
      → p + header_size ≤ size
      → KeepsHeader m'
      → c_string size m' (p + log_level_name_offset) ≡ some level
  unfolding write_header
  header_level size m' t short inside same =
      c_string-strncpy level log_level_name_size size with_tag m' (p + log_level_name_offset) t
        short (omega arith) (λ a le lt. same a (omega arith) (omega arith))
