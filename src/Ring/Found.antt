-- ===== src/Ring/Found.antt =====
-- What getLog of src/shared_memory_logger.cpp finds of an entry, from what the writing loop leaves
-- behind.
use stat_log.Base.{
  ℕ, suc, ◌+◌, ◌-◌, ◌^◌, ◌≤◌, ◌<◌, ◌≡◌, ◌≢◌, ap, ap₂, subst, ◌∙◌, inl, inr, Option, some, [], ◌∷◌,
  ◌++◌, length, Bytes, ltb, arith, Bool-cases,
}
use stat_log.Memory.{Mem}
use stat_log.Memory.Words.{read_word, read_word_congr}
use stat_log.Ring.{
  ceil_divide, Generator, TimeStamp, write_header, num_log_bufs, block, header_size,
  max_chars_in_first_block, max_chars_in_other_blocks, sec_offset, usec_offset, tag_name_offset,
  log_level_name_offset, tag_name_size, log_level_name_size, next_block,
}
use stat_log.Ring.Retriever.{c_string, read_text, num_blocks, time_stamp}
use stat_log.Ring.Avoid.{Avoids}
use stat_log.Ring.Strings.{IsText}
use stat_log.Ring.Header.{
  KeepsHeader, header_tag, header_level, write_header-SameOutside, header_blocks, header_sec,
  header_usec,
}
use stat_log.Ring.Kept.{Keeps, Marked}
use stat_log.Ring.Blocks.{Fits, Closed, Written}

-- The number of blocks is what the loop takes.
pub num_log_bufs-Fits :
    (len : ℕ) → 0 < len → (j : ℕ) × (num_log_bufs len ≡ suc j) × Fits max_chars_in_first_block j len
unfolding num_log_bufs
num_log_bufs-Fits len h = elim (Bool-cases (ltb max_chars_in_first_block len)) [
  | inl e ↦ (
    ceil_divide (len - max_chars_in_first_block) max_chars_in_other_blocks,
    ground arith,
    ground arith,
  )
  | inr e ↦ (0, ground arith, ground arith)
]

-- The blocks of an entry, with the NUL that `writeData` adds to its text.
abbrev pub entry_blocks : Bytes → ℕ
entry_blocks text = num_log_bufs (length (text ++ 0 ∷ []))

module _ (size n : ℕ) (text tag level : Bytes) (time : TimeStamp) (g : Generator) where
  -- What the retriever finds in the block `i` of a memory.
  pub record IsEntry (m : Mem) (i : ℕ) : Type 0 where
    pub text_read : read_text size n m i ≡ some text
    pub blocks_read : num_blocks m i ≡ entry_blocks text
    pub time_read : time_stamp m i ≡ time

  pub write_header-Closed :
      (j : ℕ)
      → entry_blocks text ≡ suc j
      → g.current_log_entry < n
      → Closed size n g.memory g.current_log_entry (entry_blocks text)
      → Closed size n
          (write_header (block g.current_log_entry) (entry_blocks text) time tag level g.memory)
          g.current_log_entry
          (suc j)
  write_header-Closed j e lt (inl ends) = inl (omega (arith, e, ends))
  write_header-Closed j e lt (inr (room, zero_there)) = inr (
    room,
    write_header-SameOutside (block g.current_log_entry) (entry_blocks text) time tag level g.memory
          (block n) (inr (omega arith))
        ∙ zero_there,
  )

  pub first_avoided :
      (b j : ℕ)
      → entry_blocks text ≡ suc j
      → Avoids n g.current_log_entry (entry_blocks text) b
      → g.current_log_entry ≢ b
  first_avoided b j e av = (subst (λ k. Avoids n g.current_log_entry k b) e av).0

  -- The header that the write begins with, and what a later memory keeps of the entry.
  abbrev pub first_header : Mem
  first_header =
      write_header (block g.current_log_entry) (entry_blocks text) time tag level g.memory

  pub record IsKept (m' : Mem) : Type 0 where
    pub entry : IsEntry m' g.current_log_entry
    pub tag_read :
        IsText tag
        → length tag < tag_name_size
        → c_string size m' (block g.current_log_entry + tag_name_offset) ≡ some tag
    pub level_read :
        IsText level
        → length level < log_level_name_size
        → c_string size m' (block g.current_log_entry + log_level_name_offset) ≡ some level
    pub marks : Marked n (next_block n g.current_log_entry) (entry_blocks text - 1) m'

  header_kept :
      (j : ℕ) (r : Option Mem)
      → (w : Written size n j g.current_log_entry
          (block g.current_log_entry + header_size)
          first_header
          text
          r)
      → (m' : Mem) → Keeps n g.current_log_entry (suc j) w.memory m'
      → KeepsHeader (block g.current_log_entry) (entry_blocks text) time tag level g.memory m'
  header_kept j r w m' keeps a ge lt =
      keeps.0 a (omega arith, omega arith) ∙ w.before a (omega arith) (omega arith)

  Written-IsEntry :
      (j : ℕ) (r : Option Mem)
      → entry_blocks text ≡ suc j
      → entry_blocks text < 2 ^ 32
      → time.sec < 2 ^ 64
      → time.usec < 2 ^ 64
      → (w : Written size n j g.current_log_entry
          (block g.current_log_entry + header_size)
          first_header
          text
          r)
      → (m' : Mem) → Keeps n g.current_log_entry (suc j) w.memory m'
      → IsEntry m' g.current_log_entry
  unfolding num_blocks time_stamp read_text
  Written-IsEntry j r e small sec usec w m' keeps =
      let cur = g.current_log_entry in
      let p = block cur in
      let m = first_header in
      let same : (q k : ℕ) → p ≤ q → q + k ≤ p + header_size → read_word m' q k ≡ read_word m q k =
        λ q k le₁ le₂.
          read_word_congr m m' q k
            (λ a ge lt. header_kept j r w m' keeps a (omega arith) (omega arith)) in
      let blocks =
        same p 4 (omega arith) (omega arith)
        ∙ header_blocks p (entry_blocks text) time tag level g.memory small in
      let rest_blocks : read_word m' p 4 - 1 ≡ j = omega (arith, blocks, e) in
      record {
        text_read =
            rw (w.reads_first m' keeps)
              (rw (rest_blocks) (rw (w.reads_rest m' keeps) (ap some w.whole)));
        blocks_read = blocks;
        time_read =
            ap₂ (λ a b. record { sec = a; usec = b })
              (same (p + sec_offset) 8 (omega arith) (omega arith)
                ∙ header_sec p (entry_blocks text) time tag level g.memory sec)
              (same (p + usec_offset) 8 (omega arith) (omega arith)
                ∙ header_usec p (entry_blocks text) time tag level g.memory usec);
      }

  pub Written-IsKept :
      (j : ℕ) (r : Option Mem)
      → g.current_log_entry < n
      → block n ≤ size
      → entry_blocks text ≡ suc j
      → entry_blocks text < 2 ^ 32
      → time.sec < 2 ^ 64
      → time.usec < 2 ^ 64
      → (w : Written size n j g.current_log_entry
          (block g.current_log_entry + header_size)
          first_header
          text
          r)
      → (m' : Mem) → Keeps n g.current_log_entry (entry_blocks text) w.memory m'
      → IsKept m'
  Written-IsKept j r lt inside e small sec usec w m' kept =
      let cur = g.current_log_entry in
      let p = block cur in
      let keeps = subst (λ k. Keeps n cur k w.memory m') e kept in
      let header = header_kept j r w m' keeps in
      let rest : j ≡ entry_blocks text - 1 = omega (arith, e) in
      record {
        entry = Written-IsEntry j r e small sec usec w m' keeps;
        tag_read = λ t short.
            header_tag p (entry_blocks text) time tag level g.memory size m' t short (omega arith)
              header;
        level_read = λ t short.
            header_level p (entry_blocks text) time tag level g.memory size m' t short (omega arith)
              header;
        marks = subst (λ k. Marked n (next_block n cur) k m') rest (w.marks m' keeps);
      }
