-- ===== src/Ring/Entry.antt =====
-- An entry that the generator wrote, seen by the retriever: doWriteData and getLog of
-- src/shared_memory_logger.cpp.
use native.Mathlib.Nat.{mod-lt}
use stat_log.Base.{
  subst_some, ◌>>=◌, ℕ, suc, ◌+◌, ◌^◌, ◌%◌, ◌≤◌, ◌<◌, ◌≡◌, refl, sym, ap, subst, ◌∙◌, some, true,
  [], ◌∷◌, ◌++◌, length, Bytes, min, length-append, arith,
}
use stat_log.Memory.{Mem}
use stat_log.Ring.{
  Generator, TimeStamp, write_blocks, write_header, do_write_data, block, header_size,
  max_chars_in_first_block,
}
use stat_log.Ring.Avoid.{Avoids}
use stat_log.Ring.Strings.{IsText}
use stat_log.Ring.Header.{write_header-SameOutside}
use stat_log.Ring.Kept.{InBlock, other_block, Keeps, Keeps-refl}
use stat_log.Ring.Blocks.{Closed}
use stat_log.Ring.Loop.{write_blocks_lem}
use stat_log.Ring.Found.{
  num_log_bufs-Fits, entry_blocks, IsEntry, IsKept, write_header-Closed, first_avoided,
  Written-IsKept,
}

module _ (size n : ℕ) (text tag level : Bytes) (time : TimeStamp) (g : Generator) where
  -- Everything at once, from the result of the loop.
  pub do_write_data_lem :
      g.current_log_entry < n
      → block n ≤ size
      → IsText text
      → entry_blocks text ≤ n
      → entry_blocks text < 2 ^ 32
      → time.sec < 2 ^ 64
      → time.usec < 2 ^ 64
      → Closed size n g.memory g.current_log_entry (entry_blocks text)
      → (g' : Generator) × (do_write_data n true (text ++ 0 ∷ []) tag level time g ≡ some g')
        × ((m' : Mem)
            → Keeps n g.current_log_entry (entry_blocks text) g'.memory m'
            → IsKept size n text tag level time g m')
        × (g'.current_log_entry ≡ (g.current_log_entry + entry_blocks text) % n)
        × ((b a : ℕ)
            → Avoids n g.current_log_entry (entry_blocks text) b
            → InBlock b a
            → g'.memory a ≡ g.memory a)
  unfolding do_write_data
  do_write_data_lem lt inside t enough small sec usec closed =
      let cur = g.current_log_entry in
      let p = block cur in
      let m = write_header p (entry_blocks text) time tag level g.memory in
      let len = length-append text (0 ∷ []) in
      let fuel : length (text ++ 0 ∷ []) + 2 ≡ suc (suc (length (text ++ 0 ∷ []))) = omega arith in
      let (j, e, fits) = num_log_bufs-Fits (length (text ++ 0 ∷ [])) (omega (arith, len)) in
      let outside = write_header-SameOutside p (entry_blocks text) time tag level g.memory in
      let w =
        write_blocks_lem size n max_chars_in_first_block (p + header_size) cur text m
          (length (text ++ 0 ∷ [])) j lt inside (omega (arith, e, enough))
          (omega (arith, len, e, fits.1)) (omega arith) (omega arith) (omega arith) (omega arith) t
          (omega (arith, len, fits.0), omega (arith, len, fits.1))
          (write_header-Closed size n text tag level time g j e lt closed) in
      (
        record { current_log_entry = (cur + entry_blocks text) % n; memory = w.memory },
        ap
            (λ r. r >>= λ m'.
              some (record { current_log_entry = (cur + entry_blocks text) % n; memory = m' }))
            (ap
                (λ f.
                  write_blocks f n (min (length (text ++ 0 ∷ [])) max_chars_in_first_block)
                    (p + header_size) cur (text ++ 0 ∷ []) m)
                fuel
              ∙ w.returns),
        Written-IsKept size n text tag level time g j _ lt inside e small sec usec w,
        refl,
        λ b a av ins.
            w.others b a (subst (λ k. Avoids n cur k b) e av) ins
            ∙ other_block b cur p header_size a outside (omega arith) (omega arith)
                (first_avoided size n text tag level time g b j e av) ins,
      )

  -- A text without NULs, written with the NUL that `writeData` adds and with the lock held, when it
  -- takes no more blocks than the ring has, these and the time fit their fields, and the entry does
  -- not reach the end of the ring or the byte behind the ring is a NUL in the retriever's copy: the
  -- loop ends, the retriever finds the whole text, the number of blocks and the time in the block
  -- where the generator stood, and the generator stands that many blocks on, inside the ring.
  pub do_write_data-IsEntry :
      g.current_log_entry < n
      → block n ≤ size
      → IsText text
      → entry_blocks text ≤ n
      → entry_blocks text < 2 ^ 32
      → time.sec < 2 ^ 64
      → time.usec < 2 ^ 64
      → Closed size n g.memory g.current_log_entry (entry_blocks text)
      → (g' : Generator) × (do_write_data n true (text ++ 0 ∷ []) tag level time g ≡ some g')
        × IsEntry size n text tag level time g g'.memory g.current_log_entry
        × (g'.current_log_entry ≡ (g.current_log_entry + entry_blocks text) % n)
        × (g'.current_log_entry < n)
  do_write_data-IsEntry lt inside t enough small sec usec closed =
      let (g', returns, kept, stands, others) =
        do_write_data_lem lt inside t enough small sec usec closed in
      (
        g',
        returns,
        (kept g'.memory (Keeps-refl n g.current_log_entry (entry_blocks text) g'.memory)).entry,
        stands,
        subst (λ k. k < n) (sym stands) (mod-lt _ (omega arith)),
      )

  -- Under the same conditions, a write that returned has changed no byte of a block that the entry
  -- does not take.
  pub do_write_data-others :
      (g' : Generator) (b a : ℕ)
      → g.current_log_entry < n
      → block n ≤ size
      → IsText text
      → entry_blocks text ≤ n
      → entry_blocks text < 2 ^ 32
      → time.sec < 2 ^ 64
      → time.usec < 2 ^ 64
      → Closed size n g.memory g.current_log_entry (entry_blocks text)
      → do_write_data n true (text ++ 0 ∷ []) tag level time g ≡ some g'
      → Avoids n g.current_log_entry (entry_blocks text) b
      → InBlock b a
      → g'.memory a ≡ g.memory a
  do_write_data-others g' b a lt inside t enough small sec usec closed e av ins =
      let (g₁, returns, kept, stands, others) =
        do_write_data_lem lt inside t enough small sec usec closed in
      subst_some (λ x. x.memory a ≡ g.memory a) g₁ g' (sym returns ∙ e) (others b a av ins)
