-- ===== src/Ring/Loop.antt =====
-- The writing loop of doWriteData, src/shared_memory_logger.cpp: it ends within the fuel, leaves all
-- other blocks alone, and what it wrote is read back block by block.
use stat_log.Base.{
  ℕ, zero, suc, ◌+◌, ◌≤◌, ◌<◌, ◌≡◌, sym, ap, ap₂, subst, ◌∙◌, inl, inr, [], ◌∷◌, ◌++◌, length, take,
  drop, Bytes, min, length-append, length-take, length-drop, take-append, drop-append, All-drop,
  arith,
}
use stat_log.Memory.{Mem, store, store-SameOutside}
use stat_log.Memory.Words.{write_word, write_word-SameOutside}
use stat_log.Ring.{
  write_blocks, block, next_block, common_header_size, max_chars_in_other_blocks, bytes_per_log_buf,
}
use stat_log.Ring.Avoid.{next_block_cases, next_block-lt}
use stat_log.Ring.Strings.{IsText, write_blocks-more}
use stat_log.Ring.Blocks.{Fits, Closed, Written, last_block, filled, more_blocks}

module _ (size n cap p cur : ℕ) (text : Bytes) (m : Mem) where
  beyond_filled :
      cur < n
      → p + cap ≡ block cur + bytes_per_log_buf
      → cap ≤ length text
      → (a : ℕ) → block n ≤ a
      → filled n cap p cur text m a ≡ m a
  beyond_filled lt fills long a h =
      let lt₁ : next_block n cur < n = next_block-lt n cur lt in
      write_word-SameOutside (store m p (take cap text)) (block (next_block n cur)) 4 0 a
        (inr (omega arith))
      ∙ store-SameOutside m p (take cap text) cap (omega (arith, length-take cap text long)) a
          (inr (omega (arith, fills)))

  next_pass-Closed :
      (j : ℕ)
      → cur < n
      → p + cap ≡ block cur + bytes_per_log_buf
      → cap ≤ length text
      → Closed size n m cur (suc (suc j))
      → Closed size n (filled n cap p cur text m) (next_block n cur) (suc j)
  next_pass-Closed j lt fills long (inl ends) = elim (next_block_cases n cur lt) [
    | inl (h, e) ↦ inl (omega (arith, e, ends))
    | inr (h, e) ↦ absurd (omega (arith, h, ends))
  ]
  next_pass-Closed j lt fills long (inr (room, zero_there)) =
      inr (room, beyond_filled lt fills long (block n) (omega arith) ∙ zero_there)

  next_pass :
      (f : ℕ)
      → 0 < cap
      → cap ≤ length text
      → write_blocks (suc f) n (min (length (text ++ 0 ∷ [])) cap) p cur (text ++ 0 ∷ []) m
        ≡ write_blocks f n
            (min (length (drop cap text ++ 0 ∷ [])) max_chars_in_other_blocks)
            (block (next_block n cur) + common_header_size)
            (next_block n cur)
            (drop cap text ++ 0 ∷ [])
            (filled n cap p cur text m)
  next_pass f room long =
      let len = length-append text (0 ∷ []) in
      ap (λ k. write_blocks (suc f) n k p cur (text ++ 0 ∷ []) m) (omega (arith, len))
      ∙ write_blocks-more f n cap p cur (text ++ 0 ∷ []) m room (omega (arith, len))
      ∙ ap₂
          (λ s t.
            write_blocks f n (min (length t) max_chars_in_other_blocks)
              (block (next_block n cur) + common_header_size) (next_block n cur) t
              (write_word (store m p s) (block (next_block n cur)) 4 0))
          (take-append cap text (0 ∷ []) long) (drop-append cap text (0 ∷ []) long)

-- The loop, from a block with room for `cap` bytes, for a text with its NUL that takes `j` more
-- blocks.
pub write_blocks_lem :
    (size n cap p cur : ℕ) (text : Bytes) (m : Mem) (f j : ℕ)
    → cur < n
    → block n ≤ size
    → suc j ≤ n
    → j ≤ f
    → 0 < cap
    → cap ≤ bytes_per_log_buf
    → block cur ≤ p
    → p + cap ≡ block cur + bytes_per_log_buf
    → IsText text
    → Fits cap j (length text + 1)
    → Closed size n m cur (suc j)
    → Written size n j cur p m text
        (write_blocks (suc (suc f)) n (min (length (text ++ 0 ∷ [])) cap) p cur (text ++ 0 ∷ []) m)
write_blocks_lem size n cap p cur text m f zero lt inside enough fuel room small ge fills t fits
      closed =
    last_block size n cap p cur text m f lt inside room ge fills t fits
write_blocks_lem size n cap p cur text m zero (suc j) lt inside enough fuel room small ge fills t
      fits closed =
    absurd (omega arith)
write_blocks_lem size n cap p cur text m (suc f) (suc j) lt inside enough fuel room small ge fills t
      fits closed =
    let cur₁ = next_block n cur in
    let len = length-append text (0 ∷ []) in
    let long : cap ≤ length text = omega (arith, fits.1) in
    let w =
      write_blocks_lem size n max_chars_in_other_blocks (block cur₁ + common_header_size) cur₁
        (drop cap text) (filled n cap p cur text m) f j (next_block-lt n cur lt) inside
        (omega arith) (omega arith) (omega arith) (omega arith) (omega arith) (omega arith)
        (All-drop (λ b. 0 < b) cap text t)
        (omega (arith, length-drop cap text, fits.0), omega (arith, length-drop cap text, fits.1))
        (next_pass-Closed size n cap p cur text m j lt fills long closed) in
    more_blocks size n j cap p cur text m _ lt inside enough ge fills t long closed (
      subst
        (λ r.
          Written size n j cur₁ (block cur₁ + common_header_size) (filled n cap p cur text m)
            (drop cap text) r)
        (sym (next_pass size n cap p cur text m (suc (suc f)) room long)) w)
