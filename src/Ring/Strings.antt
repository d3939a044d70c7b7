-- ===== src/Ring/Strings.antt =====
-- Reading back as a C string what was copied into memory, and the steps of the writing loop of
-- doWriteData (src/shared_memory_logger.cpp).
use stat_log.Base.{
  ℕ, zero, suc, ◌+◌, ◌-◌, ◌≤◌, ◌<◌, ◌≡◌, refl, ap, ◌∙◌, some, [], ◌∷◌, ◌++◌, length, take, drop,
  All, Bytes, min, take-all, false, length-drop, length-append, replicate, inl, ◌==◌, arith,
}
use stat_log.Memory.{
  Mem, put, store, load, load_congr, load-store_self, SameOutside, store-SameOutside,
}
use stat_log.Memory.Words.{write_word}
use stat_log.Ring.{
  strncpy, write_blocks, block, next_block, common_header_size, max_chars_in_other_blocks,
}
use stat_log.Ring.Retriever.{c_string, c_string_loop}

-- No byte of the text is NUL.
abbrev pub IsText : Bytes → Type 0
IsText s = All (λ b. 0 < b) s

head_or : ℕ → Bytes → ℕ
head_or d [] = d
head_or d (b ∷ s) = b

c_string_loop_lem :
    (s : Bytes) (k : ℕ) (m : Mem) (p : ℕ)
    → IsText s
    → length s < k
    → load m p (length s) ≡ s
    → m (p + length s) ≡ 0
    → c_string_loop k m p ≡ some s
unfolding c_string_loop load head_or
c_string_loop_lem s zero m p t h e z = absurd (omega arith)
c_string_loop_lem [] (suc k) m p t h e z =
    let zero_at : m p ≡ 0 = ap m (omega arith) ∙ z in rw (zero_at, c_string_loop) refl
c_string_loop_lem (b ∷ s) (suc k) m p (pos, t) h e z =
    let same : m p ≡ b = ap (head_or 0) e in
    let rest : c_string_loop k m (p + 1) ≡ some s =
      c_string_loop_lem s k m (p + 1) t (omega arith) (ap (drop 1) e) (ap m (omega arith) ∙ z) in
    let nonzero : (m p == 0) ≡ false = ground (arith, same, pos) in
    rw (nonzero, c_string_loop) (rw rest (ap (λ x. some (x ∷ s)) same))

pub c_string_lem :
    (s : Bytes) (size : ℕ) (m : Mem) (p : ℕ)
    → IsText s
    → p + length s < size
    → load m p (length s) ≡ s
    → m (p + length s) ≡ 0
    → c_string size m p ≡ some s
unfolding c_string
c_string_lem s size m p t h e z = c_string_loop_lem s (size - p) m p t (omega arith) e z

store-append :
    (m : Mem) (p : ℕ) (s t : Bytes) → store m p (s ++ t) ≡ store (store m p s) (p + length s) t
unfolding store
store-append m p [] t = ap (λ q. store m q t) (omega arith)
store-append m p (b ∷ s) t =
    store-append (put m p b) (p + 1) s t
    ∙ ap (λ q. store (store (put m p b) (p + 1) s) q t) (omega arith)

-- A text stored with its NUL, in each memory that has the same bytes there.
pub c_string-store :
    (s : Bytes) (size : ℕ) (m m' : Mem) (p : ℕ)
    → IsText s
    → p + length s < size
    → ((a : ℕ) → p ≤ a → a < p + length s + 1 → m' a ≡ store m p (s ++ 0 ∷ []) a)
    → c_string size m' p ≡ some s
unfolding store
c_string-store s size m m' p t h same =
    let written : Mem = store m p s in
    let whole : store m p (s ++ 0 ∷ []) ≡ put written (p + length s) 0 =
      store-append m p s (0 ∷ []) in
    c_string_lem s size m' p t h
      (load_congr (store m p (s ++ 0 ∷ [])) m' p (length s) (λ a le lt. same a le (omega arith))
        ∙ ap (λ q. load q p (length s)) whole
        ∙ load_congr written (put written (p + length s) 0) p (length s) (λ a le lt. ground arith)
        ∙ load-store_self m p s)
      (same (p + length s) (omega arith) (omega arith)
        ∙ ap (λ q. q (p + length s)) whole
        ∙ ground arith)

-- A text shorter than its field is followed by a NUL there.
padded :
    (s : Bytes) (size r : ℕ)
    → length s < size
    → 0 < r
    → (rest : Bytes) × (take size (s ++ replicate r 0) ≡ (s ++ 0 ∷ []) ++ rest)
padded s zero r h k = absurd (omega arith)
padded [] (suc size) zero h k = absurd (omega arith)
padded [] (suc size) (suc r) h k = (take size (replicate r 0), refl)
padded (b ∷ s) (suc size) r h k =
    let (rest, e) = padded s size r (omega arith) k in (rest, ap (λ x. b ∷ x) e)

-- A text in a field of `size` bytes, in each memory that has the same bytes there.
pub c_string-strncpy :
    (s : Bytes) (field size : ℕ) (m m' : Mem) (p : ℕ)
    → IsText s
    → length s < field
    → p + field ≤ size
    → ((a : ℕ) → p ≤ a → a < p + field → m' a ≡ strncpy m p s field a)
    → c_string size m' p ≡ some s
c_string-strncpy s field size m m' p t short inside same =
    let (rest, e) = padded s field field short (omega arith) in
    let written : Mem = store m p (s ++ 0 ∷ []) in
    let apart : SameOutside (p + length (s ++ 0 ∷ [])) (length rest) written (strncpy m p s field) =
      rw e (
        rw (store-append m p (s ++ 0 ∷ []) rest) (
          store-SameOutside written (p + length (s ++ 0 ∷ [])) rest (length rest) (omega arith))) in
    c_string-store s size m m' p t (omega arith)
      (λ a le lt. same a le (omega arith) ∙ apart a (inl (omega (arith, length-append s (0 ∷ [])))))

pub write_blocks-last :
    (f n k p cur : ℕ) (buf : Bytes) (m : Mem)
    → 0 < k
    → length buf ≤ k
    → write_blocks (suc (suc f)) n k p cur buf m ≡ some (store m p buf)
unfolding write_blocks
write_blocks-last f n zero p cur buf m pos h = absurd (omega arith)
write_blocks-last f n (suc k) p cur buf m pos h =
    let done : min (length (drop (suc k) buf)) max_chars_in_other_blocks ≡ 0 =
      omega (arith, length-drop (suc k) buf, h) in
    rw (done, take-all (suc k) buf h, write_blocks) (rw (done, write_blocks) refl)

pub write_blocks-more :
    (f n k p cur : ℕ) (buf : Bytes) (m : Mem)
    → 0 < k
    → k < length buf
    → write_blocks (suc f) n k p cur buf m
      ≡ write_blocks f n
          (min (length (drop k buf)) max_chars_in_other_blocks)
          (block (next_block n cur) + common_header_size)
          (next_block n cur)
          (drop k buf)
          (write_word (store m p (take k buf)) (block (next_block n cur)) 4 0)
unfolding write_blocks
write_blocks-more f n zero p cur buf m pos h = absurd (omega arith)
write_blocks-more f n (suc k) p cur buf m pos h =
    let some_left : (min (length (drop (suc k) buf)) max_chars_in_other_blocks == 0) ≡ false =
      ground (arith, length-drop (suc k) buf, h) in
    rw (some_left, write_blocks) refl
