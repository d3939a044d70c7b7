-- ===== src/Ring/Blocks.antt =====
-- The blocks that the writing loop of doWriteData, src/shared_memory_logger.cpp, fills: the last one,
-- and one with more to follow.
use stat_log.Base.{
  ℕ, suc, ◌+◌, ◌*◌, ◌≤◌, ◌<◌, ◌≡◌, ◌≢◌, refl, sym, ap, ◌∙◌, ◌⊎◌, inl, inr, Option, some, [], ◌∷◌,
  ◌++◌, length, take, drop, Bytes, min, length-append, length-take, take++drop, append-nil,
  All-take, arith,
}
use stat_log.Memory.{Mem, store, load_congr, load-store_self, store-SameOutside, SameOutside}
use stat_log.Memory.Words.{write_word, write_word-SameOutside, le_bytes}
use stat_log.Ring.{
  write_blocks, block, next_block, common_header_size, max_chars_in_other_blocks, bytes_per_log_buf,
}
use stat_log.Ring.Retriever.{c_string, read_rest}
use stat_log.Ring.Avoid.{Avoids, start-Avoids, end-Avoids, next_block_cases, next_block-lt}
use stat_log.Ring.Kept.{InBlock, other_block, Keeps, Keeps-end, Marked, marked_zero}
use stat_log.Ring.Strings.{IsText, c_string_lem, c_string-store, write_blocks-last}

-- The text and its NUL take `j` blocks beyond the first one, which has room for `cap` bytes.
abbrev pub Fits : ℕ → ℕ → ℕ → Type 0
Fits cap j len =
    (len ≤ cap + j * max_chars_in_other_blocks)
    × (cap + j * max_chars_in_other_blocks < len + max_chars_in_other_blocks)

-- The `j` blocks from `cur` on either do not reach the end of the ring, or the byte behind the ring
-- is there, and is NUL.
abbrev pub Closed : ℕ → ℕ → Mem → ℕ → ℕ → Type 0
Closed size n m cur j = (cur + j ≤ n) ⊎ ((block n < size) × (m (block n) ≡ 0))

-- What the loop gives, started at `p` in the block `cur`, with `j` blocks to follow. What is read
-- back is the same in each later memory that keeps the blocks of the entry.
pub record Written (size n j cur p : ℕ) (m : Mem) (text : Bytes) (result : Option Mem)
    : Type 0 where
  pub memory : Mem
  pub returns : result ≡ some memory
  pub others : (b a : ℕ) → Avoids n cur (suc j) b → InBlock b a → memory a ≡ m a
  pub before : (a : ℕ) → block cur ≤ a → a < p → memory a ≡ m a
  pub first : Bytes
  pub rest : Bytes
  pub whole : first ++ rest ≡ text
  pub reads_first : (m' : Mem) → Keeps n cur (suc j) memory m' → c_string size m' p ≡ some first
  pub reads_rest :
      (m' : Mem)
      → Keeps n cur (suc j) memory m'
      → read_rest size n m' j (next_block n cur) ≡ some rest
  pub marks : (m' : Mem) → Keeps n cur (suc j) memory m' → Marked n (next_block n cur) j m'

module _ (size n cap p cur : ℕ) (text : Bytes) (m : Mem) where
  pub last_block :
      (f : ℕ)
      → cur < n
      → block n ≤ size
      → 0 < cap
      → block cur ≤ p
      → p + cap ≡ block cur + bytes_per_log_buf
      → IsText text
      → Fits cap 0 (length text + 1)
      → Written size n 0 cur p m text (
          write_blocks (suc (suc f)) n (min (length (text ++ 0 ∷ [])) cap) p cur (text ++ 0 ∷ []) m)
  unfolding read_rest
  last_block f in_ring inside room ge fills t fits =
      let len = length-append text (0 ∷ []) in
      let same = store-SameOutside m p (text ++ 0 ∷ []) (length text + 1) (omega (arith, len)) in
      record {
        memory = store m p (text ++ 0 ∷ []);
        returns =
            write_blocks-last f n (min (length (text ++ 0 ∷ [])) cap) p cur (text ++ 0 ∷ []) m
              (omega (arith, len, room)) (omega (arith, len, fits.0));
        others = λ b a av ins.
            other_block b cur p (length text + 1) a same ge (omega (arith, fills, fits.0)) av.0 ins;
        before = λ a h lt. same a (inl lt);
        first = text;
        rest = [];
        whole = append-nil text;
        reads_first = λ m' keeps.
            c_string-store text size m m' p t (omega (arith, fills, fits.0, in_ring, inside))
              (λ a le lt. keeps.0 a (omega arith, omega (arith, fills, fits.0)));
        reads_rest = λ m' keeps. refl;
        marks = λ m' keeps. tt;
      }

-- Memory before the next block is written: the text that fills this one, and the next header.
abbrev pub filled : ℕ → ℕ → ℕ → ℕ → Bytes → Mem → Mem
filled n cap p cur text m = write_word (store m p (take cap text)) (block (next_block n cur)) 4 0

-- The byte behind a block that was filled is NUL: it is in the header of the next block, or behind
-- the ring.
module _ (size n j cur : ℕ) (m m₁ m₂ : Mem) where
  byte_behind :
      cur < n
      → block n ≤ size
      → suc (suc j) ≤ n
      → Closed size n m cur (suc (suc j))
      → ((a : ℕ) → block n ≤ a → m₁ a ≡ m a)
      → m₁ (block (next_block n cur)) ≡ 0
      → m₂ (block (next_block n cur)) ≡ m₁ (block (next_block n cur))
      → m₂ (block n) ≡ m₁ (block n)
      → (block cur + bytes_per_log_buf < size) × (m₂ (block cur + bytes_per_log_buf) ≡ 0)
  byte_behind lt inside enough (inl ends) past header keeps keeps_past =
      elim (next_block_cases n cur lt) [
        | inl (h, e) ↦ (omega arith, ap m₂ (omega arith ∙ ap block (sym e)) ∙ keeps ∙ header)
        | inr (h, e) ↦ absurd (omega (arith, ends, h))
      ]
  byte_behind lt inside enough (inr (room, zero_there)) past header keeps keeps_past =
      elim (next_block_cases n cur lt) [
        | inl (h, e) ↦ (omega arith, ap m₂ (omega arith ∙ ap block (sym e)) ∙ keeps ∙ header)
        | inr (h, e) ↦ (
          omega (arith, room, h),
          ap m₂ (omega (arith, h)) ∙ keeps_past ∙ past (block n) (omega arith) ∙ zero_there,
        )
      ]

header_zero : (m : Mem) (q : ℕ) → write_word m q 4 0 q ≡ 0
unfolding write_word le_bytes store
header_zero m q = ground arith

module _ (size n j cap p cur : ℕ) (text : Bytes) (m : Mem) (result : Option Mem) where
  pub more_blocks :
      cur < n
      → block n ≤ size
      → suc (suc j) ≤ n
      → block cur ≤ p
      → p + cap ≡ block cur + bytes_per_log_buf
      → IsText text
      → cap ≤ length text
      → Closed size n m cur (suc (suc j))
      → Written size n j
          (next_block n cur)
          (block (next_block n cur) + common_header_size)
          (filled n cap p cur text m)
          (drop cap text)
          result
      → Written size n (suc j) cur p m text result
  unfolding read_rest
  more_blocks lt inside enough ge fills t long closed w =
      let cur₁ = next_block n cur in
      let lt₁ : cur₁ < n = next_block-lt n cur lt in
      let m₀ = store m p (take cap text) in
      let m₁ = filled n cap p cur text m in
      let len : length (take cap text) ≡ cap = length-take cap text long in
      let stored : SameOutside p cap m m₀ =
        store-SameOutside m p (take cap text) cap (omega (arith, len)) in
      let marked : SameOutside (block cur₁) 4 m₀ m₁ = write_word-SameOutside m₀ (block cur₁) 4 0 in
      let apart : cur₁ ≢ cur = (start-Avoids n cur (suc j) lt (omega arith)).0 in
      let avoids : Avoids n cur₁ (suc j) cur = start-Avoids n cur (suc j) lt (omega arith) in
      let past : Avoids n cur₁ (suc j) n = end-Avoids n cur₁ (suc j) lt₁ in
      let same : (a : ℕ) → InBlock cur a → w.memory a ≡ m₀ a = λ a ins.
        w.others cur a avoids ins
        ∙ other_block cur cur₁ (block cur₁) 4 a marked (omega arith) (omega arith) apart ins in
      let unmarked : (a : ℕ) → block n ≤ a → m₁ a ≡ m a =
        λ a h. marked a (inr (omega arith)) ∙ stored a (inr (omega (arith, fills))) in
      let header : (m' : Mem)
          → Keeps n cur (suc (suc j)) w.memory m'
          → (a : ℕ) → block cur₁ ≤ a
          → a < block cur₁ + 4
          → m' a ≡ m₁ a =
        λ m' keeps a le lt. keeps.1.0 a (le, omega arith) ∙ w.before a le lt in
      let behind : (m' : Mem)
          → Keeps n cur (suc (suc j)) w.memory m'
          → (block cur + bytes_per_log_buf < size) × (m' (block cur + bytes_per_log_buf) ≡ 0) =
        λ m' keeps.
          byte_behind size n j cur m m₁ m' lt inside enough closed unmarked
            (header_zero m₀ (block cur₁)) (header m' keeps (block cur₁) (omega arith) (omega arith))
            (Keeps-end n cur (suc (suc j)) w.memory m' keeps
              ∙ w.others n (block n) past (omega arith, omega arith)) in
      record {
        memory = w.memory;
        returns = w.returns;
        others = λ b a av ins.
            w.others b a av.1 ins
            ∙ other_block b cur₁ (block cur₁) 4 a marked (omega arith) (omega arith) av.1.0 ins
            ∙ other_block b cur p cap a stored ge (omega (arith, fills)) av.0 ins;
        before = λ a h lt. same a (h, omega (arith, fills)) ∙ stored a (inl lt);
        first = take cap text;
        rest = w.first ++ w.rest;
        whole = ap (λ s. take cap text ++ s) w.whole ∙ take++drop cap text;
        reads_first = λ m' keeps.
            c_string_lem (take cap text) size m' p (All-take (λ b. 0 < b) cap text t)
              (omega (arith, len, (behind m' keeps).0, fills))
              (load_congr m₀ m' p (length (take cap text)) (λ a le lt.
                  keeps.0 a (omega arith, omega (arith, len, fills))
                  ∙ same a (omega arith, omega (arith, len, fills)))
                ∙ load-store_self m p (take cap text))
              (ap m' (omega (arith, len, fills)) ∙ (behind m' keeps).1);
        reads_rest = λ m' keeps. rw (w.reads_first m' keeps.1, w.reads_rest m' keeps.1) refl;
        marks = λ m' keeps. (marked_zero m₀ m' cur₁ (header m' keeps), w.marks m' keeps.1);
      }
