-- ===== src/Ring/Kept.antt =====
-- The blocks of an entry in later memories (src/shared_memory_logger.cpp): what stays when the other
-- blocks change.
use stat_log.Base.{ℕ, zero, suc, ◌+◌, ◌≤◌, ◌<◌, ◌≡◌, ◌≢◌, refl, ◌∙◌, arith}
use stat_log.Memory.{Mem, SameOutside}
use stat_log.Memory.Words.{write_word, read_word_congr, read-write_word}
use stat_log.Ring.{block, next_block, bytes_per_log_buf}
use stat_log.Ring.Retriever.{num_blocks}

-- An address in a block.
abbrev pub InBlock : ℕ → ℕ → Type 0
InBlock b a = (block b ≤ a) × (a < block b + bytes_per_log_buf)

-- A change within the block `c` is not seen in another block.
pub other_block :
    (b c p k a : ℕ) {m m' : Mem}
    → SameOutside p k m m'
    → block c ≤ p
    → p + k ≤ block c + bytes_per_log_buf
    → c ≢ b
    → InBlock b a
    → m' a ≡ m a
other_block b c p k a h le₁ le₂ ne (ge, lt) = h a (ground arith)

-- The later memory has the same bytes in the `j` blocks from `c` on, and behind the ring.
abbrev pub Keeps : ℕ → ℕ → ℕ → Mem → Mem → Type 0
Keeps n c zero m m' = m' (block n) ≡ m (block n)
Keeps n c (suc j) m m' = ((a : ℕ) → InBlock c a → m' a ≡ m a) × Keeps n (next_block n c) j m m'

pub Keeps-end : (n c j : ℕ) (m m' : Mem) → Keeps n c j m m' → m' (block n) ≡ m (block n)
Keeps-end n c zero m m' h = h
Keeps-end n c (suc j) m m' h = Keeps-end n (next_block n c) j m m' h.1

pub Keeps-refl : (n c j : ℕ) (m : Mem) → Keeps n c j m m
Keeps-refl n c zero m = refl
Keeps-refl n c (suc j) m = (λ a ins. refl, Keeps-refl n (next_block n c) j m)

-- No entry starts in the `j` blocks from `c` on.
abbrev pub Marked : ℕ → ℕ → ℕ → Mem → Type 0
Marked n c zero m = Unit
Marked n c (suc j) m = (num_blocks m c ≡ 0) × Marked n (next_block n c) j m

-- The header of a block that goes on with an entry.
pub marked_zero :
    (m m' : Mem) (c : ℕ)
    → ((a : ℕ) → block c ≤ a → a < block c + 4 → m' a ≡ write_word m (block c) 4 0 a)
    → num_blocks m' c ≡ 0
unfolding num_blocks
marked_zero m m' c h =
    read_word_congr (write_word m (block c) 4 0) m' (block c) 4 h
    ∙ read-write_word m (block c) 4 0 (omega arith)
