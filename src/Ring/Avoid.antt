-- ===== src/Ring/Avoid.antt =====
-- The blocks that an entry takes, counted on from its first one around the ring, and the blocks
-- that it leaves alone (the walk of `cur_log_idx` in src/shared_memory_logger.cpp).
use native.Mathlib.Decide.{dec_lt}
use native.Mathlib.Nat.{mod_self, mod-eq_of_lt}
use stat_log.Base.{ap, ℕ, zero, suc, ◌+◌, ◌%◌, ◌≤◌, ◌<◌, ◌≡◌, ◌≢◌, ◌⊎◌, inl, inr, ◌∙◌, arith}
use stat_log.Ring.{next_block}

-- The block `b` is none of the `j` blocks from `c` on.
abbrev pub Avoids : ℕ → ℕ → ℕ → ℕ → Type 0
Avoids n c zero b = Unit
Avoids n c (suc j) b = (c ≢ b) × Avoids n (next_block n c) j b

last : (n c : ℕ) → c < n → ¬ (c + 1 < n) → c + 1 ≡ n
last n c h ge = omega arith

pub next_block_cases :
    (n c : ℕ)
    → c < n
    → ((c + 1 < n) × (next_block n c ≡ c + 1)) ⊎ ((c + 1 ≡ n) × (next_block n c ≡ 0))
next_block_cases n c h = elim (dec_lt (c + 1) n) [
  | yes lt ↦ inl (lt, mod-eq_of_lt lt)
  | no ge ↦ inr (last n c h ge, ap (λ k. k % n) (last n c h ge) ∙ mod_self n)
]

pub next_block-lt : (n c : ℕ) → c < n → next_block n c < n
next_block-lt n c h = elim (next_block_cases n c h) [
  | inl (lt, e) ↦ omega (arith, lt, e)
  | inr (eq, e) ↦ omega (arith, eq, e)
]

-- How far `b` lies behind `c`: at least `j` blocks on.
abbrev pub Ahead : ℕ → ℕ → ℕ → ℕ → Type 0
Ahead n c j b = ((c ≤ b) × (c + j ≤ b)) ⊎ ((b < c) × (c + j ≤ b + n))

pub Ahead-Avoids : (n c j b : ℕ) → c < n → b ≤ n → Ahead n c j b → Avoids n c j b
Ahead-Avoids n c zero b h k a = tt
Ahead-Avoids n c (suc j) b h k a = (
  ground arith,
  elim (next_block_cases n c h) [
    | inl (lt, e) ↦ rw e (Ahead-Avoids n (c + 1) j b lt k (ground arith))
    | inr (eq, e) ↦ rw e (Ahead-Avoids n 0 j b (omega arith) k (ground arith))
  ],
)

-- The end of the ring is never reached.
pub end-Avoids : (n c j : ℕ) → c < n → Avoids n c j n
end-Avoids n c zero h = tt
end-Avoids n c (suc j) h =
    ((λ e. absurd (omega (arith, h, e))), end-Avoids n (next_block n c) j (next_block-lt n c h))

-- Fewer blocks than the ring has do not come back to where they started.
pub start-Avoids : (n c j : ℕ) → c < n → suc j ≤ n → Avoids n (next_block n c) j c
start-Avoids n c j h k =
    Ahead-Avoids n (next_block n c) j c (next_block-lt n c h) (omega arith)
      (elim (next_block_cases n c h) [
        | inl (lt, e) ↦ inr (omega (arith, e), omega (arith, e))
        | inr (eq, e) ↦ inl (omega (arith, e), omega (arith, e, eq))
      ])
