-- ===== src/Ring/Around.antt =====
-- Positions counted on without end, the block at a position being its remainder by the number of
-- blocks (`currentLogEntry` of src/shared_memory_logger.cpp after several rounds).
use native.Mathlib.Decide.{dec_le, dec_lt}
use native.Mathlib.Nat.{
  mod-lt, mod-eq_of_lt, mod-add-mod, mod-eq-sub-mod, add-mod_right, mul-add-mod_self_left,
  div-add-mod,
}
use stat_log.Base.{
  ℕ, zero, suc, ◌+◌, ◌-◌, ◌*◌, ◌/◌, ◌%◌, ◌≤◌, ◌<◌, ◌≡◌, ◌≢◌, sym, ap, subst, ◌∙◌, arith,
}
use stat_log.Memory.{Mem}
use stat_log.Ring.{block, next_block}
use stat_log.Ring.Retriever.{num_blocks}
use stat_log.Ring.Avoid.{Avoids}
use stat_log.Ring.Kept.{InBlock, Keeps, Marked}

pub next_block-around : (n p : ℕ) → next_block n (p % n) ≡ (p + 1) % n
next_block-around n p = mod-add-mod p n 1

-- Less than one round apart, two positions have different blocks.
pub around_ne : (n p q : ℕ) → p < q → q < p + n → p % n ≢ q % n
around_ne n p q lt up e =
    let r = p % n in
    let d = q - p in
    let small : r < n = mod-lt p (omega arith) in
    let shifted : q % n ≡ (r + d) % n = ap (λ x. x % n) (omega arith) ∙ sym (mod-add-mod p n d) in
    elim (dec_lt (r + d) n) [
      | yes h ↦ omega (arith, e, shifted, mod-eq_of_lt h)
      | no h ↦
          let low : r + d - n < n = omega arith in
          let wrapped : (r + d) % n ≡ (r + d - n) % n = mod-eq-sub-mod (omega arith) in
          omega (arith, e, shifted, wrapped, mod-eq_of_lt low)
    ]

pub Avoids-around : (n p j q : ℕ) → p + j ≤ q → q < p + n → Avoids n (p % n) j (q % n)
Avoids-around n p zero q le lt = tt
Avoids-around n p (suc j) q le lt = (
  around_ne n p q (omega arith) lt,
  subst (λ c. Avoids n c j (q % n)) (sym (next_block-around n p))
      (Avoids-around n (p + 1) j q (omega arith) (omega arith)),
)

pub Keeps-around :
    (n p j : ℕ) (m m' : Mem)
    → ((q : ℕ) → p ≤ q → q < p + j → (a : ℕ) → InBlock (q % n) a → m' a ≡ m a)
    → m' (block n) ≡ m (block n)
    → Keeps n (p % n) j m m'
Keeps-around n p zero m m' same past = past
Keeps-around n p (suc j) m m' same past = (
  same p (omega arith) (omega arith),
  subst (λ c. Keeps n c j m m') (sym (next_block-around n p))
      (Keeps-around n (p + 1) j m m' (λ q le lt. same q (omega arith) (omega arith)) past),
)

pub Marked-around :
    (n p j : ℕ) (m : Mem)
    → Marked n (p % n) j m
    → (q : ℕ) → p ≤ q
    → q < p + j
    → num_blocks m (q % n) ≡ 0
Marked-around n p zero m marks q le lt = absurd (omega arith)
Marked-around n p (suc j) m (here, more) q le lt = elim (dec_le (p + 1) q) [
  | yes h ↦
      Marked-around n (p + 1) j m (subst (λ c. Marked n c j m) (next_block-around n p) more) q h
        (omega arith)
  | no h ↦ ap (λ x. num_blocks m (x % n)) (omega arith) ∙ here
]

-- Each block has a position in the round that begins at `s`.
pub position_of : (n s b : ℕ) → b < n → (q : ℕ) × (s ≤ q) × (q < s + n) × (q % n ≡ b)
position_of n s b lt =
    let whole = div-add-mod s n in
    let low : s % n < n = mod-lt s (omega arith) in
    let same : (n * (s / n) + b) % n ≡ b = mul-add-mod_self_left n (s / n) b ∙ mod-eq_of_lt lt in
    elim (dec_le (s % n) b) [
      | yes h ↦ (n * (s / n) + b, omega (arith, whole), omega (arith, whole, low, lt), same)
      | no h ↦ (
        n * (s / n) + b + n,
        omega (arith, whole, low),
        omega (arith, whole, h),
        add-mod_right (n * (s / n) + b) n ∙ same,
      )
    ]
