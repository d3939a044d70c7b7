-- ===== src/Memory.antt =====
-- A shared memory region as bytes by address, with the typed reads and writes that the code makes
-- through `reinterpret_cast` (little-endian words), `std::copy` and `std::memset`.
pub mod Words
use stat_log.Base.{
  ℕ, zero, suc, ◌+◌, ◌-◌, ◌*◌, ◌/◌, ◌%◌, ◌≤◌, ◌<◌, ◌≡◌, refl, ap, ap₂, ◌∙◌, ◌⊎◌, inl, inr, List, [],
  ◌∷◌, length, ◌==◌, if◌then◌else◌, arith, ◌≢◌,
}
use native.Mathlib.Decide.{dec_le}

abbrev pub Mem : Type 0
Mem = ℕ → ℕ

abbrev pub put : Mem → ℕ → ℕ → Mem
put m p b a = if a == p then b else m a

-- `std::copy` of some bytes to an address.
unfoldable pub store : Mem → ℕ → List ℕ → Mem
store m p [] = m
store m p (b ∷ bs) = store (put m p b) (p + 1) bs

unfoldable pub load : Mem → ℕ → ℕ → List ℕ
load m p zero = []
load m p (suc n) = m p ∷ load m (p + 1) n

-- Nothing has changed outside the `n` bytes at `p`.
abbrev pub SameOutside : ℕ → ℕ → Mem → Mem → Type 0
SameOutside p n m m' = (a : ℕ) → (a < p) ⊎ (p + n ≤ a) → m' a ≡ m a

pub SameOutside-refl : (p n : ℕ) (m : Mem) → SameOutside p n m m
SameOutside-refl p n m a h = refl

pub SameOutside-trans :
    (p n : ℕ) {m₁ m₂ m₃ : Mem}
    → SameOutside p n m₁ m₂
    → SameOutside p n m₂ m₃
    → SameOutside p n m₁ m₃
SameOutside-trans p n h k a o = k a o ∙ h a o

-- A wider range.
pub SameOutside-widen :
    (p n q k : ℕ) {m m' : Mem} → p ≤ q → q + k ≤ p + n → SameOutside q k m m' → SameOutside p n m m'
SameOutside-widen p n q k le₁ le₂ h a (inl o) = h a (inl (omega arith))
SameOutside-widen p n q k le₁ le₂ h a (inr o) = h a (inr (omega arith))

pub store-SameOutside :
    (m : Mem) (p : ℕ) (bs : List ℕ) (n : ℕ) → length bs ≤ n → SameOutside p n m (store m p bs)
unfolding store
store-SameOutside m p [] n h a o = refl
store-SameOutside m p (b ∷ bs) n h a (inl o) =
    store-SameOutside (put m p b) (p + 1) bs (length bs) (omega arith) a (inl (omega arith))
    ∙ ground arith
store-SameOutside m p (b ∷ bs) n h a (inr o) =
    store-SameOutside (put m p b) (p + 1) bs (length bs) (omega arith) a (inr (omega arith))
    ∙ ground arith

-- Reading back what was stored.
pub load-store_self : (m : Mem) (p : ℕ) (bs : List ℕ) → load (store m p bs) p (length bs) ≡ bs
unfolding load store
load-store_self m p [] = refl
load-store_self m p (b ∷ bs) =
    ap₂ ◌∷◌
      (store-SameOutside (put m p b) (p + 1) bs (length bs) (omega arith) p (inl (omega arith))
        ∙ ground arith)
      (load-store_self (put m p b) (p + 1) bs)

-- A read depends only on the bytes that it covers.
pub load_congr :
    (m m' : Mem) (p n : ℕ) → ((a : ℕ) → p ≤ a → a < p + n → m' a ≡ m a) → load m' p n ≡ load m p n
unfolding load
load_congr m m' p zero h = refl
load_congr m m' p (suc n) h =
    ap₂ ◌∷◌ (h p (omega arith) (omega arith))
      (load_congr m m' (p + 1) n (λ a le lt. h a (omega arith) (omega arith)))

-- A change elsewhere is not seen.
pub load-outside :
    (m m' : Mem) (p n q k : ℕ)
    → SameOutside p n m m'
    → (q + k ≤ p) ⊎ (p + n ≤ q)
    → load m' q k ≡ load m q k
load-outside m m' p n q k h (inl o) = load_congr m m' q k (λ a le lt. h a (inl (omega arith)))
load-outside m m' p n q k h (inr o) = load_congr m m' q k (λ a le lt. h a (inr (omega arith)))

pub length-load : (m : Mem) (p n : ℕ) → length (load m p n) ≡ n
unfolding load
length-load m p zero = refl
length-load m p (suc n) = ap suc (length-load m (p + 1) n)
