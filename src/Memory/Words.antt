-- ===== src/Memory/Words.antt =====
-- Unsigned words of a given number of bytes, least significant byte first, as the code's
-- `*reinterpret_cast<T*>(ptr)` reads and writes them.
use stat_log.Base.{
  ℕ, zero, suc, ◌+◌, ◌*◌, ◌/◌, ◌%◌, ◌^◌, ◌≤◌, ◌<◌, ◌≡◌, refl, ap, sym, ◌∙◌, ◌⊎◌, List, [], ◌∷◌,
  length, arith,
}
use native.Mathlib.Nat.{pow-suc}
use stat_log.Memory.{
  Mem, store, load, SameOutside, store-SameOutside, load-store_self, load-outside, load_congr,
}

unfoldable pub le_bytes : ℕ → ℕ → List ℕ
le_bytes zero v = []
le_bytes (suc n) v = (v % 256) ∷ le_bytes n (v / 256)

unfoldable pub le_value : List ℕ → ℕ
le_value [] = 0
le_value (b ∷ bs) = b + 256 * le_value bs

unfoldable pub read_word : Mem → ℕ → ℕ → ℕ
unfolding load le_value
read_word m p n = le_value (load m p n)

unfoldable pub write_word : Mem → ℕ → ℕ → ℕ → Mem
unfolding store le_bytes
write_word m p n v = store m p (le_bytes n v)

pub length-le_bytes : (n v : ℕ) → length (le_bytes n v) ≡ n
unfolding le_bytes
length-le_bytes zero v = refl
length-le_bytes (suc n) v = ap suc (length-le_bytes n (v / 256))

pub le_value-le_bytes : (n v : ℕ) → v < 256 ^ n → le_value (le_bytes n v) ≡ v
unfolding le_value le_bytes
le_value-le_bytes zero v h = omega arith
le_value-le_bytes (suc n) v h =
    let ih : le_value (le_bytes n (v / 256)) ≡ v / 256 =
      le_value-le_bytes n (v / 256) (omega (arith, pow-suc 256 n)) in
    omega (arith, ih)

pub write_word-SameOutside : (m : Mem) (p n v : ℕ) → SameOutside p n m (write_word m p n v)
unfolding write_word
write_word-SameOutside m p n v =
    store-SameOutside m p (le_bytes n v) n (omega (arith, length-le_bytes n v))

-- A word that fits is read back as it was written.
pub read-write_word : (m : Mem) (p n v : ℕ) → v < 256 ^ n → read_word (write_word m p n v) p n ≡ v
unfolding read_word write_word
read-write_word m p n v h =
    ap le_value (
      ap (load (store m p (le_bytes n v)) p) (sym (length-le_bytes n v))
      ∙ load-store_self m p (le_bytes n v))
    ∙ le_value-le_bytes n v h

-- A word elsewhere is unaffected.
pub read_word-outside :
    (m m' : Mem) (p n q k : ℕ)
    → SameOutside p n m m'
    → (q + k ≤ p) ⊎ (p + n ≤ q)
    → read_word m' q k ≡ read_word m q k
unfolding read_word
read_word-outside m m' p n q k h o = ap le_value (load-outside m m' p n q k h o)

pub read_word_congr :
    (m m' : Mem) (p n : ℕ)
    → ((a : ℕ) → p ≤ a → a < p + n → m' a ≡ m a)
    → read_word m' p n ≡ read_word m p n
unfolding read_word
read_word_congr m m' p n h = ap le_value (load_congr m m' p n h)
