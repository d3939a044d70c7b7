-- ===== src/Stats/Address.antt =====
-- Where the cells of a statistic lie: an arithmetic progression that fills its `shared_size` bytes,
-- and which of them a write with some indices goes to.
use native.Mathlib.Nat.{mul_assoc}
use stat_log.Base.{
  ℕ, zero, suc, ◌+◌, ◌*◌, ◌<◌, ◌≡◌, refl, sym, ap, ap₂, ◌∙◌, List, [], ◌∷◌, ◌++◌, map, set, arith,
  length, ◌≢◌,
}
use stat_log.Stats.{StatType, simple, null_stat, accumulator, stat_array, shared_size}
use stat_log.Stats.Flat.{leaf_of, cells, cells_from}

unfoldable pub progression : ℕ → ℕ → ℕ → List ℕ
progression p s zero = []
progression p s (suc k) = p ∷ progression (p + s) s k

progression_eq : (s : ℕ) {p q k l : ℕ} → p ≡ q → k ≡ l → progression p s k ≡ progression q s l
progression_eq s e f = ap₂ (λ q k. progression q s k) e f

progression-append :
    (p s a b : ℕ) → progression p s (a + b) ≡ progression p s a ++ progression (p + a * s) s b
unfolding progression
progression-append p s zero b = progression_eq s {p = p} {k = 0 + b} (omega arith) (omega arith)
progression-append p s (suc a) b =
    progression_eq s {p = p} {q = p} {k = suc a + b} {l = suc (a + b)} refl (omega arith)
    ∙ ap (λ xs. p ∷ xs) (progression-append (p + s) s a b)
    ∙ ap (λ xs. p ∷ (progression (p + s) s a ++ xs))
        (progression_eq s {p = p + s + a * s} {q = p + suc a * s} {k = b} (omega arith) refl)

unfoldable pub num_cells : StatType → ℕ
num_cells (stat_array n t) = n * num_cells t
num_cells t = 1

abbrev pub cell_size : StatType → ℕ
cell_size t = shared_size (leaf_of t)

pub shared_size-cells : (t : StatType) → shared_size t ≡ num_cells t * cell_size t
unfolding shared_size num_cells leaf_of
shared_size-cells (simple r w) = omega arith
shared_size-cells null_stat = omega arith
shared_size-cells (accumulator fs) = omega arith
shared_size-cells (stat_array n t) =
    ap (λ k. n * k) (shared_size-cells t) ∙ sym (mul_assoc n (num_cells t) (cell_size t))

cells_from-progression :
    (ps : ℕ → List ℕ) (s c size p : ℕ)
    → ((q : ℕ) → ps q ≡ progression q s c)
    → size ≡ c * s
    → (k i : ℕ) → cells_from ps size p k i ≡ progression (p + i * size) s (k * c)
unfolding cells_from progression
cells_from-progression ps s c size p h e zero i =
    progression_eq s {p = p + i * size} {k = 0} refl (omega arith)
cells_from-progression ps s c size p h e (suc k) i =
    ap₂ ◌++◌ (h (p + i * size)) (cells_from-progression ps s c size p h e k (i + 1))
    ∙ ap (λ xs. progression (p + i * size) s c ++ xs)
        (progression_eq s {p = p + (i + 1) * size} {q = p + i * size + c * s} {k = k * c}
          (omega (arith, e)) refl)
    ∙ sym (progression-append (p + i * size) s c (k * c))
    ∙ progression_eq s {p = p + i * size} {k = c + k * c} {l = suc k * c} refl (omega arith)

-- The cells stand one behind the other from the start of the statistic on.
pub cells_lem : (t : StatType) (p : ℕ) → cells t p ≡ progression p (cell_size t) (num_cells t)
unfolding cells leaf_of num_cells progression
cells_lem (simple r w) p = refl
cells_lem null_stat p = refl
cells_lem (accumulator fs) p = refl
cells_lem (stat_array n t) p =
    cells_from-progression (cells t) (cell_size t) (num_cells t) (shared_size t) p (cells_lem t)
      (shared_size-cells t) n 0
    ∙ progression_eq (cell_size t) {p = p + 0 * shared_size t} {q = p} {k = n * num_cells t}
        (omega arith) refl

pub length-progression : (p s k : ℕ) → length (progression p s k) ≡ k
unfolding progression
length-progression p s zero = refl
length-progression p s (suc k) = ap suc (length-progression (p + s) s k)

pub next_address : (p s i : ℕ) → p + suc i * s ≡ p + s + i * s
next_address p s i = omega arith

pub first_address : (p s : ℕ) → p + 0 * s ≡ p
first_address p s = omega arith

pub map-progression_eq :
    {A : Type 0} (f g : ℕ → A) (s p k : ℕ)
    → ((i : ℕ) → i < k → g (p + i * s) ≡ f (p + i * s))
    → map g (progression p s k) ≡ map f (progression p s k)
unfolding progression
map-progression_eq f g s p zero same = refl
map-progression_eq f g s p (suc k) same =
    ap₂ ◌∷◌ (rw (first_address p s) at (same 0 (omega arith))) (
      map-progression_eq f g s (p + s) k
        (λ i h. rw (next_address p s i) at (same (suc i) (omega arith))))

-- A change of one value among those of a progression.
pub map-progression-set :
    {A : Type 0} (f g : ℕ → A) (s p k j : ℕ)
    → j < k
    → ((i : ℕ) → i < k → i ≢ j → g (p + i * s) ≡ f (p + i * s))
    → map g (progression p s k) ≡ set (map f (progression p s k)) j (g (p + j * s))
unfolding progression
map-progression-set f g s p zero j h same = absurd (omega arith)
map-progression-set f g s p (suc k) zero h same = ap₂ ◌∷◌ (sym (ap g (first_address p s))) (
    map-progression_eq f g s (p + s) k
      (λ i h'. rw (next_address p s i) at (same (suc i) (omega arith) (omega arith))))
map-progression-set f g s p (suc k) (suc j) h same =
    ap₂ ◌∷◌ (rw (first_address p s) at (same 0 (omega arith) (omega arith))) (
      rw (next_address p s j) (
        map-progression-set f g s (p + s) k j (omega arith) (λ i h' ne.
          rw (next_address p s i) at (same (suc i) (omega arith) (λ e. ne (omega arith))))))
