-- ===== src/Ring/First.antt =====
-- The search for the first entry in getLog, src/shared_memory_logger.cpp.
use native.Mathlib.Decide.{dec_le}
use stat_log.Base.{
  ℕ, zero, suc, ◌+◌, ◌≤◌, ◌<◌, ◌≡◌, ◌≢◌, refl, sym, ap, ==_iff, ◌∙◌, subst, ◌∙◌, inl, inr, Bool,
  true, false, not, ◌&&◌, Option, none, some, ◌==◌, if◌then◌else◌, Bool-cases, arith,
}
use stat_log.Memory.{Mem}
use stat_log.Ring.{TimeStamp}
use stat_log.Ring.Retriever.{find_first, num_blocks, time_stamp, is_later}

pub is_later_irrefl : (t : TimeStamp) → is_later t t ≡ false
unfolding is_later
is_later_irrefl t = ground arith

is_later_trans :
    (a b c : TimeStamp) → is_later a b ≡ false → is_later b c ≡ false → is_later a c ≡ false
unfolding is_later
is_later_trans a b c h k = ground arith

is_later_asym : (a b : TimeStamp) → is_later a b ≡ true → is_later b a ≡ false
unfolding is_later
is_later_asym a b h = ground arith

-- A block below the bound where an entry starts, with its time.
abbrev pub Start : Mem → ℕ → ℕ → TimeStamp → Type 0
Start m n i t = (i < n) × (num_blocks m i ≢ 0) × (t ≡ time_stamp m i)

-- What the search over the `k` blocks from `i` on makes of a candidate.
pub record Least (m : Mem) (n k i : ℕ) (t : TimeStamp) (result : Option (ℕ × TimeStamp))
    : Type 0 where
  pub block : ℕ
  pub time : TimeStamp
  pub returns : result ≡ some (block, time)
  pub starts : Start m n block time
  pub candidate : is_later time t ≡ false
  pub others :
      (j : ℕ) → i ≤ j → j < i + k → num_blocks m j ≢ 0 → is_later time (time_stamp m j) ≡ false

-- One more block in front, which does not start an entry or does not start an earlier one.
extend :
    (m : Mem) (n k i : ℕ) (t t' : TimeStamp) (r : Option (ℕ × TimeStamp))
    → is_later t' t ≡ false
    → (num_blocks m i ≢ 0 → is_later t' (time_stamp m i) ≡ false)
    → Least m n k (i + 1) t' r
    → Least m n (suc k) i t r
extend m n k i t t' r better here l = record {
  block = l.block;
  time = l.time;
  returns = l.returns;
  starts = l.starts;
  candidate = is_later_trans l.time t' t l.candidate better;
  others = λ j ge lt used. elim (dec_le (i + 1) j) [
    | yes h ↦ l.others j h (omega arith) used
    | no h ↦
        let same : i ≡ j = omega arith in
        subst (λ x. is_later l.time (time_stamp m x) ≡ false) same
          (is_later_trans l.time t' (time_stamp m i) l.candidate
            (here (subst (λ x. num_blocks m x ≢ 0) (sym same) used)))
  ];
}

replaces : Mem → ℕ → TimeStamp → Bool
replaces m i t = not (num_blocks m i == 0) && is_later t (time_stamp m i)

replaces-true :
    (m : Mem) (i : ℕ) (t : TimeStamp)
    → replaces m i t ≡ true
    → (num_blocks m i ≢ 0) × (is_later t (time_stamp m i) ≡ true)
unfolding replaces
replaces-true m i t h = ground arith

replaces-false :
    (m : Mem) (i : ℕ) (t : TimeStamp)
    → replaces m i t ≡ false
    → num_blocks m i ≢ 0
    → is_later t (time_stamp m i) ≡ false
unfolding replaces
replaces-false m i t h used = ground arith

find_first-Least :
    (m : Mem) (n k i b : ℕ) (t : TimeStamp)
    → i + k ≤ n
    → Start m n b t
    → Least m n k i t (find_first m k i (some (b, t)))
unfolding find_first replaces
find_first-Least m n zero i b t le s = record {
  block = b;
  time = t;
  returns = refl;
  starts = s;
  candidate = is_later_irrefl t;
  others = λ j ge lt used. absurd (omega arith);
}
find_first-Least m n (suc k) i b t le s =
    let result : Bool → Option (ℕ × TimeStamp) =
      λ c. find_first m k (i + 1) (if c then some (i, time_stamp m i) else some (b, t)) in
    elim (Bool-cases (replaces m i t)) [
      | inl e ↦
          let (used, later) = replaces-true m i t e in
          subst (λ c. Least m n (suc k) i t (result c)) (sym e)
            (extend m n k i t (time_stamp m i) (result true)
              (is_later_asym t (time_stamp m i) later) (λ u. is_later_irrefl (time_stamp m i))
              (find_first-Least m n k (i + 1) i (time_stamp m i) (omega arith)
                (omega arith, used, refl)))
      | inr e ↦
          subst (λ c. Least m n (suc k) i t (result c)) (sym e)
            (extend m n k i t t (result false) (is_later_irrefl t) (replaces-false m i t e)
              (find_first-Least m n k (i + 1) b t (omega arith) s))
    ]

unused_ne :
    (m : Mem) (i j : ℕ) → (num_blocks m i == 0) ≡ true → num_blocks m j ≢ 0 → i ≤ j → i + 1 ≤ j
unused_ne m i j e used ge = elim (dec_le (i + 1) j) [
  | yes h ↦ h
  | no h ↦
      let same : j ≡ i = omega arith in
      absurd (used (ap (num_blocks m) same ∙ (==_iff (num_blocks m i) 0).0 e))
]

-- A block from `i` on where an entry starts is enough for the search to find one.
found :
    (m : Mem) (n k i j : ℕ)
    → i + k ≤ n
    → i ≤ j
    → j < i + k
    → num_blocks m j ≢ 0
    → (b : ℕ) × (t : TimeStamp) × (find_first m k i none ≡ some (b, t))
      × Start m n b t
      × (is_later t (time_stamp m j) ≡ false)
unfolding find_first
found m n zero i j le ge lt used = absurd (omega arith)
found m n (suc k) i j le ge lt used =
    let result : Bool → Option (ℕ × TimeStamp) =
      λ c. find_first m k (i + 1) (if c then none else some (i, time_stamp m i)) in
    let Goal : Option (ℕ × TimeStamp) → Type 0 = λ r.
      (b : ℕ) × (t : TimeStamp) × (r ≡ some (b, t))
      × Start m n b t
      × (is_later t (time_stamp m j) ≡ false) in
    elim (Bool-cases (num_blocks m i == 0)) [
      | inl e ↦
          subst (λ c. Goal (result c)) (sym e)
            (found m n k (i + 1) j (omega arith) (unused_ne m i j e used ge) (omega arith) used)
      | inr e ↦
          let t = time_stamp m i in
          let l =
            extend m n k i t t (result false) (is_later_irrefl t) (λ u. is_later_irrefl t)
              (find_first-Least m n k (i + 1) i t (omega arith)
                (omega arith, ground arith, refl)) in
          subst (λ c. Goal (result c)) (sym e)
            (l.block, l.time, l.returns, l.starts, l.others j ge lt used)
    ]

-- If an entry starts in a block `j` of the ring, the search gives a block of the ring where an entry
-- starts, with the time of that entry, and this time is not later than that of the entry in `j`.
pub find_first-least :
    (m : Mem) (n j : ℕ)
    → j < n
    → num_blocks m j ≢ 0
    → (b : ℕ) × (t : TimeStamp) × (find_first m n 0 none ≡ some (b, t))
      × Start m n b t
      × (is_later t (time_stamp m j) ≡ false)
find_first-least m n j lt used = found m n n 0 j (omega arith) (omega arith) (omega arith) used
