-- ===== src/Histogram/Bins.antt =====
-- What the bins of a histogram hold (histogram_impl of
-- include/stat_log/stats/accumulator_types/boost_hist.hpp).
use native.Mathlib.Decide.{dec_lt}
use mathlib.Core.Option.{some-injective}
use stat_log.Base.{
  ℕ, zero, suc, ◌+◌, ◌-◌, ◌≤◌, ◌<◌, ◌≡◌, ◌≢◌, refl, sym, subst, ap, ◌∙◌, Bool, true, false,
  Bool-cases, inl, inr, some, List, [], ◌∷◌, get_elem?, get_elem?-some, set, length, if◌then◌else◌,
  subst_some, arith,
}
use stat_log.Histogram.{Floats, upper_bound, bin_of, add_sample}

module _ {D : Type 0} (floats : Floats D) where
  -- The sample is not above any position before the bound, and is below the one at it.
  upper_bound-before :
      (ps : List D) (x : D) (j : ℕ) (p : D)
      → j < upper_bound floats ps x
      → get_elem? ps j ≡ some p
      → floats.less x p ≡ false
  unfolding upper_bound
  upper_bound-before [] x j p lt e = cc
  upper_bound-before (q ∷ ps) x zero p lt e = elim (Bool-cases (floats.less x q)) [
    | inl below ↦ absurd (ground (arith, below, lt))
    | inr above ↦ subst_some (λ z. floats.less x z ≡ false) q p e above
  ]
  upper_bound-before (q ∷ ps) x (suc j) p lt e = elim (Bool-cases (floats.less x q)) [
    | inl below ↦ absurd (ground (arith, below, lt))
    | inr above ↦ upper_bound-before ps x j p (ground (arith, above, lt)) e
  ]

  upper_bound-at :
      (ps : List D) (x : D) (p : D)
      → get_elem? ps (upper_bound floats ps x) ≡ some p
      → floats.less x p ≡ true
  unfolding upper_bound
  upper_bound-at [] x p e = cc
  upper_bound-at (q ∷ ps) x p e = elim (Bool-cases (floats.less x q)) [
    | inl below ↦
        subst_some (λ z. floats.less x z ≡ true) q p
          (ap (λ b. get_elem? (q ∷ ps) (if b then 0 else suc (upper_bound floats ps x))) (sym below)
            ∙ e)
          below
    | inr above ↦ upper_bound-at ps x p (
        ap (λ b. get_elem? (q ∷ ps) (if b then 0 else suc (upper_bound floats ps x))) (sym above)
        ∙ e)
  ]

  upper_bound-le : (ps : List D) (x : D) → upper_bound floats ps x ≤ length ps
  unfolding upper_bound
  upper_bound-le [] x = omega arith
  upper_bound-le (q ∷ ps) x = ground (arith, upper_bound-le ps x)

  -- Positions that rise, compared by an order.
  pub record IsAscending (ps : List D) : Type 0 where
    pub trans :
        (a b c : D) → floats.less a b ≡ true → floats.less b c ≡ true → floats.less a c ≡ true
    pub rises :
        (i j : ℕ) (p q : D)
        → i < j
        → get_elem? ps i ≡ some p
        → get_elem? ps j ≡ some q
        → floats.less p q ≡ true

  -- A bin, with the sample not below its position and below the next one; the first bin has no lower
  -- end and the last no upper.
  pub record InBin (n : ℕ) (ps : List D) (x : D) (i : ℕ) : Type 0 where
    pub inside : i ≤ n + 1
    pub low : i ≢ 0 → (p : D) → get_elem? ps i ≡ some p → floats.less x p ≡ false
    pub high : i ≢ n + 1 → (p : D) → get_elem? ps (i + 1) ≡ some p → floats.less x p ≡ true

  module _ (n : ℕ) (ps : List D) (size : length ps ≡ n + 2) (ascending : IsAscending ps)
      (x : D) where
    -- Below a position is below the later ones.
    below_later :
        (i j : ℕ) (p q : D)
        → i ≤ j
        → get_elem? ps i ≡ some p
        → get_elem? ps j ≡ some q
        → floats.less x p ≡ true
        → floats.less x q ≡ true
    below_later i j p q le e f h = elim (dec_lt i j) [
      | yes lt ↦ ascending.trans x p q h (ascending.rises i j p q lt e f)
      | no not_lt ↦
          let same : i ≡ j = omega (arith, le, not_lt) in
          subst (λ z. floats.less x z ≡ true)
            (some-injective p q (sym e ∙ ap (get_elem? ps) same ∙ f)) h
    ]

    no_earlier : (i b : ℕ) → InBin n ps x i → InBin n ps x b → i < b → ⊥
    no_earlier i b hi hb lt =
        let inside = hb.inside in
        let (p, e) = get_elem?-some ps (i + 1) (omega (arith, lt, inside, size)) in
        let (q, f) = get_elem?-some ps b (omega (arith, inside, size)) in
        let up = hi.high (omega (arith, lt, inside)) p e in
        let down = hb.low (omega (arith, lt)) q f in
        let later = below_later (i + 1) b p q (omega (arith, lt)) e f up in cc

    InBin-unique : (i b : ℕ) → InBin n ps x i → InBin n ps x b → i ≡ b
    InBin-unique i b hi hb = elim (dec_lt i b) [
      | yes lt ↦ absurd (no_earlier i b hi hb lt)
      | no not_lt ↦ elim (dec_lt b i) [
        | yes gt ↦ absurd (no_earlier b i hb hi gt)
        | no not_gt ↦ omega (arith, not_lt, not_gt)
      ]
    ]

    at_position : (i : ℕ) (p q : D) → get_elem? ps i ≡ some p → get_elem? ps i ≡ some q → p ≡ q
    at_position i p q e f = some-injective p q (sym e ∙ f)

    -- The bound lies behind the first position that counts, and not behind the last.
    bound_inside :
        (first last : D)
        → get_elem? ps 1 ≡ some first
        → get_elem? ps (n + 1) ≡ some last
        → floats.less x first ≡ false
        → floats.less x last ≡ true
        → (1 < upper_bound floats ps x) × (upper_bound floats ps x ≤ n + 1)
    bound_inside first last e f not_first below =
        let k = upper_bound floats ps x in
        let upper : k ≤ n + 1 = elim (dec_lt (n + 1) k) [
          | yes gt ↦
              let above = upper_bound-before ps x (n + 1) last gt f in
              absurd (true_false below above)
          | no not_gt ↦ omega (arith, not_gt)
        ] in
        let lower : 1 < k = elim (dec_lt 1 k) [
          | yes lt ↦ lt
          | no not_lt ↦
              let (p, at) = get_elem?-some ps k (omega (arith, upper, size)) in
              absurd (
                true_false
                  (below_later k 1 p first (omega (arith, not_lt)) at e (upper_bound-at ps x p at))
                  not_first)
        ] in
        (lower, upper)
      where
        true_false : {b : Bool} → b ≡ true → b ≡ false → ⊥
        true_false h k = cc

    middle :
        (first last : D)
        → get_elem? ps 1 ≡ some first
        → get_elem? ps (n + 1) ≡ some last
        → floats.less x first ≡ false
        → floats.less x last ≡ true
        → InBin n ps x (upper_bound floats ps x - 1)
    middle first last e f not_first below =
        let k = upper_bound floats ps x in
        let (lower, upper) = bound_inside first last e f not_first below in
        record {
          inside = omega (arith, upper);
          low = λ _ p at. upper_bound-before ps x (k - 1) p (omega (arith, lower)) at;
          high = λ _ p at. upper_bound-at ps x p (ap (get_elem? ps) (omega (arith, lower)) ∙ at);
        }

    bin_cases :
        (first last : D)
        → get_elem? ps 1 ≡ some first
        → get_elem? ps (n + 1) ≡ some last
        → InBin n ps x (
            if floats.less x first
            then 0
            else if floats.less x last
            then upper_bound floats ps x - 1
            else n + 1)
    bin_cases first last e f = elim (Bool-cases (floats.less x first)) [
      | inl below ↦
          subst
            (λ b.
              InBin n ps x (
                if b then 0 else if floats.less x last then upper_bound floats ps x - 1 else n + 1))
            (sym below)
            (record {
              inside = omega arith;
              low = λ ne p at. absurd (ne refl);
              high =
                  λ _ p at. subst (λ z. floats.less x z ≡ true) (at_position 1 first p e at) below;
            })
      | inr not_first ↦ elim (Bool-cases (floats.less x last)) [
        | inl below ↦ rw (not_first, below) (middle first last e f not_first below)
        | inr above ↦
            rw (not_first, above)
              (record {
                inside = omega arith;
                low = λ _ p at.
                    subst (λ z. floats.less x z ≡ false) (at_position (n + 1) last p f at) above;
                high = λ ne p at. absurd (ne refl);
              })
      ]
    ]

    -- When the positions rise, as many as there are bins and two more, every sample has a bin, whose
    -- ends it lies between, and no other.
    pub bin_of_lem :
        (b : ℕ) × (bin_of floats n ps x ≡ some b)
        × InBin n ps x b
        × ((i : ℕ) → InBin n ps x i → i ≡ b)
    unfolding bin_of
    bin_of_lem =
        let (first, e) = get_elem?-some ps 1 (omega (arith, size)) in
        let (last, f) = get_elem?-some ps (n + 1) (omega (arith, size)) in
        let here = bin_cases first last e f in
        (_, rw (e, f) refl, here, λ i hi. InBin-unique i _ hi here)

    pub add_sample_lem :
        (counts : List ℕ)
        → length counts ≡ n + 2
        → (b : ℕ) × (count : ℕ) × InBin n ps x b
          × (get_elem? counts b ≡ some count)
          × (add_sample floats x
                (record { num_bins = n; bin_positions = ps; samples_in_bin = counts })
              ≡ some (record {
                num_bins = n;
                bin_positions = ps;
                samples_in_bin = set counts b (count + 1);
              }))
    unfolding add_sample
    add_sample_lem counts len =
        let (b, found, here, _) = bin_of_lem in
        let inside = here.inside in
        let (count, at) = get_elem?-some counts b (omega (arith, inside, len)) in
        (b, count, here, at, rw found (rw at refl))
