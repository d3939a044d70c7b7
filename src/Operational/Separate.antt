-- ===== src/Operational/Separate.antt =====
-- Statistics do not disturb each other: writeStat of one tag on the operational side and DUMP_STAT of
-- another on the control side (include/stat_log/stat_log.h), over the segment that both have laid out.
use stat_log.Base.{
  ℕ, suc, ◌+◌, ◌≤◌, ◌<◌, ◌≡◌, ◌≢◌, refl, sym, ap, ◌∙◌, ◌⊎◌, inl, inr, Bool, Option, some, List, [],
  ◌∷◌, map, get_elem?, All, arith, ◌==◌, ◌>>=◌, if◌then◌else◌, Bool-cases, >>=-eq-some, if-eq-some,
  subst_some, get_elem?-map, get_elem?-map_back,
}
use stat_log.Memory.{Mem, SameOutside}
use stat_log.Tags.{Tag}
use stat_log.Stats.{StatType, shared_size}
use stat_log.Stats.Operation.{write}
use stat_log.Stats.Frame.{write-SameOutside}
use stat_log.Stats.Reads.{SameInside}
use stat_log.Segment.{Placed}
use stat_log.Segment.Places.{size_of}
use stat_log.Segment.Sides.{place}
use stat_log.Operational.{
  OpHandle, parent, stat, op_tag, op_ptr, write_val, write_first, write_stat, num_matches,
}

module _ (types : ℕ → StatType) where
  unfoldable pub op_size : OpHandle types → ℕ
  op_size (parent t ptr) = 0
  op_size (stat t ptr st) = shared_size (types t.index)

  -- What the operational side knows of a handle's place.
  abbrev pub op_place : OpHandle types → Tag × ℕ × ℕ
  op_place h = (op_tag types h, op_ptr types h, op_size h)

  -- A handle that is its tag's, and only its bytes differ.
  record Wrote (i : ℕ) (hs hs' : List (OpHandle types)) (m m' : Mem) : Type 0 where
    position : ℕ
    handle : OpHandle types
    member : get_elem? hs position ≡ some handle
    index : (op_tag types handle).index ≡ i
    frame : SameOutside (op_ptr types handle) (op_size handle) m m'
    places : map op_place hs' ≡ map op_place hs

  write_val_lem :
      (h : OpHandle types) (args : List ℕ) (m : Mem) (r : OpHandle types × Mem)
      → write_val types h args m ≡ some r
      → SameOutside (op_ptr types h) (op_size h) m r.1 × (op_place r.0 ≡ op_place h)
  unfolding write_val op_size
  write_val_lem (parent t ptr) args m r e = cc
  write_val_lem (stat t ptr st) args m r e =
      let (w, ew, e') = >>=-eq-some (write (types t.index) ptr args st m) _ e in
      subst_some
        (λ x.
          SameOutside ptr (shared_size (types t.index)) m x.1
          × (op_place x.0 ≡ op_place (stat t ptr st)))
        _ r e' (write-SameOutside (types t.index) ptr args st m w ew, refl)

  write_first-Wrote :
      (i : ℕ) (args : List ℕ) (hs : List (OpHandle types)) (m : Mem)
      (r : List (OpHandle types) × Mem)
      → write_first types i args hs m ≡ some r
      → Wrote i hs r.0 m r.1
  unfolding write_first
  write_first-Wrote i args [] m r e = cc
  write_first-Wrote i args (h ∷ hs) m r e = elim (Bool-cases ((op_tag types h).index == i)) [
    | inl same ↦
        let e₁ = ap chosen (sym same) ∙ e in
        let (w, ew, e') = >>=-eq-some (write_val types h args m) _ e₁ in
        let (frame, kept) = write_val_lem h args m w ew in
        subst_some (λ x. Wrote i (h ∷ hs) x.0 m x.1) _ r e'
          (record {
            position = 0;
            handle = h;
            member = refl;
            index = ground (arith, same);
            frame = frame;
            places = ap (λ p. p ∷ map op_place hs) kept;
          })
    | inr other ↦
        let e₁ = ap chosen (sym other) ∙ e in
        let (w, ew, e') = >>=-eq-some (write_first types i args hs m) _ e₁ in
        let rest = write_first-Wrote i args hs m w ew in
        subst_some (λ x. Wrote i (h ∷ hs) x.0 m x.1) _ r e'
          (record {
            position = suc rest.position;
            handle = rest.handle;
            member = rest.member;
            index = rest.index;
            frame = rest.frame;
            places = ap (λ ps. op_place h ∷ ps) rest.places;
          })
  ]
    where
      chosen : Bool → Option (List (OpHandle types) × Mem)
      chosen b =
          if b
          then (write_val types h args m >>= λ w. some (w.0 ∷ hs, w.1))
          else (write_first types i args hs m >>= λ w. some (h ∷ w.0, w.1))

  write_stat-Wrote :
      (i : ℕ) (args : List ℕ) (hs : List (OpHandle types)) (m : Mem)
      (r : List (OpHandle types) × Mem)
      → write_stat types i args hs m ≡ some r
      → Wrote i hs r.0 m r.1
  unfolding write_stat
  write_stat-Wrote i args hs m r e =
      write_first-Wrote i args hs m r ((if-eq-some (num_matches types i hs == 1) _ e).1)

  -- `writeStat` with some tags and arguments, one after another.
  unfoldable pub write_stats :
      List (ℕ × List ℕ) → List (OpHandle types) → Mem → Option (List (OpHandle types) × Mem)
  unfolding write_stat
  write_stats [] hs m = some (hs, m)
  write_stats ((i, args) ∷ ws) hs m =
      write_stat types i args hs m >>= λ r. write_stats ws (r.0) (r.1)

  -- The handles with another tag lie apart from a range of bytes.
  abbrev pub AreApart : ℕ → ℕ → ℕ → List Placed → Type 0
  AreApart i p n ps =
      (k : ℕ) (b : Placed)
      → get_elem? ps k ≡ some b
      → b.handle.tag.index ≢ i
      → (b.shared_ptr + size_of types b ≤ p) ⊎ (p + n ≤ b.shared_ptr)

  -- Writes of other tags leave a range alone, which lies apart from their handles.
  pub write_stats-SameInside :
      (i p n : ℕ) (ps : List Placed) (ws : List (ℕ × List ℕ)) (hs : List (OpHandle types)) (m : Mem)
      (r : List (OpHandle types) × Mem)
      → AreApart i p n ps
      → map op_place hs ≡ map (place types) ps
      → All (λ w. w.0 ≢ i) ws
      → write_stats ws hs m ≡ some r
      → SameInside p n m (r.1)
  unfolding write_stats
  write_stats-SameInside i p n ps [] hs m r apart same _ e =
      subst_some (λ x. SameInside p n m x.1) _ r e (λ a le lt. refl)
  write_stats-SameInside i p n ps ((j, args) ∷ ws) hs m r apart same (ne, others) e =
      let (w, ew, e') = >>=-eq-some (write_stat types j args hs m) _ e in
      let wrote = write_stat-Wrote j args hs m w ew in
      let (b, at, here) =
        get_elem?-map_back (place types) ps wrote.position (op_place wrote.handle) (
          ap (λ l. get_elem? l wrote.position) (sym same)
          ∙ get_elem?-map op_place hs wrote.position wrote.handle wrote.member) in
      let beside =
        apart wrote.position b at
          (λ q. ne (sym wrote.index ∙ sym (ap (λ x. x.0.index) here) ∙ q)) in
      λ a le lt.
        write_stats-SameInside i p n ps ws w.0 w.1 r apart (wrote.places ∙ same) others e' a le lt
        ∙ wrote.frame a (sides (ap (λ x. x.1) here) (ap (λ x. x.2) here) beside a le lt)
    where
      sides :
          {b q s s' : ℕ}
          → b ≡ q
          → s ≡ s'
          → (b + s ≤ p) ⊎ (p + n ≤ b)
          → (a : ℕ) → p ≤ a
          → a < p + n
          → (a < q) ⊎ (q + s' ≤ a)
      sides e f (inl h) a le lt = inr (omega (arith, e, f))
      sides e f (inr h) a le lt = inl (omega (arith, e, f))

  pub write_stats-places :
      (ws : List (ℕ × List ℕ)) (hs : List (OpHandle types)) (m : Mem)
      (r : List (OpHandle types) × Mem)
      → write_stats ws hs m ≡ some r
      → map op_place r.0 ≡ map op_place hs
  unfolding write_stats
  write_stats-places [] hs m r e = subst_some (λ x. map op_place x.0 ≡ map op_place hs) _ r e refl
  write_stats-places ((j, args) ∷ ws) hs m r e =
      let (w, ew, e') = >>=-eq-some (write_stat types j args hs m) _ e in
      write_stats-places ws w.0 w.1 r e' ∙ (write_stat-Wrote j args hs m w ew).places
