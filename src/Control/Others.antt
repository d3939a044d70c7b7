-- ===== src/Control/Others.antt =====
-- The two processes over one segment: what the control side dumps of a statistic after the
-- operational side has written others (include/stat_log/stat_log.h).
use native.Mathlib.Decide.{dec_lt}
use mathlib.Core.Option.{some-injective}
use stat_log.Base.{
  ℕ, ◌+◌, ◌<◌, ◌≡◌, ◌≢◌, refl, sym, ap, ap₂, subst, ◌∙◌, ◌⊎◌, inl, inr, true, false, Option, none,
  some, List, [], ◌∷◌, map, get_elem?, All, arith,
}
use stat_log.Command.{empty_output}
use stat_log.Memory.{Mem}
use stat_log.Tags.{
  TagTree, Handle, op_stat, stat_parent, stat_tag_hierarchy, tag_list_creator, leaf_kind,
  parent_kind,
}
use stat_log.Stats.{StatType, shared_size}
use stat_log.Stats.Control.{do_command}
use stat_log.Stats.Reads.{SameInside, do_stat_command-dump}
use stat_log.Segment.{Placed, init, get_placed, kind_size}
use stat_log.Segment.Places.{size_of, places_apart}
use stat_log.Segment.Sides.{place, init-sides}
use stat_log.Segment.Lookup.{
  handles_of, handles_of-set_shm_pointers, IsFound, get_placed-IsFound, tag_list_creator-All,
  IsFound-All,
}
use stat_log.Operational.{OpHandle, op_handle, op_handles}
use stat_log.Operational.Separate.{
  op_place, op_size, write_stats, write_stats-SameInside, write_stats-places, AreApart,
}
use stat_log.Control.{Control, new_control}
use stat_log.Control.Send.{IsControlStat, dump_at, dump_found, dump_of}
use stat_log.Control.Dumped.{kinds_lem}

-- The classes of the operational side's statistics.
abbrev IsOpStat : Handle → Type 0
IsOpStat h = (h.kind ≡ op_stat) ⊎ (h.kind ≡ stat_parent)

module _ (types : ℕ → StatType) where
  op_handle-place :
      (h : Handle) (p : ℕ)
      → IsOpStat h
      → op_place types (op_handle types h.kind h.tag p)
        ≡ place types (record { handle = h; shared_ptr = p })
  unfolding op_handle op_size kind_size
  op_handle-place h p (inl e) = rw e refl
  op_handle-place h p (inr e) = rw e refl

  op_handles-place :
      (ps : List Placed)
      → All IsOpStat (handles_of ps)
      → map (op_place types) (op_handles types ps) ≡ map (place types) ps
  op_handles-place [] h = refl
  op_handles-place (a ∷ ps) (ha, h) =
      ap₂ ◌∷◌ (op_handle-place a.handle a.shared_ptr ha) (op_handles-place ps h)

  -- DUMP_STAT reads the handle's own bytes only.
  dump_at_congr :
      (h : Handle) (p : ℕ) (m m' : Mem)
      → IsControlStat h
      → SameInside p (kind_size types h.kind h.tag.index) m m'
      → dump_at types h.kind h.tag.index p m' ≡ dump_at types h.kind h.tag.index p m
  unfolding dump_at kind_size do_command
  dump_at_congr h p m m' (inl e) same =
      let inside : SameInside p (shared_size (types h.tag.index)) m m' =
        λ a le lt. same a le (lt_size a lt) in
      rw e ((do_stat_command-dump (types h.tag.index) p empty_output m m' inside).0)
    where
      lt_size :
          (a : ℕ)
          → a < p + shared_size (types h.tag.index)
          → a < p + kind_size types h.kind h.tag.index
      lt_size a lt = rw e lt
  dump_at_congr h p m m' (inr e) same = rw e refl

Option-cases : {A : Type 0} (o : Option A) → (o ≡ none) ⊎ ((a : A) × (o ≡ some a))
Option-cases none = inl refl
Option-cases (some a) = inr (a, refl)

module _ (types : ℕ → StatType) (start : ℕ) (stat_tree log_tree : TagTree) (m₀ : Mem) where
  abbrev the_control : Control
  the_control = new_control types start stat_tree log_tree m₀

  abbrev pub fresh_handles : List (OpHandle types)
  fresh_handles = op_handles types (init types true start stat_tree log_tree m₀).stats

  fresh_places : map (op_place types) fresh_handles ≡ map (place types) the_control.the_stats
  unfolding new_control init leaf_kind parent_kind
  fresh_places =
      op_handles-place types _ (
        subst (All IsOpStat)
          (sym (
            handles_of-set_shm_pointers types start
              (tag_list_creator true true (stat_tag_hierarchy stat_tree))))
          (tag_list_creator-All IsOpStat true true (λ t. inl refl) (λ t. inr refl)
            (stat_tag_hierarchy stat_tree)))
      ∙ (init-sides types start stat_tree log_tree m₀ m₀).0

  found_apart :
      (i : ℕ) (a : Placed)
      → IsFound i the_control.the_stats a
      → AreApart types i a.shared_ptr (size_of types a) the_control.the_stats
  unfolding new_control init
  found_apart i a found k b e ne =
      let hs = tag_list_creator false true (stat_tag_hierarchy stat_tree) in
      elim (dec_lt k found.position) [
        | yes before ↦ inl (places_apart types start k found.position hs b a before e found.member)
        | no not_before ↦ elim (dec_lt found.position k) [
          | yes behind ↦
              inr (places_apart types start found.position k hs a b behind found.member e)
          | no not_behind ↦
              let here : k ≡ found.position = omega (arith, not_before, not_behind) in
              absurd (
                ne (
                  ap (λ x. x.handle.tag.index)
                    (some-injective b a
                      (sym e ∙ ap (get_elem? the_control.the_stats) here ∙ found.member))
                  ∙ found.index))
        ]
      ]

  -- After any successful writes on the operational side, further writes of other tags than `i`
  -- leave what DUMP_STAT of `i` yields on the control side as it was.
  pub dump_of-write_stats :
      (i : ℕ) (before after : List (ℕ × List ℕ)) (m : Mem) (r s : List (OpHandle types) × Mem)
      → write_stats types before fresh_handles m ≡ some r
      → write_stats types after r.0 r.1 ≡ some s
      → All (λ w. w.0 ≢ i) after
      → dump_of types (record the_control { memory = s.1 }) i
        ≡ dump_of types (record the_control { memory = r.1 }) i
  unfolding dump_of dump_found
  dump_of-write_stats i before after m r s e f others =
      elim (Option-cases (get_placed i the_control.the_stats)) [
        | inl missing ↦ ap (dump_found types s.1) missing ∙ sym (ap (dump_found types r.1) missing)
        | inr (a, at) ↦
            let found = get_placed-IsFound i the_control.the_stats a at in
            let kind : IsControlStat a.handle =
              IsFound-All IsControlStat i the_control.the_stats a
                (kinds_lem types start stat_tree log_tree m₀) found in
            let same =
              write_stats-SameInside types i a.shared_ptr (size_of types a) the_control.the_stats
                after r.0 r.1 s (found_apart i a found)
                (write_stats-places types before fresh_handles m r e ∙ fresh_places) others f in
            ap (dump_found types s.1) at
            ∙ dump_at_congr types a.handle a.shared_ptr r.1 s.1 kind same
            ∙ sym (ap (dump_found types r.1) at)
      ]
