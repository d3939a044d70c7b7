-- ===== src/Stats/Visits.antt =====
-- The loops of stat_array.h over a command that visits the cells of each element.
use stat_log.Base.{
  ℕ, zero, suc, ◌+◌, ◌*◌, ◌<◌, ◌≡◌, refl, sym, ap, ◌∙◌, List, [], ◌++◌, append-nil, ◌==◌,
  if◌then◌else◌, arith,
}
use stat_log.Command.{StatCmd, StatCmdOutput}
use stat_log.Memory.{Mem}
use stat_log.Stats.Control.{
  Command, leaf_array_command, nested_array_command, nested_step, for_range,
}
use stat_log.Stats.Flat.{cells_from, forget, fold_cells, fold_cells-append}

-- What a command has to do, for the loops of the arrays around it.
pub record Visits (leaf : Command) (cmd : StatCmd) (ps : ℕ → List ℕ) (ds : List ℕ) (each : Command)
    : Type 0 where
  pub flat :
      (p : ℕ) (out : StatCmdOutput) (m : Mem)
      → (let r = each p cmd out m in (forget (r.0), r.1))
        ≡ fold_cells leaf cmd (ps p) (forget out, m)
  pub dimensions :
      (p : ℕ) (out : StatCmdOutput) (m : Mem)
      → (each p cmd out m).0.dimension_sizes ≡ out.dimension_sizes ++ ds

module _ (leaf : Command) (cmd : StatCmd) (ps : ℕ → List ℕ) (size ptr : ℕ) where
  leaf_loop :
      (each : Command)
      → Visits leaf cmd ps [] each
      → (k i : ℕ) (out : StatCmdOutput) (m : Mem)
      → let r = for_range k i (λ i s. each (ptr + i * size) cmd s.0 s.1) (out, m) in
        ((forget (r.0), r.1) ≡ fold_cells leaf cmd (cells_from ps size ptr k i) (forget out, m))
        × (r.0.dimension_sizes ≡ out.dimension_sizes)
  unfolding for_range cells_from fold_cells
  leaf_loop each v zero i out m = (refl, refl)
  leaf_loop each v (suc k) i out m =
      let p = ptr + i * size in
      let ih = leaf_loop each v k (i + 1) (each p cmd out m).0 (each p cmd out m).1 in
      (
        ih.0
            ∙ ap (fold_cells leaf cmd (cells_from ps size ptr k (i + 1))) (v.flat p out m)
            ∙ sym (fold_cells-append leaf cmd (ps p) (cells_from ps size ptr k (i + 1)) _),
        ih.1 ∙ v.dimensions p out m ∙ append-nil _,
      )

  -- Behind the first round the kept dimensions stay.
  nested_loop :
      (each : Command) (ds : List ℕ)
      → Visits leaf cmd ps ds each
      → (k i : ℕ) (out : StatCmdOutput) (m : Mem) (kept : List ℕ) → 0 < i
      → let r = for_range k i (nested_step size each ptr cmd) (out, m, kept) in
        ((forget (r.0), r.1) ≡ fold_cells leaf cmd (cells_from ps size ptr k i) (forget out, m))
        × (r.2 ≡ kept)
  unfolding for_range cells_from fold_cells nested_step
  nested_loop each ds v zero i out m kept h = (refl, refl)
  nested_loop each ds v (suc k) i out m kept h =
      let p = ptr + i * size in
      let r = each p cmd out m in
      let ih =
        nested_loop each ds v k (i + 1) (forget (r.0)) r.1
          (if i == 0 then r.0.dimension_sizes else kept) (omega arith) in
      (
        ih.0
            ∙ ap (fold_cells leaf cmd (cells_from ps size ptr k (i + 1))) (v.flat p out m)
            ∙ sym (fold_cells-append leaf cmd (ps p) (cells_from ps size ptr k (i + 1)) _),
        ih.1 ∙ ground arith,
      )

-- An array of other statistics.
pub leaf_array-Visits :
    (leaf : Command) (cmd : StatCmd) (ps : ℕ → List ℕ) (n size : ℕ) (each : Command)
    → Visits leaf cmd ps [] each
    → (p : ℕ) (out : StatCmdOutput) (m : Mem)
    → let r = leaf_array_command n size each p cmd out m in
      ((forget (r.0), r.1) ≡ fold_cells leaf cmd (cells_from ps size p n 0) (forget out, m))
      × (r.0.dimension_sizes ≡ out.dimension_sizes)
unfolding leaf_array_command
leaf_array-Visits leaf cmd ps n size each v p out m = leaf_loop leaf cmd ps size p each v n 0 out m

-- An array of arrays: the first round brings the inner dimensions.
pub nested_array-Visits :
    (leaf : Command) (cmd : StatCmd) (ps : ℕ → List ℕ) (n size : ℕ) (each : Command) (ds : List ℕ)
    → Visits leaf cmd ps ds each
    → 0 < n
    → (p : ℕ) (out : StatCmdOutput) (m : Mem)
    → let r = nested_array_command n size each p cmd out m in
      ((forget (r.0), r.1) ≡ fold_cells leaf cmd (cells_from ps size p n 0) (forget out, m))
      × (r.0.dimension_sizes ≡ out.dimension_sizes ++ ds)
unfolding nested_array_command cells_from fold_cells
nested_array-Visits leaf cmd ps zero size each ds v h p out m = absurd (omega arith)
nested_array-Visits leaf cmd ps (suc n) size each ds v h p out m =
    let r = each (p + 0 * size) cmd out m in
    let rest =
      nested_loop leaf cmd ps size p each ds v n 1 (forget (r.0)) r.1 r.0.dimension_sizes
        (omega arith) in
    (
      rest.0
          ∙ ap (fold_cells leaf cmd (cells_from ps size p n 1)) (v.flat (p + 0 * size) out m)
          ∙ sym (fold_cells-append leaf cmd (ps (p + 0 * size)) (cells_from ps size p n 1) _),
      rest.1 ∙ v.dimensions (p + 0 * size) out m,
    )
