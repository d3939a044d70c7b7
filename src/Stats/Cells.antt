-- ===== src/Stats/Cells.antt =====
-- A command other than PRINT_STAT_TYPE of include/stat_log/stats visits exactly the cells of a
-- statistic, in row-major order.
use stat_log.Base.{
  ℕ, ◌<◌, ◌≡◌, refl, sym, ap, ◌∙◌, true, false, List, [], ◌∷◌, ◌++◌, append_assoc, append-nil,
  Bool-cases, inl, inr, if_true, if_false,
}
use stat_log.Command.{StatCmd, StatCmdOutput}
use stat_log.Memory.{Mem}
use stat_log.Stats.{
  Repr, Feature, StatType, simple, null_stat, accumulator, stat_array, shared_size, is_array,
}
use stat_log.Stats.Control.{
  do_stat_command, simple_command, null_command, accum_command, is_print_stat_type,
  leaf_array_command, nested_array_command, push_dimension,
}
use stat_log.Stats.Flat.{leaf_of, dims, cells_from, cells, IsInhabited, forget, fold_cells}
use stat_log.Stats.Visits.{Visits, leaf_array-Visits, nested_array-Visits}

-- The three kinds of innermost statistics leave the dimensions alone and do not look at them.
module _ (r : Repr) (p : ℕ) (out : StatCmdOutput) (m : Mem) where
  simple_flat :
      (cmd : StatCmd)
      → (let s = simple_command r p cmd out m in (forget (s.0), s.1))
        ≡ simple_command r p cmd (forget out) m
  unfolding simple_command
  simple_flat StatCmd.dump_stat = refl
  simple_flat StatCmd.print_stat_type = refl
  simple_flat StatCmd.clear_stat = refl
  simple_flat _ = refl

  simple_dimensions :
      (cmd : StatCmd) → (simple_command r p cmd out m).0.dimension_sizes ≡ out.dimension_sizes
  unfolding simple_command
  simple_dimensions StatCmd.dump_stat = refl
  simple_dimensions StatCmd.print_stat_type = refl
  simple_dimensions StatCmd.clear_stat = refl
  simple_dimensions _ = refl

module _ (out : StatCmdOutput) where
  null_flat : (cmd : StatCmd) → forget (null_command cmd out) ≡ null_command cmd (forget out)
  unfolding null_command
  null_flat StatCmd.print_stat_type = refl
  null_flat _ = refl

  null_dimensions : (cmd : StatCmd) → (null_command cmd out).dimension_sizes ≡ out.dimension_sizes
  unfolding null_command
  null_dimensions StatCmd.print_stat_type = refl
  null_dimensions _ = refl

module _ (fs : List Feature) (p : ℕ) (out : StatCmdOutput) (m : Mem) where
  accum_flat :
      (cmd : StatCmd)
      → (let s = accum_command fs p cmd out m in (forget (s.0), s.1))
        ≡ accum_command fs p cmd (forget out) m
  unfolding accum_command
  accum_flat StatCmd.dump_stat = refl
  accum_flat StatCmd.print_stat_type = refl
  accum_flat StatCmd.clear_stat = refl
  accum_flat _ = refl

  accum_dimensions :
      (cmd : StatCmd) → (accum_command fs p cmd out m).0.dimension_sizes ≡ out.dimension_sizes
  unfolding accum_command
  accum_dimensions StatCmd.dump_stat = refl
  accum_dimensions StatCmd.print_stat_type = refl
  accum_dimensions StatCmd.clear_stat = refl
  accum_dimensions _ = refl

-- Which loop an array runs.
module _ (n : ℕ) (t : StatType) (p : ℕ) (cmd : StatCmd) (out : StatCmdOutput) (m : Mem) where
  nested_branch :
      is_print_stat_type cmd ≡ false
      → is_array t ≡ true
      → do_stat_command (stat_array n t) p cmd out m
        ≡ nested_array_command n (shared_size t) (do_stat_command t) p cmd (push_dimension out n) m
  unfolding do_stat_command
  nested_branch h k = if_false (is_print_stat_type cmd) _ _ h ∙ if_true (is_array t) _ _ k

  leaf_branch :
      is_print_stat_type cmd ≡ false
      → is_array t ≡ false
      → do_stat_command (stat_array n t) p cmd out m
        ≡ leaf_array_command n (shared_size t) (do_stat_command t) p cmd (push_dimension out n) m
  unfolding do_stat_command
  leaf_branch h k = if_false (is_print_stat_type cmd) _ _ h ∙ if_false (is_array t) _ _ k

dims_leaf : (t : StatType) → is_array t ≡ false → dims t ≡ []
unfolding dims is_array
dims_leaf (stat_array n t) h = cc
dims_leaf (simple r w) h = refl
dims_leaf null_stat h = refl
dims_leaf (accumulator fs) h = refl

array-Visits :
    (n : ℕ) (t : StatType) (cmd : StatCmd)
    → is_print_stat_type cmd ≡ false
    → 0 < n
    → Visits (do_stat_command (leaf_of t)) cmd (cells t) (dims t) (do_stat_command t)
    → Visits
        (do_stat_command (leaf_of (stat_array n t)))
        cmd
        (cells (stat_array n t))
        (dims (stat_array n t))
        (do_stat_command (stat_array n t))
unfolding leaf_of dims cells
array-Visits n t cmd h pos_n v = elim (Bool-cases (is_array t)) [
  | inl k ↦ record {
    flat = λ p out m. rw (nested_branch n t p cmd out m h k) (nested p out m).0;
    dimensions = λ p out m.
        rw (nested_branch n t p cmd out m h k)
          ((nested p out m).1 ∙ append_assoc out.dimension_sizes (n ∷ []) (dims t));
  }
  | inr k ↦ record {
    flat = λ p out m. rw (leaf_branch n t p cmd out m h k) (plain k p out m).0;
    dimensions = λ p out m. rw (leaf_branch n t p cmd out m h k, dims_leaf t k) (plain k p out m).1;
  }
]
  where
    nested :
        (p : ℕ) (out : StatCmdOutput) (m : Mem)
        → let r =
            nested_array_command n
              (shared_size t)
              (do_stat_command t)
              p
              cmd
              (push_dimension out n)
              m in
          ((forget (r.0), r.1)
            ≡ fold_cells
                (do_stat_command (leaf_of t))
                cmd
                (cells_from (cells t) (shared_size t) p n 0)
                (forget out, m))
          × (r.0.dimension_sizes ≡ (out.dimension_sizes ++ n ∷ []) ++ dims t)
    nested p out m =
        nested_array-Visits (do_stat_command (leaf_of t)) cmd (cells t) n (shared_size t)
          (do_stat_command t) (dims t) v pos_n p (push_dimension out n) m

    plain :
        is_array t ≡ false
        → (p : ℕ) (out : StatCmdOutput) (m : Mem)
        → let r =
            leaf_array_command n
              (shared_size t)
              (do_stat_command t)
              p
              cmd
              (push_dimension out n)
              m in
          ((forget (r.0), r.1)
            ≡ fold_cells
                (do_stat_command (leaf_of t))
                cmd
                (cells_from (cells t) (shared_size t) p n 0)
                (forget out, m))
          × (r.0.dimension_sizes ≡ out.dimension_sizes ++ n ∷ [])
    plain k p out m =
        leaf_array-Visits (do_stat_command (leaf_of t)) cmd (cells t) n (shared_size t)
          (do_stat_command t) (rw (dims_leaf t k) at v) p (push_dimension out n) m

visits :
    (t : StatType) (cmd : StatCmd)
    → is_print_stat_type cmd ≡ false
    → IsInhabited t
    → Visits (do_stat_command (leaf_of t)) cmd (cells t) (dims t) (do_stat_command t)
unfolding do_stat_command leaf_of cells dims fold_cells
visits (simple r w) cmd h i = record {
  flat = λ p out m. simple_flat r p out m cmd;
  dimensions = λ p out m. simple_dimensions r p out m cmd ∙ sym (append-nil _);
}
visits null_stat cmd h i = record {
  flat = λ p out m. ap (λ o. (o, m)) (null_flat out cmd);
  dimensions = λ p out m. null_dimensions out cmd ∙ sym (append-nil _);
}
visits (accumulator fs) cmd h i = record {
  flat = λ p out m. accum_flat fs p out m cmd;
  dimensions = λ p out m. accum_dimensions fs p out m cmd ∙ sym (append-nil _);
}
visits (stat_array n t) cmd h (pos_n, i) = array-Visits n t cmd h pos_n (visits t cmd h i)

-- For every statistic whose arrays are not empty and every command but PRINT_STAT_TYPE, whatever the
-- nesting: the title, the entries and the memory are those of the innermost command run at each cell
-- in row-major order, and the dimensions are appended outermost first, whatever children reported.
pub do_stat_command-cells :
    (t : StatType) (cmd : StatCmd) (p : ℕ) (out : StatCmdOutput) (m : Mem)
    → is_print_stat_type cmd ≡ false
    → IsInhabited t
    → let r = do_stat_command t p cmd out m in
      ((forget (r.0), r.1)
        ≡ fold_cells (do_stat_command (leaf_of t)) cmd (cells t p) (forget out, m))
      × (r.0.dimension_sizes ≡ out.dimension_sizes ++ dims t)
do_stat_command-cells t cmd p out m h i =
    let v = visits t cmd h i in (v.flat p out m, v.dimensions p out m)
