-- ===== src/Stats/Written.antt =====
-- Which cell a write's arguments name, and what a write that succeeds does to it: the write policy
-- at the cell's address (StatArrayImpl::write of include/stat_log/stats/stat_array.h).
use stat_log.Base.{
  ℕ, ◌+◌, ◌*◌, ◌<◌, ◌≡◌, refl, sym, ap, ap₂, ◌∙◌, Option, some, List, [], ◌∷◌, subst, arith,
  get_elem?, >>=-eq-some, if-eq-some, subst_some,
}
use stat_log.Memory.{Mem}
use stat_log.Stats.{
  Repr, int_repr, WritePolicy, assign, StatType, simple, null_stat, accumulator, stat_array,
  shared_size,
}
use stat_log.Stats.Operation.{
  OpState, write, write_element, inner_args, last_arg, is_index, policy_write,
}
use stat_log.Stats.Frame.{is_index→lt}
use stat_log.Stats.Flat.{leaf_of}
use stat_log.Stats.Address.{num_cells, cell_size, shared_size-cells, first_address}

-- The number of the cell that a write's arguments name: the indices in row-major order.
unfoldable pub flat_index : StatType → List ℕ → ℕ
unfolding num_cells
flat_index (stat_array n t) [] = 0
flat_index (stat_array n t) (i ∷ args) = i * num_cells t + flat_index t args
flat_index (simple r w) args = 0
flat_index null_stat args = 0
flat_index (accumulator fs) args = 0

first_value : List ℕ → ℕ
first_value [] = 0
first_value (v ∷ args) = v

last_value : List ℕ → ℕ
last_value [] = 0
last_value (v ∷ []) = v
last_value (v ∷ a ∷ args) = last_value (a ∷ args)

-- The value that reaches the cell: in an array, the last argument.
unfoldable pub written_value : StatType → List ℕ → ℕ
unfolding first_value last_value
written_value (stat_array n t) args = last_value args
written_value (simple r w) args = first_value args
written_value null_stat args = first_value args
written_value (accumulator fs) args = first_value args

-- An element is handed what it needs of the arguments.
flat_index-inner_args :
    (t : StatType) (args : List ℕ) → flat_index t (inner_args t args) ≡ flat_index t args
unfolding flat_index inner_args
flat_index-inner_args (stat_array n t) args = refl
flat_index-inner_args (simple r w) args = refl
flat_index-inner_args null_stat args = refl
flat_index-inner_args (accumulator fs) args = refl

first_value-last_arg : (args : List ℕ) → first_value (last_arg args) ≡ last_value args
unfolding first_value last_value last_arg
first_value-last_arg [] = refl
first_value-last_arg (a ∷ []) = refl
first_value-last_arg (a ∷ b ∷ args) = first_value-last_arg (b ∷ args)

written_value-inner_args :
    (t : StatType) (r : Repr) (w : WritePolicy) (p i : ℕ) (args : List ℕ) (st : OpState t) (m : Mem)
    (s : OpState t × Mem)
    → leaf_of t ≡ simple r w
    → write t p (inner_args t args) st m ≡ some s
    → written_value t (inner_args t args) ≡ last_value (i ∷ args)
unfolding written_value last_value inner_args write leaf_of
written_value-inner_args (simple r' w') r w p i [] st m s l e = cc
written_value-inner_args (simple r' w') r w p i (a ∷ args) st m s l e =
    first_value-last_arg (a ∷ args)
written_value-inner_args null_stat r w p i args st m s l e = cc
written_value-inner_args (accumulator fs) r w p i args st m s l e = cc
written_value-inner_args (stat_array n t) r w p i [] st m s l e = cc
written_value-inner_args (stat_array n t) r w p i (a ∷ args) st m s l e = refl

cell_in_array : (n c i j : ℕ) → i < n → j < c → i * c + j < n * c
cell_in_array n c i j h k = grind arith

-- The address of a cell of an element.
cell_address : (p i c s j size : ℕ) → size ≡ c * s → p + i * size + j * s ≡ p + (i * c + j) * s
cell_address p i c s j size e = rw e (omega arith)

write_element-memory :
    {A : Type 0} (f : A → Mem → Option (A × Mem)) (i : ℕ) (st : List A) (m m' : Mem)
    → ((e : A) (r : A × Mem) → f e m ≡ some r → r.1 ≡ m')
    → (r : List A × Mem) → write_element f i st m ≡ some r
    → r.1 ≡ m'
unfolding write_element
write_element-memory f i st m m' h r e =
    let (x, ex, e₁) = >>=-eq-some (get_elem? st i) _ e in
    let (y, ey, e₂) = >>=-eq-some (f x m) _ e₁ in subst_some (λ z. z.1 ≡ m') _ r e₂ (h x y ey)

-- A write that succeeds names a cell of the statistic.
pub write-flat_index :
    (t : StatType) (p : ℕ) (args : List ℕ) (st : OpState t) (m : Mem) (r : OpState t × Mem)
    → write t p args st m ≡ some r
    → flat_index t args < num_cells t
unfolding write flat_index
write-flat_index (simple r w) p args st m s e = omega arith
write-flat_index null_stat p args st m s e = omega arith
write-flat_index (accumulator fs) p args st m s e = omega arith
write-flat_index (stat_array n t) p [] st m s e = cc
write-flat_index (stat_array n t) p (i ∷ args) st m s e =
    let (inside, e₁) = if-eq-some (is_index n i) _ e in
    let (x, ex, e₂) = >>=-eq-some (get_elem? st i) _ e₁ in
    let (y, ey, e₃) = >>=-eq-some (write t (p + i * shared_size t) (inner_args t args) x m) _ e₂ in
    cell_in_array n (num_cells t) i (flat_index t args) (is_index→lt n i inside) (
      subst (λ j. j < num_cells t) (flat_index-inner_args t args)
        (write-flat_index t (p + i * shared_size t) (inner_args t args) x m y ey))

repr_of : StatType → Repr
repr_of (simple r w) = r
repr_of _ = int_repr

policy_of : StatType → WritePolicy
policy_of (simple r w) = w
policy_of _ = assign

-- Equal simple statistics have the same representation and policy.
policy_write_simple :
    {r r' : Repr} {w w' : WritePolicy} (p v : ℕ) (m : Mem)
    → simple r' w' ≡ simple r w
    → policy_write w' r' p v m ≡ policy_write w r (p + 0 * r'.size) v m
unfolding repr_of policy_of
policy_write_simple {r} {r'} {w} {w'} p v m l =
    ap (λ q. policy_write w' r' q v m) (sym (first_address p r'.size)) ∙ λ i.
    policy_write (policy_of (l i)) (repr_of (l i)) (p + 0 * r'.size) v m

-- A write that succeeds, into a statistic whose innermost type is simple, is the write policy at the
-- address of the cell that the indices name.
pub write-policy_write :
    (t : StatType) (r : Repr) (w : WritePolicy) (p : ℕ) (args : List ℕ) (st : OpState t) (m : Mem)
    (s : OpState t × Mem)
    → leaf_of t ≡ simple r w
    → write t p args st m ≡ some s
    → s.1 ≡ policy_write w r (p + flat_index t args * cell_size t) (written_value t args) m
unfolding write flat_index written_value leaf_of
write-policy_write (simple r' w') r w p [] st m s l e = cc
write-policy_write (simple r' w') r w p (v ∷ args) st m s l e =
    subst_some (λ z. z.1 ≡ policy_write w r (p + 0 * r'.size) v m) _ s e
      (policy_write_simple p v m l)
write-policy_write null_stat r w p args st m s l e = cc
write-policy_write (accumulator fs) r w p args st m s l e = cc
write-policy_write (stat_array n t) r w p [] st m s l e = cc
write-policy_write (stat_array n t) r w p (i ∷ args) st m s l e =
    let (inside, e₁) = if-eq-some (is_index n i) _ e in
    write_element-memory (write t (p + i * shared_size t) (inner_args t args)) i st m _
      (λ x y ey.
        write-policy_write t r w (p + i * shared_size t) (inner_args t args) x m y l ey
        ∙ ap₂ (λ q v. policy_write w r q v m)
            (ap (λ j. p + i * shared_size t + j * cell_size t) (flat_index-inner_args t args)
              ∙ cell_address p i (num_cells t) (cell_size t) (flat_index t args) (shared_size t)
                  (shared_size-cells t))
            (written_value-inner_args t r w (p + i * shared_size t) i args x m y l ey))
      s e₁
