-- ===== src/Stats/Frame.antt =====
-- What the operational and the control side of a statistic leave alone: everything outside the
-- statistic's own `shared_size` bytes.
use stat_log.Base.{
  ℕ, zero, suc, ◌+◌, ◌*◌, ◌≤◌, ◌<◌, ◌≡◌, ◌∙◌, inl, inr, Bool, true, false, Option, some, List, [],
  ◌∷◌, get_elem?, set, length, length-set, length-replicate, replicate, All, ltb, if◌then◌else◌,
  arith, >>=-eq-some, if-eq-some, subst_some, Bool-cases,
}
use stat_log.Memory.{
  Mem, SameOutside, SameOutside-refl, SameOutside-trans, SameOutside-widen, store-SameOutside,
}
use stat_log.Memory.Words.{write_word-SameOutside, length-le_bytes}
use stat_log.Stats.{
  Repr, Scalar, scalar_feature, WritePolicy, increment, assign, Feature, StatType, simple,
  null_stat, accumulator, stat_array, features_size, shared_size, is_serialization_deferred,
}
use stat_log.Stats.Operation.{
  OpState, fresh, policy_write, accum_write, control_word_ptr, is_index, inner_args, write_element,
  write, serialize_features, serialize_each, serialize, do_serialize,
}

pub policy_write-SameOutside :
    (p : WritePolicy) (r : Repr) (ptr value : ℕ) (m : Mem)
    → SameOutside ptr r.size m (policy_write p r ptr value m)
unfolding policy_write
policy_write-SameOutside increment r ptr value m = write_word-SameOutside m ptr r.size _
policy_write-SameOutside assign r ptr value m = write_word-SameOutside m ptr r.size value

if-SameOutside :
    (b : Bool) (p n : ℕ) (m : Mem) (x y : List ℕ × Mem)
    → SameOutside p n m x.1
    → SameOutside p n m y.1
    → SameOutside p n m (if b then x else y).1
if-SameOutside true p n m x y h k = h
if-SameOutside false p n m x y h k = k

accum_write-SameOutside :
    (fs : List Feature) (ptr sample : ℕ) (acc : List ℕ) (m : Mem)
    → SameOutside ptr (features_size fs + 4) m (accum_write fs ptr sample acc m).1
unfolding accum_write
accum_write-SameOutside fs ptr sample acc m =
    if-SameOutside _ ptr _ m _ _ (SameOutside-refl ptr _ m) (
      SameOutside-widen ptr (features_size fs + 4) (ptr + features_size fs) 4 (omega arith)
        (omega arith) (write_word-SameOutside m (control_word_ptr fs ptr) 4 0))

pub element_in_array : (n size i : ℕ) → i < n → i * size + size ≤ n * size
element_in_array n size i h = grind arith

pub is_index→lt : (n i : ℕ) → is_index n i ≡ true → i < n
unfolding is_index
is_index→lt n i h = ground arith

of_some :
    {A : Type 0} (p n : ℕ) {m : Mem} {x r : A × Mem}
    → some x ≡ some r
    → SameOutside p n m x.1
    → SameOutside p n m r.1
of_some p n {m} {x} {r} e = subst_some (λ z. SameOutside p n m z.1) x r e

-- What an element's write changes, the array's write changes.
write_element-SameOutside :
    {A : Type 0} (f : A → Mem → Option (A × Mem)) (i : ℕ) (st : List A) (m : Mem) (p n : ℕ)
    → ((e : A) (r : A × Mem) → f e m ≡ some r → SameOutside p n m r.1)
    → (r : List A × Mem) → write_element f i st m ≡ some r
    → SameOutside p n m r.1
unfolding write_element
write_element-SameOutside f i st m p n h r e =
    let (x, ex, e') = >>=-eq-some (get_elem? st i) _ e in
    let (y, ey, e'') = >>=-eq-some (f x m) _ e' in of_some p n e'' (h x y ey)

-- A successful write changes no byte outside the statistic.
pub write-SameOutside :
    (t : StatType) (ptr : ℕ) (args : List ℕ) (st : OpState t) (m : Mem) (r : OpState t × Mem)
    → write t ptr args st m ≡ some r
    → SameOutside ptr (shared_size t) m r.1
unfolding write shared_size
write-SameOutside (simple r p) ptr [] st m s e = cc
write-SameOutside (simple r p) ptr (value ∷ args) st m s e =
    of_some ptr r.size e (policy_write-SameOutside p r ptr value m)
write-SameOutside null_stat ptr args st m s e = of_some ptr 4 e (SameOutside-refl ptr 4 m)
write-SameOutside (accumulator fs) ptr [] st m s e = cc
write-SameOutside (accumulator fs) ptr (v ∷ []) st m s e =
    of_some ptr (features_size fs + 4) e (accum_write-SameOutside fs ptr v st m)
write-SameOutside (accumulator fs) ptr (v ∷ w ∷ args) st m s e = cc
write-SameOutside (stat_array n t) ptr [] st m s e = cc
write-SameOutside (stat_array n t) ptr (i ∷ args) st m s e =
    let (inside, e') = if-eq-some (is_index n i) _ e in
    write_element-SameOutside (write t (ptr + i * shared_size t) (inner_args t args)) i st m ptr
      (n * shared_size t)
      (λ x y ey.
        SameOutside-widen ptr (n * shared_size t) (ptr + i * shared_size t) (shared_size t)
          (omega arith)
          (omega (arith, element_in_array n (shared_size t) i (is_index→lt n i inside)))
          (write-SameOutside t (ptr + i * shared_size t) (inner_args t args) x m y ey))
      s e'

-- What serialisation needs of the features: each writes as many bytes as its `size` says.
abbrev pub AreSized : List Feature → Type 0
AreSized = All (λ f. (acc : List ℕ) → length (f.serialize acc) ≡ f.size)

-- `traits_common` does.
pub scalar_feature_sized :
    (f : Scalar) (acc : List ℕ)
    → length ((scalar_feature f).serialize acc) ≡ (scalar_feature f).size
unfolding scalar_feature
scalar_feature_sized f acc =
    length-le_bytes f.size (if ltb 0 (length acc) then f.extract acc else 0)

abbrev pub IsSized : StatType → Type 0
IsSized (simple r p) = Unit {0}
IsSized null_stat = Unit {0}
IsSized (accumulator fs) = AreSized fs
IsSized (stat_array n t) = IsSized t

-- An array has as many elements as its type says, throughout.
abbrev pub HasShape : (t : StatType) → OpState t → Type 0
HasShape (simple r p) st = Unit {0}
HasShape null_stat st = Unit {0}
HasShape (accumulator fs) st = Unit {0}
HasShape (stat_array n t) st = (length st ≡ n) × All (HasShape t) st

pub serialize_features-SameOutside :
    (fs : List Feature) (ptr : ℕ) (acc : List ℕ) (m : Mem)
    → AreSized fs
    → SameOutside ptr (features_size fs) m (serialize_features fs ptr acc m)
unfolding serialize_features features_size
serialize_features-SameOutside [] ptr acc m h = SameOutside-refl ptr 0 m
serialize_features-SameOutside (f ∷ fs) ptr acc m (hf, h) =
    SameOutside-trans ptr (f.size + features_size fs)
      (store-SameOutside m ptr (f.serialize acc) (f.size + features_size fs)
        (omega (arith, hf acc)))
      (SameOutside-widen ptr (f.size + features_size fs) (ptr + f.size) (features_size fs)
        (omega arith) (omega arith) (serialize_features-SameOutside fs (ptr + f.size) acc _ h))

serialize_each-SameOutside :
    {A : Type 0} (f : ℕ → A → Mem → Mem) (size : ℕ) (P : A → Type 0)
    → ((p : ℕ) (e : A) (m : Mem) → P e → SameOutside p size m (f p e m))
    → (es : List A) (ptr : ℕ) (m : Mem) → All P es
    → SameOutside ptr (length es * size) m (serialize_each f size ptr es m)
unfolding serialize_each
serialize_each-SameOutside f size P step [] ptr m _ = SameOutside-refl ptr _ m
serialize_each-SameOutside f size P step (e ∷ es) ptr m (pe, h) =
    SameOutside-trans ptr (suc (length es) * size)
      (SameOutside-widen ptr (suc (length es) * size) ptr size (omega arith) (omega arith)
        (step ptr e m pe))
      (SameOutside-widen ptr (suc (length es) * size) (ptr + size) (length es * size) (omega arith)
        (omega arith) (serialize_each-SameOutside f size P step es (ptr + size) _ h))

serialize-SameOutside :
    (t : StatType) (ptr : ℕ) (st : OpState t) (m : Mem)
    → IsSized t
    → HasShape t st
    → SameOutside ptr (shared_size t) m (serialize t ptr st m)
unfolding serialize shared_size
serialize-SameOutside (simple r p) ptr st m sized shape = SameOutside-refl ptr _ m
serialize-SameOutside null_stat ptr st m sized shape = SameOutside-refl ptr _ m
serialize-SameOutside (accumulator fs) ptr st m sized shape =
    SameOutside-widen ptr (features_size fs + 4) ptr (features_size fs) (omega arith) (omega arith)
      (serialize_features-SameOutside fs ptr st m sized)
serialize-SameOutside (stat_array n t) ptr st m sized (len, shape) = rw (← len) (
    serialize_each-SameOutside (serialize t) (shared_size t) (HasShape t)
      (λ p e m' he. serialize-SameOutside t p e m' sized he) st ptr m shape)

-- A pass of the serialisation thread over a statistic whose features write as many bytes as they say
-- changes no byte outside the statistic.
pub do_serialize-SameOutside :
    (t : StatType) (ptr : ℕ) (st : OpState t) (m : Mem)
    → IsSized t
    → HasShape t st
    → SameOutside ptr (shared_size t) m (do_serialize t ptr st m)
unfolding do_serialize
do_serialize-SameOutside t ptr st m sized shape = elim (Bool-cases (is_serialization_deferred t)) [
  | inl e ↦ rw e (serialize-SameOutside t ptr st m sized shape)
  | inr e ↦ rw e (SameOutside-refl ptr _ m)
]

All-set :
    {A : Type 0} (P : A → Type 0) (xs : List A) (i : ℕ) (v : A)
    → All P xs
    → P v
    → All P (set xs i v)
All-set P [] i v h pv = tt
All-set P (x ∷ xs) zero v (px, h) pv = (pv, h)
All-set P (x ∷ xs) (suc i) v (px, h) pv = (px, All-set P xs i v h pv)

All-get :
    {A : Type 0} (P : A → Type 0) (xs : List A) (i : ℕ) {v : A}
    → All P xs
    → get_elem? xs i ≡ some v
    → P v
All-get P [] i h e = ground arith
All-get P (x ∷ xs) zero (px, h) e = subst_some P x _ e px
All-get P (x ∷ xs) (suc i) (px, h) e = All-get P xs i h e

All-replicate : {A : Type 0} (P : A → Type 0) (n : ℕ) (v : A) → P v → All P (replicate n v)
All-replicate P zero v pv = tt
All-replicate P (suc n) v pv = (pv, All-replicate P n v pv)

pub fresh-HasShape : (t : StatType) → HasShape t (fresh t)
unfolding fresh
fresh-HasShape (simple r p) = tt
fresh-HasShape null_stat = tt
fresh-HasShape (accumulator fs) = tt
fresh-HasShape (stat_array n t) =
    (length-replicate n (fresh t), All-replicate (HasShape t) n (fresh t) (fresh-HasShape t))

write_element-All :
    {A : Type 0} (P : A → Type 0) (f : A → Mem → Option (A × Mem)) (i : ℕ) (st : List A) (m : Mem)
    → ((e : A) (r : A × Mem) → P e → f e m ≡ some r → P r.0)
    → (r : List A × Mem) → All P st
    → write_element f i st m ≡ some r
    → (length r.0 ≡ length st) × All P r.0
unfolding write_element
write_element-All P f i st m step r h e =
    let (x, ex, e') = >>=-eq-some (get_elem? st i) _ e in
    let (y, ey, e'') = >>=-eq-some (f x m) _ e' in
    subst_some (λ z. (length z.0 ≡ length st) × All P z.0) _ r e''
      (length-set st i y.0, All-set P st i y.0 h (step x y (All-get P st i h ex) ey))

-- A write keeps the shape.
pub write-HasShape :
    (t : StatType) (ptr : ℕ) (args : List ℕ) (st : OpState t) (m : Mem) (r : OpState t × Mem)
    → HasShape t st
    → write t ptr args st m ≡ some r
    → HasShape t r.0
unfolding write
write-HasShape (simple r p) ptr args st m s h e = tt
write-HasShape null_stat ptr args st m s h e = tt
write-HasShape (accumulator fs) ptr args st m s h e = tt
write-HasShape (stat_array n t) ptr [] st m s h e = cc
write-HasShape (stat_array n t) ptr (i ∷ args) st m s (len, h) e =
    let (inside, e') = if-eq-some (is_index n i) _ e in
    let k =
      write_element-All (HasShape t) (write t (ptr + i * shared_size t) (inner_args t args)) i st m
        (λ x y hx. write-HasShape t (ptr + i * shared_size t) (inner_args t args) x m y hx) s h
        e' in
    (k.0 ∙ len, k.1)
