-- ===== src/Stats/Operation.antt =====
-- The operational side of the statistics: `OperationalStatProxy`, SimpleStat::write, AccumOp and
-- StatArrayImpl with IsOperational.
use stat_log.Base.{
  ℕ, ◌+◌, ◌*◌, ◌^◌, ◌%◌, Bool, ◌&&◌, Option, none, some, List, [], ◌∷◌, ◌++◌, get_elem?, set,
  replicate, ltb, ◌==◌, if◌then◌else◌, ◌>>=◌,
}
use stat_log.Memory.{Mem, store}
use stat_log.Memory.Words.{read_word, write_word}
use stat_log.Stats.{
  Repr, WritePolicy, increment, assign, Feature, StatType, simple, null_stat, accumulator,
  stat_array, features_size, shared_size, control_word_size, is_serialization_deferred, is_array,
}

-- The members that an operational statistic keeps outside the shared memory: an accumulator's
-- samples, and an array's elements.
abbrev pub OpState : StatType → Type 0
OpState (simple r p) = Unit {0}
OpState null_stat = Unit {0}
OpState (accumulator fs) = List ℕ
OpState (stat_array n t) = List (OpState t)

-- As constructed.
unfoldable pub fresh : (t : StatType) → OpState t
fresh (simple r p) = tt
fresh null_stat = tt
fresh (accumulator fs) = []
fresh (stat_array n t) = replicate n (fresh t)

-- `WritePolicy::write`
unfoldable pub policy_write : WritePolicy → Repr → ℕ → ℕ → Mem → Mem
unfolding read_word write_word
policy_write increment r ptr value m =
    write_word m ptr r.size (r.add (read_word m ptr r.size) value)
policy_write assign r ptr value m = write_word m ptr r.size value

-- The control word of an accumulator at `ptr`: the last member of its `shared_type`.
abbrev pub control_word_ptr : List Feature → ℕ → ℕ
control_word_ptr fs ptr = ptr + features_size fs

-- `AccumOp::write`
unfoldable pub accum_write : List Feature → ℕ → ℕ → List ℕ → Mem → List ℕ × Mem
unfolding read_word write_word features_size
accum_write fs ptr sample acc m =
    if read_word m (control_word_ptr fs ptr) control_word_size == 0
    then (acc ++ sample ∷ [], m)
    else (sample ∷ [], write_word m (control_word_ptr fs ptr) control_word_size 0)

-- `assert(idx >= 0 && idx < (int)Size)` on the bit pattern of an `int`, where the cast of a `size_t`
-- keeps its lower 32 bits; a negative `(int)Size` is above no index.
unfoldable pub is_index : ℕ → ℕ → Bool
is_index n idx = ltb idx (2 ^ 31) && (ltb (n % 2 ^ 32) (2 ^ 31) && ltb idx (n % 2 ^ 32))

-- An array of arrays hands the arguments behind its index on. An array of other statistics drops
-- the superfluous indices and hands on the value, the last argument.
unfoldable pub last_arg : List ℕ → List ℕ
last_arg [] = []
last_arg (a ∷ []) = a ∷ []
last_arg (a ∷ b ∷ args) = last_arg (b ∷ args)

unfoldable pub inner_args : StatType → List ℕ → List ℕ
unfolding is_array last_arg
inner_args t args = if is_array t then args else last_arg args

-- `statEntries[idx].write(...)`
unfoldable pub write_element :
    {A : Type 0} → (A → Mem → Option (A × Mem)) → ℕ → List A → Mem → Option (List A × Mem)
write_element f idx st m = get_elem? st idx >>= λ e. f e m >>= λ r. some (set st idx r.0, r.1)

-- `write(ptr, args...)`, the values of the arguments as bit patterns; `none` is a failed assertion
-- or a call that does not compile. SimpleStat ignores the arguments behind its value.
unfoldable pub write : (t : StatType) → ℕ → List ℕ → OpState t → Mem → Option (OpState t × Mem)
unfolding policy_write accum_write is_index inner_args shared_size write_element
write (simple r p) ptr [] st m = none
write (simple r p) ptr (value ∷ args) st m = some (st, policy_write p r ptr value m)
write null_stat ptr args st m = some (st, m)
write (accumulator fs) ptr (sample ∷ []) st m = some (accum_write fs ptr sample st m)
write (accumulator fs) ptr _ st m = none
write (stat_array n t) ptr [] st m = none
write (stat_array n t) ptr (idx ∷ args) st m =
    if is_index n idx
    then write_element (write t (ptr + idx * shared_size t) (inner_args t args)) idx st m
    else none

-- The features in order, each `size` bytes behind the one before.
unfoldable pub serialize_features : List Feature → ℕ → List ℕ → Mem → Mem
unfolding store
serialize_features [] ptr acc m = m
serialize_features (f ∷ fs) ptr acc m =
    serialize_features fs (ptr + f.size) acc (store m ptr (f.serialize acc))

-- `for(i = 0; i < Size; ++i) statEntries[i].serialize(&shared_array[i])`
unfoldable pub serialize_each : {A : Type 0} → (ℕ → A → Mem → Mem) → ℕ → ℕ → List A → Mem → Mem
serialize_each f size ptr [] m = m
serialize_each f size ptr (e ∷ es) m = serialize_each f size (ptr + size) es (f ptr e m)

-- `serialize`; only accumulators and arrays have it.
unfoldable pub serialize : (t : StatType) → ℕ → OpState t → Mem → Mem
unfolding serialize_features serialize_each shared_size
serialize (simple r p) ptr st m = m
serialize null_stat ptr st m = m
serialize (accumulator fs) ptr st m = serialize_features fs ptr st m
serialize (stat_array n t) ptr st m = serialize_each (serialize t) (shared_size t) ptr st m

-- `OperationalStatProxy::serialize`, with doSerializeStat chosen by the trait.
unfoldable pub do_serialize : (t : StatType) → ℕ → OpState t → Mem → Mem
unfolding serialize is_serialization_deferred
do_serialize t ptr st m = if is_serialization_deferred t then serialize t ptr st m else m
