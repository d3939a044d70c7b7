-- ===== src/Stats/Protocol.antt =====
-- The protocol of an accumulator between the operational process, its serialisation thread and the
-- control process: samples, serialisation passes and CLEAR_STAT in any order.
use stat_log.Base.{
  ℕ, ◌+◌, ◌≤◌, ◌≡◌, refl, sym, ap, ap₂, ◌∙◌, inl, inr, Bool, true, false, List, [], ◌∷◌, ◌++◌,
  arith, Bytes, ◌==◌, if◌then◌else◌, if_true, if_false, ltb, length, not,
}
use stat_log.Command.{StatCmd, empty_output}
use stat_log.Memory.{Mem, load, store, SameOutside, load-outside, load-store_self}
use stat_log.Memory.Words.{
  read_word, write_word, write_word-SameOutside, read-write_word, read_word-outside,
}
use stat_log.Stats.{Feature, features_size}
use stat_log.Stats.Operation.{accum_write, serialize_features}
use stat_log.Stats.Control.{accum_command, accum_entry, accum_values, values, max_width}
use stat_log.Stats.Frame.{AreSized, serialize_features-SameOutside}

-- What may happen to one accumulator.
pub data Event : Type 0 where
  sample : ℕ → Event
  serialization : Event
  clear : Event

-- The accumulator's samples and the shared memory.
pub record AccumState : Type 0 where
  pub acc : List ℕ
  pub memory : Mem

module _ (fs : List Feature) (ptr : ℕ) where
  unfoldable pub step : Event → AccumState → AccumState
  unfolding accum_write serialize_features accum_command
  step (sample v) s =
      let r = accum_write fs ptr v s.acc s.memory in record { acc = r.0; memory = r.1 }
  step serialization s = record s { memory = serialize_features fs ptr s.acc s.memory }
  step clear s = record s {
    memory = (accum_command fs ptr StatCmd.clear_stat empty_output s.memory).1;
  }

  unfoldable pub steps : List Event → AccumState → AccumState
  unfolding step
  steps [] s = s
  steps (e ∷ es) s = steps es (step e s)

-- What the two processes mean: the samples that count, the samples at the last serialisation pass,
-- and whether a CLEAR_STAT waits for the next sample.
pub record View : Type 0 where
  pub samples : List ℕ
  pub shown : List ℕ
  pub pending : Bool

unfoldable pub view_step : Event → View → View
view_step (sample v) a = record a {
  samples = if a.pending then v ∷ [] else a.samples ++ v ∷ [];
  pending = false;
}
view_step serialization a = record a { shown = a.samples }
view_step clear a = record a { pending = true }

unfoldable pub view_steps : List Event → View → View
unfolding view_step
view_steps [] a = a
view_steps (e ∷ es) a = view_steps es (view_step e a)

-- The shared memory holds the features of some samples.
abbrev pub Holds : List Feature → ℕ → List ℕ → Mem → Type 0
Holds [] p shown m = Unit {0}
Holds (f ∷ fs) p shown m = (load m p f.size ≡ f.serialize shown) × Holds fs (p + f.size) shown m

abbrev pub flag : Bool → ℕ
flag true = 1
flag false = 0

pub record Represents (fs : List Feature) (ptr : ℕ) (s : AccumState) (a : View) : Type 0 where
  pub samples : s.acc ≡ a.samples
  pub shown : Holds fs ptr a.shown s.memory
  pub word : read_word s.memory (ptr + features_size fs) 4 ≡ flag a.pending

Holds-outside :
    (fs : List Feature) (p q n : ℕ) (shown : List ℕ) (m m' : Mem)
    → SameOutside q n m m'
    → p + features_size fs ≤ q
    → Holds fs p shown m
    → Holds fs p shown m'
unfolding features_size
Holds-outside [] p q n shown m m' o le h = tt
Holds-outside (f ∷ fs) p q n shown m m' o le (hf, h) = (
  load-outside m m' q n p f.size o (inl (omega arith)) ∙ hf,
  Holds-outside fs (p + f.size) q n shown m m' o (omega arith) h,
)

Holds-serialize :
    (fs : List Feature) (p : ℕ) (acc : List ℕ) (m : Mem)
    → AreSized fs
    → Holds fs p acc (serialize_features fs p acc m)
unfolding serialize_features
Holds-serialize [] p acc m h = tt
Holds-serialize (f ∷ fs) p acc m (hf, h) = (
  load-outside (store m p (f.serialize acc)) _ (p + f.size) (features_size fs) p f.size
        (serialize_features-SameOutside fs (p + f.size) acc _ h) (inl (omega arith))
      ∙ ap (load (store m p (f.serialize acc)) p) (sym (hf acc))
      ∙ load-store_self m p (f.serialize acc),
  Holds-serialize fs (p + f.size) acc (store m p (f.serialize acc)) h,
)

-- `AccumOp::write` by the meaning of the control word.
accum_write_lem :
    (fs : List Feature) (ptr v : ℕ) (acc : List ℕ) (m : Mem) (b : Bool)
    → read_word m (ptr + features_size fs) 4 ≡ flag b
    → accum_write fs ptr v acc m
      ≡ (if b then (v ∷ [], write_word m (ptr + features_size fs) 4 0) else (acc ++ v ∷ [], m))
unfolding accum_write
accum_write_lem fs ptr v acc m true e = if_false _ _ _ (ap (λ w. w == 0) e)
accum_write_lem fs ptr v acc m false e = if_true _ _ _ (ap (λ w. w == 0) e)

module _ (fs : List Feature) (ptr : ℕ) (sized : AreSized fs) where
  sample-Represents :
      (v : ℕ) (s : AccumState) (a : View) (b : Bool)
      → a.pending ≡ b
      → Represents fs ptr s a
      → Represents fs ptr (step fs ptr (sample v) s) (view_step (sample v) a)
  unfolding step view_step
  sample-Represents v s a true e h =
      rw (accum_write_lem fs ptr v s.acc s.memory true (h.word ∙ ap flag e), e)
        (record {
          samples = refl;
          shown =
              Holds-outside fs ptr (ptr + features_size fs) 4 a.shown s.memory _
                (write_word-SameOutside s.memory (ptr + features_size fs) 4 0) (omega arith)
                h.shown;
          word = read-write_word s.memory (ptr + features_size fs) 4 0 (omega arith);
        })
  sample-Represents v s a false e h =
      rw (accum_write_lem fs ptr v s.acc s.memory false (h.word ∙ ap flag e), e)
        (record {
          samples = ap (λ l. l ++ v ∷ []) h.samples;
          shown = h.shown;
          word = h.word ∙ ap flag e;
        })

  step-Represents :
      (e : Event) (s : AccumState) (a : View)
      → Represents fs ptr s a
      → Represents fs ptr (step fs ptr e s) (view_step e a)
  unfolding step view_step
  step-Represents (sample v) s a h = sample-Represents v s a a.pending refl h
  step-Represents serialization s a h = record {
    samples = h.samples;
    shown = rw (← h.samples) (Holds-serialize fs ptr s.acc s.memory sized);
    word =
        read_word-outside s.memory _ ptr (features_size fs) (ptr + features_size fs) 4
          (serialize_features-SameOutside fs ptr s.acc s.memory sized) (inr (omega arith))
        ∙ h.word;
  }
  step-Represents clear s a h = record {
    samples = h.samples;
    shown =
        Holds-outside fs ptr (ptr + features_size fs) 4 a.shown s.memory _
          (write_word-SameOutside s.memory (ptr + features_size fs) 4 1) (omega arith) h.shown;
    word = read-write_word s.memory (ptr + features_size fs) 4 1 (omega arith);
  }

  pub steps-Represents :
      (es : List Event) (s : AccumState) (a : View)
      → Represents fs ptr s a
      → Represents fs ptr (steps fs ptr es s) (view_steps es a)
  unfolding steps view_steps
  steps-Represents [] s a h = h
  steps-Represents (e ∷ es) s a h =
      steps-Represents es (step fs ptr e s) (view_step e a) (step-Represents e s a h)

-- What DUMP_STAT should print: the features of the samples shown, or the zeros.
unfoldable pub shown_values : List Feature → Bool → ℕ → ℕ → List ℕ → Bytes
shown_values [] is_valid width precision shown = []
shown_values (f ∷ fs) is_valid width precision shown =
    f.dump (f.serialize shown) is_valid width precision
    ++ shown_values fs is_valid width precision shown

unfoldable pub view_entry : List Feature → View → Bytes
unfolding shown_values max_width
view_entry fs a =
    if ltb 1 (length fs)
    then shown_values fs (not a.pending) (max_width fs + 4) (max_width fs) a.shown
    else shown_values fs (not a.pending) 0 6 a.shown

values-Holds :
    (fs : List Feature) (is_valid : Bool) (width precision p : ℕ) (shown : List ℕ) (m : Mem)
    → Holds fs p shown m
    → values fs is_valid width precision p m ≡ shown_values fs is_valid width precision shown
unfolding values shown_values
values-Holds [] b w pr p shown m h = refl
values-Holds (f ∷ fs) b w pr p shown m (hf, h) =
    ap₂ ◌++◌ (ap (λ o. f.dump o b w pr) hf) (values-Holds fs b w pr (p + f.size) shown m h)

flag_zero : (b : Bool) → (flag b == 0) ≡ not b
flag_zero true = refl
flag_zero false = refl

accum_entry-view :
    (fs : List Feature) (ptr : ℕ) (s : AccumState) (a : View)
    → Represents fs ptr s a
    → accum_entry fs ptr s.memory ≡ view_entry fs a
unfolding accum_entry accum_values view_entry
accum_entry-view fs ptr s a h =
    ap (λ w. accum_values fs (w == 0) ptr s.memory) h.word
    ∙ ap (λ b. accum_values fs b ptr s.memory) (flag_zero a.pending)
    ∙ ap₂ (λ x y. if ltb 1 (length fs) then x else y)
        (values-Holds fs (not a.pending) (max_width fs + 4) (max_width fs) ptr a.shown s.memory
          h.shown)
        (values-Holds fs (not a.pending) 0 6 ptr a.shown s.memory h.shown)

-- For features that write as many bytes as they say: after any sequence of samples, serialisation
-- passes and CLEAR_STATs, from any state that represents a view, the entry of DUMP_STAT is the text
-- of the features of the samples at the last pass, or of the zeros while a CLEAR_STAT waits for a
-- sample; and a sample that follows a CLEAR_STAT starts the accumulator anew.
pub accum_entry-steps :
    (fs : List Feature) (ptr : ℕ) (es : List Event) (s : AccumState) (a : View)
    → AreSized fs
    → Represents fs ptr s a
    → (accum_entry fs ptr (steps fs ptr es s).memory ≡ view_entry fs (view_steps es a))
      × ((steps fs ptr es s).acc ≡ (view_steps es a).samples)
accum_entry-steps fs ptr es s a sized h =
    let r = steps-Represents fs ptr sized es s a h in
    (accum_entry-view fs ptr (steps fs ptr es s) (view_steps es a) r, r.samples)

-- After a CLEAR_STAT and one sample, and before the next serialisation pass, DUMP_STAT prints the
-- features of the samples from before the CLEAR_STAT as if they were valid.
pub stale_after_clear :
    (fs : List Feature) (ptr v : ℕ) (s : AccumState) (a : View)
    → AreSized fs
    → Represents fs ptr s a
    → accum_entry fs ptr (steps fs ptr (clear ∷ sample v ∷ []) s).memory
      ≡ view_entry fs (record a { pending = false })
unfolding view_entry
stale_after_clear fs ptr v s a sized h =
    (accum_entry-steps fs ptr (clear ∷ sample v ∷ []) s a sized h).0 ∙ unfold view_steps in refl
