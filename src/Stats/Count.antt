-- ===== src/Stats/Count.antt =====
-- What a sequence of writes leaves in a counter and in a status.
use stat_log.Base.{ℕ, ◌+◌, ◌%◌, ◌^◌, ◌<◌, ◌≡◌, ◌∙◌, List, [], ◌∷◌, arith}
use stat_log.Memory.{Mem}
use stat_log.Memory.Words.{read_word}
use stat_log.Stats.{Repr, int_repr, WritePolicy, increment}
use stat_log.Stats.Operation.{policy_write}
use stat_log.Stats.Dump.{IsRepr, read-increment}

-- One write of the policy after another to the same place.
unfoldable pub write_all : WritePolicy → Repr → ℕ → List ℕ → Mem → Mem
write_all w r p [] m = m
write_all w r p (v ∷ vs) m = write_all w r p vs (policy_write w r p v m)

unfoldable pub sum : List ℕ → ℕ
sum [] = 0
sum (v ∷ vs) = v + sum vs

pub int-IsRepr : IsRepr int_repr
int-IsRepr = record { add_lt = λ a b. omega arith }

-- An `int` counter that starts within its 32 bits holds its old value plus the sum of the values
-- written, modulo 2^32, whatever their number.
pub write_all-sum :
    (p : ℕ) (vs : List ℕ) (m : Mem)
    → read_word m p 4 < 2 ^ 32
    → read_word (write_all increment int_repr p vs m) p 4 ≡ (read_word m p 4 + sum vs) % 2 ^ 32
unfolding write_all sum
write_all-sum p [] m h = omega arith
write_all-sum p (v ∷ vs) m h =
    let step = read-increment int_repr p v m int-IsRepr in
    write_all-sum p vs (policy_write increment int_repr p v m) (rw step (omega arith))
    ∙ rw step (omega arith)
