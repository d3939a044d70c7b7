-- ===== src/BitStatus/Tests.antt =====
-- A status of one byte, 5, into an array of eight counters.
use stat_log.Base.{ℕ, ◌+◌, ◌*◌, ◌≡◌, refl, ◌&&◌, some, List, [], ◌∷◌, ltb, arith, replicate}
use stat_log.Memory.{Mem}
use stat_log.Memory.Words.{read_word}
use stat_log.BitStatus.{bit_is_set, write_bit_status}
use stat_log.BitStatus.Counts.{write_counter, raised, write_bit_status-counters}

abbrev blank : Mem
blank a = 0

abbrev elements : List (Unit {0})
elements = replicate 8 tt

-- The bits that are written.
record_bits :
    write_bit_status (λ args s. some (args ∷ s)) 5 [] 1 [] ≡ some ((2 ∷ 1 ∷ []) ∷ (0 ∷ 1 ∷ []) ∷ [])
unfolding write_bit_status
record_bits = refl

write_bit_status-counters_example :
    (r : List (Unit {0}) × Mem) × (write_bit_status (write_counter 8 100) 5 [] 1 (elements, blank)
      ≡ some r)
    × ((j : ℕ)
        → read_word r.1 (100 + j * 4) 4
          ≡ raised (ltb j 8 && bit_is_set 5 j) (read_word blank (100 + j * 4) 4))
write_bit_status-counters_example =
    write_bit_status-counters 8 100 5 (omega arith) 1 elements blank refl (omega arith)
