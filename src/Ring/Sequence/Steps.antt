-- ===== src/Ring/Sequence/Steps.antt =====
-- The writes of a sequence, one by one (doWriteData of src/shared_memory_logger.cpp): each leaves
-- what the earlier ones wrote, and the free blocks behind it.
use native.Mathlib.Nat.{mod-lt, mod-add-mod, add-mod_right}
use stat_log.Base.{
  ◌>>=◌, bind_congr, bind_assoc, ℕ, ◌+◌, ◌-◌, ◌^◌, ◌%◌, ◌≤◌, ◌<◌, ◌≡◌, refl, sym, ap, subst, ◌∙◌,
  inr, some, true, List, [], ◌∷◌, ◌++◌, All, arith,
}
use stat_log.Memory.{Mem}
use stat_log.Memory.Words.{read_word_congr}
use stat_log.Ring.{Generator, do_write_data, block, next_block}
use stat_log.Ring.Retriever.{num_blocks}
use stat_log.Ring.Avoid.{Avoids, end-Avoids}
use stat_log.Ring.Kept.{InBlock, Keeps, Keeps-refl, Marked}
use stat_log.Ring.Found.{IsKept}
use stat_log.Ring.Entry.{do_write_data_lem}
use stat_log.Ring.Around.{Avoids-around, Keeps-around, Marked-around, next_block-around}
use stat_log.Ring.Sequence.{
  Left, Entry, IsLoggable, blocks_of, log_blocks, write_log, IsLogged, blocks_of-positive,
}

pub write_log-append :
    (n : ℕ) (es fs : List Entry) (g : Generator)
    → write_log n (es ++ fs) g ≡ (write_log n es g >>= λ g'. write_log n fs g')
unfolding write_log
write_log-append n [] fs g = refl
write_log-append n (e ∷ es) fs g =
    let first = do_write_data n true (e.text ++ 0 ∷ []) e.tag e.level e.time g in
    bind_congr first (λ g'. write_log n (es ++ fs) g')
      (λ g'. write_log n es g' >>= λ g''. write_log n fs g'') (write_log-append n es fs)
    ∙ sym (bind_assoc first (λ g'. write_log n es g') (λ g'. write_log n fs g'))

pub num_blocks_congr :
    (b : ℕ) (m m' : Mem) → ((a : ℕ) → InBlock b a → m' a ≡ m a) → num_blocks m' b ≡ num_blocks m b
unfolding num_blocks
num_blocks_congr b m m' h = read_word_congr m m' (block b) 4 (λ a le lt. h a (le, omega arith))

module _ (size n : ℕ) where
  IsKept-IsLogged :
      (e : Entry) (g : Generator) (m' : Mem)
      → IsLoggable e
      → IsKept size n e.text e.tag e.level e.time g m'
      → IsLogged size n m' g.current_log_entry e
  IsKept-IsLogged e g m' ok kept = record {
    text_read = kept.entry.text_read;
    blocks_read = kept.entry.blocks_read;
    time_read = kept.entry.time_read;
    tag_read = kept.tag_read ok.tag_IsText ok.tag_short;
    level_read = kept.level_read ok.level_IsText ok.level_short;
  }

  -- One entry, written at the position `p`: the blocks of the rest of the round stay.
  record Step (e : Entry) (g : Generator) (p : ℕ) : Type 0 where
    generator : Generator
    returns : do_write_data n true (e.text ++ 0 ∷ []) e.tag e.level e.time g ≡ some generator
    stands : generator.current_log_entry ≡ (p + blocks_of e) % n
    others :
        (q : ℕ)
        → p + blocks_of e ≤ q
        → q < p + n
        → (a : ℕ) → InBlock (q % n) a
        → generator.memory a ≡ g.memory a
    past : generator.memory (block n) ≡ g.memory (block n)
    logged :
        (m' : Mem)
        → Keeps n (p % n) (blocks_of e) generator.memory m'
        → IsLogged size n m' (p % n) e
    marks : (q : ℕ) → p < q → q < p + blocks_of e → num_blocks generator.memory (q % n) ≡ 0

  step :
      (e : Entry) (g : Generator) (p : ℕ)
      → 0 < n
      → block n < size
      → n < 2 ^ 32
      → IsLoggable e
      → blocks_of e ≤ n
      → g.current_log_entry ≡ p % n
      → g.memory (block n) ≡ 0
      → Step e g p
  step e g p some_blocks room small ok fits at zero_there =
      let cur = g.current_log_entry in
      let k = blocks_of e in
      let lt : p % n < n = mod-lt p some_blocks in
      let (g₁, returns, kept, stands, others) =
        do_write_data_lem size n e.text e.tag e.level e.time g (omega (arith, at, lt))
          (omega (arith, room)) ok.text_IsText fits (omega (arith, fits)) ok.sec_small ok.usec_small
          (inr (room, zero_there)) in
      record {
        generator = g₁;
        returns = returns;
        stands = stands ∙ ap (λ c. (c + k) % n) at ∙ mod-add-mod p n k;
        others = λ q ge up a.
            others (q % n) a
              (subst (λ c. Avoids n c k (q % n)) (sym at) (Avoids-around n p k q ge up));
        past =
            others n (block n) (end-Avoids n cur k (omega (arith, at, lt)))
              (omega arith, omega arith);
        logged = λ m' keeps.
            subst (λ c. IsLogged size n m' c e) at
              (IsKept-IsLogged e g m' ok
                (kept m' (subst (λ c. Keeps n c k g₁.memory m') (sym at) keeps)));
        marks = λ q ge up.
            Marked-around n (p + 1) (k - 1) g₁.memory
              (subst (λ c. Marked n c (k - 1) g₁.memory)
                (ap (next_block n) at ∙ next_block-around n p)
                (kept g₁.memory (Keeps-refl n cur k g₁.memory)).marks)
              q (omega arith) (omega (arith, blocks_of-positive e));
      }

  -- All entries are written. What the rest of the round behind them holds stays.
  pub write_log-Left :
      (es : List Entry) (p end : ℕ) (g : Generator)
      → p + log_blocks es ≡ end
      → 0 < n
      → block n < size
      → n < 2 ^ 32
      → All (λ e. IsLoggable e × (blocks_of e ≤ n)) es
      → g.current_log_entry ≡ p % n
      → g.memory (block n) ≡ 0
      → (g' : Generator) × (write_log n es g ≡ some g')
        × Left size n end g'.memory p es
        × ((q : ℕ) → end ≤ q → q < p + n → (a : ℕ) → InBlock (q % n) a → g'.memory a ≡ g.memory a)
        × (g'.memory (block n) ≡ g.memory (block n))
  unfolding write_log
  write_log-Left [] p end g last some_blocks room small oks at zero_there =
      (g, refl, tt, (λ q ge up a ins. refl), refl)
  write_log-Left (e ∷ es) p end g last some_blocks room small ((ok, fits), oks) at zero_there =
      let k = blocks_of e in
      let s = step e g p some_blocks room small ok fits at zero_there in
      let (g', returns, left, others, past) =
        write_log-Left es (p + k) end s.generator (omega (arith, last)) some_blocks room small oks
          s.stands (s.past ∙ zero_there) in
      let same : (q : ℕ)
          → p ≤ q
          → q < p + k
          → end ≤ q + n
          → (a : ℕ) → InBlock (q % n) a
          → g'.memory a ≡ s.generator.memory a =
        λ q ge lt late a ins.
          others (q + n) late (omega arith) a
            (subst (λ c. InBlock c a) (sym (add-mod_right q n)) ins) in
      (
        g',
        rw (s.returns) returns,
        (
          λ late. s.logged g'.memory (
              Keeps-around n p k s.generator.memory g'.memory
                (λ q ge lt. same q ge lt (omega arith)) past),
          λ q ge lt late.
              num_blocks_congr (q % n) s.generator.memory g'.memory (same q (omega arith) lt late)
              ∙ s.marks q ge lt,
          left,
        ),
        λ q ge lt a ins.
            others q (omega arith) (omega arith) a ins ∙ s.others q (omega arith) lt a ins,
        past ∙ s.past,
      )
