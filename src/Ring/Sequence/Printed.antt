-- ===== src/Ring/Sequence/Printed.antt =====
-- What getLog of src/shared_memory_logger.cpp prints of a sequence of entries.
use native.Mathlib.Decide.{dec_lt}
use native.Mathlib.Nat.{mod-add-mod, zero-mod}
use stat_log.Ring.Retriever.Lines.{log_text, show_entry_lem}
use stat_log.Base.{
  ℕ, zero, suc, ◌+◌, ◌^◌, ◌%◌, ◌≤◌, ◌<◌, ◌≡◌, refl, sym, ap, ◌∙◌, Option, some, none, true, false,
  List, [], ◌∷◌, length, All, Bytes, ◌==◌, codes, ltb, arith,
}
use stat_log.Command.{LogOutputCommand}
use stat_log.Memory.{Mem}
use stat_log.Ring.{Generator, new_generator, block}
use stat_log.Ring.Retriever.{show_entries, get_log, num_blocks, find_first}
use stat_log.Ring.Around.{next_block-around}
use stat_log.Ring.Sequence.{
  Entry, IsLoggable, blocks_of, log_blocks, write_log, NoStart, Holds, blocks_of-positive,
}
use stat_log.Ring.Sequence.Steps.{write_log-Left, num_blocks_congr}
use stat_log.Ring.Sequence.Newest.{
  newest, Ascending, newest-Ascending, newest-some, newest-Holds, first_found,
}

module _ (strftime : ℕ → Option Bytes) (params : LogOutputCommand) (size n : ℕ) (m : Mem) where
  -- The blocks behind the last entry, up to the end of the round, are passed over.
  free_walk :
      (f cur p last : ℕ)
      → n < cur + f
      → cur ≤ n
      → p + n ≡ last + cur
      → NoStart n m p last
      → show_entries strftime params size n m f cur (p % n) ≡ some []
  unfolding show_entries
  free_walk zero cur p last fuel le round free = absurd (omega arith)
  free_walk (suc f) cur p last fuel le round free = elim (dec_lt cur n) [
    | yes lt ↦
        let here : num_blocks m (p % n) ≡ 0 = free p (omega arith) (omega arith) in
        let inside : ltb cur n ≡ true = ground arith in
        rw (inside, here, show_entries)
          (rw (next_block-around n p) (
            free_walk f (cur + 1) (p + 1) last (omega arith) (omega arith) (omega arith)
              (λ q ge up. free q (omega arith) up)))
    | no ge ↦ let outside : ltb cur n ≡ false = ground arith in rw (outside, show_entries) refl
  ]

  -- The entries are printed one by one, each whole.
  walk :
      (es : List Entry) (f cur p last : ℕ)
      → n < cur + f
      → cur + log_blocks es ≤ n
      → p + n ≡ last + cur
      → NoStart n m (p + log_blocks es) last
      → Holds size n m p es
      → show_entries strftime params size n m f cur (p % n) ≡ log_text strftime params es
  unfolding show_entries log_text
  walk [] f cur p last fuel fits round free holds =
      free_walk f cur p last fuel (omega arith) round (λ q ge lt. free q (omega arith) lt)
  walk (e ∷ es) zero cur p last fuel fits round free holds = absurd (omega arith)
  walk (e ∷ es) (suc f) cur p last fuel fits round free (here, marks, holds) =
      let pos = blocks_of-positive e in
      let inside : ltb cur n ≡ true = ground (arith, pos, fits) in
      let nonzero : (blocks_of e == 0) ≡ false = ground (arith, pos) in
      let unused : (num_blocks m (p % n) == 0) ≡ false =
        ap (λ k. k == 0) here.blocks_read ∙ nonzero in
      let rest =
        walk es f (cur + blocks_of e) (p + blocks_of e) last (omega (arith, pos, fuel))
          (omega (arith, fits)) (omega (arith, round)) (λ q ge lt. free q (omega (arith, ge)) lt)
          holds in
      rw (inside, unused, show_entry_lem strftime params size n m (p % n) e here, show_entries)
        (rw (here.blocks_read) (rw (mod-add-mod p n (blocks_of e)) (rw rest refl)))

zero_blocks : (b : ℕ) → num_blocks new_generator.memory b ≡ 0
unfolding num_blocks
zero_blocks b = refl

none_found : (k i : ℕ) → find_first new_generator.memory k i none ≡ none
unfolding find_first num_blocks
none_found zero i = refl
none_found (suc k) i = none_found k (i + 1)

-- What getLog is to print after a sequence of writes, from the entries alone.
unfoldable pub log_output : (ℕ → Option Bytes) → LogOutputCommand → ℕ → List Entry → Option Bytes
unfolding log_text newest
log_output strftime params n [] = some (codes "Empty log!\n")
log_output strftime params n (e ∷ es) = log_text strftime params (newest n (e ∷ es))

module _ (strftime : ℕ → Option Bytes) (params : LogOutputCommand) (size n : ℕ) where
  get_log_lem :
      (es : List Entry) (s end : ℕ) (m : Mem)
      → (x : Entry) × (xs : List Entry) × (es ≡ x ∷ xs)
      → s + log_blocks es ≡ end
      → log_blocks es ≤ n
      → NoStart n m end (s + n)
      → Holds size n m s es
      → Ascending es
      → get_log strftime params size n m ≡ log_text strftime params es
  unfolding get_log
  get_log_lem [] s end m (x, xs, h) last fits free holds later = absurd (omega (arith, ap length h))
  get_log_lem (e ∷ es) s end m h last fits free holds later =
      let (t, found) = first_found size n end m e es s last fits free holds later.0 in
      rw (found, get_log)
        (walk strftime params size n m (e ∷ es) (n + 1) 0 s (s + n) (omega arith)
          (omega (arith, fits)) (omega arith) (λ q ge lt. free q (omega (arith, last, ge)) lt)
          holds)

  -- Any sequence of entries is written, from the start, with the lock held for each: the texts, tags
  -- and level names are without NULs, tags and level names are shorter than their fields, the times
  -- fit theirs, each entry takes no more blocks than the ring has, and each has a later time than
  -- those before it. The ring has a block, and less than 2 ^ 32 blocks, and the copy is larger than
  -- the ring. Then all writes return, and getLog prints, in the order in which they were written,
  -- exactly the lines of the newest entries that the ring has room for, each whole, less the
  -- excluded ones (it exits where the time of one of them has no text); without an entry it prints
  -- that the log is empty.
  pub get_log-write_log :
      (es : List Entry)
      → 0 < n
      → block n < size
      → n < 2 ^ 32
      → All (λ x. IsLoggable x × (blocks_of x ≤ n)) es
      → Ascending es
      → (g : Generator) × (write_log n es new_generator ≡ some g)
        × (get_log strftime params size n g.memory ≡ log_output strftime params n es)
  unfolding write_log get_log log_output
  get_log-write_log [] pos room small oks later =
      (new_generator, refl, rw (none_found n 0, get_log) refl)
  get_log-write_log (e ∷ es) pos room small oks later =
      let end = log_blocks (e ∷ es) in
      let (g, returns, left, others, past) =
        write_log-Left size n (e ∷ es) 0 end new_generator (omega arith) pos room small oks
          (sym (zero-mod n)) refl in
      let free : NoStart n g.memory end (0 + n) = λ q ge lt.
        num_blocks_congr (q % n) new_generator.memory g.memory (others q ge lt)
        ∙ zero_blocks (q % n) in
      let (s, last, fits, free', holds) =
        newest-Holds size n end g.memory (e ∷ es) 0 (omega arith) left free in
      (
        g,
        returns,
        get_log_lem (newest n (e ∷ es)) s end g.memory (newest-some n e es oks) last fits free'
            holds (newest-Ascending n (e ∷ es) later),
      )
