-- ===== src/Printer/Displays.antt =====
-- What the printer holds after any calls of its methods (src/printer.cpp): one display for a tag, and
-- no depth below the least depth.
use stat_log.Base.{
  ℕ, ◌+◌, ◌-◌, ◌≤◌, ◌≡◌, refl, ap, List, [], ◌∷◌, ◌++◌, Bytes, All, All-append, Bool-cases, inl,
  inr, ◌==◌, if◌then◌else◌, replicate, arith,
}
use stat_log.Command.{StatCmd, StatCmdOutput}
use stat_log.Printer.{
  Printer, PrintOptions, TagInfo, StatDisplay, LogDisplay, new_printer, set_command,
  set_print_options, remove_tag, lower_depth, add_stat_output, add_log_output,
}
use stat_log.Printer.Text.{indent}

-- A call of a method that changes the printer.
pub data Call : Type 0 where
  command : StatCmd → Call
  options : PrintOptions → Call
  stat : TagInfo → StatCmdOutput → Call
  log : TagInfo → Bytes → Call

unfoldable pub call : Printer → Call → Printer
unfolding add_stat_output add_log_output
call p (command c) = set_command p c
call p (options o) = set_print_options p o
call p (stat t out) = add_stat_output p t out
call p (log t out) = add_log_output p t out

unfoldable pub calls : Printer → List Call → Printer
unfolding call
calls p [] = p
calls p (c ∷ cs) = calls (call p c) cs

module _ {A : Type 0} (info : A → TagInfo) where
  -- How many displays a tag has.
  unfoldable pub displays : ℕ → List A → ℕ
  displays i [] = 0
  displays i (e ∷ es) = (if (info e).tag_index == i then 1 else 0) + displays i es

  displays-remove_tag_self : (i : ℕ) (es : List A) → displays i (remove_tag info i es) ≡ 0
  unfolding displays remove_tag
  displays-remove_tag_self i [] = refl
  displays-remove_tag_self i (e ∷ es) = ground (arith, displays-remove_tag_self i es)

  displays-remove_tag-le :
      (i j : ℕ) (es : List A) → displays j (remove_tag info i es) ≤ displays j es
  unfolding displays remove_tag
  displays-remove_tag-le i j [] = omega arith
  displays-remove_tag-le i j (e ∷ es) = ground (arith, displays-remove_tag-le i j es)

  displays-append : (i : ℕ) (es fs : List A) → displays i (es ++ fs) ≡ displays i es + displays i fs
  unfolding displays
  displays-append i [] fs = omega arith
  displays-append i (e ∷ es) fs = omega (arith, displays-append i es fs)

  remove_tag-All : (P : A → Type 0) (i : ℕ) (es : List A) → All P es → All P (remove_tag info i es)
  unfolding remove_tag
  remove_tag-All P i [] h = tt
  remove_tag-All P i (e ∷ es) (pe, h) = elim (Bool-cases ((info e).tag_index == i)) [
    | inl same ↦ rw same (remove_tag-All P i es h)
    | inr other ↦ rw other (pe, remove_tag-All P i es h)
  ]

  All-weaken :
      (d d' : ℕ) (es : List A)
      → d' ≤ d
      → All (λ e. d ≤ (info e).depth) es
      → All (λ e. d' ≤ (info e).depth) es
  All-weaken d d' [] le h = tt
  All-weaken d d' (e ∷ es) le (he, h) = (omega arith, All-weaken d d' es le h)

  -- What is kept of a vector: one display for a tag at most, none above the least depth.
  pub record IsKept (least : ℕ) (es : List A) : Type 0 where
    pub once : (i : ℕ) → displays i es ≤ 1
    pub deep : All (λ e. least ≤ (info e).depth) es

  IsKept-least : (d d' : ℕ) (es : List A) → d' ≤ d → IsKept d es → IsKept d' es
  IsKept-least d d' es le k = record { once = k.once; deep = All-weaken d d' es le k.deep }

  add-IsKept :
      (least : ℕ) (es : List A) (e : A)
      → IsKept least es
      → IsKept (lower_depth (info e) least) (remove_tag info (info e).tag_index es ++ e ∷ [])
  unfolding lower_depth displays
  add-IsKept least es e k =
      let i = (info e).tag_index in
      let lower : lower_depth (info e) least ≤ least = ground arith in
      record {
        once = λ j. ground (
          arith,
          displays-append j (remove_tag info i es) (e ∷ []),
          displays-remove_tag-le i j es,
          displays-remove_tag_self i es,
          k.once j,
        );
        deep =
            All-append (λ x. lower_depth (info e) least ≤ (info x).depth) (remove_tag info i es)
              (e ∷ [])
              (remove_tag-All (λ x. lower_depth (info e) least ≤ (info x).depth) i es
                (All-weaken least (lower_depth (info e) least) es lower k.deep))
              (ground arith, tt);
      }

lower_depth-le : (t : TagInfo) (d : ℕ) → lower_depth t d ≤ d
unfolding lower_depth
lower_depth-le t d = ground arith

abbrev pub stat_info : StatDisplay → TagInfo
stat_info d = d.tag_info

abbrev pub log_info : LogDisplay → TagInfo
log_info d = d.tag_info

pub record IsPrintable (p : Printer) : Type 0 where
  pub stats : IsKept stat_info p.min_tag_depth p.stat_tags
  pub logs : IsKept log_info p.min_tag_depth p.log_tags

pub add_stat_output-IsPrintable :
    (p : Printer) (t : TagInfo) (out : StatCmdOutput)
    → IsPrintable p
    → IsPrintable (add_stat_output p t out)
unfolding add_stat_output
add_stat_output-IsPrintable p t out h = record {
  stats = add-IsKept stat_info p.min_tag_depth p.stat_tags _ h.stats;
  logs =
      IsKept-least log_info p.min_tag_depth _ p.log_tags (lower_depth-le t p.min_tag_depth) h.logs;
}

pub add_log_output-IsPrintable :
    (p : Printer) (t : TagInfo) (out : Bytes) → IsPrintable p → IsPrintable (add_log_output p t out)
unfolding add_log_output
add_log_output-IsPrintable p t out h = record {
  stats =
      IsKept-least stat_info p.min_tag_depth _ p.stat_tags (lower_depth-le t p.min_tag_depth)
        h.stats;
  logs = add-IsKept log_info p.min_tag_depth p.log_tags _ h.logs;
}

call-IsPrintable : (p : Printer) (c : Call) → IsPrintable p → IsPrintable (call p c)
unfolding call
call-IsPrintable p (command c) h = record { stats = h.stats; logs = h.logs }
call-IsPrintable p (options o) h = record { stats = h.stats; logs = h.logs }
call-IsPrintable p (stat t out) h = add_stat_output-IsPrintable p t out h
call-IsPrintable p (log t out) h = add_log_output-IsPrintable p t out h

calls_keep : (p : Printer) (cs : List Call) → IsPrintable p → IsPrintable (calls p cs)
unfolding calls
calls_keep p [] h = h
calls_keep p (c ∷ cs) h = calls_keep (call p c) cs (call-IsPrintable p c h)

new_printer-IsPrintable : IsPrintable new_printer
unfolding displays
new_printer-IsPrintable = record {
  stats = record { once = λ i. omega arith; deep = tt };
  logs = record { once = λ i. omega arith; deep = tt };
}

-- After any calls of a new printer's methods, each tag has one display of a statistic at most and one
-- of a log at most, and none has a depth below the least depth.
pub calls-IsPrintable : (cs : List Call) → IsPrintable (calls new_printer cs)
calls-IsPrintable cs = calls_keep new_printer cs new_printer-IsPrintable

indent_lem :
    (depth least : ℕ) → least ≤ depth → indent depth least ≡ replicate (depth - least) b'\t'
unfolding indent
indent_lem depth least h = ap (λ k. replicate k b'\t') (ground arith)

indents :
    {A : Type 0} (info : A → TagInfo) (least : ℕ) (es : List A)
    → All (λ e. least ≤ (info e).depth) es
    → All (λ e. indent (info e).depth least ≡ replicate ((info e).depth - least) b'\t') es
indents info least [] h = tt
indents info least (e ∷ es) (he, h) = (indent_lem (info e).depth least he, indents info least es h)

-- After any calls of a new printer's methods, the difference of depths by which showOutput indents a
-- tag does not wrap around, for statistics and for logs: it is the depth below the least depth.
indent-calls :
    (cs : List Call)
    → All
        (λ d.
          indent d.tag_info.depth (calls new_printer cs).min_tag_depth
          ≡ replicate (d.tag_info.depth - (calls new_printer cs).min_tag_depth) b'\t')
        (calls new_printer cs).stat_tags
      × All
          (λ d.
            indent d.tag_info.depth (calls new_printer cs).min_tag_depth
            ≡ replicate (d.tag_info.depth - (calls new_printer cs).min_tag_depth) b'\t')
          (calls new_printer cs).log_tags
indent-calls cs =
    let p = calls new_printer cs in
    let h = calls-IsPrintable cs in
    (
      indents stat_info p.min_tag_depth p.stat_tags h.stats.deep,
      indents log_info p.min_tag_depth p.log_tags h.logs.deep,
    )
