-- ===== src/Commander/Select.antt =====
-- Which nodes `tagCommander` sends the command to, and in which order.
use stat_log.Base.{
  ℕ, ◌≡◌, ◌≢◌, refl, sym, ap, ◌∙◌, Bool, true, false, not, ◌||◌, Option, some, List, [], ◌∷◌, ◌++◌,
  Bytes, text_eq, is_empty, if◌then◌else◌, All, arith, ◌>>=◌, bind-some, bind_congr, bind_assoc,
}
use stat_log.Command.{StatCmd, no_cmd}
use stat_log.Tags.{Tag, TagNode, leaf_node, parent_node, TagNodes, nil_nodes, cons_nodes, node_tag}
use stat_log.Commander.{go, go_children, process_command, tag_commander, tag_commanders}
use stat_log.Commander.Split.{Lacks, get_head_tail-append, get_head_tail-missing}
use stat_log.Commander.{get_head_tail}

-- A node and all below it, parents first.
unfoldable mutual
  pub subtree : TagNode → List TagNode
  subtree (leaf_node t p d) = leaf_node t p d ∷ []
  subtree (parent_node t p d cs) = parent_node t p d cs ∷ subtrees cs

  pub subtrees : TagNodes → List TagNode
  subtrees nil_nodes = []
  subtrees (cons_nodes n ns) = subtree n ++ subtrees ns

-- The nodes at and below a path of names, from this node on.
unfoldable mutual
  pub select : Bytes → List Bytes → TagNode → List TagNode
  select c [] n = if text_eq c (node_tag n).name then subtree n else []
  select c (d ∷ p) (leaf_node t q k) = []
  select c (d ∷ p) (parent_node t q k cs) = if text_eq c t.name then select_nodes d p cs else []

  pub select_nodes : Bytes → List Bytes → TagNodes → List TagNode
  select_nodes c p nil_nodes = []
  select_nodes c p (cons_nodes n ns) = select c p n ++ select_nodes c p ns

-- A path as the user writes it.
unfoldable pub dotted : Bytes → List Bytes → Bytes
dotted c [] = c
dotted c (d ∷ p) = c ++ b'.' ∷ dotted d p

-- What a path may consist of, and names that a dot cannot confuse.
abbrev pub IsPlain : Bytes → Type 0
IsPlain c = (c ≢ []) × Lacks b'.' c

unfoldable mutual
  pub IsDotFree : TagNode → Type 0
  IsDotFree (leaf_node t p d) = Lacks b'.' t.name
  IsDotFree (parent_node t p d cs) = Lacks b'.' t.name × AreDotFree cs

  pub AreDotFree : TagNodes → Type 0
  AreDotFree nil_nodes = Unit
  AreDotFree (cons_nodes n ns) = IsDotFree n × AreDotFree ns

text_eq-dotted : (c r name : Bytes) → Lacks b'.' name → text_eq (c ++ b'.' ∷ r) name ≡ false
unfolding text_eq
text_eq-dotted [] r [] h = refl
text_eq-dotted [] r (y ∷ name) (ne, h) = ground arith
text_eq-dotted (x ∷ c) r [] h = refl
text_eq-dotted (x ∷ c) r (y ∷ name) (ne, h) = ground (arith, text_eq-dotted c r name h)

-- A text that begins with a plain name is not empty.
is_empty-dotted : (c : Bytes) (p : List Bytes) → c ≢ [] → is_empty (dotted c p) ≡ false
unfolding is_empty dotted
is_empty-dotted [] p h = absurd (h refl)
is_empty-dotted (x ∷ c) [] h = refl
is_empty-dotted (x ∷ c) (d ∷ p) h = refl

or_false : (b : Bool) → (b || false) ≡ b
or_false true = refl
or_false false = refl

if_not {ℓ} : {A : Type ℓ} (b : Bool) (x y : A) → (if not b then x else y) ≡ (if b then y else x)
if_not true x y = refl
if_not false x y = refl

or_true : (b : Bool) → (b || true) ≡ true
or_true true = refl
or_true false = refl

if_same {ℓ} : {A : Type ℓ} (b : Bool) (x : A) → (if b then x else x) ≡ x
if_same true x = refl
if_same false x = refl

process-go :
    {S : Type 0} (send : TagNode → S → Option S) (n : TagNode) (cmd : StatCmd) (s : S)
    → cmd ≢ no_cmd
    → process_command send n cmd s ≡ go send n s
unfolding process_command
process-go send n no_cmd s h = absurd (h refl)
process-go send n _ s h = refl

module _ {S : Type 0} (send : TagNode → S → Option S) where
  -- The command sent to each node of a list in turn.
  unfoldable pub run : List TagNode → S → Option S
  run [] s = some s
  run (n ∷ ns) s = send n s >>= run ns

  run-append : (ms ns : List TagNode) (s : S) → run (ms ++ ns) s ≡ (run ms s >>= run ns)
  unfolding run
  run-append [] ns s = refl
  run-append (m ∷ ms) ns s =
      bind_congr (send m s) _ _ (run-append ms ns) ∙ sym (bind_assoc (send m s) (run ms) (run ns))

  mutual
    unfolding go run subtree

    go-run : (n : TagNode) (s : S) → go send n s ≡ run (subtree n) s
    go-run (leaf_node t p d) s = sym (bind-some (send (leaf_node t p d) s))
    go-run (parent_node t p d cs) s =
        bind_congr (send (parent_node t p d cs) s) _ _ (go_children-run cs)

    go_children-run : (ns : TagNodes) (s : S) → go_children send ns s ≡ run (subtrees ns) s
    go_children-run nil_nodes s = refl
    go_children-run (cons_nodes n ns) s =
        ap (λ m. m >>= go_children send ns) (go-run n s)
        ∙ bind_congr (run (subtree n) s) _ _ (go_children-run ns)
        ∙ sym (run-append (subtree n) (subtrees ns) s)

  -- A node that is commanded as a whole.
  process-run :
      (n : TagNode) (cmd : StatCmd) (s : S)
      → cmd ≢ no_cmd
      → process_command send n cmd s ≡ run (subtree n) s
  process-run n cmd s h = process-go send n cmd s h ∙ go-run n s

  process_if :
      (b : Bool) (n : TagNode) (cmd : StatCmd) (s : S)
      → cmd ≢ no_cmd
      → (if b then process_command send n cmd s else some s) ≡ run (if b then subtree n else []) s
  unfolding run
  process_if true n cmd s h = process-run n cmd s h
  process_if false n cmd s h = refl

  descend :
      (b : Bool) {m : Option S} (ns : List TagNode) (s : S)
      → m ≡ run ns s
      → (if not b then some s else m) ≡ run (if b then ns else []) s
  unfolding run
  descend true ns s e = e
  descend false ns s e = refl

  module _ (cmd : StatCmd) (h : cmd ≢ no_cmd) where
    mutual
      unfolding tag_commander select dotted run is_empty IsDotFree

      commander :
          (n : TagNode) (c : Bytes) (p : List Bytes) (s : S)
          → IsDotFree n
          → IsPlain c
          → All IsPlain p
          → tag_commander send n (dotted c p) cmd s ≡ run (select c p n) s
      commander (leaf_node t q k) c [] s free (ne, dots) _ =
          rw (is_empty-dotted c [] ne, or_false (text_eq c t.name))
            (process_if (text_eq c t.name) (leaf_node t q k) cmd s h)
      commander (leaf_node t q k) c (d ∷ p) s free (ne, dots) _ =
          rw (is_empty-dotted c (d ∷ p) ne, text_eq-dotted c (dotted d p) t.name free)
      commander (parent_node t q k cs) c [] s free (ne, dots) _ =
          rw (is_empty-dotted c [] ne, get_head_tail-missing c b'.' dots)
            (if_not (text_eq c t.name) (some s) _
              ∙ process_if (text_eq c t.name) (parent_node t q k cs) cmd s h)
      commander (parent_node t q k cs) c (d ∷ p) s (free, frees) (ne, dots) (hd, hp) =
          rw
            (
              is_empty-dotted c (d ∷ p) ne,
              get_head_tail-append c (dotted d p) b'.' dots,
              is_empty-dotted d p hd.0,
            )
            (descend (text_eq c t.name) _ s (commanders cs d p s frees hd hp))

      commanders :
          (ns : TagNodes) (c : Bytes) (p : List Bytes) (s : S)
          → AreDotFree ns
          → IsPlain c
          → All IsPlain p
          → tag_commanders send ns (dotted c p) cmd s ≡ run (select_nodes c p ns) s
      commanders nil_nodes c p s _ _ _ = refl
      commanders (cons_nodes n ns) c p s (free, frees) hc hp =
          ap (λ m. m >>= tag_commanders send ns (dotted c p) cmd) (commander n c p s free hc hp)
          ∙ bind_congr (run (select c p n) s) _ _ (λ t. commanders ns c p t frees hc hp)
          ∙ sym (run-append (select c p n) (select_nodes c p ns) s)

  -- An empty name commands the whole hierarchy.
  whole :
      (n : TagNode) (cmd : StatCmd) (s : S)
      → cmd ≢ no_cmd
      → tag_commander send n [] cmd s ≡ run (subtree n) s
  unfolding tag_commander is_empty text_eq
  whole (leaf_node t p d) cmd s h = rw or_true (process-run (leaf_node t p d) cmd s h)
  whole (parent_node t p d cs) cmd s h = process-run (parent_node t p d cs) cmd s h

  silent_parent :
      (t p : Tag) (d : ℕ) (cs : TagNodes) (name : Bytes) (s : S)
      → ((tail : Bytes) (s' : S) → tag_commanders send cs tail no_cmd s' ≡ some s')
      → tag_commander send (parent_node t p d cs) name no_cmd s ≡ some s
  unfolding tag_commander process_command
  silent_parent t p d cs name s ih = rw (
    ih (get_head_tail name b'.').1 s,
    if_same (is_empty (get_head_tail name b'.').1) (some s),
    if_same (not (text_eq (get_head_tail name b'.').0 t.name)) (some s),
    if_same (is_empty name) (some s),
  )

  mutual
    unfolding tag_commander process_command

    silent : (n : TagNode) (name : Bytes) (s : S) → tag_commander send n name no_cmd s ≡ some s
    silent (leaf_node t p d) name s = if_same (text_eq name t.name || is_empty name) (some s)
    silent (parent_node t p d cs) name s = silent_parent t p d cs name s (silents cs)

    silents : (ns : TagNodes) (name : Bytes) (s : S) → tag_commanders send ns name no_cmd s ≡ some s
    silents nil_nodes name s = refl
    silents (cons_nodes n ns) name s = rw (silent n name s) (silents ns name s)

  -- When neither the names in the hierarchy nor the parts of the path hold a dot, and no part is
  -- empty, a command other than NO_CMD with the dotted path is sent to exactly the nodes at and
  -- below the path, in depth-first order, and to nothing else.
  pub tag_commander-select :
      (n : TagNode) (c : Bytes) (p : List Bytes) (cmd : StatCmd) (s : S)
      → cmd ≢ no_cmd
      → IsDotFree n
      → IsPlain c
      → All IsPlain p
      → tag_commander send n (dotted c p) cmd s ≡ run (select c p n) s
  tag_commander-select n c p cmd s h free hc hp = commander cmd h n c p s free hc hp

  -- With an empty name a command other than NO_CMD is sent to every node of the hierarchy, parents
  -- first; NO_CMD is sent to none, whatever the name.
  tag_commander-whole :
      (n : TagNode) (name : Bytes) (cmd : StatCmd) (s : S)
      → (cmd ≢ no_cmd → tag_commander send n [] cmd s ≡ run (subtree n) s)
        × (tag_commander send n name no_cmd s ≡ some s)
  tag_commander-whole n name cmd s = (whole n cmd s, silent n name s)
