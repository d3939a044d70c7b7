-- ===== src/Commander.antt =====
-- include/stat_log/util/tag_commander.h, and `getHeadTail` of src/utils.cpp: a command is sent to
-- the subtree of a hierarchy that a dotted tag name picks.
pub mod Split
pub mod Select
mod Tests
use stat_log.Base.{
  ℕ, suc, ◌+◌, Bool, true, false, not, ◌||◌, Option, none, some, List, [], ◌∷◌, Bytes, text_eq,
  is_empty, ◌==◌, if◌then◌else◌, take, drop, ◌>>=◌,
}
use stat_log.Command.{StatCmd, no_cmd}
use stat_log.Tags.{Tag, TagNode, leaf_node, parent_node, TagNodes, nil_nodes, cons_nodes}

-- `std::string::find(char)`; `none` is npos.
unfoldable pub find : Bytes → ℕ → Option ℕ
find [] c = none
find (x ∷ s) c = if x == c then some 0 else elim (find s c) [ none ↦ none | some i ↦ some (suc i) ]

-- `substr(0, pos)` and `substr(pos + 1)`; without a position the tail stays empty.
unfoldable pub split_at : Bytes → Option ℕ → Bytes × Bytes
split_at s none = (s, [])
split_at s (some pos) = (take pos s, drop (suc pos) s)

-- `getHeadTail`: the text before and behind the first delimiter.
unfoldable pub get_head_tail : Bytes → ℕ → Bytes × Bytes
unfolding split_at
get_head_tail s delim = split_at s (find s delim)

-- `send` is `sendCommand` of the control object on its state; `none` means that the process ends.
module _ {S : Type 0} (send : TagNode → S → Option S) where
  -- `DoCmd::Go`: a parent node before its children, in order.
  unfoldable mutual
    pub go : TagNode → S → Option S
    go (leaf_node t p d) s = send (leaf_node t p d) s
    go (parent_node t p d cs) s = send (parent_node t p d cs) s >>= go_children cs

    pub go_children : TagNodes → S → Option S
    go_children nil_nodes s = some s
    go_children (cons_nodes n ns) s = go n s >>= go_children ns

  unfoldable pub process_command : TagNode → StatCmd → S → Option S
  process_command n no_cmd s = some s
  process_command n _ s = go n s

  -- `tagCommander`, for leaf and for parent nodes, and the loop over the children.
  unfoldable mutual
    pub tag_commander : TagNode → Bytes → StatCmd → S → Option S
    tag_commander (leaf_node t p d) tag_name cmd s =
        if text_eq tag_name t.name || is_empty tag_name
        then process_command (leaf_node t p d) cmd s
        else some s
    tag_commander (parent_node t p d cs) tag_name cmd s =
        if is_empty tag_name
        then process_command (parent_node t p d cs) cmd s
        else let (head_c, tail_c) = get_head_tail tag_name b'.' in
          if not (text_eq head_c t.name)
          then some s
          else if is_empty tail_c
          then process_command (parent_node t p d cs) cmd s
          else tag_commanders cs tail_c cmd s

    pub tag_commanders : TagNodes → Bytes → StatCmd → S → Option S
    tag_commanders nil_nodes tag_name cmd s = some s
    tag_commanders (cons_nodes n ns) tag_name cmd s =
        tag_commander n tag_name cmd s >>= tag_commanders ns tag_name cmd
