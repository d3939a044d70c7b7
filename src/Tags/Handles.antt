-- ===== src/Tags/Handles.antt =====
-- `getView`, `getHandle`, `is_found_in_list` and `TagBelongsTo`: looking a tag up in the flat lists.
use mathlib.Core.List.{reverse_aux}
use stat_log.Base.{
  ℕ, suc, not, ◌+◌, ◌≡◌, refl, Bool, true, false, Option, none, some, List, [], ◌∷◌, ◌==◌,
  if◌then◌else◌, length, arith, ap, ltb, ◌≢◌, ◌∙◌, sym,
}
use stat_log.Tags.{Tag, TagNode, Handle, tag_list_creator}
use stat_log.Tags.Flatten.{preorder, tags_of, tags_of-tag_list_creator}

-- `matches_tag<Tag>`: the same type.
unfoldable pub matches_tag : ℕ → Handle → Bool
matches_tag i h = h.tag.index == i

-- The `filter_view` of a list by a tag.
unfoldable pub get_view : ℕ → List Handle → List Handle
unfolding matches_tag
get_view i [] = []
get_view i (h ∷ hs) = let rest = get_view i hs in if matches_tag i h then h ∷ rest else rest

-- `static_assert(size == 1)` and the dereferenced begin; `none` is a failed static_assert.
single : List Handle → Option Handle
single [] = none
single (h ∷ []) = some h
single (h ∷ g ∷ rest) = none

unfoldable pub get_handle : ℕ → List Handle → Option Handle
unfolding get_view single
get_handle i hs = single (get_view i hs)

-- `find_if` stops before the end.
unfoldable pub is_found_in_list : ℕ → List Handle → Bool
unfolding matches_tag
is_found_in_list i [] = false
is_found_in_list i (h ∷ hs) = if matches_tag i h then true else is_found_in_list i hs

-- `fusion::find_if` with `matches_tag`, as a position; the end is the length.
find_if : ℕ → List Handle → ℕ
unfolding matches_tag
find_if i [] = 0
find_if i (h ∷ hs) = let rest = find_if i hs in if matches_tag i h then 0 else suc rest

-- `TagBelongsTo`, for the statistics or the logs of an object.
tag_belongs_to : ℕ → List Handle → Bool
unfolding find_if
tag_belongs_to i hs = not (find_if i hs == length hs)

-- How often a tag type occurs.
unfoldable pub count : ℕ → List Tag → ℕ
count i [] = 0
count i (t ∷ ts) = (if t.index == i then 1 else 0) + count i ts

count-reverse_aux :
    (i : ℕ) (xs ys : List Tag) → count i (reverse_aux xs ys) ≡ count i xs + count i ys
unfolding count
count-reverse_aux i [] ys = omega arith
count-reverse_aux i (x ∷ xs) ys = ground (arith, count-reverse_aux i xs (x ∷ ys))

length-get_view : (i : ℕ) (hs : List Handle) → length (get_view i hs) ≡ count i (tags_of hs)
unfolding get_view count
length-get_view i [] = refl
length-get_view i (h ∷ hs) = ground (arith, length-get_view i hs)

pub is_found-eq-count :
    (i : ℕ) (hs : List Handle) → is_found_in_list i hs ≡ ltb 0 (count i (tags_of hs))
unfolding is_found_in_list count
is_found-eq-count i [] = refl
is_found-eq-count i (h ∷ hs) = ground (arith, is_found-eq-count i hs)

-- A tag belongs to an object exactly when the look-ups of the object find it.
tag_belongs_to-is_found_in_list :
    (i : ℕ) (hs : List Handle) → tag_belongs_to i hs ≡ is_found_in_list i hs
unfolding tag_belongs_to is_found_in_list
tag_belongs_to-is_found_in_list i [] = refl
tag_belongs_to-is_found_in_list i (h ∷ hs) = ground (arith, tag_belongs_to-is_found_in_list i hs)

-- The first handle of a view has the tag of the view.
head_index :
    (i : ℕ) (hs : List Handle) (h : Handle) (rest : List Handle)
    → get_view i hs ≡ h ∷ rest
    → h.tag.index ≡ i
unfolding get_view
head_index i [] h rest e = ground arith
head_index i (g ∷ hs) h rest e = ground (arith, head_index i hs h rest)

single_view :
    (i : ℕ) (hs v : List Handle)
    → get_view i hs ≡ v
    → length v ≡ 1
    → (h : Handle) × (single v ≡ some h) × (h.tag.index ≡ i)
unfolding single
single_view i hs [] e l = absurd (omega arith)
single_view i hs (h ∷ []) e l = (h, refl, head_index i hs h [] e)
single_view i hs (h ∷ g ∷ rest) e l = absurd (omega arith)

-- A tag that occurs once has a handle.
pub get_handle-some :
    (i : ℕ) (hs : List Handle)
    → count i (tags_of hs) ≡ 1
    → (h : Handle) × (get_handle i hs ≡ some h)
unfolding get_handle
get_handle-some i hs once =
    let (h, e, _) = single_view i hs _ refl (length-get_view i hs ∙ once) in (h, e)

single-none : (v : List Handle) → length v ≢ 1 → single v ≡ none
unfolding single
single-none [] l = refl
single-none (h ∷ []) l = absurd (l refl)
single-none (h ∷ g ∷ rest) l = refl

module _ (is_op is_stat : Bool) (n : TagNode) (i : ℕ) where
  pub count-list : count i (tags_of (tag_list_creator is_op is_stat n)) ≡ count i (preorder n)
  unfolding count
  count-list =
      rw (tags_of-tag_list_creator is_op is_stat n, count-reverse_aux i (preorder n) [])
        (omega arith)

  -- In the list made of a hierarchy, `getHandle` of a tag compiles and yields a handle of that very
  -- tag when the hierarchy holds the tag exactly once; when it is missing or occurs twice the
  -- static_assert fails. `is_found_in_list` holds exactly when the tag occurs.
  pub get_handle_lem :
      (count i (preorder n) ≡ 1
        → (h : Handle) × (get_handle i (tag_list_creator is_op is_stat n) ≡ some h)
          × (h.tag.index ≡ i))
      × (count i (preorder n) ≢ 1 → get_handle i (tag_list_creator is_op is_stat n) ≡ none)
      × (is_found_in_list i (tag_list_creator is_op is_stat n) ≡ ltb 0 (count i (preorder n)))
  unfolding get_handle
  get_handle_lem = (
    λ e. single_view i _ _ refl (length-get_view i _ ∙ count-list ∙ e),
    λ e. single-none _ (λ l. e (sym (length-get_view i _ ∙ count-list) ∙ l)),
    is_found-eq-count i _ ∙ ap (ltb 0) count-list,
  )
