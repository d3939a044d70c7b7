-- ===== src/Macros/Lists.antt =====
-- The type that the macros of include/stat_log/util/make_stat_tags.h write down, read as C++ reads it.
use stat_log.Base.{
  All, ◌<◌, subst, ap₂, ℕ, zero, suc, ◌+◌, ◌≡◌, refl, sym, ap, ◌∙◌, some, List, [], ◌∷◌, ◌++◌,
  Bytes, map, append_assoc, arith,
}
use stat_log.Macros.{
  Token, cons_open, comma, close, nil_type, name, Preprocessor, expansions, cons_sep_start,
  cons_sep_end, make_list, make_tag, make_tag_struct, make_tag_struct_base, make_tags,
  make_tags_base, make_tags_named_base,
}

-- The grammar of a list type, with the types in the list.
pub data IsListType : List Token → List Bytes → Type 0 where
  is_nil : IsListType (nil_type ∷ []) []
  is_cons :
      {ts : List Token} {es : List Bytes} (e : Bytes)
      → IsListType ts es
      → IsListType (cons_open ∷ name e ∷ comma ∷ (ts ++ close ∷ [])) (e ∷ es)

-- The documented behaviour of the repetition.
abbrev pub IsPreprocessor : Preprocessor → Type 0
IsPreprocessor pp =
    (macro : ℕ → Bytes → List Token) (es : List Bytes)
    → pp.for_each_i macro es ≡ expansions macro 0 es

map-map {ℓ κ μ} :
    {A : Type ℓ} {B : Type κ} {C : Type μ} (f : A → B) (g : B → C) (h : A → C)
    → ((x : A) → g (f x) ≡ h x)
    → (xs : List A) → map g (map f xs) ≡ map h xs
map-map f g h e [] = refl
map-map f g h e (x ∷ xs) = ap₂ ◌∷◌ (e x) (map-map f g h e xs)

map_same {ℓ κ} :
    {A : Type ℓ} {B : Type κ} (f : A → B) (g : B → A)
    → ((x : A) → g (f x) ≡ x)
    → (xs : List A) → map g (map f xs) ≡ xs
map_same f g e [] = refl
map_same f g e (x ∷ xs) = ap₂ ◌∷◌ (e x) (map_same f g e xs)

based :
    (base : Bytes) (es : List Bytes)
    → All (λ s. s.base ≡ some base) (map make_tag_struct_base (map (λ e. (e, base)) es))
unfolding make_tag_struct_base
based base [] = tt
based base (e ∷ es) = (refl, based base es)

opens : List Bytes → List Token
opens [] = []
opens (e ∷ es) = cons_open ∷ name e ∷ comma ∷ opens es

closes : List Bytes → List Token
closes [] = []
closes (e ∷ es) = close ∷ closes es

expansions-start : (i : ℕ) (es : List Bytes) → expansions cons_sep_start i es ≡ opens es
unfolding cons_sep_start opens
expansions-start i [] = refl
expansions-start i (e ∷ es) =
    ap (λ ts. cons_open ∷ name e ∷ comma ∷ ts) (expansions-start (i + 1) es)

expansions-end : (i : ℕ) (es : List Bytes) → 0 < i → expansions cons_sep_end i es ≡ closes es
unfolding cons_sep_end closes
expansions-end i [] h = refl
expansions-end zero (e ∷ es) h = absurd (omega arith)
expansions-end (suc i) (e ∷ es) h =
    ap (λ ts. close ∷ ts) (expansions-end (suc i + 1) es (omega arith))

closes-snoc : (es : List Bytes) → close ∷ closes es ≡ closes es ++ close ∷ []
unfolding closes
closes-snoc [] = refl
closes-snoc (e ∷ es) = ap (λ ts. close ∷ ts) (closes-snoc es)

nested-IsListType : (es : List Bytes) → IsListType (opens es ++ nil_type ∷ closes es) es
unfolding opens closes
nested-IsListType [] = is_nil
nested-IsListType (e ∷ es) =
    subst (λ ts. IsListType (cons_open ∷ name e ∷ comma ∷ ts) (e ∷ es))
      (append_assoc (opens es) (nil_type ∷ closes es) (close ∷ [])
        ∙ ap (λ ts. opens es ++ nil_type ∷ ts) (sym (closes-snoc es)))
      (is_cons e (nested-IsListType es))

module _ (pp : Preprocessor) (documented : IsPreprocessor pp) where
  make_list-IsListType : (e : Bytes) (es : List Bytes) → IsListType (make_list pp (e ∷ es)) (e ∷ es)
  unfolding make_list cons_sep_end opens closes
  make_list-IsListType e es =
      subst (λ ts. IsListType ts (e ∷ es))
        (sym (
          ap (λ ts. ts ++ pp.for_each_i cons_sep_end (e ∷ es))
            (documented cons_sep_start (e ∷ es) ∙ expansions-start 0 (e ∷ es))
          ∙ ap (λ ts. opens (e ∷ es) ++ ts)
              (documented cons_sep_end (e ∷ es)
                ∙ ap (λ ts. nil_type ∷ close ∷ ts) (expansions-end 1 es (omega arith)))))
        (nested-IsListType (e ∷ es))

  -- For one tag or more, where the preprocessor's repetition puts the expansions one behind the other:
  -- what SL_MAKE_TAGS, and SL_MAKE_TAGS_NAMED_BASE with a base, write as the list is a list type, of
  -- exactly the structs that they declare, in order; the SL_NAMEs of these are the names given, and
  -- their base is the one given.
  pub make_tags-IsListType :
      (base e : Bytes) (es : List Bytes)
      → IsListType (make_tags pp (e ∷ es)).1 (map (λ s. s.identifier) (make_tags pp (e ∷ es)).0)
        × (map (λ s. s.sl_name) (make_tags pp (e ∷ es)).0 ≡ e ∷ es)
        × IsListType
            (make_tags_named_base pp base (e ∷ es)).1
            (map (λ s. s.identifier) (make_tags_named_base pp base (e ∷ es)).0)
        × (map (λ s. s.sl_name) (make_tags_named_base pp base (e ∷ es)).0 ≡ e ∷ es)
        × All (λ s. s.base ≡ some base) (make_tags_named_base pp base (e ∷ es)).0
  unfolding make_tags make_tags_named_base make_tags_base make_tag_struct make_tag_struct_base
  make_tags-IsListType base e es =
      let all = e ∷ es in
      let pair : Bytes → Bytes × Bytes = λ x. (x, base) in
      let list = make_list-IsListType (make_tag e) (map make_tag es) in
      let tagged = map-map make_tag_struct (λ s. s.identifier) make_tag (λ x. refl) es in
      let tagged_base =
        map-map make_tag_struct_base (λ s. s.identifier) (λ x. make_tag x.0) (λ x. refl)
          (map pair es) in
      let paired = map-map pair (λ x. make_tag x.0) make_tag (λ x. refl) es in
      (
        subst (λ xs. IsListType (make_list pp (make_tag e ∷ map make_tag es)) (make_tag e ∷ xs))
            (sym tagged) list,
        map_same make_tag_struct (λ s. s.sl_name) (λ x. refl) all,
        subst
            (λ xs.
              IsListType (make_list pp (make_tag e ∷ map (λ x. make_tag x.0) (map pair es)))
                (make_tag e ∷ xs))
            (sym tagged_base)
            (subst (λ xs. IsListType (make_list pp (make_tag e ∷ xs)) (make_tag e ∷ xs))
              (sym paired) list),
        ap (λ xs. e ∷ xs)
            (map-map make_tag_struct_base (λ s. s.sl_name) (λ x. x.0) (λ x. refl) (map pair es)
              ∙ map_same pair (λ x. x.0) (λ x. refl) es),
        based base all,
      )
