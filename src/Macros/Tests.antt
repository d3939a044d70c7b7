-- ===== src/Macros/Tests.antt =====
-- Two tags declared by a macro, and the witness of the theorem.
use stat_log.Base.{◌≡◌, refl, some, List, [], ◌∷◌, Bytes, codes, map, All}
use stat_log.Macros.{
  Preprocessor, expansions, cons_open, comma, close, nil_type, name, make_tags,
  make_tags_named_base,
}
use stat_log.Macros.Lists.{IsListType, make_tags-IsListType}

abbrev pp : Preprocessor
pp = record { for_each_i = λ macro es. expansions macro 0 es }

abbrev names : List Bytes
names = codes "RX" ∷ codes "TX" ∷ []

list_of_names :
    (make_tags pp names).1
    ≡ cons_open
      ∷ name (codes "RX_TAG")
      ∷ comma
      ∷ cons_open
      ∷ name (codes "TX_TAG")
      ∷ comma
      ∷ nil_type
      ∷ close
      ∷ close
      ∷ []
unfolding make_tags
list_of_names = refl

make_tags-IsListType_example :
    IsListType (make_tags pp names).1 (map (λ s. s.identifier) (make_tags pp names).0)
    × (map (λ s. s.sl_name) (make_tags pp names).0 ≡ names)
    × IsListType
        (make_tags_named_base pp (codes "Mac") names).1
        (map (λ s. s.identifier) (make_tags_named_base pp (codes "Mac") names).0)
    × (map (λ s. s.sl_name) (make_tags_named_base pp (codes "Mac") names).0 ≡ names)
    × All (λ s. s.base ≡ some (codes "Mac")) (make_tags_named_base pp (codes "Mac") names).0
make_tags-IsListType_example =
    make_tags-IsListType pp (λ macro es. refl) (codes "Mac") (codes "RX") (codes "TX" ∷ [])
