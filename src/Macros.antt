-- ===== src/Macros.antt =====
-- The macros that declare tags, include/stat_log/util/make_stat_tags.h, as functions on the tokens that
-- they expand to. The repetitions of boost's preprocessor library are a parameter.
pub mod Lists
mod Tests
use stat_log.Base.{
  ℕ, zero, suc, ◌+◌, Option, none, some, List, [], ◌∷◌, ◌++◌, Bytes, codes, map, ◌>>=◌,
}

-- The tokens of a list type: `boost::fusion::cons<`, `,`, `>`, `boost::fusion::nil`, and the name of
-- a type.
pub data Token : Type 0 where
  cons_open comma close nil_type : Token
  name : Bytes → Token

-- A declared struct: its name, its base, and its SL_NAME.
pub record Struct : Type 0 where
  pub identifier : Bytes
  pub base : Option Bytes
  pub sl_name : Bytes

-- BOOST_PP_SEQ_FOR_EACH_I: a macro of the position and the element, for each element.
pub record Preprocessor : Type 0 where
  pub for_each_i : (ℕ → Bytes → List Token) → List Bytes → List Token

-- What its documentation says of it: the expansions stand one behind the other.
abbrev pub expansions : (ℕ → Bytes → List Token) → ℕ → List Bytes → List Token
expansions macro i [] = []
expansions macro i (e ∷ es) = macro i e ++ expansions macro (i + 1) es

-- `_CONS_SEP_START`
cons_sep_start : ℕ → Bytes → List Token
cons_sep_start i e = cons_open ∷ name e ∷ comma ∷ []

-- `_CONS_SEP_END`; BOOST_PP_IF chooses the empty text for a position that is not 0.
cons_sep_end : ℕ → Bytes → List Token
cons_sep_end zero e = nil_type ∷ close ∷ []
cons_sep_end (suc i) e = close ∷ []

-- `SL_MAKE_LIST`
unfoldable pub make_list : Preprocessor → List Bytes → List Token
unfolding cons_sep_start cons_sep_end
make_list pp seq = pp.for_each_i cons_sep_start seq ++ pp.for_each_i cons_sep_end seq

-- `_SL_MAKE_TAG`
unfoldable pub make_tag : Bytes → Bytes
make_tag elem = elem ++ codes "_TAG"

-- `_SL_MAKE_TAG_STRUCT`, `_SL_MAKE_TAG_STRUCT_BASE`
unfoldable pub make_tag_struct : Bytes → Struct
unfolding make_tag
make_tag_struct elem = record { identifier = make_tag elem; base = none; sl_name = elem }

unfoldable pub make_tag_struct_base : Bytes × Bytes → Struct
unfolding make_tag
make_tag_struct_base (elem, base) = record {
  identifier = make_tag elem;
  base = some base;
  sl_name = elem;
}

-- `SL_MAKE_TAGS`, `SL_MAKE_TAGS_BASE` and `SL_MAKE_TAGS_NAMED_BASE`: the structs, and the tokens of the
-- list type.
unfoldable pub make_tags : Preprocessor → List Bytes → List Struct × List Token
unfolding make_list make_tag_struct
make_tags pp args = (map make_tag_struct args, make_list pp (map make_tag args))

unfoldable pub make_tags_base : Preprocessor → List (Bytes × Bytes) → List Struct × List Token
unfolding make_list make_tag_struct_base
make_tags_base pp args =
    (map make_tag_struct_base args, make_list pp (map (λ e. make_tag e.0) args))

unfoldable pub make_tags_named_base : Preprocessor → Bytes → List Bytes → List Struct × List Token
unfolding make_tags_base
make_tags_named_base pp base args = make_tags_base pp (map (λ e. (e, base)) args)
