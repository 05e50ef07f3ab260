-- ===== src/Preproc/Macro.antt =====
-- The macros of src/preprocessor.c, and pp_stringize, of which only the texts of the tokens matter.
pub mod Stringize
mod Examples
use b1cc.Common.{
  ℕ, zero, suc, ◌+◌, ◌-◌, Bool, true, false, ◌&&◌, ◌||◌, not, Option, none, some, List, [], ◌∷◌,
  ◌++◌, map, ◌==◌, leb, if◌then◌else◌, length, get_or, drop, Bytes, codes, str_eq,
}

pub record Macro : Type 0 where
  pub is_function_like : Bool
  pub params : List Bytes
  pub body : Bytes

-- The bytes of a token inside a string literal.
unfoldable pub quote_text : Bytes → Bytes
quote_text [] = []
quote_text (c ∷ s) =
    let rest = quote_text s in if c == b'"' || c == b'\\' then b'\\' ∷ c ∷ rest else c ∷ rest

-- The tokens behind the first one, with a blank before each.
unfoldable pub quote_more : List Bytes → Bytes
unfolding quote_text
quote_more [] = []
quote_more (t ∷ ts) = b' ' ∷ (quote_text t ++ quote_more ts)

unfoldable pub pp_stringize : List Bytes → Bytes
unfolding quote_text quote_more
pp_stringize [] = b'"' ∷ b'"' ∷ []
pp_stringize (t ∷ ts) = b'"' ∷ (quote_text t ++ (quote_more ts ++ b'"' ∷ []))
