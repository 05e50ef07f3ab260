-- ===== src/Preproc/Directive.antt =====
-- #define of src/preprocessor.c: the macro that it makes of the rest of its line. A position in the
-- line is the bytes from there on.
pub mod Define
use b1cc.Common.{
  ℕ, zero, suc, Bool, true, false, ◌&&◌, ◌||◌, Option, none, some, List, [], ◌∷◌, ◌++◌, ◌==◌,
  if◌then◌else◌, length, take, drop, Bytes, codes, str_eq,
}
use b1cc.Preproc.{is_alpha, is_alnum}
use b1cc.Preproc.Tokens.{span}
use b1cc.Preproc.Macro.{Macro}
use b1cc.Runtime.Search.{strstr}

abbrev pub is_line_blank : ℕ → Bool
is_line_blank c = c == b' ' || c == 9

unfoldable pub skip_line_blanks : Bytes → Bytes
unfolding span
skip_line_blanks s = drop (span is_line_blank s) s

abbrev pub is_name : ℕ → Bool
is_name c = is_alnum c || c == b'_'

-- The name that #ifdef, #ifndef, #define and #undef take, and what is behind it.
unfoldable pub macro_name : Bytes → Bytes × Bytes
unfolding span
macro_name s = (take (span is_name s) s, drop (span is_name s) s)

abbrev pub drop_comma : Bytes → Bytes
drop_comma [] = []
drop_comma (c ∷ s) = if c == b',' then s else c ∷ s

-- A parameter with a name; a byte that starts none is skipped. `none` where the source steps past
-- the end of the line.
unfoldable pub named_param : Bytes → Bytes × Bytes → Option (List Bytes × Bytes)
named_param [] ([], rest) = none
named_param (c ∷ u) ([], rest) = some ([], drop_comma (skip_line_blanks u))
named_param t (c ∷ cs, rest) = some ((c ∷ cs) ∷ [], drop_comma (skip_line_blanks rest))

-- One round of the loop over the parameters: the parameter, if any, and what is behind it.
unfoldable pub param_round : Bytes → Option (List Bytes × Bytes)
param_round s =
    let t = skip_line_blanks s in
    if str_eq (take 3 t) (codes "...")
    then some (codes "..." ∷ [], drop_comma (skip_line_blanks (drop 3 t)))
    else named_param t (macro_name t)

-- The loop with fuel, up to the closing parenthesis or the end of the line.
unfoldable pub params_loop : ℕ → Bytes → Option (List Bytes × Bytes)
params_loop fuel [] = some ([], [])
params_loop zero (c ∷ s) = none
params_loop (suc fuel) (c ∷ s) = elim (c == b')') [
  | true ↦ some ([], s)
  | false ↦ elim (param_round (c ∷ s)) [
    | none ↦ none
    | some (ps, rest) ↦ elim (params_loop fuel rest) [
      | none ↦ none
      | some (qs, behind) ↦ some (ps ++ qs, behind)
    ]
  ]
]

unfoldable pub trim_end : Bytes → Bytes
trim_end [] = []
trim_end (c ∷ s) = elim (trim_end s) [
  | [] ↦ if c == b' ' || c == 9 || c == 13 then [] else c ∷ []
  | d ∷ t ↦ c ∷ d ∷ t
]

-- Up to a comment.
unfoldable pub cut_comment : Bytes → Bytes
cut_comment body = elim (strstr body (codes "//")) [
  | none ↦ body
  | some comment_pos ↦ take comment_pos body
]

-- The body: without the blanks before it, a comment and the blanks behind it.
unfoldable pub macro_body : Bytes → Bytes
macro_body s = trim_end (cut_comment (skip_line_blanks s))

abbrev pub object_macro : Bytes → Macro
object_macro body = record { is_function_like = false; params = []; body = body }

abbrev pub function_macro : List Bytes → Bytes → Macro
function_macro ps body = record { is_function_like = true; params = ps; body = body }

-- What is behind the name.
unfoldable pub define_rest : Bytes → Option Macro
define_rest [] = some (object_macro [])
define_rest (c ∷ t) = elim (c == b'(') [
  | false ↦ some (object_macro (macro_body (c ∷ t)))
  | true ↦ elim (params_loop (length t) t) [
    | none ↦ none
    | some (ps, behind) ↦ some (function_macro ps (macro_body behind))
  ]
]

unfoldable pub parse_define : Bytes → Bytes × Option Macro
parse_define s = let (name, rest) = macro_name s in (name, define_rest rest)
