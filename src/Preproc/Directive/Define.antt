-- ===== src/Preproc/Directive/Define.antt =====
-- What #define reads is the macro that is written.
use b1cc.Common.{◌≡◌, ◌⊎◌, Bool, true, false, not, none, List, [], ◌∷◌, ◌++◌, Bytes, codes, All}
use b1cc.Preproc.Tokens.Render.{every}
use b1cc.Preproc.Macro.{Macro}
use b1cc.Preproc.Directive.{skip_line_blanks, is_name, trim_end, object_macro, function_macro}
use b1cc.Runtime.Search.{strstr}

-- A name: at least one byte, and only bytes of names.
unfoldable pub is_identifier : Bytes → Bool
unfolding every
is_identifier [] = false
is_identifier (c ∷ s) = every is_name (c ∷ s)

abbrev ParamOk : Bytes → Type 0
ParamOk p = (is_identifier p ≡ true) ⊎ (p ≡ codes "...")

unfoldable pub params_text : List Bytes → Bytes
params_text [] = []
params_text (p ∷ []) = p
params_text (p ∷ q ∷ ps) = p ++ b',' ∷ b' ' ∷ params_text (q ∷ ps)

-- How a macro is written, and the macro that it is.
pub data Definition : Type 0 where
  object : Bytes → Definition
  function : List Bytes → Bytes → Definition

unfoldable pub rest_text : Definition → Bytes
rest_text (object body) = b' ' ∷ body
rest_text (function ps body) = b'(' ∷ (params_text ps ++ b')' ∷ b' ' ∷ body)

abbrev pub defined : Definition → Macro
defined (object body) = object_macro body
defined (function ps body) = function_macro ps body

-- Where a name ends.
abbrev ends_name : Bytes → Bool
ends_name [] = true
ends_name (c ∷ s) = not (is_name c)

-- The body as it is written: no two slashes in a row, no blank before it or behind it.
unfoldable pub BodyOk : Bytes → Type 0
BodyOk s = (skip_line_blanks s ≡ s) × (trim_end s ≡ s) × (strstr s (codes "//") ≡ none)

unfoldable pub DefinitionOk : Definition → Type 0
DefinitionOk (object body) = BodyOk body
DefinitionOk (function ps body) = All ParamOk ps × BodyOk body
