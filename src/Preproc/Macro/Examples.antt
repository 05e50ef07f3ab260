-- ===== src/Preproc/Macro/Examples.antt =====
-- A stringized argument and a written definition.
use b1cc.Common.{◌≡◌, some, [], ◌∷◌, ◌++◌, codes}
use b1cc.Preproc.Macro.{pp_stringize}
use b1cc.Preproc.Macro.Stringize.{read_literal, blank_join, read_literal-pp_stringize}
use b1cc.Preproc.Directive.Define.{Definition, function}

read_literal-pp_stringize_example :
    read_literal (pp_stringize (codes "\"a\"" ∷ codes "+" ∷ codes "b" ∷ []) ++ codes ";")
    ≡ some (blank_join (codes "\"a\"" ∷ codes "+" ∷ codes "b" ∷ []), codes ";")
read_literal-pp_stringize_example =
    read_literal-pp_stringize (codes "\"a\"" ∷ codes "+" ∷ codes "b" ∷ []) (codes ";")

-- (a, ...) f(a, __VA_ARGS__)
abbrev variadic : Definition
variadic = function (codes "a" ∷ codes "..." ∷ []) (codes "f(a, __VA_ARGS__)")
