-- ===== src/Text/Examples.antt =====
-- Escaped literals and a builder.
use b1cc.Common.{ℕ, ◌≡◌, refl, [], ◌∷◌, ◌++◌, ◌==◌, if◌then◌else◌, false, Bytes, codes}
use b1cc.Text.{escape_asm_string}
use b1cc.Text.Escape.{meaning, bare_escape, meaning-escape_asm_string}

-- `it\'s\n`
abbrev literal : Bytes
literal = codes "it" ++ b'\\' ∷ b'\'' ∷ b's' ∷ b'\\' ∷ b'n' ∷ []

abbrev newline : ℕ → ℕ
newline c = if c == b'n' then 10 else c

meaning-escape_asm_string_example :
    (meaning newline (escape_asm_string literal) ≡ meaning newline literal)
    × (bare_escape (escape_asm_string literal) ≡ false)
meaning-escape_asm_string_example = meaning-escape_asm_string newline literal refl refl
