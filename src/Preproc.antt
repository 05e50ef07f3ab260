-- ===== src/Preproc.antt =====
-- The preprocessor: src/preprocessor.c. Here the character classes; the child modules have the
-- evaluator of #if, its tokenizers, the passes over the source, #define and the stringizing of #.
pub mod Expr
pub mod Tokens
pub mod Source
pub mod Macro
pub mod Directive
pub mod Tokenize
mod Examples
use b1cc.Common.{ℕ, Bool, ◌&&◌, ◌||◌, ◌==◌, leb}

abbrev pub is_digit : ℕ → Bool
is_digit c = leb b'0' c && leb c b'9'

abbrev pub is_alpha : ℕ → Bool
is_alpha c = (leb b'a' c && leb c b'z') || (leb b'A' c && leb c b'Z') || c == b'_'

abbrev pub is_alnum : ℕ → Bool
is_alnum c = is_alpha c || is_digit c

unfoldable pub is_space : ℕ → Bool
is_space c = c == b' ' || c == 9 || c == 10 || c == 13 || c == 11 || c == 12
