-- ===== src/Lexer.antt =====
-- The lexer, src/lexer.c, where it has no macro table: the texts that b1cc.c and backend.c give it
-- and the ones of pp_tokenize. The text is what lies from the index on. Lines and columns are as
-- large as the text asks for; a line marker has the wrap-around of its `long` and of the cast.
pub mod Scan
pub mod Total
pub mod Rounds
pub mod Lexemes
pub mod Numbers
pub mod Words
pub mod Literals
pub mod Printed
pub mod Located
mod Examples
use b1cc.Common.{
  ℕ, zero, suc, ◌+◌, ◌-◌, ◌*◌, ◌%◌, ◌^◌, Bool, true, false, ◌&&◌, ◌||◌, not, Option, none, some,
  List, [], ◌∷◌, ◌++◌, ◌==◌, ltb, if◌then◌else◌, length, take, drop, get_or, Bytes, codes, str_eq,
}
use b1cc.Arrays.{Token}
use b1cc.Lexer.Scan.{Step, pass, token, marker, counted, refuse, scan}

pub record Pos : Type 0 where
  pub line : ℕ
  pub col : ℕ

-- CONSUME over these bytes
unfoldable pub advance : Pos → Bytes → Pos
advance p [] = p
advance p (c ∷ s) =
    if c == 10
    then advance (record { line = p.line + 1; col = 1 }) s
    else advance (record { line = p.line; col = p.col + 1 }) s

-- The tokens and `preprocessor_counter`, or what diagnostics_error reports.
pub data Lexed : Type 0 where
  lexed : List Token → ℕ → Lexed
  failed : ℕ → ℕ → Bytes → Lexed

abbrev pub token_at : Pos → Bytes → Token
token_at p t = record { text = t; line = p.line; col = p.col }

unfoldable pub push_token : Token → Option Lexed → Option Lexed
push_token t none = none
push_token t (some (lexed ts k)) = some (lexed (t ∷ ts) k)
push_token t (some (failed line col msg)) = some (failed line col msg)

-- Behind a line marker the rest of its line is passed over.
unfoldable pub mark : Pos → ℕ → Bytes → Pos
unfolding advance
mark p line s =
    if ltb 0 line && ltb line (2 ^ 63)
    then record { line = line % 2 ^ 32; col = 1 }
    else advance p s

-- `snprintf` with "%d", the line and the file of the preprocessor
pub record LexContext : Type 0 where
  pub show_int : ℕ → Bytes
  pub current_line : ℕ
  pub current_file : Bytes

module _ (ctx : LexContext) where
  abbrev pub step : ℕ → Bytes → Step
  step = scan (ctx.show_int ctx.current_line) ctx.current_file

  -- The loop, with fuel; `none` where the fuel runs out.
  unfoldable pub lex_loop : ℕ → Pos → ℕ → Bytes → Option Lexed
  lex_loop n p k [] = some (lexed (token_at p (codes "EOF") ∷ []) k)
  lex_loop zero p k (c ∷ s) = none
  lex_loop (suc n) p k (c ∷ s) = elim (step c s) [
    | pass w ↦ lex_loop n (advance p (take w (c ∷ s))) k (drop w (c ∷ s))
    | token w t ↦
        push_token (token_at p t) (lex_loop n (advance p (take w (c ∷ s))) k (drop w (c ∷ s)))
    | marker w line ↦ lex_loop n (mark p line (take w (c ∷ s))) k (drop w (c ∷ s))
    | counted w ↦
        push_token (token_at p (ctx.show_int k))
          (lex_loop n (advance p (take w (c ∷ s))) (suc k) (drop w (c ∷ s)))
    | refuse msg ↦ some (failed p.line p.col msg)
  ]

  unfoldable pub lex : ℕ → Bytes → Option Lexed
  unfolding lex_loop
  lex counter src = lex_loop (length src) (record { line = 1; col = 1 }) counter src
