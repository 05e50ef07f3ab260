-- ===== src/Preproc/Tokenize.antt =====
-- pp_tokenize of src/preprocessor.c over the lexer.
mod Examples
use b1cc.Common.{
  ℕ, zero, suc, ◌+◌, ◌-◌, ◌≤◌, ◌≡◌, refl, sym, ap, ◌∙◌, Bool, true, false, Option, none, some, List,
  [], ◌∷◌, ◌++◌, append_assoc, map, if◌then◌else◌, arith, Bytes, codes, str_eq, All,
}
use b1cc.Arrays.{Token}
use b1cc.Lexer.{Pos, Lexed, lexed, failed, LexContext, advance, token_at, lex}
use b1cc.Lexer.Rounds.{advance-append}
use b1cc.Lexer.Printed.{
  Filler, newline, IsFiller, fillers_text, filler_text, Item, IsItem, print, located,
}
use b1cc.Lexer.Located.{start, lex-located}

-- One newline for each line before the base.
unfoldable pub line_prefix : ℕ → Bytes
line_prefix zero = []
line_prefix (suc n) = 10 ∷ line_prefix n

-- All tokens but an EOF at the end.
unfoldable pub drop_sentinel : List Token → List Token
drop_sentinel [] = []
drop_sentinel (t ∷ []) = if str_eq t.text (codes "EOF") then [] else t ∷ []
drop_sentinel (t ∷ u ∷ ts) = t ∷ drop_sentinel (u ∷ ts)

-- `line_base` is `preprocessor_token_line_base`.
unfoldable pub pp_tokenize : LexContext → ℕ → ℕ → Bytes → Option Lexed
pp_tokenize ctx counter line_base s = elim (lex ctx counter (line_prefix (line_base - 1) ++ s)) [
  | none ↦ none
  | some (failed line col msg) ↦ some (failed line col msg)
  | some (lexed ts k) ↦ some (lexed (drop_sentinel ts) k)
]

unfoldable newlines : ℕ → List Filler
newlines zero = []
newlines (suc n) = newline ∷ newlines n

newlines-text :
    (n : ℕ) (fs : List Filler) → fillers_text (newlines n ++ fs) ≡ line_prefix n ++ fillers_text fs
unfolding newlines fillers_text filler_text line_prefix
newlines-text zero fs = refl
newlines-text (suc n) fs = ap (◌∷◌ 10) (newlines-text n fs)

newlines-IsFiller : (n : ℕ) (fs : List Filler) → All IsFiller fs → All IsFiller (newlines n ++ fs)
unfolding newlines
newlines-IsFiller zero fs h = h
newlines-IsFiller (suc n) fs h = (tt, newlines-IsFiller n fs h)

-- The first column of a line.
abbrev pub line_start : ℕ → Pos
line_start line = record { line = line; col = 1 }

advance-line_prefix :
    (n line : ℕ) → advance (line_start line) (line_prefix n) ≡ line_start (line + n)
unfolding advance line_prefix
advance-line_prefix zero line = ap line_start (omega arith)
advance-line_prefix (suc n) line = advance-line_prefix n (line + 1) ∙ ap line_start (omega arith)

drop_sentinel-last :
    (ts : List Token) (p : Pos) → drop_sentinel (ts ++ (token_at p (codes "EOF") ∷ [])) ≡ ts
unfolding drop_sentinel str_eq
drop_sentinel-last [] p = refl
drop_sentinel-last (t ∷ []) p = refl
drop_sentinel-last (t ∷ u ∷ ts) p = ap (◌∷◌ t) (drop_sentinel-last (u ∷ ts) p)

-- pp_tokenize gives the tokens of a text of well-formed tokens with blanks, newlines and comments
-- between them, and no EOF; their lines count from the line base, which is at least 1. A name EOF
-- in the text stays.
pub pp_tokenize-print :
    (ctx : LexContext) (k line_base : ℕ) (fs : List Filler) (items : List Item)
    → 1 ≤ line_base
    → All IsFiller fs
    → All IsItem items
    → pp_tokenize ctx k line_base (fillers_text fs ++ print items)
      ≡ some (lexed (located (advance (line_start line_base) (fillers_text fs)) items) k)
unfolding pp_tokenize
pp_tokenize-print ctx k line_base fs items h hf hi =
    let n = line_base - 1 in
    let text = newlines-text n fs in
    let base : line_start (1 + n) ≡ line_start line_base = ap line_start (omega arith) in
    let from : advance start (fillers_text (newlines n ++ fs))
        ≡ advance (line_start line_base) (fillers_text fs) =
      ap (advance start) text
      ∙ advance-append (line_prefix n) start (fillers_text fs)
      ∙ ap (λ p. advance p (fillers_text fs)) (advance-line_prefix n 1 ∙ base) in
    let whole : line_prefix n ++ (fillers_text fs ++ print items)
        ≡ fillers_text (newlines n ++ fs) ++ print items =
      sym (append_assoc (line_prefix n) (fillers_text fs) (print items))
      ∙ ap (λ s. s ++ print items) (sym text) in
    let lexing =
      ap (lex ctx k) whole
      ∙ lex-located ctx k (newlines n ++ fs) items (newlines-IsFiller n fs hf) hi in
    rw (lexing, pp_tokenize)
      (ap (λ ts. some (lexed ts k)) (drop_sentinel-last _ _)
        ∙ ap (λ p. some (lexed (located p items) k)) from)
