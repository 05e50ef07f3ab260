-- ===== src/Lexer/Located.antt =====
-- What the lexer makes of a whole text, src/lexer.c.
use b1cc.Common.{
  ℕ, ◌+◌, ◌≡◌, refl, sym, ap, ◌∙◌, true, some, List, [], ◌∷◌, ◌++◌, append-nil, append_assoc, ◌==◌,
  arith, length, Bytes, codes, All,
}
use b1cc.Common.{Bool-cases, inl, inr}
use b1cc.Common.Positions.{
  newlines, since_newline, column_behind, column_behind-newline, column_behind-other,
  column_behind-start,
}
use b1cc.Arrays.{Token}
use b1cc.Lexer.{Pos, Lexed, lexed, failed, LexContext, advance, token_at, lex}
use b1cc.Lexer.Rounds.{advance-append, before, Lexes, Lexes-end}
use b1cc.Lexer.Lexemes.{LitChar, IsLitChar, lit_text}
use b1cc.Lexer.Words.{lexeme_text}
use b1cc.Lexer.Printed.{
  Filler, IsFiller, fillers_text, Item, IsItem, item_text, print, located, never_ends,
  fillers-Lexes, item-Lexes,
}

abbrev pub start : Pos
start = record { line = 1; col = 1 }

-- Tokens in front of what the rest of the text gives.
unfoldable pub prepend : List Token → Lexed → Lexed
prepend ts (lexed us k) = lexed (ts ++ us) k
prepend ts (failed line col msg) = failed line col msg

prepend-before :
    (t : Token) (ts : List Token) (r : Lexed) → before t (prepend ts r) ≡ prepend (t ∷ ts) r
unfolding prepend
prepend-before t ts (lexed us k) = refl
prepend-before t ts (failed line col msg) = refl

prepend-nil : (r : Lexed) → prepend [] r ≡ r
unfolding prepend
prepend-nil (lexed us k) = refl
prepend-nil (failed line col msg) = refl

-- Where the text behind the items starts.
abbrev behind : List Filler → List Item → Pos
behind fs items = advance start (fillers_text fs ++ print items)

abbrev tokens_of : List Filler → List Item → List Token
tokens_of fs items = located (advance start (fillers_text fs)) items

module _ (ctx : LexContext) where
  items-Lexes :
      (p : Pos) (k : ℕ) (items : List Item) (u : Bytes) (r : Lexed)
      → All IsItem items
      → Lexes ctx (advance p (print items)) k u r
      → Lexes ctx p k (print items ++ u) (prepend (located p items) r)
  unfolding print located advance
  items-Lexes p k [] u r h rest = rw (prepend-nil r) rest
  items-Lexes p k (i ∷ items) u r (h, all) rest =
      let q = advance p (item_text i) in
      let more =
        items-Lexes q k items u r all (rw (advance-append (item_text i) p (print items)) at rest) in
      let t = token_at p (lexeme_text i.lexeme) in
      rw (append_assoc (item_text i) (print items) u) (
        rw⁻¹ (prepend-before t (located q items) r)
          (item-Lexes ctx p k i (print items ++ u) (prepend (located q items) r) h more))

  -- With any text behind the items that is lexed.
  lex-behind :
      (k : ℕ) (fs : List Filler) (items : List Item) (u : Bytes) (r : Lexed)
      → All IsFiller fs
      → All IsItem items
      → Lexes ctx (behind fs items) k u r
      → lex ctx k (fillers_text fs ++ (print items ++ u)) ≡ some (prepend (tokens_of fs items) r)
  unfolding lex
  lex-behind k fs items u r hf hi rest =
      fillers-Lexes ctx start k fs (print items ++ u) (prepend (tokens_of fs items) r) hf
        (items-Lexes (advance start (fillers_text fs)) k items u r hi
          (rw (advance-append (fillers_text fs) start (print items)) at rest))
        (length (fillers_text fs ++ (print items ++ u))) (omega arith)

  pub lex-located :
      (k : ℕ) (fs : List Filler) (items : List Item)
      → All IsFiller fs
      → All IsItem items
      → lex ctx k (fillers_text fs ++ print items)
        ≡ some (lexed (tokens_of fs items ++ (token_at (behind fs items) (codes "EOF") ∷ [])) k)
  unfolding prepend
  lex-located k fs items hf hi =
      ap (λ s. lex ctx k (fillers_text fs ++ s)) (sym (append-nil (print items)))
      ∙ lex-behind k fs items [] _ hf hi (Lexes-end ctx (behind fs items) k)

-- A token where the text before it ends: the line counts its newlines, the column the bytes behind
-- the last of them, both from 1.
abbrev token_behind : Bytes → Bytes → Token
token_behind pre t = record { text = t; line = 1 + newlines pre; col = 1 + since_newline pre }

-- The tokens behind a text, each where its own text starts.
unfoldable pub placed : Bytes → List Item → List Token
placed pre [] = token_behind pre (codes "EOF") ∷ []
placed pre (i ∷ items) = token_behind pre (lexeme_text i.lexeme) ∷ placed (pre ++ item_text i) items

sum_zero : (n : ℕ) → n ≡ n + 0
sum_zero n = omega arith

advance-behind :
    (p : Pos) (s : Bytes)
    → advance p s ≡ record { line = p.line + newlines s; col = column_behind p.col s }
unfolding advance newlines column_behind
advance-behind p [] = λ i. record { line = sum_zero p.line i; col = sum_zero p.col i }
advance-behind p (c ∷ s) = elim (Bool-cases (c == 10)) [
  | inl e ↦
      let same : 10 ≡ c = ground arith in
      let step : p.line + 1 + newlines s ≡ p.line + newlines (c ∷ s) =
        rw (e, newlines) (omega arith) in
      let at : column_behind 1 s ≡ column_behind p.col (c ∷ s) =
        column_behind-newline p.col s ∙ ap (λ d. column_behind p.col (d ∷ s)) same in
      let opened : advance p (c ∷ s) ≡ advance (record { line = p.line + 1; col = 1 }) s =
        rw (e, advance) refl in
      opened ∙ advance-behind (record { line = p.line + 1; col = 1 }) s ∙ λ i. record {
        line = step i;
        col = at i;
      }
  | inr ne ↦
      let step : p.line + newlines s ≡ p.line + newlines (c ∷ s) = rw (ne, newlines) refl in
      let at = column_behind-other p.col c s ne in
      let opened : advance p (c ∷ s) ≡ advance (record { line = p.line; col = p.col + 1 }) s =
        rw (ne, advance) refl in
      opened ∙ advance-behind (record { line = p.line; col = p.col + 1 }) s ∙ λ i. record {
        line = step i;
        col = at i;
      }
]

start-behind :
    (s : Bytes) → advance start s ≡ record { line = 1 + newlines s; col = 1 + since_newline s }
start-behind s = λ i. record {
  line = (advance-behind start s i).line;
  col = (ap (λ p. p.col) (advance-behind start s) ∙ column_behind-start s) i;
}

placed-located :
    (pre : Bytes) (items : List Item)
    → located (advance start pre) items
        ++ (token_at (advance start (pre ++ print items)) (codes "EOF") ∷ [])
      ≡ placed pre items
unfolding located print placed
placed-located pre [] = rw (append-nil pre) (λ i. token_at (start-behind pre i) (codes "EOF") ∷ [])
placed-located pre (x ∷ items) =
    let rest = placed-located (pre ++ item_text x) items in
    let whole = append_assoc pre (item_text x) (print items) in
    let moved = advance-append pre start (item_text x) in
    rw⁻¹ moved (rw⁻¹ whole (λ i. token_at (start-behind pre i) (lexeme_text x.lexeme) ∷ rest i))

module _ (ctx : LexContext) where
  -- A text of well-formed tokens, with a blank or a newline behind each and blanks, newlines and
  -- comments anywhere between them, is lexed to these tokens, and to EOF where the text ends, each
  -- with the line and the column where its text starts, counted from 1: the line by the newlines
  -- before it, the column by the bytes between it and the last of them. The counter stays.
  pub lex-print :
      (k : ℕ) (fs : List Filler) (items : List Item)
      → All IsFiller fs
      → All IsItem items
      → lex ctx k (fillers_text fs ++ print items) ≡ some (lexed (placed (fillers_text fs) items) k)
  lex-print k fs items hf hi =
      lex-located ctx k fs items hf hi
      ∙ ap (λ ts. some (lexed ts k)) (placed-located (fillers_text fs) items)

-- A literal or a comment that the text ends in.
pub data Open : Type 0 where
  open_string : List LitChar → Open
  open_character : List LitChar → Open
  open_comment : ℕ → Bytes → Open

unfoldable pub open_text : Open → Bytes
open_text (open_string cs) = b'"' ∷ lit_text cs
open_text (open_character cs) = b'\'' ∷ lit_text cs
open_text (open_comment c b) = b'/' ∷ b'*' ∷ c ∷ b

abbrev open_message : Open → Bytes
open_message (open_string cs) = codes "unterminated string literal"
open_message (open_character cs) = codes "unterminated character literal"
open_message (open_comment c b) = codes "unterminated block comment"

abbrev IsOpen : Open → Type 0
IsOpen (open_string cs) = All (IsLitChar b'"') cs
IsOpen (open_character cs) = All (IsLitChar b'\'') cs
IsOpen (open_comment c b) = never_ends (c ∷ b) ≡ true
