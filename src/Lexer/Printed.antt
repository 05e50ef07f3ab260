-- ===== src/Lexer/Printed.antt =====
-- Texts with blanks, newlines and comments between their tokens, through the loop of src/lexer.c.
use b1cc.Common.{
  ℕ, suc, ◌+◌, ◌≡◌, refl, ap, ◌∙◌, Bool, true, false, ◌&&◌, ◌||◌, not, List, [], ◌∷◌, ◌++◌,
  append_assoc, ◌==◌, if◌then◌else◌, arith, length, length-append, take-prefix, drop-prefix, Bytes,
  codes, All,
}
use b1cc.Preproc.{is_space}
use b1cc.Preproc.Tokens.Render.{every}
use b1cc.Lexer.Scan.{pass, scan, block_body, not_newline}
use b1cc.Arrays.{Token}
use b1cc.Lexer.{Pos, Lexed, LexContext, advance, token_at, step}
use b1cc.Lexer.Rounds.{advance-append, before, Lexes, Lexes-pass, Lexes-token}
use b1cc.Lexer.Lexemes.{IsLexeme}
use b1cc.Lexer.Numbers.{span-stops}
use b1cc.Lexer.Words.{Lexeme, lexeme_text, WellFormed}
use b1cc.Lexer.Literals.{lexeme_text-IsLexeme}

-- What may stand between tokens; a line comment has its newline.
pub data Filler : Type 0 where
  blank : Filler
  newline : Filler
  block_comment : Bytes → Filler
  line_comment : Bytes → Filler

unfoldable pub filler_text : Filler → Bytes
filler_text blank = b' ' ∷ []
filler_text newline = 10 ∷ []
filler_text (block_comment b) = b'/' ∷ b'*' ∷ (b ++ (b'*' ∷ b'/' ∷ []))
filler_text (line_comment b) = b'/' ∷ b'/' ∷ (b ++ 10 ∷ [])

-- No `*/` in the bytes.
unfoldable pub never_ends : Bytes → Bool
never_ends [] = true
never_ends (c ∷ []) = true
never_ends (c ∷ d ∷ b) = not (c == b'*' && d == b'/') && never_ends (d ∷ b)

abbrev pub IsFiller : Filler → Type 0
IsFiller blank = Unit
IsFiller newline = Unit
IsFiller (block_comment b) = never_ends b ≡ true
IsFiller (line_comment b) = every not_newline b ≡ true

unfoldable pub fillers_text : List Filler → Bytes
unfolding filler_text
fillers_text [] = []
fillers_text (f ∷ fs) = filler_text f ++ fillers_text fs

-- A token, whether a newline or a blank is behind it, and what follows that.
pub record Item : Type 0 where
  pub lexeme : Lexeme
  pub at_line_end : Bool
  pub fill : List Filler

abbrev gap_byte : Bool → ℕ
gap_byte true = 10
gap_byte false = b' '

unfoldable pub item_text : Item → Bytes
item_text i = lexeme_text i.lexeme ++ (gap_byte i.at_line_end ∷ fillers_text i.fill)

unfoldable pub print : List Item → Bytes
print [] = []
print (i ∷ items) = item_text i ++ print items

abbrev pub IsItem : Item → Type 0
IsItem i = WellFormed i.lexeme × All IsFiller i.fill

-- The tokens, each where its text starts, behind the position `p`.
unfoldable pub located : Pos → List Item → List Token
unfolding item_text advance
located p [] = []
located p (i ∷ items) = token_at p (lexeme_text i.lexeme) ∷ located (advance p (item_text i)) items

block_body-text :
    (b u : Bytes) → never_ends b ≡ true → block_body (b ++ (b'*' ∷ b'/' ∷ u)) ≡ length b
unfolding never_ends block_body
block_body-text [] u h = refl
block_body-text (c ∷ []) u h = ground arith
block_body-text (c ∷ d ∷ b) u h = ground (arith, block_body-text (d ∷ b) u)

scan-block :
    (line file b u : Bytes)
    → never_ends b ≡ true
    → scan line file b'/' (b'*' ∷ (b ++ (b'*' ∷ b'/' ∷ u))) ≡ pass (suc (suc (length b + 2)))
unfolding scan is_space
scan-block line file b u h =
    let closed = block_body-text b u h in
    let total = length-append b (b'*' ∷ b'/' ∷ u) in
    let more : (length b + 1 == length (b ++ (b'*' ∷ b'/' ∷ u))) ≡ false = ground arith in
    rw (closed, if◌then◌else◌) (rw (more, if◌then◌else◌) refl)

scan-line :
    (line file b u : Bytes)
    → every not_newline b ≡ true
    → scan line file b'/' (b'/' ∷ (b ++ (10 ∷ u))) ≡ pass (suc (suc (length b)))
unfolding scan is_space
scan-line line file b u h = rw (span-stops not_newline b (10 ∷ u) h refl) refl

module _ (ctx : LexContext) where
  -- A round that passes over `s`.
  pass-text :
      (p : Pos) (k c : ℕ) (s u : Bytes) (r : Lexed)
      → step ctx c (s ++ u) ≡ pass (suc (length s))
      → Lexes ctx (advance p (c ∷ s)) k u r
      → Lexes ctx p k (c ∷ (s ++ u)) r
  pass-text p k c s u r e rest =
      Lexes-pass ctx p k c (length s) (s ++ u) r e
        (rw (take-prefix s u) (rw (drop-prefix s u) rest))

  gap-Lexes :
      (p : Pos) (k : ℕ) (b : Bool) (u : Bytes) (r : Lexed)
      → Lexes ctx (advance p (gap_byte b ∷ [])) k u r
      → Lexes ctx p k (gap_byte b ∷ u) r
  unfolding scan is_space
  gap-Lexes p k true u r rest = pass-text p k 10 [] u r refl rest
  gap-Lexes p k false u r rest = pass-text p k b' ' [] u r refl rest

  filler-Lexes :
      (p : Pos) (k : ℕ) (f : Filler) (u : Bytes) (r : Lexed)
      → IsFiller f
      → Lexes ctx (advance p (filler_text f)) k u r
      → Lexes ctx p k (filler_text f ++ u) r
  unfolding filler_text
  filler-Lexes p k blank u r h rest = gap-Lexes p k false u r rest
  filler-Lexes p k newline u r h rest = gap-Lexes p k true u r rest
  filler-Lexes p k (block_comment b) u r h rest =
      let ends = codes "*/" in
      let total = length-append b ends in
      pass-text p k b'/' (b'*' ∷ (b ++ ends)) u r
        (ap (λ w. step ctx b'/' (b'*' ∷ w)) (append_assoc b ends u)
          ∙ scan-block (ctx.show_int ctx.current_line) ctx.current_file b u h
          ∙ ap (λ n. pass (suc (suc n))) (omega arith))
        rest
  filler-Lexes p k (line_comment b) u r h rest = rw (append_assoc b (10 ∷ []) u) (
      pass-text p k b'/' (b'/' ∷ b) (10 ∷ u) r
        (scan-line (ctx.show_int ctx.current_line) ctx.current_file b u h)
        (gap-Lexes (advance p (b'/' ∷ b'/' ∷ b)) k true u r
          (rw (advance-append (b'/' ∷ b'/' ∷ b) p (10 ∷ [])) at rest)))

  pub fillers-Lexes :
      (p : Pos) (k : ℕ) (fs : List Filler) (u : Bytes) (r : Lexed)
      → All IsFiller fs
      → Lexes ctx (advance p (fillers_text fs)) k u r
      → Lexes ctx p k (fillers_text fs ++ u) r
  unfolding fillers_text advance
  fillers-Lexes p k [] u r h rest = rest
  fillers-Lexes p k (f ∷ fs) u r (h, all) rest =
      rw (append_assoc (filler_text f) (fillers_text fs) u) (
        filler-Lexes p k f (fillers_text fs ++ u) r h (
          fillers-Lexes (advance p (filler_text f)) k fs u r all
            (rw (advance-append (filler_text f) p (fillers_text fs)) at rest)))

  lexeme-Lexes :
      (p : Pos) (k : ℕ) (x : Bytes) (b : Bool) (u : Bytes) (r : Lexed)
      → IsLexeme x
      → Lexes ctx (advance p x) k (gap_byte b ∷ u) r
      → Lexes ctx p k (x ++ (gap_byte b ∷ u)) (before (token_at p x) r)
  lexeme-Lexes p k [] b u r h rest = absurd cc
  lexeme-Lexes p k (c ∷ t) b u r h rest =
      Lexes-token ctx p k c (length t) (c ∷ t) (t ++ (gap_byte b ∷ u)) r
        (h (ctx.show_int ctx.current_line) ctx.current_file (gap_byte b) u (gap_is b))
        (rw (take-prefix t (gap_byte b ∷ u)) (rw (drop-prefix t (gap_byte b ∷ u)) rest))
    where
      gap_is : (d : Bool) → gap_byte d == b' ' || gap_byte d == 10 ≡ true
      gap_is true = refl
      gap_is false = refl

  pub item-Lexes :
      (p : Pos) (k : ℕ) (i : Item) (u : Bytes) (r : Lexed)
      → IsItem i
      → Lexes ctx (advance p (item_text i)) k u r
      → Lexes ctx p k (item_text i ++ u) (before (token_at p (lexeme_text i.lexeme)) r)
  unfolding item_text
  item-Lexes p k i u r (h, all) rest =
      let x = lexeme_text i.lexeme in
      let g = gap_byte i.at_line_end in
      let fs = fillers_text i.fill in
      rw (append_assoc x (g ∷ fs) u) (
        lexeme-Lexes p k x i.at_line_end (fs ++ u) r (lexeme_text-IsLexeme i.lexeme h) (
          gap-Lexes (advance p x) k i.at_line_end (fs ++ u) r (
            fillers-Lexes (advance (advance p x) (g ∷ [])) k i.fill u r all (
              rw (advance-append (g ∷ []) (advance p x) fs) at
                (rw (advance-append x p (g ∷ fs)) at rest)))))
