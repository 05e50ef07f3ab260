-- ===== src/Lexer/Total.antt =====
-- The end of the loop of src/lexer.c.
use b1cc.Common.{
  ℕ, zero, suc, ◌≤◌, ◌<◌, ◌≡◌, refl, true, ◌&&◌, ◌||◌, Option, none, some, [], ◌∷◌, ◌==◌, arith,
  length, take, drop, length-drop, Bytes, codes,
}
use b1cc.Preproc.{is_digit}
use b1cc.Preproc.Tokens.{span}
use b1cc.Lexer.Scan.{
  Step, pass, token, marker, counted, refuse, scan, scan_hash, scan_ident, scan_other, literal,
  number_width, digits_tail, number_tail, fraction_width, first, in_ident,
}
use b1cc.Arrays.{Token}
use b1cc.Lexer.{Pos, Lexed, lexed, failed, LexContext, push_token, step, lex_loop, lex}

-- How far a round goes; an error is no loop.
abbrev pub width : Step → ℕ
width (pass w) = w
width (token w t) = w
width (marker w line) = w
width (counted w) = w
width (refuse msg) = 1

literal-width : (quote lead : ℕ) (keep s msg : Bytes) → 0 < width (literal quote lead keep s msg)
unfolding literal
literal-width quote lead keep s msg = ground arith

scan_hash-width : (s : Bytes) → 0 < width (scan_hash s)
unfolding scan_hash
scan_hash-width s = ground arith

scan_ident-width :
    (line_text file : Bytes) (c : ℕ) (t s : Bytes) → 0 < width (scan_ident line_text file (c ∷ t) s)
unfolding scan_ident
scan_ident-width line_text file c t s =
    let wide =
      literal-width b'"' 1 (codes "L") (drop 1 s) (codes "unterminated wide string literal") in
    let wide_char =
      literal-width b'\'' 1 [] (drop 1 s) (codes "unterminated wide character literal") in
    ground arith

scan_other-width : (c : ℕ) (s : Bytes) → 0 < width (scan_other c s)
unfolding scan_other
scan_other-width c s =
    let string = literal-width b'"' 0 [] s (codes "unterminated string literal") in
    let character = literal-width b'\'' 0 [] s (codes "unterminated character literal") in
    ground arith

number_width-positive :
    (c : ℕ) (s : Bytes)
    → is_digit c || (c == b'.' && is_digit (first s)) ≡ true
    → 0 < number_width c s
unfolding number_width digits_tail span number_tail fraction_width
number_width-positive c s h = ground arith

scan-width : (line_text file : Bytes) (c : ℕ) (s : Bytes) → 0 < width (scan line_text file c s)
unfolding scan
scan-width line_text file c s =
    let hash = scan_hash-width s in
    let number = number_width-positive c s in
    let ident =
      scan_ident-width line_text file c (take (span in_ident s) s) (drop (span in_ident s) s) in
    let other = scan_other-width c s in ground arith

-- A result that is no error and has its tokens behind the ones that are pushed.
push_token-some :
    (t : Token) (o : Option Lexed)
    → (r : Lexed) × (o ≡ some r)
    → (r : Lexed) × (push_token t o ≡ some r)
unfolding push_token
push_token-some t none (r, e) = absurd cc
push_token-some t (some (lexed ts k)) (r, e) = (_, refl)
push_token-some t (some (failed line col msg)) (r, e) = (_, refl)

module _ (ctx : LexContext) where
  -- One round of the loop, where the rest of the text is lexed.
  round-some :
      (n : ℕ) (p : Pos) (k c : ℕ) (s : Bytes) (x : Step)
      → step ctx c s ≡ x
      → 0 < width x
      → ((q : Pos) (i w : ℕ) → 0 < w → (r : Lexed) × (lex_loop ctx n q i (drop w (c ∷ s)) ≡ some r))
      → (r : Lexed) × (lex_loop ctx (suc n) p k (c ∷ s) ≡ some r)
  unfolding lex_loop
  round-some n p k c s (pass w) e wide rest = rw (e, lex_loop) (rest _ _ w wide)
  round-some n p k c s (token w t) e wide rest =
      rw (e, lex_loop) (push_token-some _ _ (rest _ _ w wide))
  round-some n p k c s (marker w line) e wide rest = rw (e, lex_loop) (rest _ _ w wide)
  round-some n p k c s (counted w) e wide rest =
      rw (e, lex_loop) (push_token-some _ _ (rest _ _ w wide))
  round-some n p k c s (refuse msg) e wide rest = rw (e, lex_loop) (_, refl)

  lex_loop-some :
      (n : ℕ) (p : Pos) (k : ℕ) (s : Bytes)
      → length s ≤ n
      → (r : Lexed) × (lex_loop ctx n p k s ≡ some r)
  unfolding lex_loop
  lex_loop-some zero p k [] h = (_, refl)
  lex_loop-some (suc n) p k [] h = (_, refl)
  lex_loop-some zero p k (c ∷ s) h = absurd (omega arith)
  lex_loop-some (suc n) p k (c ∷ s) h =
      round-some n p k c s (step ctx c s) refl
        (scan-width (ctx.show_int ctx.current_line) ctx.current_file c s)
        (λ q i w some_width.
          lex_loop-some n q i (drop w (c ∷ s)) (omega (arith, length-drop w (c ∷ s))))

  -- Every text is lexed or has an error: the loop comes to an end.
  pub lex-returns : (k : ℕ) (s : Bytes) → (r : Lexed) × (lex ctx k s ≡ some r)
  unfolding lex
  lex-returns k s = lex_loop-some (length s) _ k s (omega arith)
