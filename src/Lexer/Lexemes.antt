-- ===== src/Lexer/Lexemes.antt =====
-- The tokens of C as the lexer finds them: names, numbers, literals and operators, with a blank or
-- a newline behind them.
use b1cc.Common.{
  ℕ, suc, ◌+◌, ◌≡◌, refl, sym, ap, ◌∙◌, true, false, ◌||◌, List, [], ◌∷◌, ◌++◌, append_assoc, ◌==◌,
  if◌then◌else◌, arith, length, length-append, take, drop, take-prefix, Bytes, All,
}
use b1cc.Preproc.{is_digit, is_alpha, is_space}
use b1cc.Preproc.Tokens.{span}
use b1cc.Lexer.Scan.{
  token, scan, scan_ident, scan_other, literal, literal_body, number_width, in_ident,
}

-- A byte of a literal, or an escape.
pub data LitChar : Type 0 where
  plain : ℕ → LitChar
  escape : ℕ → LitChar

unfoldable pub lit_text : List LitChar → Bytes
lit_text [] = []
lit_text (plain c ∷ cs) = c ∷ lit_text cs
lit_text (escape c ∷ cs) = b'\\' ∷ c ∷ lit_text cs

-- The bytes that stand for themselves between these quotes.
abbrev pub IsLitChar : ℕ → LitChar → Type 0
IsLitChar quote (plain c) = c == quote || c == b'\\' ≡ false
IsLitChar quote (escape c) = Unit

pub literal_body-plain :
    (quote c d : ℕ) (s : Bytes)
    → c == quote || c == b'\\' ≡ false
    → literal_body quote (c ∷ d ∷ s) ≡ suc (literal_body quote (d ∷ s))
unfolding literal_body
literal_body-plain quote c d s h = ground arith

pub literal_body-escape :
    (quote c : ℕ) (s : Bytes)
    → b'\\' == quote ≡ false
    → literal_body quote (b'\\' ∷ c ∷ s) ≡ suc (suc (literal_body quote s))
unfolding literal_body
literal_body-escape quote c s h = rw (h, if◌then◌else◌) refl

literal_body-closed : (quote : ℕ) (u : Bytes) → literal_body quote (quote ∷ u) ≡ 0
unfolding literal_body
literal_body-closed quote [] = ground arith
literal_body-closed quote (c ∷ u) = ground arith

literal_body-text :
    (quote : ℕ) (cs : List LitChar) (u : Bytes)
    → b'\\' == quote ≡ false
    → All (IsLitChar quote) cs
    → literal_body quote (lit_text cs ++ (quote ∷ u)) ≡ length (lit_text cs)
unfolding lit_text
literal_body-text quote [] u h all = literal_body-closed quote u
literal_body-text quote (plain c ∷ []) u h (p, all) =
    literal_body-plain quote c quote u p ∙ ap suc (literal_body-closed quote u)
literal_body-text quote (plain c ∷ plain d ∷ cs) u h (p, all) =
    literal_body-plain quote c d _ p ∙ ap suc (literal_body-text quote (plain d ∷ cs) u h all)
literal_body-text quote (plain c ∷ escape d ∷ cs) u h (p, all) =
    literal_body-plain quote c b'\\' _ p ∙ ap suc (literal_body-text quote (escape d ∷ cs) u h all)
literal_body-text quote (escape c ∷ cs) u h (p, all) =
    literal_body-escape quote c _ h ∙ ap (λ n. suc (suc n)) (literal_body-text quote cs u h all)

-- A closed literal is one token.
pub literal-text :
    (quote lead : ℕ) (keep : Bytes) (cs : List LitChar) (u msg : Bytes)
    → b'\\' == quote ≡ false
    → All (IsLitChar quote) cs
    → literal quote lead keep (lit_text cs ++ (quote ∷ u)) msg
      ≡ token (lead + (length (lit_text cs) + 2)) (keep ++ (quote ∷ (lit_text cs ++ quote ∷ [])))
unfolding literal
literal-text quote lead keep cs u msg h all =
    let t = lit_text cs in
    let body = literal_body-text quote cs u h all in
    let total = length-append t (quote ∷ u) in
    let closed : (length t == length (t ++ (quote ∷ u))) ≡ false = ground arith in
    let shown : take (length t + 1) (t ++ (quote ∷ u)) ≡ t ++ quote ∷ [] =
      sym (ap (λ n. take n (t ++ (quote ∷ u))) (length-append t (quote ∷ [])))
      ∙ ap (take (length (t ++ quote ∷ []))) (sym (append_assoc t (quote ∷ []) u))
      ∙ take-prefix (t ++ quote ∷ []) u in
    rw (body, literal) (rw (closed, if◌then◌else◌) (rw shown refl))

-- The spans that the scanner takes for one token, with that text, where a blank or a newline
-- follows.
abbrev pub IsLexeme : Bytes → Type 0
IsLexeme [] = true ≡ false
IsLexeme (c ∷ t) =
    (line file : Bytes) (g : ℕ) (u : Bytes)
    → (g == b' ' || g == 10) ≡ true
    → scan line file c (t ++ (g ∷ u)) ≡ token (suc (length t)) (c ∷ t)

pub scan-alpha :
    (line file : Bytes) (c : ℕ) (s : Bytes)
    → is_alpha c ≡ true
    → scan line file c s
      ≡ scan_ident line file (c ∷ take (span in_ident s) s) (drop (span in_ident s) s)
unfolding scan is_space
scan-alpha line file c s h = ground arith

pub scan-digit :
    (line file : Bytes) (c : ℕ) (s : Bytes)
    → is_digit c ≡ true
    → scan line file c s ≡ token (number_width c s) (take (number_width c s) (c ∷ s))
unfolding scan is_space
scan-digit line file c s h = ground arith

scan-other :
    (line file : Bytes) (c : ℕ) (s : Bytes)
    → is_space c || is_digit c || is_alpha c || c == b'#' || c == b'/' || c == b'.' ≡ false
    → scan line file c s ≡ scan_other c s
unfolding scan
scan-other line file c s h = ground arith
