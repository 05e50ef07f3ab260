-- ===== src/Lexer/Literals.antt =====
-- Literals and operators of src/lexer.c, and all lexemes together.
use b1cc.Common.{
  ℕ, suc, ◌+◌, ◌≡◌, refl, ap, ◌∙◌, true, false, ◌||◌, List, [], ◌∷◌, ◌++◌, map, append_assoc, ◌==◌,
  ==_iff, arith, inl, inr, Bool-cases, length, length-append, Bytes, codes, str_eq, str_eq_iff, All,
}
use b1cc.Preproc.{is_space}
use b1cc.Preproc.Tokens.{span}
use b1cc.Lexer.Scan.{Step, token, scan, scan_hash, scan_ident, scan_other, literal, elem}
use b1cc.Lexer.Lexemes.{LitChar, IsLitChar, lit_text, literal-text, IsLexeme}
use b1cc.Lexer.Words.{
  Lexeme, name, integer, hexadecimal, floating, string, character, wide_string, operator,
  lexeme_text, operators, mem, WellFormed, name-IsLexeme, integer-IsLexeme, hexadecimal-IsLexeme,
  floating-IsLexeme,
}

-- What the scanner makes of `o` before the byte `g` and `u`, and what it should.
abbrev scanned : Bytes → Bytes → ℕ → Bytes → Bytes → Step
scanned line file g u [] = token 0 []
scanned line file g u (c ∷ t) = scan line file c (t ++ (g ∷ u))

abbrev whole : Bytes → Step
whole o = token (length o) o

operators-blank :
    (line file u : Bytes) → map (scanned line file b' ' u) operators ≡ map whole operators
unfolding scan is_space scan_hash scan_other elem span
operators-blank line file u = refl

operators-newline :
    (line file u : Bytes) → map (scanned line file 10 u) operators ≡ map whole operators
unfolding scan is_space scan_hash scan_other elem span
operators-newline line file u = refl

-- Functions that agree on a list agree on its members.
map-mem :
    (f g : Bytes → Step) (o : Bytes) (ts : List Bytes)
    → map f ts ≡ map g ts
    → mem o ts ≡ true
    → f o ≡ g o
unfolding mem
map-mem f g o [] e h = absurd cc
map-mem f g o (t ∷ ts) e h = elim (Bool-cases (str_eq o t)) [
  | inl same ↦ let is : o ≡ t = (str_eq_iff o t).0 same in rw is cc
  | inr other ↦
      let tails : map f ts ≡ map g ts = cc in map-mem f g o ts tails (rw (other, ◌||◌) at h)
]

nil-mem : mem [] operators ≡ false
unfolding mem str_eq
nil-mem = refl

operator-scanned :
    (o line file : Bytes) (g : ℕ) (u : Bytes)
    → mem o operators ≡ true
    → g == b' ' || g == 10 ≡ true
    → scanned line file g u o ≡ whole o
operator-scanned o line file g u h gap = elim (Bool-cases (g == b' ')) [
  | inl e ↦
      let is : g ≡ b' ' = (==_iff g b' ').0 e in
      rw is (map-mem (scanned line file b' ' u) whole o operators (operators-blank line file u) h)
  | inr e ↦
      let is : g ≡ 10 = ground arith in
      rw is (map-mem (scanned line file 10 u) whole o operators (operators-newline line file u) h)
]

operator-IsLexeme : (o : Bytes) → mem o operators ≡ true → IsLexeme o
operator-IsLexeme [] h = let clash = nil-mem in absurd cc
operator-IsLexeme (c ∷ t) h = λ line file g u gap. operator-scanned (c ∷ t) line file g u h gap

-- The bytes behind an opening quote.
closed-text :
    (quote : ℕ) (cs : List LitChar) (g : ℕ) (u : Bytes)
    → (lit_text cs ++ quote ∷ []) ++ (g ∷ u) ≡ lit_text cs ++ (quote ∷ g ∷ u)
closed-text quote cs g u = append_assoc (lit_text cs) (quote ∷ []) (g ∷ u)

closed-width :
    (quote : ℕ) (cs : List LitChar)
    → length (lit_text cs) + 2 ≡ suc (length (lit_text cs ++ quote ∷ []))
closed-width quote cs = omega (arith, length-append (lit_text cs) (quote ∷ []))

quoted-IsLexeme :
    (quote : ℕ) (msg : Bytes) (cs : List LitChar)
    → ((line file s : Bytes) → scan line file quote s ≡ literal quote 0 [] s msg)
    → b'\\' == quote ≡ false
    → All (IsLitChar quote) cs
    → IsLexeme (quote ∷ (lit_text cs ++ quote ∷ []))
quoted-IsLexeme quote msg cs starts h all line file g u gap =
    starts line file _
    ∙ ap (λ w. literal quote 0 [] w msg) (closed-text quote cs g u)
    ∙ literal-text quote 0 [] cs (g ∷ u) msg h all
    ∙ ap (λ n. token n (quote ∷ (lit_text cs ++ quote ∷ []))) (omega (arith, closed-width quote cs))

string-starts :
    (line file s : Bytes)
    → scan line file b'"' s ≡ literal b'"' 0 [] s (codes "unterminated string literal")
unfolding scan is_space scan_other
string-starts line file s = refl

character-starts :
    (line file s : Bytes)
    → scan line file b'\'' s ≡ literal b'\'' 0 [] s (codes "unterminated character literal")
unfolding scan is_space scan_other
character-starts line file s = refl

wide-starts :
    (line file s : Bytes)
    → scan line file b'L' (b'"' ∷ s)
      ≡ literal b'"' 1 (codes "L") s (codes "unterminated wide string literal")
unfolding scan is_space scan_ident span str_eq
wide-starts line file s = refl

wide_string-IsLexeme :
    (cs : List LitChar)
    → All (IsLitChar b'"') cs
    → IsLexeme (b'L' ∷ b'"' ∷ (lit_text cs ++ b'"' ∷ []))
wide_string-IsLexeme cs all line file g u gap =
    let msg = codes "unterminated wide string literal" in
    wide-starts line file _
    ∙ ap (λ w. literal b'"' 1 (codes "L") w msg) (closed-text b'"' cs g u)
    ∙ literal-text b'"' 1 (codes "L") cs (g ∷ u) msg refl all
    ∙ ap (λ n. token n (b'L' ∷ b'"' ∷ (lit_text cs ++ b'"' ∷ [])))
        (omega (arith, closed-width b'"' cs))

pub lexeme_text-IsLexeme : (l : Lexeme) → WellFormed l → IsLexeme (lexeme_text l)
unfolding lexeme_text WellFormed
lexeme_text-IsLexeme (name c t) (alpha, idents, other) = name-IsLexeme c t alpha idents other
lexeme_text-IsLexeme (integer c d s) (digit, digits, suffix) =
    integer-IsLexeme c d s digit digits suffix
lexeme_text-IsLexeme (hexadecimal x d s) (mark, digits, suffix) =
    hexadecimal-IsLexeme x d s mark digits suffix
lexeme_text-IsLexeme (floating c d f s) (digit, digits, decimals, suffix) =
    floating-IsLexeme c d f s digit digits decimals suffix
lexeme_text-IsLexeme (string cs) all =
    quoted-IsLexeme b'"' (codes "unterminated string literal") cs string-starts refl all
lexeme_text-IsLexeme (character cs) all =
    quoted-IsLexeme b'\'' (codes "unterminated character literal") cs character-starts refl all
lexeme_text-IsLexeme (wide_string cs) all = wide_string-IsLexeme cs all
lexeme_text-IsLexeme (operator o) h = operator-IsLexeme o h
