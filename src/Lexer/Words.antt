-- ===== src/Lexer/Words.antt =====
-- Names, numbers, literals and operators as the lexer, src/lexer.c, meets them before a blank.
use b1cc.Common.{
  ℕ, suc, ◌≡◌, refl, ap, ◌∙◌, Bool, true, false, ◌||◌, List, [], ◌∷◌, ◌++◌, append_assoc, ◌==◌,
  if◌then◌else◌, arith, length, length-append, take-prefix, drop-prefix, Bytes, codes, str_eq, All,
}
use b1cc.Preproc.{is_digit, is_alpha}
use b1cc.Preproc.Tokens.Render.{every}
use b1cc.Lexer.Scan.{
  token, scan, scan_ident, number_width, digits_tail, first, in_ident, is_xdigit, is_int_suffix,
  is_float_suffix, is_hex_mark, is_dec_mark,
}
use b1cc.Lexer.Lexemes.{LitChar, IsLitChar, lit_text, IsLexeme, scan-alpha, scan-digit}
use b1cc.Lexer.Numbers.{span-stops, first-either, digits_tail-integer, digits_tail-floating}

pub data Lexeme : Type 0 where
  name : ℕ → Bytes → Lexeme
  integer : ℕ → Bytes → Bytes → Lexeme
  hexadecimal : ℕ → Bytes → Bytes → Lexeme
  floating : ℕ → Bytes → Bytes → Bytes → Lexeme
  string : List LitChar → Lexeme
  character : List LitChar → Lexeme
  wide_string : List LitChar → Lexeme
  operator : Bytes → Lexeme

-- `#` is left out: it starts a line marker where a digit follows. A number has its first digit, its other digits and its suffix; `floating` has a fraction too.
unfoldable pub lexeme_text : Lexeme → Bytes
lexeme_text (name c t) = c ∷ t
lexeme_text (integer c d s) = c ∷ (d ++ s)
lexeme_text (hexadecimal x d s) = b'0' ∷ x ∷ (d ++ s)
lexeme_text (floating c d f s) = c ∷ (d ++ (b'.' ∷ (f ++ s)))
lexeme_text (string cs) = b'"' ∷ (lit_text cs ++ b'"' ∷ [])
lexeme_text (character cs) = b'\'' ∷ (lit_text cs ++ b'\'' ∷ [])
lexeme_text (wide_string cs) = b'L' ∷ b'"' ∷ (lit_text cs ++ b'"' ∷ [])
lexeme_text (operator o) = o

abbrev pub operators : List Bytes
operators =
    codes "..."
    ∷ codes "<<="
    ∷ codes ">>="
    ∷ codes "=="
    ∷ codes "!="
    ∷ codes "<="
    ∷ codes ">="
    ∷ codes "->"
    ∷ codes "&&"
    ∷ codes "||"
    ∷ codes "<<"
    ∷ codes ">>"
    ∷ codes "++"
    ∷ codes "--"
    ∷ codes "+="
    ∷ codes "-="
    ∷ codes "*="
    ∷ codes "/="
    ∷ codes "%="
    ∷ codes "&="
    ∷ codes "^="
    ∷ codes "|="
    ∷ codes "{"
    ∷ codes "}"
    ∷ codes "["
    ∷ codes "]"
    ∷ codes "("
    ∷ codes ")"
    ∷ codes ","
    ∷ codes ";"
    ∷ codes "="
    ∷ codes "+"
    ∷ codes "-"
    ∷ codes "*"
    ∷ codes "/"
    ∷ codes "%"
    ∷ codes "<"
    ∷ codes ">"
    ∷ codes "."
    ∷ codes "&"
    ∷ codes "!"
    ∷ codes "|"
    ∷ codes "^"
    ∷ codes "~"
    ∷ codes ":"
    ∷ codes "?"
    ∷ codes "##"
    ∷ []

-- The predefined macros, which the lexer replaces.
abbrev is_predefined : Bytes → Bool
is_predefined t =
    str_eq t (codes "__LINE__") || str_eq t (codes "__FILE__") || str_eq t (codes "__COUNTER__")

unfoldable pub mem : Bytes → List Bytes → Bool
mem o [] = false
mem o (t ∷ ts) = str_eq o t || mem o ts

unfoldable pub WellFormed : Lexeme → Type 0
WellFormed (name c t) =
    (is_alpha c ≡ true) × (every in_ident t ≡ true) × (is_predefined (c ∷ t) ≡ false)
WellFormed (integer c d s) =
    (is_digit c ≡ true) × (every is_digit d ≡ true) × (every is_int_suffix s ≡ true)
WellFormed (hexadecimal x d s) =
    (x == b'x' || x == b'X' ≡ true) × (every is_xdigit d ≡ true) × (every is_int_suffix s ≡ true)
WellFormed (floating c d f s) =
    (is_digit c ≡ true)
    × (every is_digit d ≡ true)
    × (every is_digit f ≡ true)
    × (every is_float_suffix s ≡ true)
WellFormed (string cs) = All (IsLitChar b'"') cs
WellFormed (character cs) = All (IsLitChar b'\'') cs
WellFormed (wide_string cs) = All (IsLitChar b'"') cs
WellFormed (operator o) = mem o operators ≡ true

scan_ident-plain :
    (line file t s : Bytes)
    → first s == b'"' || first s == b'\'' ≡ false
    → is_predefined t ≡ false
    → scan_ident line file t s ≡ token (length t) t
unfolding scan_ident
scan_ident-plain line file t s h g = ground arith

pub name-IsLexeme :
    (c : ℕ) (t : Bytes)
    → is_alpha c ≡ true
    → every in_ident t ≡ true
    → is_predefined (c ∷ t) ≡ false
    → IsLexeme (c ∷ t)
name-IsLexeme c t alpha idents plain_name line file g u gap =
    let width = span-stops in_ident t (g ∷ u) idents (ground arith) in
    let plain_ident = scan_ident-plain line file (c ∷ t) (g ∷ u) (ground arith) plain_name in
    scan-alpha line file c (t ++ (g ∷ u)) alpha
    ∙ rw width (rw (take-prefix t (g ∷ u)) (rw (drop-prefix t (g ∷ u)) plain_ident))

-- A number whose width is known.
number-IsLexeme :
    (line file : Bytes) (c : ℕ) (t u : Bytes)
    → is_digit c ≡ true
    → number_width c (t ++ u) ≡ suc (length t)
    → scan line file c (t ++ u) ≡ token (suc (length t)) (c ∷ t)
number-IsLexeme line file c t u digit width =
    scan-digit line file c (t ++ u) digit
    ∙ rw width (ap (token (suc (length t))) (take-prefix (c ∷ t) u))

number_width-decimal :
    (c : ℕ) (s : Bytes)
    → first s == b'x' || first s == b'X' ≡ false
    → number_width c s ≡ digits_tail is_digit is_dec_mark (c ∷ s)
unfolding number_width
number_width-decimal c s h = ground arith

number_width-hexadecimal :
    (x : ℕ) (s : Bytes)
    → x == b'x' || x == b'X' ≡ true
    → number_width b'0' (x ∷ s) ≡ suc (suc (digits_tail is_xdigit is_hex_mark s))
unfolding number_width
number_width-hexadecimal x s h = rw (h, if◌then◌else◌) refl

pub integer-IsLexeme :
    (c : ℕ) (d s : Bytes)
    → is_digit c ≡ true
    → every is_digit d ≡ true
    → every is_int_suffix s ≡ true
    → IsLexeme (c ∷ (d ++ s))
unfolding every
integer-IsLexeme c d s first_digit digits suffix line file g u gap =
    let behind = s ++ (g ∷ u) in
    let whole = append_assoc d s (g ∷ u) in
    let ends =
      first-either is_int_suffix (λ b. is_digit b || is_dec_mark b || b == b'.') s (g ∷ u)
        (λ b m. ground arith) suffix (ground arith) in
    let no_mark =
      first-either is_int_suffix (λ b. b == b'x' || b == b'X') s (g ∷ u) (λ b m. ground arith)
        suffix (ground arith) in
    let no_hex =
      first-either is_digit (λ b. b == b'x' || b == b'X') d behind (λ b m. ground arith) digits
        no_mark in
    let tail =
      digits_tail-integer is_digit is_dec_mark (c ∷ d) s (g ∷ u) (ground arith) suffix ends
        (ground arith) in
    let total = length-append d s in
    number-IsLexeme line file c (d ++ s) (g ∷ u) first_digit
      (ap (number_width c) whole ∙ number_width-decimal c (d ++ behind) no_hex ∙ tail ∙ omega arith)

pub hexadecimal-IsLexeme :
    (x : ℕ) (d s : Bytes)
    → x == b'x' || x == b'X' ≡ true
    → every is_xdigit d ≡ true
    → every is_int_suffix s ≡ true
    → IsLexeme (b'0' ∷ x ∷ (d ++ s))
hexadecimal-IsLexeme x d s mark digits suffix line file g u gap =
    let whole = append_assoc d s (g ∷ u) in
    let ends =
      first-either is_int_suffix (λ b. is_xdigit b || is_hex_mark b || b == b'.') s (g ∷ u)
        (λ b m. ground arith) suffix (ground arith) in
    let tail =
      digits_tail-integer is_xdigit is_hex_mark d s (g ∷ u) digits suffix ends (ground arith) in
    let total = length-append d s in
    number-IsLexeme line file b'0' (x ∷ (d ++ s)) (g ∷ u) refl (
      ap (λ w. number_width b'0' (x ∷ w)) whole
      ∙ number_width-hexadecimal x (d ++ (s ++ (g ∷ u))) mark
      ∙ ap (λ n. suc (suc n)) tail
      ∙ omega arith)

pub floating-IsLexeme :
    (c : ℕ) (d f s : Bytes)
    → is_digit c ≡ true
    → every is_digit d ≡ true
    → every is_digit f ≡ true
    → every is_float_suffix s ≡ true
    → IsLexeme (c ∷ (d ++ (b'.' ∷ (f ++ s))))
unfolding every
floating-IsLexeme c d f s first_digit digits decimals suffix line file g u gap =
    let behind = b'.' ∷ (f ++ (s ++ (g ∷ u))) in
    let whole =
      append_assoc d (b'.' ∷ (f ++ s)) (g ∷ u)
      ∙ ap (λ w. d ++ (b'.' ∷ w)) (append_assoc f s (g ∷ u)) in
    let ends =
      first-either is_float_suffix (λ b. is_digit b || is_dec_mark b) s (g ∷ u)
        (λ b m. ground arith) suffix (ground arith) in
    let no_hex =
      first-either is_digit (λ b. b == b'x' || b == b'X') d behind (λ b m. ground arith) digits
        refl in
    let tail =
      digits_tail-floating (c ∷ d) f s (g ∷ u) (ground arith) decimals suffix ends (ground arith) in
    let one = length-append d (b'.' ∷ (f ++ s)) in
    let two = length-append f s in
    number-IsLexeme line file c (d ++ (b'.' ∷ (f ++ s))) (g ∷ u) first_digit
      (ap (number_width c) whole ∙ number_width-decimal c (d ++ behind) no_hex ∙ tail ∙ omega arith)
