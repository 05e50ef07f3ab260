-- ===== src/Lexer/Scan.antt =====
-- One round of the loop of src/lexer.c: what starts at a byte, and how far it goes.
use b1cc.Common.{
  ℕ, suc, ◌+◌, ◌-◌, ◌*◌, ◌%◌, ◌^◌, Bool, true, false, ◌&&◌, ◌||◌, not, [], ◌∷◌, ◌++◌, ◌==◌, leb,
  if◌then◌else◌, length, take, drop, get_or, Bytes, codes, str_eq,
}
use b1cc.Preproc.{is_digit, is_alpha, is_alnum, is_space}
use b1cc.Preproc.Tokens.{span}

-- Pass over some bytes, push a token with its text, pass over a line marker, push the counter, or
-- report an error.
pub data Step : Type 0 where
  pass : ℕ → Step
  token : ℕ → Bytes → Step
  marker : ℕ → ℕ → Step
  counted : ℕ → Step
  refuse : Bytes → Step

abbrev pub is_xdigit : ℕ → Bool
is_xdigit c = is_digit c || (leb b'a' c && leb c b'f') || (leb b'A' c && leb c b'F')

abbrev pub not_newline : ℕ → Bool
not_newline c = not (c == 10)

abbrev pub is_blank : ℕ → Bool
is_blank c = c == b' ' || c == 9

abbrev pub in_ident : ℕ → Bool
in_ident c = is_alnum c || c == b'_'

-- The byte at the start, 0 at the end of the text, where the source compares the index first.
abbrev pub first : Bytes → ℕ
first s = get_or s 0 0

unfoldable pub elem : ℕ → Bytes → Bool
elem c [] = false
elem c (d ∷ s) = c == d || elem c s

-- `marker_line`, a `long`
unfoldable pub marker_value : ℕ → Bytes → ℕ
marker_value v [] = v
marker_value v (c ∷ s) = marker_value ((v * 10 + (c - b'0')) % 2 ^ 64) s

-- `.` and digits
unfoldable pub fraction_width : (ℕ → Bool) → Bytes → ℕ
unfolding span
fraction_width p s = if first s == b'.' then suc (span p (drop 1 s)) else 0

abbrev sign_width : Bytes → ℕ
sign_width s = if first s == b'+' || first s == b'-' then 1 else 0

unfoldable pub exponent_width : (ℕ → Bool) → Bytes → ℕ
unfolding span
exponent_width is_mark s =
    if is_mark (first s)
    then suc (sign_width (drop 1 s) + span is_digit (drop (sign_width (drop 1 s)) (drop 1 s)))
    else 0

abbrev pub is_float_suffix : ℕ → Bool
is_float_suffix c = c == b'f' || c == b'F' || c == b'l' || c == b'L'

abbrev pub is_int_suffix : ℕ → Bool
is_int_suffix c = c == b'u' || c == b'U' || c == b'l' || c == b'L'

unfoldable pub suffix_width : Bool → Bytes → ℕ
unfolding span
suffix_width false s = span is_int_suffix s
suffix_width true s =
    let letters = span is_float_suffix s in
    letters + (if first (drop letters s) == b'i' || first (drop letters s) == b'I' then 1 else 0)

-- What is behind the digits: fraction, exponent and suffix.
unfoldable pub number_tail : (ℕ → Bool) → (ℕ → Bool) → Bytes → ℕ
unfolding fraction_width exponent_width suffix_width
number_tail p is_mark s =
    let f = fraction_width p s in
    let e = exponent_width is_mark (drop f s) in
    f + e + suffix_width (not (f + e == 0)) (drop e (drop f s))

abbrev pub is_hex_mark : ℕ → Bool
is_hex_mark c = c == b'p' || c == b'P'

abbrev pub is_dec_mark : ℕ → Bool
is_dec_mark c = c == b'e' || c == b'E'

-- The digits, and what is behind them.
unfoldable pub digits_tail : (ℕ → Bool) → (ℕ → Bool) → Bytes → ℕ
unfolding span number_tail
digits_tail p is_mark s = span p s + number_tail p is_mark (drop (span p s) s)

unfoldable pub number_width : ℕ → Bytes → ℕ
unfolding digits_tail
number_width c s =
    if c == b'0' && (first s == b'x' || first s == b'X')
    then suc (suc (digits_tail is_xdigit is_hex_mark (drop 1 s)))
    else digits_tail is_digit is_dec_mark (c ∷ s)

-- The bytes of a literal up to the closing quote, or up to the end of the text.
unfoldable pub literal_body : ℕ → Bytes → ℕ
literal_body quote [] = 0
literal_body quote (c ∷ []) = if c == quote then 0 else 1
literal_body quote (c ∷ d ∷ s) =
    let escape = literal_body quote s in
    let plain = literal_body quote (d ∷ s) in
    if c == quote then 0 else if c == b'\\' then suc (suc escape) else suc plain

-- The literal whose opening quote is before `s`; `lead` and `keep` are what its token has before
-- the quote.
unfoldable pub literal : ℕ → ℕ → Bytes → Bytes → Bytes → Step
literal quote lead keep s msg =
    let body = literal_body quote s in
    if body == length s
    then refuse msg
    else token (lead + (body + 2)) (keep ++ quote ∷ take (body + 1) s)

-- The bytes before the closing `*/`; at the end of the text the last byte is not looked at.
unfoldable pub block_body : Bytes → ℕ
block_body [] = 0
block_body (c ∷ []) = 0
block_body (c ∷ d ∷ s) =
    let more = block_body (d ∷ s) in if c == b'*' && d == b'/' then 0 else suc more

abbrev is_op3 : ℕ → Bytes → Bool
is_op3 c s =
    (c == b'<' && first s == b'<' && get_or s 1 0 == b'=')
    || (c == b'>' && first s == b'>' && get_or s 1 0 == b'=')

abbrev is_op2 : ℕ → ℕ → Bool
is_op2 c d =
    (d == b'=' && elem c (codes "=!<>+-*/%&^|"))
    || (c == b'-' && d == b'>')
    || (c == d && elem c (codes "&|<>+-"))

-- `preprocessor_current_file` as a literal
unfoldable pub file_text : Bytes → Bytes
file_text [] = b'"' ∷ []
file_text (c ∷ s) = if c == b'\\' || c == b'"' then b'\\' ∷ c ∷ file_text s else c ∷ file_text s

-- `#`: a line marker, or an operator of macro bodies
unfoldable pub scan_hash : Bytes → Step
scan_hash s =
    let blanks = span is_blank s in
    let number = drop blanks s in
    if is_digit (first number)
    then marker (suc (span not_newline s)) (marker_value 0 (take (span is_digit number) number))
    else if first s == b'#'
    then token 2 (codes "##")
    else token 1 (codes "#")

-- An identifier, a wide literal or a predefined macro.
unfoldable pub scan_ident : Bytes → Bytes → Bytes → Bytes → Step
scan_ident line_text file ident s =
    if str_eq ident (codes "L") && first s == b'"'
    then literal b'"' 1 (codes "L") (drop 1 s) (codes "unterminated wide string literal")
    else if str_eq ident (codes "L") && first s == b'\''
    then literal b'\'' 1 [] (drop 1 s) (codes "unterminated wide character literal")
    else if str_eq ident (codes "__LINE__")
    then token (length ident) line_text
    else if str_eq ident (codes "__FILE__")
    then token (length ident) (b'"' ∷ file_text file)
    else if str_eq ident (codes "__COUNTER__")
    then counted (length ident)
    else token (length ident) ident

-- Literals, operators and what is no token.
unfoldable pub scan_other : ℕ → Bytes → Step
scan_other c s =
    if c == b'"'
    then literal b'"' 0 [] s (codes "unterminated string literal")
    else if c == b'\''
    then literal b'\'' 0 [] s (codes "unterminated character literal")
    else if c == b'.' && first s == b'.' && get_or s 1 0 == b'.'
    then token 3 (codes "...")
    else if is_op3 c s
    then token 3 (take 3 (c ∷ s))
    else if is_op2 c (first s)
    then token 2 (take 2 (c ∷ s))
    else if elem c (codes "{}[](),;=+-*/%<>.&!|^~:?")
    then token 1 (c ∷ [])
    else refuse (codes "unexpected character '" ++ c ∷ codes "'")

-- `line_text` is what `__LINE__` becomes.
unfoldable pub scan : Bytes → Bytes → ℕ → Bytes → Step
scan line_text file c s =
    if is_space c
    then pass 1
    else if c == b'#'
    then scan_hash s
    else if c == b'/' && first s == b'/'
    then pass (suc (suc (span not_newline (drop 1 s))))
    else if c == b'/' && first s == b'*'
    then (if block_body (drop 1 s) + 1 == length (drop 1 s)
        then refuse (codes "unterminated block comment")
        else pass (suc (suc (block_body (drop 1 s) + 2))))
    else if is_digit c || (c == b'.' && is_digit (first s))
    then token (number_width c s) (take (number_width c s) (c ∷ s))
    else if is_alpha c
    then scan_ident line_text file (c ∷ take (span in_ident s) s) (drop (span in_ident s) s)
    else scan_other c s
