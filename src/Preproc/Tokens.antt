-- ===== src/Preproc/Tokens.antt =====
-- get_expr_tokens of src/preprocessor.c: the tokens of the text behind #if. The text is what lies
-- from the index on.
pub mod Split
pub mod Render
use b1cc.Common.{
  ℕ, zero, suc, ◌+◌, Bool, true, false, ◌&&◌, ◌||◌, Option, none, some, List, [], ◌∷◌, ◌==◌,
  if◌then◌else◌, length, take, drop, get_or, Bytes,
}
use b1cc.Preproc.{is_digit, is_alnum, is_space}
use b1cc.Common.Int.{ℤ}
use b1cc.Preproc.Expr.{is_suffix, eval_tokens}

-- How many bytes a `while` loop passes whose test is `p`.
unfoldable pub span : (ℕ → Bool) → Bytes → ℕ
span p [] = 0
span p (c ∷ s) = if p c then suc (span p s) else 0

-- The two bytes that are one operator.
abbrev is_pair : ℕ → ℕ → Bool
is_pair c d =
    (c == b'=' && d == b'=')
    || (c == b'!' && d == b'=')
    || (c == b'<' && d == b'=')
    || (c == b'>' && d == b'=')
    || (c == b'&' && d == b'&')
    || (c == b'|' && d == b'|')
    || (c == b'<' && d == b'<')
    || (c == b'>' && d == b'>')

-- `if (i < len && s[i] == '\'') i++`
unfoldable pub closing : Bytes → ℕ
closing [] = 0
closing (c ∷ s) = if c == b'\'' then 1 else 0

-- `if (i < len) i++` and the closing quote
unfoldable pub one_char : Bytes → ℕ
unfolding closing
one_char [] = 0
one_char (c ∷ s) = suc (closing s)

-- What a character constant has behind its opening quote.
unfoldable pub char_length : Bytes → ℕ
unfolding one_char
char_length [] = 0
char_length (c ∷ s) = if c == b'\\' then suc (one_char s) else one_char (c ∷ s)

unfoldable pub number_length : Bytes → ℕ
unfolding span
number_length s = span is_digit s + span is_suffix (drop (span is_digit s) s)

-- How far the index goes at the byte `c` with `s` behind it: character constant, hexadecimal number,
-- number, operator of two bytes, or one byte, an operator or not.
unfoldable pub token_length : ℕ → Bytes → ℕ
unfolding char_length span number_length
token_length c [] = if is_digit c then number_length (c ∷ []) else 1
token_length c (d ∷ s) =
    if c == b'\''
    then suc (char_length (d ∷ s))
    else if c == b'0' && (d == b'x' || d == b'X')
    then suc (suc (span is_alnum s))
    else if is_digit c
    then number_length (c ∷ d ∷ s)
    else if is_pair c d
    then 2
    else 1

-- The `while` loop with fuel: the tokens that it pushes. `none` means that the fuel ran out.
unfoldable pub tokens_loop : ℕ → Bytes → Option (List Bytes)
unfolding token_length
tokens_loop n [] = some []
tokens_loop zero (c ∷ s) = none
tokens_loop (suc n) (c ∷ s) =
    let width = if is_space c then 1 else token_length c s in
    let more = tokens_loop n (drop width (c ∷ s)) in
    if is_space c
    then more
    else elim more [ none ↦ none | some ts ↦ some (take (token_length c s) (c ∷ s) ∷ ts) ]

unfoldable pub get_expr_tokens : Bytes → Option (List Bytes)
unfolding tokens_loop
get_expr_tokens s = tokens_loop (length s) s

-- The end of eval_preproc_expr, where the macros are replaced: the tokens and their value, whatever
-- is behind the expression.
unfoldable pub eval_text : (Bytes → ℤ) → Bytes → Option ℤ
unfolding get_expr_tokens eval_tokens
eval_text strtol s = elim (get_expr_tokens s) [
  | none ↦ none
  | some ts ↦ elim (eval_tokens strtol ts) [ none ↦ none | some (val, rest) ↦ some val ]
]
