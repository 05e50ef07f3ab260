-- ===== src/Preproc/Tokens/Render.antt =====
-- From the text of an expression to its value: the tokens that are written with blanks between them
-- are the ones that get_expr_tokens gives.
use b1cc.Common.{
  ℕ, zero, suc, ◌+◌, ◌≤◌, ◌≡◌, ◌≢◌, refl, ap, ◌∙◌, Bool, true, false, ◌&&◌, ◌||◌, if◌then◌else◌,
  some, List, [], ◌∷◌, ◌++◌, append_assoc, arith, Bytes, inl, inr, Bool-cases, length,
  length-append, get_or, ltb, take, drop, take-prefix, drop-prefix, All, ◌==◌,
}
use b1cc.Common.Int.{ℤ}
use b1cc.Preproc.{is_digit, is_alnum, is_space}
use b1cc.Preproc.Tokens.{
  span, closing, one_char, char_length, number_length, token_length, tokens_loop, get_expr_tokens,
  eval_text,
}
use b1cc.Preproc.Tokens.Split.{tokens_loop-blank, tokens_loop-token, eval_text-tokens}
use b1cc.Preproc.Expr.{is_suffix}
use b1cc.Preproc.Expr.Denotes.{Denotes}
use b1cc.Preproc.Expr.Results.{value-Denotes}
use b1cc.Preproc.Expr.Syntax.{
  Expr, number, character, escaped, unary, binary, Binary, mul, div, rem, add, sub, shl, shr, lt,
  gt, le, ge, eq, ne, band, bxor, bor, and, or, not_op, complement_op, neg_op, plus_op, nul,
  newline, tab, backslash, quote, Unary, EscapeChar, binary_text, unary_text, escape_letter,
  parenthesized, precedence, print, value, WellFormed, all_suffix,
}
use b1cc.Preproc.Expr.Correct.{eval_tokens-print}

-- The tokens with a blank behind each.
unfoldable pub render : List Bytes → Bytes
render [] = []
render (t ∷ ts) = t ++ (b' ' ∷ render ts)

-- A byte string that get_expr_tokens takes for one token where a blank follows.
abbrev IsToken : Bytes → Type 0
IsToken [] = true ≡ false
IsToken (c ∷ t) =
    (is_space c ≡ false) × ((s : Bytes) → token_length c (t ++ (b' ' ∷ s)) ≡ suc (length t))

tokens_loop-render :
    (n : ℕ) (ts : List Bytes)
    → All IsToken ts
    → length (render ts) ≤ n
    → tokens_loop n (render ts) ≡ some ts
unfolding render tokens_loop is_space
tokens_loop-render zero [] all h = refl
tokens_loop-render (suc n) [] all h = refl
tokens_loop-render n ([] ∷ ts) (odd, all) h = absurd cc
tokens_loop-render zero ((c ∷ t) ∷ ts) ((solid, width), all) h = absurd (omega arith)
tokens_loop-render (suc zero) ((c ∷ t) ∷ ts) ((solid, width), all) h =
    absurd (omega (arith, length-append t (b' ' ∷ render ts)))
tokens_loop-render (suc (suc n)) ((c ∷ t) ∷ ts) ((solid, width), all) h =
    let short = length-append t (b' ' ∷ render ts) in
    let rest = tokens_loop-render n ts all (omega arith) in
    let w = width (render ts) in
    let behind : tokens_loop (suc n) (b' ' ∷ render ts) ≡ some ts =
      tokens_loop-blank n b' ' (render ts) refl ∙ rest in
    let whole = t ++ (b' ' ∷ render ts) in
    tokens_loop-token (suc n) c whole ts solid (
      ap (λ k. tokens_loop (suc n) (drop k (c ∷ whole))) w
      ∙ ap (tokens_loop (suc n)) (drop-prefix (c ∷ t) (b' ' ∷ render ts))
      ∙ behind)
    ∙ ap (λ k. some (take k (c ∷ whole) ∷ ts)) w
    ∙ ap (λ u. some (u ∷ ts)) (take-prefix (c ∷ t) (b' ' ∷ render ts))

binary_text-IsToken : (o : Binary) → IsToken (binary_text o)
unfolding is_space token_length span number_length
binary_text-IsToken mul = (refl, λ s. refl)
binary_text-IsToken div = (refl, λ s. refl)
binary_text-IsToken rem = (refl, λ s. refl)
binary_text-IsToken add = (refl, λ s. refl)
binary_text-IsToken sub = (refl, λ s. refl)
binary_text-IsToken shl = (refl, λ s. refl)
binary_text-IsToken shr = (refl, λ s. refl)
binary_text-IsToken lt = (refl, λ s. refl)
binary_text-IsToken gt = (refl, λ s. refl)
binary_text-IsToken le = (refl, λ s. refl)
binary_text-IsToken ge = (refl, λ s. refl)
binary_text-IsToken eq = (refl, λ s. refl)
binary_text-IsToken ne = (refl, λ s. refl)
binary_text-IsToken band = (refl, λ s. refl)
binary_text-IsToken bxor = (refl, λ s. refl)
binary_text-IsToken bor = (refl, λ s. refl)
binary_text-IsToken and = (refl, λ s. refl)
binary_text-IsToken or = (refl, λ s. refl)

unary_text-IsToken : (u : Unary) → IsToken (unary_text u)
unfolding is_space token_length span number_length
unary_text-IsToken not_op = (refl, λ s. refl)
unary_text-IsToken complement_op = (refl, λ s. refl)
unary_text-IsToken neg_op = (refl, λ s. refl)
unary_text-IsToken plus_op = (refl, λ s. refl)

escaped-IsToken : (e : EscapeChar) → IsToken (b'\'' ∷ b'\\' ∷ escape_letter e ∷ b'\'' ∷ [])
unfolding is_space token_length char_length one_char closing
escaped-IsToken nul = (refl, λ s. refl)
escaped-IsToken newline = (refl, λ s. refl)
escaped-IsToken tab = (refl, λ s. refl)
escaped-IsToken backslash = (refl, λ s. refl)
escaped-IsToken quote = (refl, λ s. refl)

character-IsToken : (c : ℕ) → c ≢ b'\\' → IsToken (b'\'' ∷ c ∷ b'\'' ∷ [])
unfolding is_space token_length char_length one_char closing
character-IsToken c other = (refl, λ s. ground arith)

unfoldable pub every : (ℕ → Bool) → Bytes → Bool
every p [] = true
every p (c ∷ s) = p c && every p s

pub span-append :
    (p : ℕ → Bool) (t u : Bytes) → every p t ≡ true → span p (t ++ u) ≡ length t + span p u
unfolding every span
span-append p [] u h = omega arith
span-append p (c ∷ t) u h = elim (Bool-cases (p c)) [
  | inl e ↦ let rest = span-append p t u (rw e at h) in rw (e, if◌then◌else◌) (omega arith)
  | inr e ↦ let clash = rw e at h in absurd cc
]

-- Decimal or octal digits, or a hexadecimal number.
unfoldable pub is_literal : Bytes → Bool
is_literal [] = false
is_literal (c ∷ []) = is_digit c
is_literal (c ∷ d ∷ s) =
    every is_digit (c ∷ d ∷ s) || (c == b'0' && (d == b'x' || d == b'X') && every is_alnum s)

every-suffix :
    (p : ℕ → Bool) (s : Bytes)
    → ((c : ℕ) → is_suffix c ≡ true → p c ≡ true)
    → all_suffix s ≡ true
    → every p s ≡ true
unfolding every all_suffix
every-suffix p [] h g = refl
every-suffix p (c ∷ s) h g = ground (arith, h c, every-suffix p s h)

-- What follows the digits of a number.
span-digits : (s u : Bytes) → all_suffix s ≡ true → span is_digit (s ++ (b' ' ∷ u)) ≡ 0
unfolding span all_suffix
span-digits [] u g = refl
span-digits (c ∷ s) u g = ground arith

number_length-literal :
    (d s u : Bytes)
    → every is_digit d ≡ true
    → all_suffix s ≡ true
    → number_length (d ++ (s ++ (b' ' ∷ u))) ≡ length d + length s
unfolding number_length span
number_length-literal d s u h g =
    let behind = s ++ (b' ' ∷ u) in
    let digits : span is_digit (d ++ behind) ≡ length d =
      omega (arith, span-append is_digit d behind h, span-digits s u g) in
    let suffix : span is_suffix behind ≡ length s =
      omega (arith, span-append is_suffix s (b' ' ∷ u) (every-suffix is_suffix s (λ c e. e) g)) in
    rw digits (rw (drop-prefix d behind) (rw suffix refl))

token_length-decimal :
    (c : ℕ) (u : Bytes)
    → is_digit c ≡ true
    → get_or u 0 0 ≢ b'x'
    → get_or u 0 0 ≢ b'X'
    → token_length c u ≡ number_length (c ∷ u)
unfolding token_length
token_length-decimal c [] h x y = ground arith
token_length-decimal c (d ∷ u) h x y = ground arith

-- No letter that makes a number hexadecimal follows the first digit.
no_hex :
    (d s u : Bytes) (x : ℕ)
    → is_digit x || is_suffix x || x == b' ' ≡ false
    → every is_digit d ≡ true
    → all_suffix s ≡ true
    → get_or (d ++ (s ++ (b' ' ∷ u))) 0 0 ≢ x
unfolding every all_suffix
no_hex [] [] u x e h g = ground arith
no_hex [] (c ∷ s) u x e h g = ground arith
no_hex (c ∷ d) s u x e h g = ground arith

decimal-IsToken :
    (c : ℕ) (d s : Bytes)
    → every is_digit (c ∷ d) ≡ true
    → all_suffix s ≡ true
    → IsToken (c ∷ (d ++ s))
unfolding every is_space
decimal-IsToken c d s h g =
    let first : is_digit c ≡ true = ground arith in
    let others : every is_digit d ≡ true = ground arith in
    (
      ground arith,
      λ u.
          let behind = d ++ (s ++ (b' ' ∷ u)) in
          let total = length-append d s in
          ap (token_length c) (append_assoc d s (b' ' ∷ u))
          ∙ token_length-decimal c behind first (no_hex d s u b'x' refl others g)
              (no_hex d s u b'X' refl others g)
          ∙ number_length-literal (c ∷ d) s u h g
          ∙ omega arith,
    )

hexadecimal-IsToken :
    (c x : ℕ) (d s : Bytes)
    → c == b'0' && (x == b'x' || x == b'X') ≡ true
    → every is_alnum d ≡ true
    → all_suffix s ≡ true
    → IsToken (c ∷ x ∷ (d ++ s))
unfolding every is_space token_length span
hexadecimal-IsToken c x d s e h g = (
  ground arith,
  λ u.
      let total = length-append d s in
      let one = span-append is_alnum d (s ++ (b' ' ∷ u)) h in
      let two =
        span-append is_alnum s (b' ' ∷ u) (every-suffix is_alnum s (λ c m. ground arith) g) in
      let whole = ap (span is_alnum) (append_assoc d s (b' ' ∷ u)) in
      let letters : span is_alnum ((d ++ s) ++ (b' ' ∷ u)) ≡ length (d ++ s) = omega arith in
      let notquote : c == b'\'' ≡ false = ground arith in
      rw (notquote, if◌then◌else◌) (rw (e, if◌then◌else◌) (rw letters refl)),
)

literal-IsToken : (d s : Bytes) → is_literal d ≡ true → all_suffix s ≡ true → IsToken (d ++ s)
unfolding is_literal every
literal-IsToken [] s h g = absurd cc
literal-IsToken (c ∷ []) s h g = decimal-IsToken c [] s (ground arith) g
literal-IsToken (c ∷ x ∷ d) s h g = elim (Bool-cases (every is_digit (c ∷ x ∷ d))) [
  | inl decimal ↦ decimal-IsToken c (x ∷ d) s decimal g
  | inr other ↦ hexadecimal-IsToken c x d s (ground arith) (ground arith) g
]

-- The numbers of the expression are decimal, octal or hexadecimal.
unfoldable pub Lexical : Expr → Type 0
Lexical (number digits suffix) = is_literal digits ≡ true
Lexical (character c) = Unit
Lexical (escaped e) = Unit
Lexical (unary u a) = Lexical a
Lexical (binary o a b) = Lexical a × Lexical b

All-append : (P : Bytes → Type 0) (xs ys : List Bytes) → All P xs → All P ys → All P (xs ++ ys)
All-append P [] ys h g = g
All-append P (x ∷ xs) ys (p, h) g = (p, All-append P xs ys h g)

parenthesized-IsToken :
    (b : Bool) (ts : List Bytes) → All IsToken ts → All IsToken (parenthesized b ts)
unfolding is_space token_length span number_length
parenthesized-IsToken true ts h = h
parenthesized-IsToken false ts h =
    ((refl, λ s. refl), All-append IsToken ts _ h ((refl, λ s. refl), tt))

print-IsToken : (k : ℕ) (e : Expr) → WellFormed e → Lexical e → All IsToken (print k e)
unfolding print WellFormed Lexical
print-IsToken k (number digits suffix) (first, last, ends, bound) l =
    (literal-IsToken digits suffix l ends, tt)
print-IsToken k (character c) w l = (character-IsToken c w, tt)
print-IsToken k (escaped e) w l = (escaped-IsToken e, tt)
print-IsToken k (unary u a) w l = (unary_text-IsToken u, print-IsToken 0 a w l)
print-IsToken k (binary o a b) (wa, wb) (la, lb) = parenthesized-IsToken (ltb (precedence o) k) _ (
    All-append IsToken (print (suc (precedence o)) a) _ (print-IsToken (suc (precedence o)) a wa la)
      (binary_text-IsToken o, print-IsToken (precedence o) b wb lb))

eval_text-value :
    (strtol : Bytes → ℤ) (e : Expr)
    → WellFormed e
    → Lexical e
    → eval_text strtol (render (print 10 e)) ≡ some (value strtol e)
unfolding get_expr_tokens
eval_text-value strtol e w l =
    let ts = print 10 e in
    eval_text-tokens strtol (render ts) ts [] (value strtol e)
      (tokens_loop-render (length (render ts)) ts (print-IsToken 10 e w l) (omega arith))
      (eval_tokens-print strtol e w)

-- The text of an expression of #if, its tokens with parentheses where the precedences of C ask for
-- them and a blank behind each, evaluates to what the expression denotes, where it denotes a
-- number: every number is signed, whatever its suffix, and fits a long of 64 bits, no operator
-- overflows, a division truncates, a division by zero gives 0, and a shift counts less than 64.
pub eval_text-render :
    (strtol : Bytes → ℤ) (e : Expr) (v : ℤ)
    → WellFormed e
    → Lexical e
    → Denotes strtol e v
    → eval_text strtol (render (print 10 e)) ≡ some v
eval_text-render strtol e v w l d =
    eval_text-value strtol e w l ∙ ap some (value-Denotes strtol d).0
