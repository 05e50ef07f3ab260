-- ===== src/Preproc/Expr.antt =====
-- The evaluator of #if in src/preprocessor.c: the functions ep_*. The parser's state is the list of
-- the tokens from its position on; taking a token behind the last one leaves it empty. A `long` has
-- 64 bits: what the source leaves undefined wraps around, and a shift counts modulo 64, as on both
-- targets. `strtol(s, nullptr, 0)` is the host's, a parameter.
pub mod Syntax
pub mod Levels
pub mod Correct
pub mod Total
pub mod Denotes
pub mod Results
use Prim.Native.Nat.{bit_and, bit_or, bit_xor}
use b1cc.Common.{
  ℕ, zero, suc, ◌+◌, ◌*◌, ◌/◌, ◌%◌, ◌^◌, Bool, true, false, ◌&&◌, ◌||◌, not, Option, none, some,
  List, [], ◌∷◌, ◌==◌, if◌then◌else◌, length, get_or, take, drop, Bytes, codes, str_eq,
}
use b1cc.Common.Int.{
  ℤ, pos, negsuc, pos_part, neg_part, sub_ℕ, neg_ℤ, ltb_ℤ, to_u64, from_u64, ◌+ℤ◌, ◌-ℤ◌,
}
use b1cc.Runtime.Divide.{quot_ℤ, rem_ℤ}
use b1cc.Preproc.{is_digit}

abbrev pub Tokens : Type 0
Tokens = List Bytes

-- A function ep_*: the value and the tokens left; `none` means that the fuel ran out.
abbrev pub Parser : Type 0
Parser = Tokens → Option (ℤ × Tokens)

abbrev pub BinaryOp : Type 0
BinaryOp = ℤ → ℤ → ℤ

pub wrap : ℤ → ℤ
wrap a = from_u64 (to_u64 a)

pub of_bool : Bool → ℤ
of_bool b = if b then pos 1 else pos 0

pub is_true : ℤ → Bool
is_true (pos n) = not (n == 0)
is_true (negsuc n) = true

pub mul_long : BinaryOp
unfolding wrap
mul_long a b = wrap (
    sub_ℕ (pos_part a * pos_part b + neg_part a * neg_part b)
      (pos_part a * neg_part b + neg_part a * pos_part b))

-- Where C gives no result, for -2 ^ 63 by -1, the one here is arbitrary, as that of rem_long.
pub div_long : BinaryOp
unfolding wrap is_true
div_long a b = if is_true b then wrap (quot_ℤ a b) else pos 0

pub rem_long : BinaryOp
unfolding wrap is_true
rem_long a b = if is_true b then rem_ℤ a b else pos 0

pub add_long : BinaryOp
unfolding wrap ◌+ℤ◌
add_long a b = wrap (a +ℤ b)

pub sub_long : BinaryOp
unfolding wrap ◌-ℤ◌
sub_long a b = wrap (a -ℤ b)

pub shl_long : BinaryOp
unfolding wrap
shl_long a b = from_u64 (to_u64 a * 2 ^ (to_u64 b % 64) % 2 ^ 64)

pub shr_long : BinaryOp
shr_long (pos n) b = pos (n / 2 ^ (to_u64 b % 64))
shr_long (negsuc n) b = negsuc (n / 2 ^ (to_u64 b % 64))

abbrev eq_long : ℤ → ℤ → Bool
eq_long a b = to_u64 a == to_u64 b

pub not_long : ℤ → ℤ
unfolding of_bool is_true
not_long a = of_bool (not (is_true a))

pub complement_long : ℤ → ℤ
complement_long (pos n) = negsuc n
complement_long (negsuc n) = pos n

pub neg_long : ℤ → ℤ
unfolding wrap
neg_long a = wrap (neg_ℤ a)

unfoldable pub ep_peek : Tokens → Bytes
ep_peek [] = []
ep_peek (t ∷ ts) = t

-- The tokens behind the one that ep_take returns, which is ep_peek's.
unfoldable pub ep_take : Tokens → Tokens
ep_take ts = drop 1 ts

-- What each level does with a token that is one of its operators.
unfoldable pub mul_op : Bytes → Option BinaryOp
mul_op t =
    if str_eq t (codes "*")
    then some mul_long
    else if str_eq t (codes "/")
    then some div_long
    else if str_eq t (codes "%")
    then some rem_long
    else none

unfoldable pub add_op : Bytes → Option BinaryOp
add_op t =
    if str_eq t (codes "+")
    then some add_long
    else if str_eq t (codes "-")
    then some sub_long
    else none

unfoldable pub shift_op : Bytes → Option BinaryOp
shift_op t =
    if str_eq t (codes "<<")
    then some shl_long
    else if str_eq t (codes ">>")
    then some shr_long
    else none

unfoldable pub relational_op : Bytes → Option BinaryOp
relational_op t =
    if str_eq t (codes "<")
    then some (λ a b. of_bool (ltb_ℤ a b))
    else if str_eq t (codes ">")
    then some (λ a b. of_bool (ltb_ℤ b a))
    else if str_eq t (codes "<=")
    then some (λ a b. of_bool (not (ltb_ℤ b a)))
    else if str_eq t (codes ">=")
    then some (λ a b. of_bool (not (ltb_ℤ a b)))
    else none

unfoldable pub equality_op : Bytes → Option BinaryOp
equality_op t =
    if str_eq t (codes "==")
    then some (λ a b. of_bool (eq_long a b))
    else if str_eq t (codes "!=")
    then some (λ a b. of_bool (not (eq_long a b)))
    else none

unfoldable pub and_op : Bytes → Option BinaryOp
and_op t =
    if str_eq t (codes "&") then some (λ a b. from_u64 (bit_and (to_u64 a) (to_u64 b))) else none

unfoldable pub xor_op : Bytes → Option BinaryOp
xor_op t =
    if str_eq t (codes "^") then some (λ a b. from_u64 (bit_xor (to_u64 a) (to_u64 b))) else none

unfoldable pub or_op : Bytes → Option BinaryOp
or_op t =
    if str_eq t (codes "|") then some (λ a b. from_u64 (bit_or (to_u64 a) (to_u64 b))) else none

unfoldable pub eval_and_op : Bytes → Option BinaryOp
eval_and_op t =
    if str_eq t (codes "&&") then some (λ a b. of_bool (is_true a && is_true b)) else none

unfoldable pub eval_or_op : Bytes → Option BinaryOp
eval_or_op t =
    if str_eq t (codes "||") then some (λ a b. of_bool (is_true a || is_true b)) else none

-- The `while` loop of a level: while the next token is one of its operators, take it, read the
-- right operand and combine.
unfoldable pub left_loop : (Bytes → Option BinaryOp) → Parser → ℕ → ℤ → Tokens → Option (ℤ × Tokens)
left_loop op_of operand zero val ts = none
left_loop op_of operand (suc n) val ts = elim (op_of (ep_peek ts)) [
  | none ↦ some (val, ts)
  | some f ↦ elim (operand (ep_take ts)) [
    | none ↦ none
    | some (rhs, rest) ↦ left_loop op_of operand n (f val rhs) rest
  ]
]

-- The body of a level: a first operand and the loop.
unfoldable pub level : (Bytes → Option BinaryOp) → Parser → ℕ → Parser
level op_of operand n ts = elim (operand ts) [
  | none ↦ none
  | some (val, rest) ↦ left_loop op_of operand n val rest
]

-- The levels over what reads a primary expression, `n` the fuel of the loops.
module _ (primary : Parser) (n : ℕ) where
  abbrev ep_mul : Parser
  ep_mul = level mul_op primary n

  abbrev ep_add : Parser
  ep_add = level add_op ep_mul n

  abbrev ep_shift : Parser
  ep_shift = level shift_op ep_add n

  abbrev ep_relational : Parser
  ep_relational = level relational_op ep_shift n

  abbrev ep_equality : Parser
  ep_equality = level equality_op ep_relational n

  abbrev ep_and : Parser
  ep_and = level and_op ep_equality n

  abbrev ep_xor : Parser
  ep_xor = level xor_op ep_and n

  abbrev ep_or : Parser
  ep_or = level or_op ep_xor n

  abbrev ep_eval_and : Parser
  ep_eval_and = level eval_and_op ep_or n

  abbrev pub ep_eval_or : Parser
  ep_eval_or = level eval_or_op ep_eval_and n

abbrev pub is_suffix : ℕ → Bool
is_suffix c = c == b'u' || c == b'U' || c == b'l' || c == b'L'

-- The bytes before the last run of suffix letters.
unfoldable pub strip_suffix : Bytes → Bytes
strip_suffix [] = []
strip_suffix (c ∷ s) = elim (strip_suffix s) [
  | [] ↦ if is_suffix c then [] else c ∷ []
  | d ∷ t ↦ c ∷ d ∷ t
]

-- `is_digit(t[0]) || (t[0] == '0' && (t[1] == 'x' || t[1] == 'X'))`, where there is a `t[0]`
unfoldable pub starts_number : Bytes → Bool
starts_number [] = false
starts_number (c ∷ s) = is_digit c || (c == b'0' && (get_or s 0 0 == b'x' || get_or s 0 0 == b'X'))

unfoldable pub starts_quote : Bytes → Bool
starts_quote [] = false
starts_quote (c ∷ s) = c == b'\''

unfoldable pub char_value : Bytes → ℤ
char_value cs =
    let a = get_or cs 1 0 in
    let b = get_or cs 2 0 in
    if a == b'\\' && b == b'0'
    then pos 0
    else if a == b'\\' && b == b'n'
    then pos 10
    else if a == b'\\' && b == b't'
    then pos 9
    else if a == b'\\' && b == b'\\'
    then pos b'\\'
    else if a == b'\\' && b == b'\''
    then pos b'\''
    else pos a

-- A function of the value that was read.
abbrev pub with_value : (ℤ → ℤ) → Option (ℤ × Tokens) → Option (ℤ × Tokens)
with_value f none = none
with_value f (some (val, ts)) = some (f val, ts)

-- Without the token behind the value.
abbrev pub skip_close : Option (ℤ × Tokens) → Option (ℤ × Tokens)
skip_close none = none
skip_close (some (val, ts)) = some (val, ep_take ts)

-- The buffer of a number has 127 characters and the terminating zero.
unfoldable pub ep_primary : (Bytes → ℤ) → ℕ → Parser
ep_primary strtol zero ts = none
ep_primary strtol (suc n) ts =
    let t = ep_peek ts in
    elim (str_eq t (codes "(")) [
      | true ↦ skip_close (ep_eval_or (ep_primary strtol n) n (ep_take ts))
      | false ↦ elim (starts_number t) [
        | true ↦ some (strtol (strip_suffix (take 127 t)), ep_take ts)
        | false ↦ elim (starts_quote t) [
          | true ↦ some (char_value t, ep_take ts)
          | false ↦ elim (str_eq t (codes "!")) [
            | true ↦ with_value not_long (ep_primary strtol n (ep_take ts))
            | false ↦ elim (str_eq t (codes "~")) [
              | true ↦ with_value complement_long (ep_primary strtol n (ep_take ts))
              | false ↦ elim (str_eq t (codes "-")) [
                | true ↦ with_value neg_long (ep_primary strtol n (ep_take ts))
                | false ↦ elim (str_eq t (codes "+")) [
                  | true ↦ ep_primary strtol n (ep_take ts)
                  | false ↦ some (pos 0, ts)
                ]
              ]
            ]
          ]
        ]
      ]
    ]

-- The end of eval_preproc_expr: a parser at the first token, with more fuel than there are tokens.
unfoldable pub eval_tokens : (Bytes → ℤ) → Tokens → Option (ℤ × Tokens)
eval_tokens strtol ts = let n = suc (length ts) in ep_eval_or (ep_primary strtol n) n ts
