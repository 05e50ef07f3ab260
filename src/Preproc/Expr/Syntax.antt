-- ===== src/Preproc/Expr/Syntax.antt =====
-- The expressions that #if takes, without the program's functions: their tokens, with parentheses
-- where the precedences of C ask for them, and their values.
use b1cc.Common.{
  ℕ, suc, ◌<◌, ◌≡◌, ◌≢◌, Bool, true, false, ◌&&◌, ◌||◌, not, [], ◌∷◌, ◌++◌, ltb, ◌==◌, length,
  Bytes, codes,
}
use b1cc.Common.Int.{ℤ, pos, from_u64, to_u64, ltb_ℤ}
use Prim.Native.Nat.{bit_and, bit_or, bit_xor}
use b1cc.Preproc.{is_digit}
use b1cc.Preproc.Expr.{
  Tokens, BinaryOp, of_bool, is_true, mul_long, div_long, rem_long, add_long, sub_long, shl_long,
  shr_long, not_long, complement_long, neg_long, is_suffix,
}

pub data Binary : Type 0 where
  mul div rem add sub shl shr lt gt le ge eq ne band bxor bor and or : Binary

-- The binding strength, the tightest first: a right operand has operators below it, a left one also
-- those of its own.
abbrev pub precedence : Binary → ℕ
precedence mul = 0
precedence div = 0
precedence rem = 0
precedence add = 1
precedence sub = 1
precedence shl = 2
precedence shr = 2
precedence lt = 3
precedence gt = 3
precedence le = 3
precedence ge = 3
precedence eq = 4
precedence ne = 4
precedence band = 5
precedence bxor = 6
precedence bor = 7
precedence and = 8
precedence or = 9

abbrev pub binary_text : Binary → Bytes
binary_text mul = codes "*"
binary_text div = codes "/"
binary_text rem = codes "%"
binary_text add = codes "+"
binary_text sub = codes "-"
binary_text shl = codes "<<"
binary_text shr = codes ">>"
binary_text lt = codes "<"
binary_text gt = codes ">"
binary_text le = codes "<="
binary_text ge = codes ">="
binary_text eq = codes "=="
binary_text ne = codes "!="
binary_text band = codes "&"
binary_text bxor = codes "^"
binary_text bor = codes "|"
binary_text and = codes "&&"
binary_text or = codes "||"

abbrev pub meaning : Binary → BinaryOp
meaning mul = mul_long
meaning div = div_long
meaning rem = rem_long
meaning add = add_long
meaning sub = sub_long
meaning shl = shl_long
meaning shr = shr_long
meaning lt = λ a b. of_bool (ltb_ℤ a b)
meaning gt = λ a b. of_bool (ltb_ℤ b a)
meaning le = λ a b. of_bool (not (ltb_ℤ b a))
meaning ge = λ a b. of_bool (not (ltb_ℤ a b))
meaning eq = λ a b. of_bool (to_u64 a == to_u64 b)
meaning ne = λ a b. of_bool (not (to_u64 a == to_u64 b))
meaning band = λ a b. from_u64 (bit_and (to_u64 a) (to_u64 b))
meaning bxor = λ a b. from_u64 (bit_xor (to_u64 a) (to_u64 b))
meaning bor = λ a b. from_u64 (bit_or (to_u64 a) (to_u64 b))
meaning and = λ a b. of_bool (is_true a && is_true b)
meaning or = λ a b. of_bool (is_true a || is_true b)

pub data Unary : Type 0 where
  not_op complement_op neg_op plus_op : Unary

abbrev pub unary_text : Unary → Bytes
unary_text not_op = codes "!"
unary_text complement_op = codes "~"
unary_text neg_op = codes "-"
unary_text plus_op = codes "+"

abbrev pub unary_meaning : Unary → ℤ → ℤ
unary_meaning not_op a = not_long a
unary_meaning complement_op a = complement_long a
unary_meaning neg_op a = neg_long a
unary_meaning plus_op a = a

-- The escapes of a character constant.
pub data EscapeChar : Type 0 where
  nul newline tab backslash quote : EscapeChar

abbrev pub escape_letter : EscapeChar → ℕ
escape_letter nul = b'0'
escape_letter newline = b'n'
escape_letter tab = b't'
escape_letter backslash = b'\\'
escape_letter quote = b'\''

abbrev pub escape_value : EscapeChar → ℕ
escape_value nul = 0
escape_value newline = 10
escape_value tab = 9
escape_value backslash = 92
escape_value quote = 39

-- A number is its digits and its suffix.
pub data Expr : Type 0 where
  number : Bytes → Bytes → Expr
  character : ℕ → Expr
  escaped : EscapeChar → Expr
  unary : Unary → Expr → Expr
  binary : Binary → Expr → Expr → Expr

abbrev pub parenthesized : Bool → Tokens → Tokens
parenthesized true ts = ts
parenthesized false ts = codes "(" ∷ ts ++ codes ")" ∷ []

-- The tokens of an expression where operators of precedence below `k` may stand.
unfoldable pub print : ℕ → Expr → Tokens
print k (number digits suffix) = (digits ++ suffix) ∷ []
print k (character c) = (b'\'' ∷ c ∷ b'\'' ∷ []) ∷ []
print k (escaped e) = (b'\'' ∷ b'\\' ∷ escape_letter e ∷ b'\'' ∷ []) ∷ []
print k (unary u a) = unary_text u ∷ print 0 a
print k (binary o a b) =
    parenthesized (ltb (precedence o) k)
      (print (suc (precedence o)) a ++ binary_text o ∷ print (precedence o) b)

-- Whether a number starts with a digit, ends before the suffix and fits the buffer.
unfoldable pub is_number : Bytes → Bool
is_number [] = false
is_number (c ∷ s) = is_digit c

unfoldable pub ends_plain : Bytes → Bool
ends_plain [] = true
ends_plain (c ∷ []) = not (is_suffix c)
ends_plain (c ∷ s) = ends_plain s

unfoldable pub all_suffix : Bytes → Bool
all_suffix [] = true
all_suffix (c ∷ s) = is_suffix c && all_suffix s

unfoldable pub WellFormed : Expr → Type 0
WellFormed (number digits suffix) =
    (is_number digits ≡ true)
    × (ends_plain digits ≡ true)
    × (all_suffix suffix ≡ true)
    × (length (digits ++ suffix) < 128)
WellFormed (character c) = c ≢ b'\\'
WellFormed (escaped e) = Unit
WellFormed (unary u a) = WellFormed a
WellFormed (binary o a b) = WellFormed a × WellFormed b

-- The value, with what `strtol` makes of the digits.
unfoldable pub value : (Bytes → ℤ) → Expr → ℤ
value strtol (number digits suffix) = strtol digits
value strtol (character c) = pos c
value strtol (escaped e) = pos (escape_value e)
value strtol (unary u a) = unary_meaning u (value strtol a)
value strtol (binary o a b) = meaning o (value strtol a) (value strtol b)
