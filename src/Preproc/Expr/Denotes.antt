-- ===== src/Preproc/Expr/Denotes.antt =====
-- The values of the expressions of #if in C, with `long` of 64 bits, and without the program's
-- operations: sums and products as equations between natural numbers, quotients by their
-- remainders, bits by the patterns.
use b1cc.Common.{ℕ, zero, suc, ◌+◌, ◌*◌, ◌^◌, ◌≤◌, ◌<◌, ◌≡◌, ◌≢◌, ◌⊎◌, Bool, true, false, Bytes}
use b1cc.Common.Int.{ℤ, pos, negsuc, pos_part, neg_part, to_u64}
use Prim.Native.Nat.{bit_and, bit_or, bit_xor}
use b1cc.Preproc.Expr.Syntax.{
  Binary, mul, div, rem, add, sub, shl, shr, lt, gt, le, ge, eq, ne, band, bxor, bor, and, or,
  Unary, not_op, complement_op, neg_op, plus_op, Expr, number, character, escaped, unary, binary,
  escape_value, EscapeChar,
}

-- A number of type `long`.
abbrev pub InRange : ℤ → Type 0
InRange c = (pos_part c < 2 ^ 63) × (neg_part c ≤ 2 ^ 63)

abbrev pub IsSum : ℤ → ℤ → ℤ → Type 0
IsSum a b c = pos_part a + pos_part b + neg_part c ≡ pos_part c + (neg_part a + neg_part b)

abbrev IsProduct : ℤ → ℤ → ℤ → Type 0
IsProduct a b c =
    pos_part a * pos_part b + neg_part a * neg_part b + neg_part c
    ≡ pos_part c + (pos_part a * neg_part b + neg_part a * pos_part b)

abbrev pub Less : ℤ → ℤ → Type 0
Less a b = pos_part a + neg_part b < pos_part b + neg_part a

-- 1 where something holds, and 0 where it does not.
pub data Truth (P : Type 0) : ℤ → Type 0 where
  holds : P → Truth P (pos 1)
  fails : ¬ P → Truth P (pos 0)

abbrev pub abs : ℤ → ℕ
abs (pos n) = n
abs (negsuc n) = suc n

-- A magnitude with a sign.
abbrev pub signed : Bool → ℕ → ℤ
signed false n = pos n
signed true zero = pos 0
signed true (suc n) = negsuc n

abbrev pub negative : ℤ → Bool
negative (pos n) = false
negative (negsuc n) = true

abbrev pub differ : Bool → Bool → Bool
differ true true = false
differ false b = b
differ true false = true

-- The results of the operators where C defines them; a division by zero gives 0. An overflow has no
-- result, and neither has a shift by a negative number or by 64 or more, or a left shift of a
-- negative number.
pub data Gives : Binary → ℤ → ℤ → ℤ → Type 0 where
  product : {a b c : ℤ} → IsProduct a b c → Gives mul a b c
  quotient :
      {a b : ℤ} (q r : ℕ)
      → abs a ≡ q * abs b + r
      → r < abs b
      → Gives div a b (signed (differ (negative a) (negative b)) q)
  remainder :
      {a b : ℤ} (q r : ℕ)
      → abs a ≡ q * abs b + r
      → r < abs b
      → InRange (signed (differ (negative a) (negative b)) q)
      → Gives rem a b (signed (negative a) r)
  div_by_zero : {a : ℤ} → Gives div a (pos 0) (pos 0)
  rem_by_zero : {a : ℤ} → Gives rem a (pos 0) (pos 0)
  sum : {a b c : ℤ} → IsSum a b c → Gives add a b c
  difference : {a b c : ℤ} → IsSum c b a → Gives sub a b c
  shifted_left : (m n : ℕ) → n < 64 → Gives shl (pos m) (pos n) (pos (m * 2 ^ n))
  shifted_right :
      (m n q r : ℕ) → n < 64 → m ≡ q * 2 ^ n + r → r < 2 ^ n → Gives shr (pos m) (pos n) (pos q)
  shifted_negative :
      (m n q r : ℕ)
      → n < 64
      → m ≡ q * 2 ^ n + r
      → r < 2 ^ n
      → Gives shr (negsuc m) (pos n) (negsuc q)
  less : {a b c : ℤ} → Truth (Less a b) c → Gives lt a b c
  greater : {a b c : ℤ} → Truth (Less b a) c → Gives gt a b c
  at_most : {a b c : ℤ} → Truth (¬ Less b a) c → Gives le a b c
  at_least : {a b c : ℤ} → Truth (¬ Less a b) c → Gives ge a b c
  equal : {a b c : ℤ} → Truth (a ≡ b) c → Gives eq a b c
  unequal : {a b c : ℤ} → Truth (a ≢ b) c → Gives ne a b c
  bits_and : {a b c : ℤ} → to_u64 c ≡ bit_and (to_u64 a) (to_u64 b) → Gives band a b c
  bits_xor : {a b c : ℤ} → to_u64 c ≡ bit_xor (to_u64 a) (to_u64 b) → Gives bxor a b c
  bits_or : {a b c : ℤ} → to_u64 c ≡ bit_or (to_u64 a) (to_u64 b) → Gives bor a b c
  both : {a b c : ℤ} → Truth ((a ≢ pos 0) × (b ≢ pos 0)) c → Gives and a b c
  either : {a b c : ℤ} → Truth ((a ≢ pos 0) ⊎ (b ≢ pos 0)) c → Gives or a b c

pub data UnaryGives : Unary → ℤ → ℤ → Type 0 where
  is_zero : {a c : ℤ} → Truth (a ≡ pos 0) c → UnaryGives not_op a c
  complement : {a c : ℤ} → IsSum a c (negsuc 0) → UnaryGives complement_op a c
  opposite : {a c : ℤ} → IsSum a c (pos 0) → UnaryGives neg_op a c
  same : {a : ℤ} → UnaryGives plus_op a a

-- What an expression denotes: every number is signed, whatever its suffix.
pub data Denotes (strtol : Bytes → ℤ) : Expr → ℤ → Type 0 where
  of_number :
      {digits suffix : Bytes}
      → InRange (strtol digits)
      → Denotes strtol (number digits suffix) (strtol digits)
  of_character : {c : ℕ} → c < 128 → Denotes strtol (character c) (pos c)
  of_escaped : {e : EscapeChar} → Denotes strtol (escaped e) (pos (escape_value e))
  of_unary :
      {u : Unary} {x : Expr} {a c : ℤ}
      → Denotes strtol x a
      → UnaryGives u a c
      → InRange c
      → Denotes strtol (unary u x) c
  of_binary :
      {o : Binary} {x y : Expr} {a b c : ℤ}
      → Denotes strtol x a
      → Denotes strtol y b
      → Gives o a b c
      → InRange c
      → Denotes strtol (binary o x y) c
