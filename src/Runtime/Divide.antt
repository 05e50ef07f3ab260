-- ===== src/Runtime/Divide.antt =====
-- The 64-bit division helpers of runtime/divdi3.c, over the 64-bit patterns of their arguments.
-- The unsigned division that they call is the target's own and is the native one here; the
-- division by zero is undefined in the source and left out by the theorems.
use native.Mathlib.Nat.{mod-lt}
use b1cc.Common.{
  ℕ, suc, ◌+◌, ◌-◌, ◌/◌, ◌%◌, ◌^◌, ◌≤◌, ◌<◌, ◌≡◌, ◌≢◌, refl, ◌⊎◌, Bool, true, false, arith, leb,
  if◌then◌else◌,
}
use b1cc.Common.Int.{ℤ, pos, negsuc, pos_part, neg_part, from_u64, neg_ℤ}

-- `a < 0` on the pattern, and `-a` with wrap-around
abbrev negative : ℕ → Bool
negative w = leb (2 ^ 63) w

abbrev negate : ℕ → ℕ
negate w = (2 ^ 64 - w) % 2 ^ 64

magnitude : ℕ → ℕ
magnitude w = if negative w then negate w else w

xor_flag : Bool → Bool → Bool
xor_flag true true = false
xor_flag true false = true
xor_flag false b = b

pub divdi3 : ℕ → ℕ → ℕ
unfolding magnitude xor_flag
divdi3 a b =
    let q = magnitude a / magnitude b in if xor_flag (negative a) (negative b) then negate q else q

moddi3 : ℕ → ℕ → ℕ
unfolding magnitude
moddi3 a b = let r = magnitude a % magnitude b in if negative a then negate r else r

udivdi3 : ℕ → ℕ → ℕ
udivdi3 a b = a / b

umoddi3 : ℕ → ℕ → ℕ
umoddi3 a b = a % b

-- Division and remainder of the integers that truncate towards zero, as C defines them.
abbrev abs : ℤ → ℕ
abs a = pos_part a + neg_part a

abbrev is_neg : ℤ → Bool
is_neg (pos n) = false
is_neg (negsuc n) = true

abbrev pub quot_ℤ : ℤ → ℤ → ℤ
quot_ℤ (pos a) (pos b) = pos (a / b)
quot_ℤ (pos a) (negsuc b) = neg_ℤ (pos (a / suc b))
quot_ℤ (negsuc a) (pos b) = neg_ℤ (pos (suc a / b))
quot_ℤ (negsuc a) (negsuc b) = pos (suc a / suc b)

abbrev pub rem_ℤ : ℤ → ℤ → ℤ
rem_ℤ (pos a) b = pos (a % abs b)
rem_ℤ (negsuc a) b = neg_ℤ (pos (suc a % abs b))

quot_flag :
    (a b : ℤ)
    → quot_ℤ a b ≡ (
        if xor_flag (is_neg a) (is_neg b) then neg_ℤ (pos (abs a / abs b)) else pos (abs a / abs b))
unfolding xor_flag
quot_flag a b = ground arith

rem_flag :
    (a b : ℤ) → rem_ℤ a b ≡ (if is_neg a then neg_ℤ (pos (abs a % abs b)) else pos (abs a % abs b))
rem_flag a b = ground arith

magnitude_lem : (a : ℕ) → a < 2 ^ 64 → magnitude a ≡ abs (from_u64 a)
unfolding magnitude
magnitude_lem a h = ground arith

negative_lem : (a : ℕ) → a < 2 ^ 64 → negative a ≡ is_neg (from_u64 a)
negative_lem a h = ground arith

quotient_bound : (x y : ℕ) → 0 < y → x ≤ 2 ^ 63 → x / y ≤ 2 ^ 63
quotient_bound x y p h = omega arith

quotient_small : (x y : ℕ) → 2 ≤ y → x ≤ 2 ^ 63 → x / y < 2 ^ 63
quotient_small x y p h = grind arith

-- What a pattern of magnitude `q` stands for, with a sign.
from_u64-negate : (q : ℕ) → q ≤ 2 ^ 63 → from_u64 (negate q) ≡ neg_ℤ (pos q)
from_u64-negate q h = ground arith

-- The pattern of a magnitude with a sign.
signed_pattern :
    (minus : Bool) (q : ℕ)
    → q ≤ 2 ^ 63
    → (minus ≡ false → q < 2 ^ 63)
    → from_u64 (if minus then negate q else q) ≡ (if minus then neg_ℤ (pos q) else pos q)
signed_pattern true q le lt = from_u64-negate q le
signed_pattern false q le lt = let h = lt refl in ground arith

magnitude-le : (a : ℕ) → a < 2 ^ 64 → magnitude a ≤ 2 ^ 63
unfolding magnitude
magnitude-le a h = ground arith

magnitude_pos : (b : ℕ) → b < 2 ^ 64 → b ≢ 0 → 0 < magnitude b
unfolding magnitude
magnitude_pos b h nz = ground arith

-- A quotient that does not overflow: the pattern 2 ^ 63 only comes with a negative sign.
quotient_fits :
    (a b : ℕ)
    → a < 2 ^ 64
    → b < 2 ^ 64
    → b ≢ 0
    → (a ≢ 2 ^ 63) ⊎ (b ≢ 2 ^ 64 - 1)
    → xor_flag (negative a) (negative b) ≡ false
    → magnitude a / magnitude b < 2 ^ 63
unfolding xor_flag magnitude
quotient_fits a b ha hb nz ok same = ground (
  arith,
  quotient_small a b,
  quotient_bound a b,
  quotient_small (negate a) (negate b),
  quotient_bound (negate a) (negate b),
)

-- `__divdi3` is the quotient of C, truncated towards zero, of the two signed numbers, unless the
-- divisor is 0 or the quotient is 2 ^ 63.
pub divdi3-quot :
    (a b : ℕ)
    → a < 2 ^ 64
    → b < 2 ^ 64
    → b ≢ 0
    → (a ≢ 2 ^ 63) ⊎ (b ≢ 2 ^ 64 - 1)
    → from_u64 (divdi3 a b) ≡ quot_ℤ (from_u64 a) (from_u64 b)
unfolding divdi3
divdi3-quot a b ha hb nz ok =
    let q = magnitude a / magnitude b in
    let le =
      quotient_bound (magnitude a) (magnitude b) (magnitude_pos b hb nz) (magnitude-le a ha) in
    rw
      (
        quot_flag,
        ← magnitude_lem a ha,
        ← magnitude_lem b hb,
        ← negative_lem a ha,
        ← negative_lem b hb,
      )
      (signed_pattern (xor_flag (negative a) (negative b)) q le (quotient_fits a b ha hb nz ok))

-- `__moddi3` is the remainder of C, with the sign of the dividend, for every divisor but 0.
moddi3-rem :
    (a b : ℕ)
    → a < 2 ^ 64
    → b < 2 ^ 64
    → b ≢ 0
    → from_u64 (moddi3 a b) ≡ rem_ℤ (from_u64 a) (from_u64 b)
unfolding moddi3
moddi3-rem a b ha hb nz =
    let r = magnitude a % magnitude b in
    let lt : r < magnitude b = mod-lt _ (magnitude_pos b hb nz) in
    let le = magnitude-le b hb in
    rw (rem_flag, ← magnitude_lem a ha, ← magnitude_lem b hb, ← negative_lem a ha)
      (signed_pattern (negative a) r (omega arith) (λ _. omega arith))
