-- ===== src/Common/Bits.antt =====
-- Masks of binary digits as arithmetic.
use b1cc.Common.{
  ℕ, zero, suc, ◌+◌, ◌-◌, ◌*◌, ◌/◌, ◌%◌, ◌^◌, ◌≤◌, ◌<◌, ◌≡◌, refl, sym, ap, ◌∙◌, arith,
}
use Prim.Native.Nat.{min, digits, bit_and, bit_and-bitwise}
use native.Mathlib.Nat.{pow-suc, one-le-pow}

abbrev masked : ℕ → ℕ → ℕ → ℕ
masked n a b = digits (λ c. zero) min n a b

-- More fuel than the number is large changes nothing.
masked_fuel : (n m a b : ℕ) → a ≤ n → a ≤ m → masked n a b ≡ masked m a b
masked_fuel zero zero a b p q = refl
masked_fuel zero (suc m) zero b p q = refl
masked_fuel zero (suc m) (suc a) b p q = absurd (omega arith)
masked_fuel (suc n) zero zero b p q = refl
masked_fuel (suc n) zero (suc a) b p q = absurd (omega arith)
masked_fuel (suc n) (suc m) zero b p q = refl
masked_fuel (suc n) (suc m) (suc a) b p q =
    rw (masked_fuel n m (suc a / 2) (b / 2) (omega arith) (omega arith)) refl

masked_enough : (n a b : ℕ) → a ≤ n → masked n a b ≡ masked a a b
masked_enough n a b h = masked_fuel n a a b h (omega arith)

-- Where the lowest digit of the mask is 0.
bit_and-even : (a b : ℕ) → b % 2 ≡ 0 → bit_and a b ≡ bit_and (a / 2) (b / 2) * 2
bit_and-even zero b h = omega (arith, bit_and-bitwise 0 b, bit_and-bitwise 0 (b / 2))
bit_and-even (suc a) b h = omega (
  arith,
  bit_and-bitwise (suc a) b,
  bit_and-bitwise (suc a / 2) (b / 2),
  masked_enough a (suc a / 2) (b / 2) (omega arith),
)

-- Where it is 1.
bit_and-odd : (a b : ℕ) → b % 2 ≡ 1 → bit_and a b ≡ bit_and (a / 2) (b / 2) * 2 + a % 2
bit_and-odd zero b h = omega (arith, bit_and-bitwise 0 b, bit_and-bitwise 0 (b / 2))
bit_and-odd (suc a) b h = omega (
  arith,
  bit_and-bitwise (suc a) b,
  bit_and-bitwise (suc a / 2) (b / 2),
  masked_enough a (suc a / 2) (b / 2) (omega arith),
)

-- A mask of ones keeps a number that is not longer.
bit_and-ones : (m a : ℕ) → a < 2 ^ m → bit_and a (2 ^ m - 1) ≡ a
bit_and-ones zero a h = let none : a ≡ 0 = omega (arith, h) in rw none refl
bit_and-ones (suc m) a h = omega (
  arith,
  pow-suc 2 m,
  one-le-pow m 2,
  bit_and-odd a (2 ^ suc m - 1) (omega (arith, pow-suc 2 m, one-le-pow m 2)),
  ap (bit_and (a / 2)) (halved m),
  bit_and-ones m (a / 2) (omega (arith, pow-suc 2 m)),
)
  where
    halved : (m : ℕ) → (2 ^ suc m - 1) / 2 ≡ 2 ^ m - 1
    halved m = omega (arith, pow-suc 2 m, one-le-pow m 2)

times-double : (q k : ℕ) → q * 2 ^ suc k ≡ q * 2 ^ k * 2
times-double q k = omega (arith, ap (λ (t : ℕ). q * t) (pow-suc 2 k))

-- A mask of ones behind `k` zeros clears the low digits.
pub bit_and-clear :
    (k m q r : ℕ)
    → q < 2 ^ m
    → r < 2 ^ k
    → bit_and (q * 2 ^ k + r) ((2 ^ m - 1) * 2 ^ k) ≡ q * 2 ^ k
bit_and-clear zero m q r h g =
    let number : q * 2 ^ 0 + r ≡ q = omega arith in
    let mask : (2 ^ m - 1) * 2 ^ 0 ≡ 2 ^ m - 1 = omega arith in
    ap (λ x. bit_and x ((2 ^ m - 1) * 2 ^ 0)) number
    ∙ ap (bit_and q) mask
    ∙ bit_and-ones m q h
    ∙ omega arith
bit_and-clear (suc k) m q r h g =
    let number = times-double q k in
    let mask = times-double (2 ^ m - 1) k in
    let half_number : (q * 2 ^ suc k + r) / 2 ≡ q * 2 ^ k + r / 2 = omega arith in
    let half_mask : (2 ^ m - 1) * 2 ^ suc k / 2 ≡ (2 ^ m - 1) * 2 ^ k = omega arith in
    let rest = bit_and-clear k m q (r / 2) h (omega (arith, pow-suc 2 k)) in
    bit_and-even (q * 2 ^ suc k + r) ((2 ^ m - 1) * 2 ^ suc k) (omega arith)
    ∙ ap (λ x. bit_and x ((2 ^ m - 1) * 2 ^ suc k / 2) * 2) half_number
    ∙ ap (λ x. bit_and (q * 2 ^ k + r / 2) x * 2) half_mask
    ∙ ap (λ x. x * 2) rest
    ∙ sym number

no_more : (j : ℕ) → 0 + j ≡ j
no_more j = omega arith

pub two_pow-add : (j k : ℕ) → 2 ^ j * 2 ^ k ≡ 2 ^ (k + j)
two_pow-add j zero = omega (arith, ap (λ x. 2 ^ x) (no_more j))
two_pow-add j (suc k) = times-double (2 ^ j) k ∙ ap (λ x. x * 2) (two_pow-add j k) ∙ doubled
  where
    doubled : 2 ^ (k + j) * 2 ≡ 2 ^ (suc k + j)
    doubled =
        let next : suc k + j ≡ suc (k + j) = omega arith in
        omega (arith, pow-suc 2 (k + j), ap (λ x. 2 ^ x) next)
