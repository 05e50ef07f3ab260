-- ===== src/Extended/Examples.antt =====
-- Doubles by their bits.
use b1cc.Common.{ℕ, ◌+◌, ◌*◌, ◌^◌, ◌≡◌, ◌≢◌, refl, ◌≤◌, ◌<◌, some, [], ◌∷◌, Bytes, arith, length}
use b1cc.Extended.{double_sign, f64_to_x87_extended}
use b1cc.Extended.Value.{mantissa, sign_exponent, significand, scale, f64_to_x87_extended-value}

-- 1.0
one_bytes :
    f64_to_x87_extended (1023 * 2 ^ 52) ≡ some (0 ∷ 0 ∷ 0 ∷ 0 ∷ 0 ∷ 0 ∷ 0 ∷ 128 ∷ 255 ∷ 63 ∷ [])
unfolding f64_to_x87_extended
one_bytes = refl

-- The smallest positive double, a subnormal number.
f64_to_x87_extended-value_example :
    (out : Bytes) × (eexp : ℕ) × (f64_to_x87_extended 1 ≡ some out)
    × (length out ≡ 10)
    × (sign_exponent out ≡ double_sign 1 * 2 ^ 15 + eexp)
    × (eexp < 32767)
    × (mantissa out * 2 ^ eexp ≡ significand 1 * 2 ^ (scale 1 + 15371))
    × (significand 1 ≢ 0 → 2 ^ 63 ≤ mantissa out)
f64_to_x87_extended-value_example = f64_to_x87_extended-value 1 (ground arith)
