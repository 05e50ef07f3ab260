-- ===== src/Extended.antt =====
-- f64_to_x87_extended of src/common.c: the ten bytes of an x87 extended number for a double, which
-- is given by its 64 bits. The operands of each `|` share no bit, so that it is a sum.
pub mod Value
mod Examples
use b1cc.Common.{
  ℕ, zero, suc, ◌+◌, ◌-◌, ◌*◌, ◌/◌, ◌%◌, ◌^◌, ◌==◌, if◌then◌else◌, Option, none, some, List, [],
  ◌∷◌, ◌++◌, Bytes,
}

abbrev pub double_sign : ℕ → ℕ
double_sign db = db / 2 ^ 63 % 2

-- `dexp` and `dmant`
abbrev pub double_exponent : ℕ → ℕ
double_exponent db = db / 2 ^ 52 % 2048

abbrev pub fraction : ℕ → ℕ
fraction db = db % 2 ^ 52

-- `while (!(m & (1ULL << 52))) { m <<= 1; shift++; }`, with fuel
pub normalize_loop : ℕ → ℕ → ℕ → Option (ℕ × ℕ)
normalize_loop zero m shift = none
normalize_loop (suc fuel) m shift =
    let more = normalize_loop fuel (m * 2 % 2 ^ 64) (shift + 1) in
    if m / 2 ^ 52 % 2 == 0 then more else some (m, shift)

-- The exponent and the mantissa. The exponents do not go below zero: a shift is at most 52. A
-- fraction has 52 bits: at most 52 shifts.
pub extended_parts : ℕ → Option (ℕ × ℕ)
unfolding normalize_loop
extended_parts db =
    let normalized = normalize_loop 53 (fraction db) 0 in
    if double_exponent db == 0
    then if fraction db == 0 then some (0, 0) else elim normalized [
      | none ↦ none
      | some (m, shift) ↦ some (1 + 16383 - (1023 + shift), 2 ^ 63 + (m - 2 ^ 52) * 2 ^ 11)
    ]
    else if double_exponent db == 2047
    then some (32767, 2 ^ 63 + fraction db * 2 ^ 11)
    else some (double_exponent db + 16383 - 1023, 2 ^ 63 + fraction db * 2 ^ 11)

-- `out[i] = (unsigned char)(mant64 >> (8 * i))`, with `rounds` rounds left
mantissa_loop : ℕ → ℕ → Bytes
mantissa_loop zero mant64 = []
mantissa_loop (suc rounds) mant64 = (mant64 % 256) ∷ mantissa_loop rounds (mant64 / 256)

pub extended_bytes : ℕ → ℕ × ℕ → Bytes
unfolding mantissa_loop
extended_bytes sign (eexp, mant64) =
    let se = sign * 2 ^ 15 + eexp in mantissa_loop 8 mant64 ++ (se % 256) ∷ (se / 256) ∷ []

unfoldable pub f64_to_x87_extended : ℕ → Option Bytes
unfolding extended_parts extended_bytes
f64_to_x87_extended db = elim (extended_parts db) [
  | none ↦ none
  | some p ↦ some (extended_bytes (double_sign db) p)
]
