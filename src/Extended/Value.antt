-- ===== src/Extended/Value.antt =====
-- The extended number has the value of the double.
use native.Mathlib.Nat.{pow-succ', mul_assoc}
use b1cc.Common.{
  ℕ, zero, suc, ◌+◌, ◌-◌, ◌*◌, ◌/◌, ◌%◌, ◌^◌, ◌≤◌, ◌<◌, ◌≡◌, ◌≢◌, refl, sym, ap, ◌∙◌, ◌==◌,
  if◌then◌else◌, Option, some, [], ◌∷◌, Bytes, arith, Bool-cases, inl, inr, length, get_or, true,
  false,
}
use b1cc.Extended.{
  double_sign, double_exponent, fraction, normalize_loop, extended_parts, extended_bytes,
  mantissa_loop, f64_to_x87_extended,
}

-- What the bytes of an extended number mean: the low eight are the mantissa, the others the
-- exponent with the sign on top.
pub little_endian : ℕ → Bytes → ℕ
little_endian zero s = 0
little_endian (suc n) [] = 0
little_endian (suc n) (c ∷ s) = c + 256 * little_endian n s

abbrev pub mantissa : Bytes → ℕ
mantissa out = little_endian 8 out

abbrev pub sign_exponent : Bytes → ℕ
sign_exponent out = get_or out 8 0 + 256 * get_or out 9 0

-- A finite double is its significand times 2 ^ (scale - 1075).
abbrev pub significand : ℕ → ℕ
significand db = if double_exponent db == 0 then fraction db else 2 ^ 52 + fraction db

abbrev pub scale : ℕ → ℕ
scale db = if double_exponent db == 0 then 1 else double_exponent db

shift_pow : (m k : ℕ) → m * 2 * 2 ^ k ≡ m * 2 ^ suc k
shift_pow m k = mul_assoc m 2 (2 ^ k) ∙ ap (λ x. m * x) (sym (pow-succ' 2 k))

pow_add : (m n : ℕ) → 2 ^ m * 2 ^ n ≡ 2 ^ (m + n)
pow_add zero n = let e : 0 + n ≡ n = omega arith in rw e (omega arith)
pow_add (suc m) n =
    let e : suc m + n ≡ suc (m + n) = omega arith in
    let ih = pow_add m n in
    rw e (
      ap (λ x. x * 2 ^ n) (pow-succ' 2 m)
      ∙ mul_assoc 2 (2 ^ m) (2 ^ n)
      ∙ ap (λ x. 2 * x) ih
      ∙ sym (pow-succ' 2 (m + n)))

-- A normalizing loop shifts until bit 52 is the highest.
abbrev Normalized : ℕ → ℕ → ℕ → Option (ℕ × ℕ) → Type 0
Normalized fuel m shift out =
    (k : ℕ) × (m' : ℕ) × (out ≡ some (m', shift + k))
    × (m' ≡ m * 2 ^ k)
    × (2 ^ 52 ≤ m')
    × (m' < 2 ^ 53)
    × (k ≤ fuel)

stop_round :
    (fuel m shift : ℕ)
    → m < 2 ^ 53
    → m / 2 ^ 52 % 2 == 0 ≡ false
    → Normalized fuel m shift (normalize_loop (suc fuel) m shift)
unfolding normalize_loop
stop_round fuel m shift lt top =
    let same : shift + 0 ≡ shift = omega arith in
    (0, m, rw (top, if◌then◌else◌) (rw same), omega arith, ground arith, lt, omega arith)

low_round :
    (fuel m shift : ℕ)
    → m < 2 ^ 53
    → m / 2 ^ 52 % 2 == 0 ≡ true
    → normalize_loop (suc fuel) m shift ≡ normalize_loop fuel (m * 2) (shift + 1)
unfolding normalize_loop
low_round fuel m shift lt low =
    let wrap : m * 2 % 2 ^ 64 ≡ m * 2 = ground arith in
    rw (low, if◌then◌else◌) (ap (λ x. normalize_loop fuel x (shift + 1)) wrap)

normalize_loop_lem :
    (fuel m shift : ℕ)
    → m < 2 ^ 53
    → 2 ^ 52 ≤ m * 2 ^ fuel
    → Normalized fuel m shift (normalize_loop (suc fuel) m shift)
normalize_loop_lem zero m shift lt big = stop_round zero m shift lt (ground arith)
normalize_loop_lem (suc fuel) m shift lt big = elim (Bool-cases (m / 2 ^ 52 % 2 == 0)) [
  | inr top ↦ stop_round (suc fuel) m shift lt top
  | inl low ↦
      let (k, m', run, e, a, b, le) =
        normalize_loop_lem fuel (m * 2) (shift + 1) (ground arith) (rw (shift_pow m fuel) big) in
      let more : shift + 1 + k ≡ shift + suc k = omega arith in
      (
        suc k,
        m',
        low_round (suc fuel) m shift lt low ∙ run ∙ ap (λ x. some (m', x)) more,
        e ∙ shift_pow m k,
        a,
        b,
        omega arith,
      )
]

-- The bytes read back.
read_mantissa : (sign : ℕ) (p : ℕ × ℕ) → p.1 < 2 ^ 64 → mantissa (extended_bytes sign p) ≡ p.1
unfolding extended_bytes mantissa_loop little_endian
read_mantissa sign (eexp, mant64) lt = omega arith

read_sign_exponent :
    (sign : ℕ) (p : ℕ × ℕ) → sign_exponent (extended_bytes sign p) ≡ sign * 2 ^ 15 + p.0
unfolding extended_bytes mantissa_loop
read_sign_exponent sign (eexp, mant64) = omega arith

length-extended_bytes : (sign : ℕ) (p : ℕ × ℕ) → length (extended_bytes sign p) ≡ 10
unfolding extended_bytes mantissa_loop
length-extended_bytes sign (eexp, mant64) = refl

-- What the parts owe to the double.
abbrev IsValue : ℕ → ℕ → ℕ → Type 0
IsValue db eexp mant64 =
    (mant64 * 2 ^ eexp ≡ significand db * 2 ^ (scale db + 15371))
    × (mant64 < 2 ^ 64)
    × (eexp < 32767)
    × (significand db ≢ 0 → 2 ^ 63 ≤ mant64)

scaled :
    (sig s mant64 eexp e : ℕ)
    → mant64 ≡ sig * 2 ^ s
    → s + eexp ≡ e
    → mant64 * 2 ^ eexp ≡ sig * 2 ^ e
scaled sig s mant64 eexp e h k = rw h (
    mul_assoc sig (2 ^ s) (2 ^ eexp) ∙ ap (λ x. sig * x) (pow_add s eexp) ∙ ap (λ x. sig * 2 ^ x) k)

normal-IsValue :
    (db : ℕ)
    → double_exponent db == 0 ≡ false
    → double_exponent db ≢ 2047
    → IsValue db (double_exponent db + 16383 - 1023) (2 ^ 63 + fraction db * 2 ^ 11)
normal-IsValue db normal finite =
    rw (normal, if◌then◌else◌)
      (
        scaled (2 ^ 52 + fraction db) 11 _ _ _ (omega arith) (omega arith),
        omega arith,
        ground arith,
        λ nz. omega arith,
      )

subnormal-IsValue :
    (db k m' : ℕ)
    → double_exponent db == 0 ≡ true
    → m' ≡ fraction db * 2 ^ k
    → 2 ^ 52 ≤ m'
    → m' < 2 ^ 53
    → k ≤ 52
    → IsValue db (1 + 16383 - (1023 + (0 + k))) (2 ^ 63 + (m' - 2 ^ 52) * 2 ^ 11)
subnormal-IsValue db k m' small e a b le =
    let mant : 2 ^ 63 + (m' - 2 ^ 52) * 2 ^ 11 ≡ m' * 2 ^ 11 = omega arith in
    rw (small, if◌then◌else◌)
      (
        scaled (fraction db) (k + 11) _ _ (1 + 15371)
            (mant
              ∙ ap (λ x. x * 2 ^ 11) e
              ∙ mul_assoc (fraction db) (2 ^ k) (2 ^ 11)
              ∙ ap (λ x. fraction db * x) (pow_add k 11))
            (omega arith),
        omega arith,
        omega arith,
        λ nz. omega arith,
      )

zero-IsValue : (db : ℕ) → double_exponent db == 0 ≡ true → fraction db == 0 ≡ true → IsValue db 0 0
zero-IsValue db small null =
    let none_set : fraction db ≡ 0 = ground arith in
    rw (small, if◌then◌else◌)
      (rw none_set (omega arith, omega arith, omega arith, λ nz. absurd (nz refl)))

extended_parts-IsValue :
    (db : ℕ)
    → double_exponent db ≢ 2047
    → (eexp : ℕ) × (mant64 : ℕ) × (extended_parts db ≡ some (eexp, mant64)) × IsValue db eexp mant64
unfolding extended_parts
extended_parts-IsValue db finite = elim (Bool-cases (double_exponent db == 0)) [
  | inr normal ↦
      let no : double_exponent db == 2047 ≡ false = ground arith in
      (_, _, rw (normal, if◌then◌else◌) (rw (no, if◌then◌else◌)), normal-IsValue db normal finite)
  | inl small ↦ elim (Bool-cases (fraction db == 0)) [
    | inl null ↦
        (0, 0, rw (small, if◌then◌else◌) (rw (null, if◌then◌else◌)), zero-IsValue db small null)
    | inr some_bits ↦
        let (k, m', run, e, a, b, le) =
          normalize_loop_lem 52 (fraction db) 0 (ground arith) (ground arith) in
        (
          _,
          _,
          rw (small, if◌then◌else◌) (rw (some_bits, if◌then◌else◌) (rw run)),
          subnormal-IsValue db k m' small e a b le,
        )
  ]
]

-- For a double that is no infinity and no NaN, the ten bytes are an extended number with the
-- double's sign and exactly its value: the mantissa times 2 ^ (exponent - 16446) is the
-- significand times 2 ^ (scale - 1075). It is normalized unless the double is zero.
pub f64_to_x87_extended-value :
    (db : ℕ)
    → double_exponent db ≢ 2047
    → (out : Bytes) × (eexp : ℕ) × (f64_to_x87_extended db ≡ some out)
      × (length out ≡ 10)
      × (sign_exponent out ≡ double_sign db * 2 ^ 15 + eexp)
      × (eexp < 32767)
      × (mantissa out * 2 ^ eexp ≡ significand db * 2 ^ (scale db + 15371))
      × (significand db ≢ 0 → 2 ^ 63 ≤ mantissa out)
unfolding f64_to_x87_extended
f64_to_x87_extended-value db finite =
    let (eexp, mant64, run, (same, lt, small, top)) = extended_parts-IsValue db finite in
    let back = read_mantissa (double_sign db) (eexp, mant64) lt in
    (
      extended_bytes (double_sign db) (eexp, mant64),
      eexp,
      rw (run, f64_to_x87_extended),
      length-extended_bytes (double_sign db) (eexp, mant64),
      read_sign_exponent (double_sign db) (eexp, mant64),
      small,
      rw back same,
      rw back top,
    )
