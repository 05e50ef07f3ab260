-- ===== src/Runtime/Numbers/Parse.antt =====
-- `atol` of runtime/runtime.c on what `write_num` appends in base 10.
use b1cc.Common.{
  ℕ, ◌+◌, ◌-◌, ◌*◌, ◌%◌, ◌^◌, ◌≤◌, ◌<◌, ◌≡◌, ◌≢◌, refl, true, false, [], ◌∷◌, ◌++◌, arith, some,
  ◌==◌, All, Bytes,
}
use b1cc.Common.Int.{pos, from_u64, neg_ℤ}
use b1cc.Runtime.Numbers.{digit_char, is_digit, skip_blank, atol_loop, write_num, atol}
use b1cc.Runtime.Numbers.Digits.{digit_value, digit_value_char, value, IsDigitOf, write_num-Digits}

-- The text goes on with something that is no digit, or ends.
abbrev EndsNumber : Bytes → Type 0
EndsNumber [] = Unit
EndsNumber (c ∷ s) = is_digit c ≡ false

atol_stop : (rest : Bytes) (n : ℕ) → EndsNumber rest → atol_loop rest n ≡ n
unfolding atol_loop
atol_stop [] n h = refl
atol_stop (c ∷ s) n h = rw (h, atol_loop)

le-value : (s : Bytes) (n : ℕ) → n ≤ value 10 n s
le-value [] n = omega arith
le-value (c ∷ s) n = omega (arith, le-value s (n * 10 + digit_value c))

atol_digits :
    (s rest : Bytes) (n : ℕ)
    → All (IsDigitOf 10) s
    → value 10 n s < 2 ^ 64
    → EndsNumber rest
    → atol_loop (s ++ rest) n ≡ value 10 n s
unfolding atol_loop is_digit digit_char
atol_digits [] rest n h lt stop = atol_stop rest n stop
atol_digits (c ∷ s) rest n ((d, ltd, e), h) lt stop =
    let v : digit_value c ≡ d = rw e (digit_value_char d (omega arith)) in
    let plain : c ≡ b'0' + d = ground arith in
    let same : (n * 10 + (c - b'0')) % 2 ^ 64 ≡ n * 10 + digit_value c =
      omega (arith, le-value s (n * 10 + digit_value c)) in
    let test : is_digit c ≡ true = ground arith in
    rw (test, atol_loop) (rw same (atol_digits s rest (n * 10 + digit_value c) h lt stop))

head_digit : (c : ℕ) → IsDigitOf 10 c → (is_digit c ≡ true)
unfolding is_digit digit_char
head_digit c (d, lt, e) = ground arith

skip_digit : (c : ℕ) (s : Bytes) → IsDigitOf 10 c → skip_blank (c ∷ s) ≡ c ∷ s
unfolding skip_blank digit_char
skip_digit c s (d, lt, e) = ground arith

not_sign : (c : ℕ) → IsDigitOf 10 c → ((c == b'-') ≡ false) × ((c == b'+') ≡ false)
unfolding digit_char
not_sign c (d, lt, e) = ground arith

atol_number :
    (s rest : Bytes)
    → s ≢ []
    → All (IsDigitOf 10) s
    → value 10 0 s < 2 ^ 64
    → EndsNumber rest
    → atol (s ++ rest) ≡ value 10 0 s
unfolding atol
atol_number [] rest ne h lt stop = absurd (ne refl)
atol_number (c ∷ s) rest ne h lt stop =
    rw (skip_digit c (s ++ rest) h.0, atol)
      (rw (not_sign c h.0).0 (rw (not_sign c h.0).1 (atol_digits (c ∷ s) rest 0 h lt stop)))

atol_minus :
    (s rest : Bytes)
    → All (IsDigitOf 10) s
    → value 10 0 s < 2 ^ 64
    → EndsNumber rest
    → atol (b'-' ∷ (s ++ rest)) ≡ (2 ^ 64 - value 10 0 s) % 2 ^ 64
unfolding atol skip_blank
atol_minus s rest h lt stop = rw (atol_digits s rest 0 h lt stop)

nonempty : (s : Bytes) (n : ℕ) → 0 < n → value 10 0 s ≡ n → s ≢ []
nonempty [] n lt e ne = omega arith
nonempty (c ∷ s) n lt e ne = cc

-- `atol` reads the decimal print of a 64-bit number back, whatever follows that is no digit; with
-- a minus sign in front it reads the negative number.
pub atol-write_num :
    (n : ℕ) (rest : Bytes)
    → 0 < n
    → n < 2 ^ 63
    → EndsNumber rest
    → (s : Bytes) × (write_num n 10 ≡ some s)
      × (from_u64 (atol (s ++ rest)) ≡ pos n)
      × (from_u64 (atol (b'-' ∷ (s ++ rest))) ≡ neg_ℤ (pos n))
atol-write_num n rest nz lt stop =
    let (s, run, e, ds, _, _) = write_num-Digits n 10 (omega arith) (omega arith) (omega arith) in
    (
      s,
      run,
      rw (atol_number s rest (nonempty s n nz e) ds (omega arith) stop, e) (ground arith),
      rw (atol_minus s rest ds (omega arith) stop, e) (ground arith),
    )
