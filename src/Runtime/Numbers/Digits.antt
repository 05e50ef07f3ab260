-- ===== src/Runtime/Numbers/Digits.antt =====
-- The digits that `write_num` appends.
use native.Mathlib.Nat.{pow-suc, pow-zero, div-lt_iff_lt-mul, div-add-mod, mod-lt}
use b1cc.Common.{
  ℕ, zero, suc, ◌+◌, ◌-◌, ◌*◌, ◌/◌, ◌%◌, ◌^◌, ◌≤◌, ◌<◌, ◌≡◌, refl, sym, ap, ◌∙◌, length-append, [],
  ◌∷◌, ◌++◌, append_assoc, append-nil, arith, some, leb, ◌==◌, Bool-cases, inl, inr, if◌then◌else◌,
  length, All, Bytes,
}
use b1cc.Runtime.Numbers.{digit_char, digit_loop, write_num}

-- The number that digits of a base spell behind `n`.
pub digit_value : ℕ → ℕ
digit_value c = if leb b'a' c then c - b'a' + 10 else c - b'0'

abbrev pub value : ℕ → ℕ → Bytes → ℕ
value base n [] = n
value base n (c ∷ s) = value base (n * base + digit_value c) s

pub digit_value_char : (d : ℕ) → d < 16 → digit_value (digit_char d) ≡ d
unfolding digit_value digit_char
digit_value_char d h = ground arith

half_bound : (f val base : ℕ) → 2 ≤ base → val < 2 ^ suc f → val / base < 2 ^ f
half_bound f val base hb h =
    let e = pow-suc 2 f in
    let wide : 2 ^ f * 2 ≤ 2 ^ f * base = grind arith in
    (div-lt_iff_lt-mul (omega arith)).1 (omega (arith, e, wide))

pow_bound : (k val base : ℕ) → 2 ≤ base → val < base ^ suc k → val / base < base ^ k
pow_bound k val base hb h = (div-lt_iff_lt-mul (omega arith)).1 (omega (arith, pow-suc base k))

value-append : (s t : Bytes) (base n : ℕ) → value base n (s ++ t) ≡ value base (value base n s) t
value-append [] t base n = refl
value-append (c ∷ s) t base n = value-append s t base (n * base + digit_value c)

-- A digit of the base.
abbrev pub IsDigitOf : ℕ → ℕ → Type 0
IsDigitOf base c = (d : ℕ) × (d < base) × (c ≡ digit_char d)

pub All-append : (P : ℕ → Type 0) (s t : Bytes) → All P s → All P t → All P (s ++ t)
All-append P [] t hs ht = ht
All-append P (c ∷ s) t hs ht = (hs.0, All-append P s t hs.1 ht)

-- What the digits of `val` are: they spell it, they are digits, and there are few.
pub record Digits (val base : ℕ) (s : Bytes) : Type 0 where
  spells : value base 0 s ≡ val
  all_digits : All (IsDigitOf base) s
  pub short : (k : ℕ) → val < base ^ k → length s ≤ k

last-Digits :
    (val base : ℕ) (s : Bytes)
    → 2 ≤ base
    → base ≤ 16
    → 0 < val
    → Digits (val / base) base s
    → Digits val base (s ++ digit_char (val % base) ∷ [])
last-Digits val base s hb hb' nz h =
    let lt : val % base < base = mod-lt val (omega arith) in
    record {
      spells =
          rw (value-append s _ base 0, h.spells, digit_value_char (val % base) (omega arith))
            (omega (arith, div-add-mod val base));
      all_digits = All-append (IsDigitOf base) s _ h.all_digits ((val % base, lt, refl), tt);
      short = elim [
        | zero ↦ λ lt'. absurd (omega (arith, pow-zero base))
        | suc k ↦ λ lt'.
            let r = h.short k (pow_bound k val base hb lt') in
            omega (arith, r, length-append s (digit_char (val % base) ∷ []))
      ];
    }

digit_loop-Digits :
    (f val base : ℕ) (tmp : Bytes)
    → 2 ≤ base
    → base ≤ 16
    → val < 2 ^ f
    → (s : Bytes) × (digit_loop f val base tmp ≡ some (s ++ tmp)) × Digits val base s
unfolding digit_loop
digit_loop-Digits zero val base tmp hb hb' h =
    let z : val ≡ 0 = omega arith in
    (
      [],
      rw (z, digit_loop),
      record { spells = sym z; all_digits = tt; short = λ k lt. omega arith },
    )
digit_loop-Digits (suc f) val base tmp hb hb' h = elim (Bool-cases (val == 0)) [
  | inl done ↦
      let z : val ≡ 0 = ground arith in
      (
        [],
        rw (done, digit_loop),
        record { spells = sym z; all_digits = tt; short = λ k lt. omega arith },
      )
  | inr more ↦
      let d = digit_char (val % base) in
      let (s, run, ds) =
        digit_loop-Digits f (val / base) base (d ∷ tmp) hb hb' (half_bound f val base hb h) in
      (
        s ++ d ∷ [],
        rw (more, digit_loop) (run ∙ ap some (sym (append_assoc s (d ∷ []) tmp))),
        last-Digits val base s hb hb' (ground arith) ds,
      )
]

-- `write_num` of a 64-bit number in a base from 2 to 16 ends, and appends the digits that spell the
-- number in that base; in base 10 there are at most 20, in base 16 at most 16, so that the 24
-- bytes of its local buffer are enough.
pub write_num-Digits :
    (val base : ℕ)
    → val < 2 ^ 64
    → 2 ≤ base
    → base ≤ 16
    → (s : Bytes) × (write_num val base ≡ some s)
      × (value base 0 s ≡ val)
      × All (IsDigitOf base) s
      × (base ≡ 10 → length s ≤ 20)
      × (base ≡ 16 → length s ≤ 16)
unfolding write_num digit_value digit_char
write_num-Digits val base h hb hb' = elim (Bool-cases (val == 0)) [
  | inl z ↦
      let z' : val ≡ 0 = ground arith in
      (
        b'0' ∷ [],
        rw (z, write_num),
        omega arith,
        ((0, omega arith, refl), tt),
        λ e. omega arith,
        λ e. omega arith,
      )
  | inr nz ↦
      let (s, run, ds) = digit_loop-Digits 64 val base [] hb hb' h in
      (
        s,
        rw (nz, write_num) (run ∙ ap some (append-nil s)),
        ds.spells,
        ds.all_digits,
        λ e. ds.short 20 (rw e (omega arith)),
        λ e. ds.short 16 (rw e (omega arith)),
      )
]
