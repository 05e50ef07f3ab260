-- ===== src/Runtime/Numbers.antt =====
-- write_num, atol and atoi of runtime/runtime.c.
pub mod Digits
pub mod Parse
use native.Mathlib.Nat.{pow-suc, div-lt_iff_lt-mul, div-add-mod, mod-lt}
use b1cc.Common.{
  ℕ, zero, suc, ◌+◌, ◌-◌, ◌*◌, ◌/◌, ◌%◌, ◌^◌, ◌≤◌, ◌<◌, ◌≡◌, ◌≢◌, refl, sym, ap, ◌∙◌, length-append,
  Bool, true, false, ◌&&◌, ◌||◌, List, [], ◌∷◌, ◌++◌, append_assoc, arith, Option, none, some, ltb,
  leb, ◌==◌, ==_iff, Bool-cases, inl, inr, if◌then◌else◌, length, All, Bytes, codes,
}
use b1cc.Common.Int.{ℤ, pos, negsuc, from_u64}

unfoldable pub digit_char : ℕ → ℕ
digit_char d = if ltb d 10 then b'0' + d else b'a' + d - 10

-- `while (val) { … }` with fuel; `tmp` has the digit that was pushed last first, in the order in
-- which the loop behind it writes them out.
unfoldable pub digit_loop : ℕ → ℕ → ℕ → Bytes → Option Bytes
digit_loop zero val base tmp = if val == 0 then some tmp else none
digit_loop (suc fuel) val base tmp =
    let rest = digit_loop fuel (val / base) base (digit_char (val % base) ∷ tmp) in
    if val == 0 then some tmp else rest

-- The bytes that `write_num` appends. 64 rounds are enough for a base of 2 or more.
unfoldable pub write_num : ℕ → ℕ → Option Bytes
write_num val base = if val == 0 then some (b'0' ∷ []) else digit_loop 64 val base []

is_blank : ℕ → Bool
is_blank c = c == b' ' || c == b'\t' || c == b'\n'

pub skip_blank : Bytes → Bytes
unfolding is_blank
skip_blank [] = []
skip_blank (c ∷ s) = if is_blank c then skip_blank s else c ∷ s

unfoldable pub is_digit : ℕ → Bool
is_digit c = leb b'0' c && leb c b'9'

-- `result * 10 + (*s - '0')`, with the wrap-around of a 64-bit long
pub atol_loop : Bytes → ℕ → ℕ
unfolding is_digit
atol_loop [] result = result
atol_loop (c ∷ s) result = elim (is_digit c) [
  | true ↦ atol_loop s ((result * 10 + (c - b'0')) % 2 ^ 64)
  | false ↦ result
]

-- The 64-bit pattern of the result.
unfoldable pub atol : Bytes → ℕ
unfolding skip_blank atol_loop
atol s = elim (skip_blank s) [
  | [] ↦ 0
  | c ∷ r ↦
      if c == b'-'
      then (2 ^ 64 - atol_loop r 0) % 2 ^ 64
      else if c == b'+'
      then atol_loop r 0
      else atol_loop (c ∷ r) 0
]

-- `(int)atol(s)`: the low 32 bits
unfoldable atoi : Bytes → ℕ
unfolding atol
atoi s = atol s % 2 ^ 32
