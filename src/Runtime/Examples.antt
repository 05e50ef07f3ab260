-- ===== src/Runtime/Examples.antt =====
-- The runtime routines on concrete inputs.
use b1cc.Common.{
  ℕ, ◌-◌, ◌^◌, ◌≡◌, inl, refl, some, ◌∷◌, ◌++◌, arith, ltb, if◌then◌else◌, get_or, Bytes, codes,
}
use b1cc.Common.Int.{pos, negsuc, from_u64, neg_ℤ}
use b1cc.Runtime.Memory.{Mem, memmove, memmove_lem}
use b1cc.Runtime.Compare.{IsCString}
use b1cc.Runtime.Copy.{StringAt}
use b1cc.Runtime.Divide.{divdi3, divdi3-quot}
use b1cc.Runtime.Numbers.{is_digit, write_num, digit_loop, digit_char, atol}
use b1cc.Runtime.Numbers.Parse.{atol-write_num}

forty_two : write_num 42 10 ≡ some (codes "42")
unfolding write_num digit_loop digit_char
forty_two = refl

hexadecimal : write_num 0xdeadbeef 16 ≡ some (codes "deadbeef")
unfolding write_num digit_loop digit_char
hexadecimal = refl

minus_seven : from_u64 (atol (codes " -7x")) ≡ negsuc 6
unfolding atol
minus_seven = refl

-- A memory that holds "hi" at 0 and "there" at 10, and zeros elsewhere.
abbrev sample : Mem
sample a = if ltb a 10 then get_or (codes "hi") a 0 else get_or (codes "there") (a - 10) 0

memmove_lem_example : memmove sample 11 10 4 13 ≡ 101
memmove_lem_example = memmove_lem sample 11 10 4 13

abc-IsCString : IsCString (codes "abc")
abc-IsCString = (omega arith, (omega arith, (omega arith, tt)))

abd-IsCString : IsCString (codes "abd")
abd-IsCString = (omega arith, (omega arith, (omega arith, tt)))

hi_there : StringAt sample 0 (codes "hi")
hi_there = (refl, ground arith, (refl, ground arith, refl))

there_there : StringAt sample 10 (codes "there")
there_there = (
  refl,
  ground arith,
  (refl, ground arith, (refl, ground arith, (refl, ground arith, (refl, ground arith, refl)))),
)

-- -7 by 2
divdi3-quot_example : from_u64 (divdi3 (2 ^ 64 - 7) 2) ≡ negsuc 2
divdi3-quot_example =
    divdi3-quot (2 ^ 64 - 7) 2 (omega arith) (omega arith) (ground arith) (inl (ground arith))

abbrev sixteen : ℕ
sixteen = 16

atol-write_num_example :
    (s : Bytes) × (write_num 42 10 ≡ some s)
    × (from_u64 (atol (s ++ codes ";")) ≡ pos 42)
    × (from_u64 (atol (b'-' ∷ (s ++ codes ";"))) ≡ neg_ℤ (pos 42))
unfolding is_digit
atol-write_num_example = atol-write_num 42 (codes ";") (omega arith) (omega arith) refl
