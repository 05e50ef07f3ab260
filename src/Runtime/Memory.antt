-- ===== src/Runtime/Memory.antt =====
-- memcpy, memmove, memset and memcmp of runtime/runtime.c, over a memory of bytes by address.
use b1cc.Common.{
  ℕ, zero, suc, ◌+◌, ◌-◌, ◌%◌, ◌≤◌, ◌<◌, ◌≡◌, ◌≢◌, refl, ◌⊎◌, inl, inr, Bool-cases, ==_iff, Bool,
  true, false, ◌&&◌, arith, ltb, leb, ◌==◌, if◌then◌else◌,
}
use b1cc.Common.Int.{ℤ, pos, sub_ℕ}

abbrev pub Mem : Type 0
Mem = ℕ → ℕ

abbrev pub store : Mem → ℕ → ℕ → Mem
store m p v a = if a == p then v else m a

-- `for (i = …; …; ++i) d[i] = s[i]`, with `rounds` rounds left
copy_up : Mem → ℕ → ℕ → ℕ → ℕ → Mem
copy_up m dst src zero i = m
copy_up m dst src (suc rounds) i = copy_up (store m (dst + i) (m (src + i))) dst src rounds (i + 1)

-- `for (i = n; i > 0; --i) d[i - 1] = s[i - 1]`
copy_down : Mem → ℕ → ℕ → ℕ → Mem
copy_down m dst src zero = m
copy_down m dst src (suc i) = copy_down (store m (dst + i) (m (src + i))) dst src i

unfoldable memcpy : Mem → ℕ → ℕ → ℕ → Mem
unfolding copy_up
memcpy m dst src n = copy_up m dst src n 0

unfoldable pub memmove : Mem → ℕ → ℕ → ℕ → Mem
unfolding copy_up copy_down
memmove m dst src n = if ltb dst src then copy_up m dst src n 0 else copy_down m dst src n

fill_up : Mem → ℕ → ℕ → ℕ → ℕ → Mem
fill_up m dst c zero i = m
fill_up m dst c (suc rounds) i = fill_up (store m (dst + i) (c % 256)) dst c rounds (i + 1)

unfoldable memset : Mem → ℕ → ℕ → ℕ → Mem
unfolding fill_up
memset m dst c n = fill_up m dst c n 0

compare_up : Mem → ℕ → ℕ → ℕ → ℕ → ℤ
compare_up m a b zero i = pos 0
compare_up m a b (suc rounds) i = elim (m (a + i) == m (b + i)) [
  | true ↦ compare_up m a b rounds (i + 1)
  | false ↦ sub_ℕ (m (a + i)) (m (b + i))
]

unfoldable memcmp : Mem → ℕ → ℕ → ℕ → ℤ
unfolding compare_up
memcmp m a b n = compare_up m a b n 0

abbrev within : ℕ → ℕ → ℕ → Bool
within lo n a = leb lo a && ltb a (lo + n)

copy_up_lem :
    (m : Mem) (dst src rounds i a : ℕ)
    → (dst ≤ src) ⊎ (src + i + rounds ≤ dst)
    → copy_up m dst src rounds i a
      ≡ (if within (dst + i) rounds a then m (src + (a - dst)) else m a)
unfolding copy_up
copy_up_lem m dst src zero i a apart = ground arith
copy_up_lem m dst src (suc rounds) i a apart =
    ground (arith, copy_up_lem (store m (dst + i) (m (src + i))) dst src rounds (i + 1) a)

copy_down_lem :
    (m : Mem) (dst src n a : ℕ)
    → src ≤ dst
    → copy_down m dst src n a ≡ (if within dst n a then m (src + (a - dst)) else m a)
unfolding copy_down
copy_down_lem m dst src zero a le = ground arith
copy_down_lem m dst src (suc i) a le =
    ground (arith, copy_down_lem (store m (dst + i) (m (src + i))) dst src i a)

-- `memmove` copies the bytes that the source range held before the call, however the two ranges
-- overlap, and writes nothing outside the destination range.
pub memmove_lem :
    (m : Mem) (dst src n a : ℕ)
    → memmove m dst src n a ≡ (if leb dst a && ltb a (dst + n) then m (src + (a - dst)) else m a)
unfolding memmove
memmove_lem m dst src n a = ground (arith, copy_up_lem m dst src n 0 a, copy_down_lem m dst src n a)

-- `memcpy` does what `memmove` does when the destination starts at or before the source, or the
-- ranges are disjoint.
memcpy-memmove :
    (m : Mem) (dst src n a : ℕ)
    → (dst ≤ src) ⊎ (src + n ≤ dst)
    → memcpy m dst src n a ≡ memmove m dst src n a
unfolding memcpy
memcpy-memmove m dst src n a apart =
    ground (arith, copy_up_lem m dst src n 0 a, memmove_lem m dst src n a)

fill_up_lem :
    (m : Mem) (dst c rounds i a : ℕ)
    → fill_up m dst c rounds i a ≡ (if within (dst + i) rounds a then c % 256 else m a)
unfolding fill_up
fill_up_lem m dst c zero i a = ground arith
fill_up_lem m dst c (suc rounds) i a =
    ground (arith, fill_up_lem (store m (dst + i) (c % 256)) dst c rounds (i + 1) a)

-- `memset` writes the low byte of `c` at every address of the range and nowhere else.
memset_lem :
    (m : Mem) (dst c n a : ℕ)
    → memset m dst c n a ≡ (if leb dst a && ltb a (dst + n) then c % 256 else m a)
unfolding memset
memset_lem m dst c n a = ground (arith, fill_up_lem m dst c n 0 a)

-- The two ranges agree below `k`.
abbrev AgreeBelow : Mem → ℕ → ℕ → ℕ → Type 0
AgreeBelow m a b k = (i : ℕ) → i < k → m (a + i) ≡ m (b + i)

abbrev Compared : Mem → ℕ → ℕ → ℕ → ℤ → Type 0
Compared m a b n r =
    ((r ≡ pos 0) × AgreeBelow m a b n)
    ⊎ ((k : ℕ) × (k < n)
        × AgreeBelow m a b k
        × (m (a + k) ≢ m (b + k))
        × (r ≡ sub_ℕ (m (a + k)) (m (b + k))))

AgreeBelow-suc :
    (m : Mem) (a b i : ℕ) → AgreeBelow m a b i → m (a + i) ≡ m (b + i) → AgreeBelow m a b (i + 1)
AgreeBelow-suc m a b i h e j lt = elim (Bool-cases (j == i)) [
  | inl same ↦ let e' = (==_iff j i).0 same in rw e' e
  | inr other ↦ h j (ground arith)
]

compare_up-Compared :
    (m : Mem) (a b n rounds i : ℕ)
    → i + rounds ≡ n
    → AgreeBelow m a b i
    → Compared m a b n (compare_up m a b rounds i)
unfolding compare_up
compare_up-Compared m a b n zero i e h = inl (refl, λ j lt. h j (omega arith))
compare_up-Compared m a b n (suc rounds) i e h = elim (Bool-cases (m (a + i) == m (b + i))) [
  | inl same ↦
      rw (same, compare_up)
        (compare_up-Compared m a b n rounds (i + 1) (omega arith)
          (AgreeBelow-suc m a b i h ((==_iff _ _).0 same)))
  | inr differ ↦ rw (differ, compare_up) (inr (i, omega arith, h, ground arith, refl))
]

-- `memcmp` returns 0 exactly where the two ranges agree; otherwise the difference of the bytes at
-- the first place where they differ, with both bytes unsigned.
memcmp-Compared : (m : Mem) (a b n : ℕ) → Compared m a b n (memcmp m a b n)
unfolding memcmp
memcmp-Compared m a b n =
    compare_up-Compared m a b n n 0 (omega arith) (λ i lt. absurd (omega arith))
