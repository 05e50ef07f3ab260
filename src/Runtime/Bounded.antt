-- ===== src/Runtime/Bounded.antt =====
-- strncpy and strncat of runtime/runtime.c, over a memory of bytes by address.
use mathlib.Core.Path.{subst}
use b1cc.Common.{
  sym, ℕ, zero, suc, ◌+◌, ◌-◌, ◌≤◌, ◌<◌, ◌≡◌, ◌⊎◌, Bool, true, false, ◌&&◌, [], ◌∷◌, ◌++◌, arith,
  Option, none, some, ltb, leb, ◌==◌, if◌then◌else◌, length, take, Bytes,
}
use b1cc.Runtime.Memory.{Mem, store}
use b1cc.Runtime.Copy.{
  StringAt, StringAt-store, StringAt-append, StringAt-bytes, end_loop, end_loop_lem,
}

-- `for (; i < n; ++i) dst[i] = '\0';`, with `rounds` rounds left
pad_loop : Mem → ℕ → ℕ → ℕ → Mem
pad_loop m dst zero i = m
pad_loop m dst (suc rounds) i = pad_loop (store m (dst + i) 0) dst rounds (i + 1)

-- `for (i = 0; i < n && src[i]; ++i) dst[i] = src[i];` and the loop behind it
ncopy_loop : Mem → ℕ → ℕ → ℕ → ℕ → Mem
ncopy_loop m dst src zero i = m
ncopy_loop m dst src (suc rounds) i = elim (m (src + i) == 0) [
  | true ↦ pad_loop m dst (suc rounds) i
  | false ↦ ncopy_loop (store m (dst + i) (m (src + i))) dst src rounds (i + 1)
]

unfoldable strncpy : Mem → ℕ → ℕ → ℕ → Mem
unfolding ncopy_loop pad_loop
strncpy m dst src n = ncopy_loop m dst src n 0

-- `for (size_t i = 0; i < n && src[i]; ++i) *d++ = src[i]; *d = '\0';`
ncat_loop : Mem → ℕ → ℕ → ℕ → Mem
ncat_loop m d src zero = store m d 0
ncat_loop m d src (suc rounds) = elim (m src == 0) [
  | true ↦ store m d 0
  | false ↦ ncat_loop (store m d (m src)) (d + 1) (src + 1) rounds
]

unfoldable strncat : Mem → ℕ → ℕ → ℕ → ℕ → Option Mem
unfolding end_loop ncat_loop
strncat m dst src n fuel = elim (end_loop m dst fuel) [
  | none ↦ none
  | some d ↦ some (ncat_loop m d src n)
]

abbrev within : ℕ → ℕ → ℕ → Bool
within lo n a = leb lo a && ltb a (lo + n)

pad_loop_lem :
    (m : Mem) (dst rounds i a : ℕ)
    → pad_loop m dst rounds i a ≡ (if within (dst + i) rounds a then 0 else m a)
unfolding pad_loop
pad_loop_lem m dst zero i a = ground arith
pad_loop_lem m dst (suc rounds) i a =
    ground (arith, pad_loop_lem (store m (dst + i) 0) dst rounds (i + 1) a)

ncopy_loop_lem :
    (s : Bytes) (m : Mem) (dst src rounds i a : ℕ)
    → StringAt m (src + i) s
    → (dst + i + rounds ≤ src + i) ⊎ (src + i + length s < dst + i)
    → ncopy_loop m dst src rounds i a ≡ (
        if within (dst + i) rounds a
        then (if ltb (a - (dst + i)) (length s) then m (src + (a - dst)) else 0)
        else m a)
unfolding ncopy_loop
ncopy_loop_lem s m dst src zero i a h apart = ground arith
ncopy_loop_lem [] m dst src (suc rounds) i a h apart =
    ground (arith, pad_loop_lem m dst (suc rounds) i a)
ncopy_loop_lem (c ∷ s) m dst src (suc rounds) i a (e, nz, h) apart =
    let z : src + i + 1 ≡ src + (i + 1) = omega arith in
    ground (
      arith,
      ncopy_loop_lem s (store m (dst + i) (m (src + i))) dst src rounds (i + 1) a
          (StringAt-store m (src + (i + 1)) (dst + i) (m (src + i)) s (ground arith) (rw z at h)),
    )

-- `strncpy` of a C string writes exactly the `n` bytes of the destination: the bytes of the
-- string as far as they go and zeros behind them. No terminating zero is written if the string
-- has `n` bytes or more. The source lies behind those `n` bytes, or ends before them.
strncpy_lem :
    (s : Bytes) (m : Mem) (dst src n a : ℕ)
    → StringAt m src s
    → (dst + n ≤ src) ⊎ (src + length s < dst)
    → strncpy m dst src n a ≡ (
        if leb dst a && ltb a (dst + n)
        then (if ltb (a - dst) (length s) then m (src + (a - dst)) else 0)
        else m a)
unfolding strncpy
strncpy_lem s m dst src n a h apart =
    let z : src ≡ src + 0 = omega arith in
    ground (arith, ncopy_loop_lem s m dst src n 0 a (rw z at h))

ncat_loop_lem :
    (t : Bytes) (m : Mem) (d src rounds : ℕ)
    → StringAt m src t
    → (d ≤ src) ⊎ (src + length t < d)
    → StringAt (ncat_loop m d src rounds) d (take rounds t)
      × ((a : ℕ) → (a < d) ⊎ (d + length (take rounds t) < a) → ncat_loop m d src rounds a ≡ m a)
unfolding ncat_loop
ncat_loop_lem t m d src zero h apart = (ground arith, λ a out. ground arith)
ncat_loop_lem [] m d src (suc rounds) h apart = (ground arith, λ a out. ground arith)
ncat_loop_lem (c ∷ t) m d src (suc rounds) (e, nz, h) apart =
    let (there, out) =
      ncat_loop_lem t (store m d (m src)) (d + 1) (src + 1) rounds
        (StringAt-store m (src + 1) d (m src) t (ground arith) h) (ground arith) in
    let test : (m src == 0) ≡ false = ground arith in
    let step : ncat_loop m d src (suc rounds)
        ≡ ncat_loop (store m d (m src)) (d + 1) (src + 1) rounds =
      rw (test, ncat_loop) in
    subst
      (λ (m' : Mem).
        StringAt m' d (c ∷ take rounds t)
        × ((a : ℕ) → (a < d) ⊎ (d + suc (length (take rounds t)) < a) → m' a ≡ m a))
      (sym step) ((ground (arith, out d), nz, there), λ a far. ground (arith, out a))

-- `strncat` of two C strings ends, and leaves at the destination the first string followed by at
-- most `n` bytes of the second and a terminating zero, and every byte outside as it was. The
-- source starts behind the first string's end, or ends before the destination starts.
strncat_lem :
    (s t : Bytes) (m : Mem) (dst src n fuel : ℕ)
    → StringAt m dst s
    → StringAt m src t
    → (dst + length s ≤ src) ⊎ (src + length t < dst)
    → length s < fuel
    → (m' : Mem) × (strncat m dst src n fuel ≡ some m')
      × StringAt m' dst (s ++ take n t)
      × ((a : ℕ) → (a < dst) ⊎ (dst + length s + length (take n t) < a) → m' a ≡ m a)
unfolding strncat
strncat_lem s t m dst src n fuel hs ht apart enough =
    let (there, out) = ncat_loop_lem t m (dst + length s) src n ht (ground arith) in
    (
      ncat_loop m (dst + length s) src n,
      rw (end_loop_lem s m dst fuel hs enough, strncat),
      StringAt-append s (take n t) _ dst there
          (λ i lt. ground (arith, out (dst + i), StringAt-bytes s m dst i hs lt)),
      λ a far. ground (arith, out a),
    )
