-- ===== src/Runtime/Copy.antt =====
-- strcpy, strncpy, strcat and strncat of runtime/runtime.c, over a memory of bytes by address.
-- The fuel bounds the rounds of each `while`; `none` means that it ran out.
use b1cc.Common.{
  ℕ, zero, suc, ◌+◌, ◌-◌, ◌≤◌, ◌<◌, ◌≡◌, ◌≢◌, ◌⊎◌, true, false, ◌&&◌, [], ◌∷◌, ◌++◌, arith, Option,
  none, some, ltb, leb, ◌==◌, if◌then◌else◌, length, get_or, Bytes,
}
use b1cc.Runtime.Memory.{Mem, store}

-- `while ((*d++ = *src++));`
copy_loop : Mem → ℕ → ℕ → ℕ → Option Mem
copy_loop m d src zero = none
copy_loop m d src (suc fuel) = elim (m src == 0) [
  | true ↦ some (store m d (m src))
  | false ↦ copy_loop (store m d (m src)) (d + 1) (src + 1) fuel
]

unfoldable strcpy : Mem → ℕ → ℕ → ℕ → Option Mem
unfolding copy_loop
strcpy m dst src fuel = copy_loop m dst src fuel

-- `while (*d) ++d;`
unfoldable pub end_loop : Mem → ℕ → ℕ → Option ℕ
end_loop m d zero = none
end_loop m d (suc fuel) = elim (m d == 0) [ true ↦ some d | false ↦ end_loop m (d + 1) fuel ]

unfoldable strcat : Mem → ℕ → ℕ → ℕ → Option Mem
unfolding end_loop copy_loop
strcat m dst src fuel = elim (end_loop m dst fuel) [ none ↦ none | some d ↦ copy_loop m d src fuel ]

-- The C string `s` stands at address `p`, with its terminating zero.
abbrev pub StringAt : Mem → ℕ → Bytes → Type 0
StringAt m p [] = m p ≡ 0
StringAt m p (c ∷ s) = (m p ≡ c) × (c ≢ 0) × StringAt m (p + 1) s

-- A string is untouched by a write outside it.
pub StringAt-store :
    (m : Mem) (p q v : ℕ) (s : Bytes)
    → (q < p) ⊎ (p + length s < q)
    → StringAt m p s
    → StringAt (store m q v) p s
StringAt-store m p q v [] out h = ground arith
StringAt-store m p q v (c ∷ s) out h =
    (ground arith, h.1, StringAt-store m (p + 1) q v s (ground arith) h.2)

-- The bytes of memory after a copy of `n` bytes.
abbrev copied : Mem → ℕ → ℕ → ℕ → ℕ → ℕ
copied m dst src n a = if leb dst a && ltb a (dst + n) then m (src + (a - dst)) else m a

copy_loop_lem :
    (s : Bytes) (m : Mem) (dst src fuel : ℕ)
    → StringAt m src s
    → (dst ≤ src) ⊎ (src + length s < dst)
    → length s < fuel
    → (m' : Mem) × (copy_loop m dst src fuel ≡ some m')
      × ((a : ℕ) → m' a ≡ copied m dst src (length s + 1) a)
      × StringAt m' dst s
unfolding copy_loop
copy_loop_lem s m dst src zero h apart enough = absurd (omega arith)
copy_loop_lem [] m dst src (suc fuel) h apart enough =
    (store m dst (m src), ground arith, λ a. ground arith, ground arith)
copy_loop_lem (c ∷ s) m dst src (suc fuel) (e, nz, h) apart enough =
    let m₁ : Mem = store m dst (m src) in
    let (m', run, bytes, there) =
      copy_loop_lem s m₁ (dst + 1) (src + 1) fuel
        (StringAt-store m (src + 1) dst (m src) s (ground arith) h) (ground arith) (omega arith) in
    (m', ground (arith, run), λ a. ground (arith, bytes a), (ground (arith, bytes dst), nz, there))

-- `strcpy` of a C string ends, writes the string with its terminating zero at the destination and
-- leaves every other byte as it was, if the destination starts at or before the source or behind
-- the end of the source string.
strcpy_lem :
    (s : Bytes) (m : Mem) (dst src fuel : ℕ)
    → StringAt m src s
    → (dst ≤ src) ⊎ (src + length s < dst)
    → length s < fuel
    → (m' : Mem) × (strcpy m dst src fuel ≡ some m')
      × StringAt m' dst s
      × ((a : ℕ) → (a < dst) ⊎ (dst + length s < a) → m' a ≡ m a)
unfolding strcpy
strcpy_lem s m dst src fuel h apart enough =
    let (m', run, bytes, there) = copy_loop_lem s m dst src fuel h apart enough in
    (m', run, there, λ a out. ground (arith, bytes a))

pub end_loop_lem :
    (s : Bytes) (m : Mem) (d fuel : ℕ)
    → StringAt m d s
    → length s < fuel
    → end_loop m d fuel ≡ some (d + length s)
unfolding end_loop
end_loop_lem s m d zero h enough = absurd (omega arith)
end_loop_lem [] m d (suc fuel) h enough = ground arith
end_loop_lem (c ∷ s) m d (suc fuel) (e, nz, h) enough =
    ground (arith, end_loop_lem s m (d + 1) fuel h (omega arith))

-- Two pieces that stand one after the other are one string.
pub StringAt-append :
    (s t : Bytes) (m : Mem) (p : ℕ)
    → StringAt m (p + length s) t
    → ((i : ℕ) → i < length s → (m (p + i) ≡ get_or s i 0) × (get_or s i 0 ≢ 0))
    → StringAt m p (s ++ t)
StringAt-append [] t m p h bytes = let e : p + 0 ≡ p = omega arith in rw e at h
StringAt-append (c ∷ s) t m p h bytes =
    let z : p + 0 ≡ p = omega arith in
    let first = bytes 0 (omega arith) in
    let e : p + suc (length s) ≡ p + 1 + length s = omega arith in
    (
      rw z at first.0,
      first.1,
      StringAt-append s t m (p + 1) (rw e at h) (λ i lt.
          let s' : p + suc i ≡ p + 1 + i = omega arith in
          let r = bytes (suc i) (omega arith) in rw s' at r),
    )

pub StringAt-bytes :
    (s : Bytes) (m : Mem) (p i : ℕ)
    → StringAt m p s
    → i < length s
    → (m (p + i) ≡ get_or s i 0) × (get_or s i 0 ≢ 0)
StringAt-bytes [] m p i h lt = absurd (omega arith)
StringAt-bytes (c ∷ s) m p zero (e, nz, h) lt = let z : p + 0 ≡ p = omega arith in rw z (e, nz)
StringAt-bytes (c ∷ s) m p (suc i) (e, nz, h) lt =
    let s' : p + suc i ≡ p + 1 + i = omega arith in
    rw s' (StringAt-bytes s m (p + 1) i h (omega arith))

-- `strcat` of two C strings ends, and leaves their concatenation at the destination and every
-- byte outside it as it was, if the source starts behind the end of the result, or ends before
-- the destination starts.
strcat_lem :
    (s t : Bytes) (m : Mem) (dst src fuel : ℕ)
    → StringAt m dst s
    → StringAt m src t
    → (dst + length s ≤ src) ⊎ (src + length t < dst)
    → length s < fuel
    → length t < fuel
    → (m' : Mem) × (strcat m dst src fuel ≡ some m')
      × StringAt m' dst (s ++ t)
      × ((a : ℕ) → (a < dst) ⊎ (dst + length s + length t < a) → m' a ≡ m a)
unfolding strcat
strcat_lem s t m dst src fuel hs ht apart es et =
    let (m', run, bytes, there) =
      copy_loop_lem t m (dst + length s) src fuel ht (ground arith) et in
    (
      m',
      rw (end_loop_lem s m dst fuel hs es, strcat) run,
      StringAt-append s t m' dst there
          (λ i lt. ground (arith, bytes (dst + i), StringAt-bytes s m dst i hs lt)),
      λ a out. ground (arith, bytes a),
    )
