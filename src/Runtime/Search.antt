-- ===== src/Runtime/Search.antt =====
-- strchr, strrchr and strstr of runtime/runtime.c. The pointer that they return is its offset in
-- the string; `none` is the null pointer. The character argument is a nonnegative int.
use b1cc.Common.{
  ℕ, zero, suc, ◌+◌, ◌%◌, ◌<◌, ◌≡◌, ◌≢◌, refl, inl, inr, Bool, true, false, [], ◌∷◌, ◌++◌, arith,
  Option, none, some, ◌==◌, Bool-cases, if◌then◌else◌, drop, Bytes,
}

strchr_loop : Bytes → ℕ → ℕ → Option ℕ
strchr_loop [] c i = if c == 0 then some i else none
strchr_loop (x ∷ s) c i = elim (x == c % 256) [ true ↦ some i | false ↦ strchr_loop s c (i + 1) ]

unfoldable strchr : Bytes → ℕ → Option ℕ
unfolding strchr_loop
strchr s c = strchr_loop s c 0

strrchr_loop : Bytes → ℕ → ℕ → Option ℕ → Option ℕ
strrchr_loop [] c i last = if c == 0 then some i else last
strrchr_loop (x ∷ s) c i last = strrchr_loop s c (i + 1) (if x == c % 256 then some i else last)

unfoldable strrchr : Bytes → ℕ → Option ℕ
unfolding strrchr_loop
strrchr s c = strrchr_loop s c 0 none

-- `while (*h && *n && *h == *n) { ++h; ++n; }` and then `!*n`
match_here : Bytes → Bytes → Bool
match_here h [] = true
match_here [] (y ∷ n) = false
match_here (x ∷ h) (y ∷ n) = elim (x == y) [ true ↦ match_here h n | false ↦ false ]

strstr_loop : Bytes → Bytes → ℕ → Option ℕ
strstr_loop [] needle i = none
strstr_loop (x ∷ h) needle i = elim (match_here (x ∷ h) needle) [
  | true ↦ some i
  | false ↦ strstr_loop h needle (i + 1)
]

unfoldable pub strstr : Bytes → Bytes → Option ℕ
unfolding strstr_loop match_here
strstr h [] = some 0
strstr h (y ∷ n) = strstr_loop h (y ∷ n) 0

-- The byte at an offset, the terminating zero included.
abbrev byte_at : Bytes → ℕ → Option ℕ
byte_at [] zero = some 0
byte_at [] (suc i) = none
byte_at (c ∷ s) zero = some c
byte_at (c ∷ s) (suc i) = byte_at s i

abbrev FirstAt : Bytes → ℕ → Option ℕ → Type 0
FirstAt s c none = (i : ℕ) → byte_at s i ≢ some c
FirstAt s c (some k) = (byte_at s k ≡ some c) × ((i : ℕ) → i < k → byte_at s i ≢ some c)

abbrev LastAt : Bytes → ℕ → Option ℕ → Type 0
LastAt s c none = (i : ℕ) → byte_at s i ≢ some c
LastAt s c (some k) = (byte_at s k ≡ some c) × ((i : ℕ) → k < i → byte_at s i ≢ some c)

abbrev shift : ℕ → Option ℕ → Option ℕ
shift k none = none
shift k (some i) = some (k + i)

strchr_loop-shift : (s : Bytes) (c k : ℕ) → strchr_loop s c k ≡ shift k (strchr_loop s c 0)
unfolding strchr_loop
strchr_loop-shift [] c k = ground arith
strchr_loop-shift (x ∷ s) c k =
    ground (arith, strchr_loop-shift s c (k + 1), strchr_loop-shift s c 1)

FirstAt-cons :
    (x : ℕ) (s : Bytes) (c : ℕ) (r : Option ℕ)
    → x ≢ c
    → FirstAt s c r
    → FirstAt (x ∷ s) c (shift 1 r)
FirstAt-cons x s c none ne h = elim [ zero ↦ ground arith | suc i ↦ h i ]
FirstAt-cons x s c (some k) ne h =
    let e : 1 + k ≡ suc k = omega arith in
    rw e (h.0, elim [ zero ↦ λ lt. ground arith | suc i ↦ λ lt. h.1 i (omega arith) ])

FirstAt-nil : (c : ℕ) → FirstAt [] c (if c == 0 then some 0 else none)
FirstAt-nil c = elim (Bool-cases (c == 0)) [
  | inl z ↦ rw z (ground arith, λ i lt. absurd (omega arith))
  | inr nz ↦ rw nz (elim [ zero ↦ ground arith | suc i ↦ ground arith ])
]

-- `strchr` gives the first offset at which the byte stands, and none only if it stands nowhere;
-- the terminating zero counts as a byte of the string. The argument is a byte.
strchr-FirstAt : (s : Bytes) (c : ℕ) → c < 256 → FirstAt s c (strchr s c)
unfolding strchr strchr_loop
strchr-FirstAt [] c h = FirstAt-nil c
strchr-FirstAt (x ∷ s) c h = elim (Bool-cases (x == c % 256)) [
  | inl here ↦ rw (here, strchr_loop, FirstAt) (ground arith, λ i lt. absurd (omega arith))
  | inr later ↦
      rw (later, strchr_loop)
        (rw (strchr_loop-shift s c 1)
          (FirstAt-cons x s c (strchr_loop s c 0) (ground arith) (strchr-FirstAt s c h)))
]

abbrev last_of : Option ℕ → ℕ → Option ℕ → Option ℕ
last_of last i none = last
last_of last i (some k) = some (i + k)

strrchr_loop-last_of :
    (s : Bytes) (c i : ℕ) (last : Option ℕ)
    → strrchr_loop s c i last ≡ last_of last i (strrchr_loop s c 0 none)
unfolding strrchr_loop
strrchr_loop-last_of [] c i last = ground arith
strrchr_loop-last_of (x ∷ s) c i last = ground (
  arith,
  strrchr_loop-last_of s c (i + 1) (if x == c % 256 then some i else last),
  strrchr_loop-last_of s c 1 (if x == c % 256 then some 0 else none),
)

LastAt-cons :
    (x : ℕ) (s : Bytes) (c : ℕ) (r : Option ℕ)
    → LastAt s c r
    → LastAt (x ∷ s) c (last_of (if x == c then some 0 else none) 1 r)
LastAt-cons x s c none h = elim (Bool-cases (x == c)) [
  | inl same ↦
      rw same (ground arith, elim [ zero ↦ λ lt. absurd (omega arith) | suc i ↦ λ lt. h i ])
  | inr other ↦ rw other (elim [ zero ↦ ground arith | suc i ↦ h i ])
]
LastAt-cons x s c (some k) h =
    let e : 1 + k ≡ suc k = omega arith in
    rw e (h.0, elim [ zero ↦ λ lt. absurd (omega arith) | suc i ↦ λ lt. h.1 i (omega arith) ])

-- `strrchr` gives the last offset at which the byte stands, and none only if it stands nowhere.
strrchr-LastAt : (s : Bytes) (c : ℕ) → c < 256 → LastAt s c (strrchr s c)
unfolding strrchr strrchr_loop
strrchr-LastAt [] c h = elim (Bool-cases (c == 0)) [
  | inl z ↦
      rw z (ground arith, elim [ zero ↦ λ lt. absurd (omega arith) | suc i ↦ λ lt. ground arith ])
  | inr nz ↦ rw nz (elim [ zero ↦ ground arith | suc i ↦ ground arith ])
]
strrchr-LastAt (x ∷ s) c h =
    let byte : c % 256 ≡ c = omega arith in
    rw (strrchr_loop-last_of s c 1 (if x == c % 256 then some 0 else none), byte)
      (LastAt-cons x s c (strrchr_loop s c 0 none) (strrchr-LastAt s c h))

-- `needle` stands in `h` at offset `i`.
abbrev OccursAt : Bytes → Bytes → ℕ → Type 0
OccursAt h needle i = (rest : Bytes) × (drop i h ≡ needle ++ rest)

abbrev FirstOccurrence : Bytes → Bytes → Option ℕ → Type 0
FirstOccurrence h needle none = (i : ℕ) → ¬ OccursAt h needle i
FirstOccurrence h needle (some k) = OccursAt h needle k × ((i : ℕ) → i < k → ¬ OccursAt h needle i)

match_here-true : (h n : Bytes) → match_here h n ≡ true → (rest : Bytes) × (h ≡ n ++ rest)
unfolding match_here
match_here-true h [] e = (h, refl)
match_here-true [] (y ∷ n) e = cc
match_here-true (x ∷ h) (y ∷ n) e = elim (Bool-cases (x == y)) [
  | inl same ↦
      let (rest, p) = match_here-true h n (rw (same, match_here) at e) in (rest, ground arith)
  | inr other ↦ cc (rw (other, match_here) at e)
]

match_here-append : (n rest : Bytes) → match_here (n ++ rest) n ≡ true
unfolding match_here
match_here-append [] rest = refl
match_here-append (y ∷ n) rest = ground (arith, match_here-append n rest)

match_here-false : (h n : Bytes) → match_here h n ≡ false → ¬ OccursAt h n 0
match_here-false h n e (rest, p) = cc (match_here-append n rest)

shift_some-FirstOccurrence :
    (x : ℕ) (h n : Bytes) (r : Option ℕ)
    → ¬ OccursAt (x ∷ h) n 0
    → FirstOccurrence h n r
    → FirstOccurrence (x ∷ h) n (shift 1 r)
shift_some-FirstOccurrence x h n none ne f = elim [ zero ↦ ne | suc i ↦ f i ]
shift_some-FirstOccurrence x h n (some k) ne f =
    let e : 1 + k ≡ suc k = omega arith in
    rw e (f.0, elim [ zero ↦ λ lt. ne | suc i ↦ λ lt. f.1 i (omega arith) ])

strstr_loop-shift : (h n : Bytes) (k : ℕ) → strstr_loop h n k ≡ shift k (strstr_loop h n 0)
unfolding strstr_loop
strstr_loop-shift [] n k = refl
strstr_loop-shift (x ∷ h) n k =
    ground (arith, strstr_loop-shift h n (k + 1), strstr_loop-shift h n 1)

drop-nil : (i y : ℕ) (n : Bytes) → ¬ OccursAt [] (y ∷ n) i
drop-nil zero y n (rest, p) = cc
drop-nil (suc i) y n (rest, p) = cc

strstr_loop-FirstOccurrence :
    (h : Bytes) (y : ℕ) (n : Bytes) → FirstOccurrence h (y ∷ n) (strstr_loop h (y ∷ n) 0)
unfolding strstr_loop
strstr_loop-FirstOccurrence [] y n = λ i. drop-nil i y n
strstr_loop-FirstOccurrence (x ∷ h) y n = elim (Bool-cases (match_here (x ∷ h) (y ∷ n))) [
  | inl here ↦
      rw (here, strstr_loop, FirstOccurrence)
        (match_here-true (x ∷ h) (y ∷ n) here, λ i lt. absurd (omega arith))
  | inr later ↦
      rw (later, strstr_loop)
        (rw (strstr_loop-shift h (y ∷ n) 1) (
          shift_some-FirstOccurrence x h (y ∷ n) (strstr_loop h (y ∷ n) 0)
            (match_here-false (x ∷ h) (y ∷ n) later) (strstr_loop-FirstOccurrence h y n)))
]

-- `strstr` gives the first offset at which the second string stands in the first, and none only
-- if it stands nowhere; the empty string stands at offset 0.
strstr-FirstOccurrence : (h needle : Bytes) → FirstOccurrence h needle (strstr h needle)
unfolding strstr
strstr-FirstOccurrence h [] = ((h, refl), λ i lt. absurd (omega arith))
strstr-FirstOccurrence h (y ∷ n) = strstr_loop-FirstOccurrence h y n
