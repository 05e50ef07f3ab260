-- ===== src/Elf/Leb.antt =====
-- write_uleb128 and write_sleb128 of src/elf_writer.c, with the decoder that DWARF describes.
use native.Mathlib.Nat.{pow-suc}
use b1cc.Common.{
  ℕ, zero, suc, ◌+◌, ◌-◌, ◌*◌, ◌/◌, ◌%◌, ◌^◌, ◌≤◌, ◌<◌, ◌≡◌, ap, Bool, true, false, ◌&&◌, [], ◌∷◌,
  ◌++◌, Option, none, some, arith, ltb, leb, ◌==◌, Bool-cases, inl, inr, if◌then◌else◌, length,
  Bytes,
}
use b1cc.Common.Int.{ℤ, pos, negsuc}

-- The `do` loop with fuel: the bytes that it writes. `none` means that the fuel ran out.
uleb_loop : ℕ → ℕ → Option Bytes
uleb_loop zero val = none
uleb_loop (suc fuel) val =
    let more = uleb_loop fuel (val / 128) in
    if val / 128 == 0
    then some ((val % 128) ∷ [])
    else elim more [ none ↦ none | some r ↦ some ((val % 128 + 128) ∷ r) ]

-- Seven bits a round: ten rounds are enough for 64 bits.
unfoldable write_uleb128 : ℕ → Option Bytes
unfolding uleb_loop
write_uleb128 val = uleb_loop 10 val

-- `val & 0x7F` and `val >>= 7` on the two's complement of a signed number
abbrev low_bits : ℤ → ℕ
low_bits (pos n) = n % 128
low_bits (negsuc n) = 127 - n % 128

abbrev shift_right : ℤ → ℤ
shift_right (pos n) = pos (n / 128)
shift_right (negsuc n) = negsuc (n / 128)

-- `(val == 0 && !(byte & 0x40)) || (val == -1 && (byte & 0x40))`
abbrev is_last : ℤ → ℕ → Bool
is_last (pos n) byte = n == 0 && ltb byte 64
is_last (negsuc n) byte = n == 0 && leb 64 byte

sleb_loop : ℕ → ℤ → Option Bytes
sleb_loop zero val = none
sleb_loop (suc fuel) val =
    let byte = low_bits val in
    let rest = shift_right val in
    let more = sleb_loop fuel rest in
    if is_last rest byte
    then some (byte ∷ [])
    else elim more [ none ↦ none | some r ↦ some ((byte + 128) ∷ r) ]

unfoldable pub write_sleb128 : ℤ → Option Bytes
unfolding sleb_loop
write_sleb128 val = sleb_loop 10 val

-- What the format says: seven bits a byte, the low ones first, the top bit set on all but the
-- last; the number and the bytes behind it.
read_uleb : Bytes → Option (ℕ × Bytes)
read_uleb [] = none
read_uleb (b ∷ s) =
    let more = read_uleb s in
    if ltb b 128
    then some (b, s)
    else elim more [ none ↦ none | some (n, rest) ↦ some (b - 128 + 128 * n, rest) ]

-- The same, where bit 6 of the last byte is the sign.
pub read_sleb : Bytes → Option (ℤ × Bytes)
read_sleb [] = none
read_sleb (b ∷ s) =
    let more = read_sleb s in
    if ltb b 64
    then some (pos b, s)
    else if ltb b 128
    then some (negsuc (127 - b), s)
    else elim more [
      | none ↦ none
      | some (pos n, rest) ↦ some (pos (b - 128 + 128 * n), rest)
      | some (negsuc n, rest) ↦ some (negsuc (128 * n + (255 - b)), rest)
    ]

-- What a writer owes: the decoder reads the number back and leaves the bytes behind it.
abbrev pub Reads :
    {A : Type 0} → (Bytes → Option (A × Bytes)) → Option Bytes → A → ℕ → Bytes → Type 0
Reads read out val bound rest =
    (s : Bytes) × (out ≡ some s) × (read (s ++ rest) ≡ some (val, rest)) × (length s ≤ bound)

read_uleb-last : (b v : ℕ) (s : Bytes) → b < 128 → b ≡ v → read_uleb (b ∷ s) ≡ some (v, s)
unfolding read_uleb
read_uleb-last b v s h e =
    let yes : ltb b 128 ≡ true = ground arith in rw (yes, if◌then◌else◌) (ap (λ x. some (x, s)) e)

read_uleb-more :
    (b n v : ℕ) (s rest : Bytes)
    → 128 ≤ b
    → read_uleb s ≡ some (n, rest)
    → b - 128 + 128 * n ≡ v
    → read_uleb (b ∷ s) ≡ some (v, rest)
unfolding read_uleb
read_uleb-more b n v s rest h back e =
    let no : ltb b 128 ≡ false = ground arith in
    rw (no, if◌then◌else◌) (rw back (ap (λ x. some (x, rest)) e))

uleb_loop_lem :
    (fuel val : ℕ) (rest : Bytes)
    → val < 128 ^ suc fuel
    → Reads read_uleb (uleb_loop (suc fuel) val) val (suc fuel) rest
unfolding uleb_loop
uleb_loop_lem zero val rest h =
    let last : val / 128 == 0 ≡ true = ground arith in
    (
      (val % 128) ∷ [],
      rw (last, if◌then◌else◌),
      read_uleb-last (val % 128) val rest (omega arith) (omega arith),
      omega arith,
    )
uleb_loop_lem (suc fuel) val rest h = elim (Bool-cases (val / 128 == 0)) [
  | inl last ↦ (
    (val % 128) ∷ [],
    rw (last, if◌then◌else◌),
    read_uleb-last (val % 128) val rest (omega arith) (ground arith),
    omega arith,
  )
  | inr more ↦
      let (s, run, back, short) =
        uleb_loop_lem fuel (val / 128) rest (omega (arith, pow-suc 128 (suc fuel))) in
      (
        (val % 128 + 128) ∷ s,
        rw (more, if◌then◌else◌) (rw run),
        read_uleb-more (val % 128 + 128) (val / 128) val (s ++ rest) rest (omega arith) back
            (omega arith),
        omega arith,
      )
]

-- For every 64-bit number the loop ends within ten rounds, and what it writes, whatever follows
-- it, is read back by the decoder as that number, with what follows left over.
write_uleb128-read_uleb :
    (val : ℕ) (rest : Bytes) → val < 2 ^ 64 → Reads read_uleb (write_uleb128 val) val 10 rest
unfolding write_uleb128
write_uleb128-read_uleb val rest h = uleb_loop_lem 9 val rest (omega arith)

read_sleb-last :
    (b : ℕ) (v : ℤ) (s : Bytes)
    → b < 128
    → (if ltb b 64 then pos b else negsuc (127 - b)) ≡ v
    → read_sleb (b ∷ s) ≡ some (v, s)
unfolding read_sleb
read_sleb-last b v s h e = elim (Bool-cases (ltb b 64)) [
  | inl low ↦ ground (arith, low, e)
  | inr high ↦ ground (arith, high, e)
]

-- The value bits of a signed number: those of its complement where it is negative.
abbrev value_bits : ℤ → ℕ
value_bits (pos n) = n
value_bits (negsuc n) = n

-- The number that a byte with its top bit set leads to.
abbrev prepend : ℕ → ℤ → ℤ
prepend b (pos n) = pos (b - 128 + 128 * n)
prepend b (negsuc n) = negsuc (128 * n + (255 - b))

read_sleb-more :
    (b : ℕ) (n v : ℤ) (s rest : Bytes)
    → 128 ≤ b
    → read_sleb s ≡ some (n, rest)
    → prepend b n ≡ v
    → read_sleb (b ∷ s) ≡ some (v, rest)
unfolding read_sleb
read_sleb-more b (pos n) v s rest h back e =
    let low : ltb b 64 ≡ false = ground arith in
    let no : ltb b 128 ≡ false = ground arith in
    rw (low, if◌then◌else◌) (rw (no, if◌then◌else◌) (rw back (ap (λ x. some (x, rest)) e)))
read_sleb-more b (negsuc n) v s rest h back e =
    let low : ltb b 64 ≡ false = ground arith in
    let no : ltb b 128 ≡ false = ground arith in
    rw (low, if◌then◌else◌) (rw (no, if◌then◌else◌) (rw back (ap (λ x. some (x, rest)) e)))

-- One round that ends and one that goes on, for a number of either sign.
sleb-last-read :
    (v : ℤ) (rest : Bytes)
    → is_last (shift_right v) (low_bits v) ≡ true
    → read_sleb (low_bits v ∷ rest) ≡ some (v, rest)
sleb-last-read (pos n) rest h =
    read_sleb-last (n % 128) (pos n) rest (omega arith) (ground (arith, h))
sleb-last-read (negsuc n) rest h =
    read_sleb-last (127 - n % 128) (negsuc n) rest (omega arith) (ground (arith, h))

sleb-more-read :
    (v : ℤ) (s rest : Bytes)
    → read_sleb s ≡ some (shift_right v, rest)
    → read_sleb ((low_bits v + 128) ∷ s) ≡ some (v, rest)
sleb-more-read (pos n) s rest back =
    read_sleb-more (n % 128 + 128) (pos (n / 128)) (pos n) s rest (omega arith) back
      (ap pos (omega arith))
sleb-more-read (negsuc n) s rest back =
    read_sleb-more (127 - n % 128 + 128) (negsuc (n / 128)) (negsuc n) s rest (omega arith) back
      (ap negsuc (omega arith))

shift_right-bound : (v : ℤ) (b : ℕ) → value_bits v < 128 * b → value_bits (shift_right v) < b
shift_right-bound (pos n) b h = omega arith
shift_right-bound (negsuc n) b h = omega arith

is_last-small : (v : ℤ) → value_bits v < 64 → is_last (shift_right v) (low_bits v) ≡ true
is_last-small (pos n) h = ground arith
is_last-small (negsuc n) h = ground arith

sleb_loop_lem :
    (fuel : ℕ) (val : ℤ) (rest : Bytes)
    → value_bits val < 64 * 128 ^ fuel
    → Reads read_sleb (sleb_loop (suc fuel) val) val (suc fuel) rest
unfolding sleb_loop
sleb_loop_lem zero val rest h =
    let last = is_last-small val h in
    (low_bits val ∷ [], rw (last, if◌then◌else◌), sleb-last-read val rest last, omega arith)
sleb_loop_lem (suc fuel) val rest h = elim (Bool-cases (is_last (shift_right val) (low_bits val))) [
  | inl last ↦
      (low_bits val ∷ [], rw (last, if◌then◌else◌), sleb-last-read val rest last, omega arith)
  | inr more ↦
      let bound = shift_right-bound val (64 * 128 ^ fuel) (omega (arith, pow-suc 128 fuel)) in
      let (s, run, back, short) = sleb_loop_lem fuel (shift_right val) rest bound in
      (
        (low_bits val + 128) ∷ s,
        rw (more, if◌then◌else◌) (rw run),
        sleb-more-read val (s ++ rest) rest back,
        omega arith,
      )
]

-- For every signed 64-bit number the loop ends within ten rounds, and what it writes, whatever
-- follows it, is read back by the decoder as that number, sign included, with what follows left
-- over.
pub write_sleb128-read_sleb :
    (val : ℤ) (rest : Bytes)
    → value_bits val < 2 ^ 63
    → Reads read_sleb (write_sleb128 val) val 10 rest
unfolding write_sleb128
write_sleb128-read_sleb val rest h = sleb_loop_lem 9 val rest (omega arith)
