-- ===== src/Link/Reloc/Field.antt =====
-- The bytes that a relocation of src/linker.c writes.
use b1cc.Common.{
  ℕ, zero, suc, ◌+◌, ◌*◌, ◌^◌, ◌≤◌, ◌<◌, ◌≡◌, ◌⊎◌, refl, ap, [], ◌∷◌, arith, length, get_or, drop,
  Bytes,
}
use b1cc.Elf.Buffer.{rd32, rd64}
use b1cc.Link.Reloc.{le, overwrite}

abbrev pub byte : Bytes → ℕ → ℕ
byte s i = get_or s i 0

pub length-overwrite : (s : Bytes) (off : ℕ) (new : Bytes) → length (overwrite s off new) ≡ length s
unfolding overwrite
length-overwrite [] off new = refl
length-overwrite (c ∷ s) (suc off) new = ap suc (length-overwrite s off new)
length-overwrite (c ∷ s) zero [] = refl
length-overwrite (c ∷ s) zero (x ∷ new) = ap suc (length-overwrite s zero new)

-- Inside the new bytes, and outside of them.
byte-overwrite_new :
    (s : Bytes) (off : ℕ) (new : Bytes) (i j : ℕ)
    → j ≡ off + i
    → i < length new
    → off + length new ≤ length s
    → byte (overwrite s off new) j ≡ byte new i
unfolding overwrite
byte-overwrite_new [] off new i j at lt room = absurd (omega arith)
byte-overwrite_new (c ∷ s) (suc off) new i zero at lt room = absurd (omega arith)
byte-overwrite_new (c ∷ s) (suc off) new i (suc j) at lt room =
    byte-overwrite_new s off new i j (omega arith) lt (omega arith)
byte-overwrite_new (c ∷ s) zero [] i j at lt room = absurd (omega arith)
byte-overwrite_new (c ∷ s) zero (x ∷ new) zero zero at lt room = refl
byte-overwrite_new (c ∷ s) zero (x ∷ new) zero (suc j) at lt room = absurd (omega arith)
byte-overwrite_new (c ∷ s) zero (x ∷ new) (suc i) zero at lt room = absurd (omega arith)
byte-overwrite_new (c ∷ s) zero (x ∷ new) (suc i) (suc j) at lt room =
    byte-overwrite_new s zero new i j (omega arith) (omega arith) (omega arith)

pub byte-overwrite_old :
    (s : Bytes) (off : ℕ) (new : Bytes) (i : ℕ)
    → (i < off) ⊎ (off + length new ≤ i)
    → byte (overwrite s off new) i ≡ byte s i
unfolding overwrite
byte-overwrite_old [] off new i h = refl
byte-overwrite_old (c ∷ s) (suc off) new zero h = refl
byte-overwrite_old (c ∷ s) (suc off) new (suc i) h = byte-overwrite_old s off new i (ground arith)
byte-overwrite_old (c ∷ s) zero [] i h = refl
byte-overwrite_old (c ∷ s) zero (x ∷ new) zero h = absurd (ground arith)
byte-overwrite_old (c ∷ s) zero (x ∷ new) (suc i) h = byte-overwrite_old s zero new i (ground arith)

byte-drop : (s : Bytes) (off i j : ℕ) → j ≡ off + i → byte (drop off s) i ≡ byte s j
byte-drop [] zero i j at = refl
byte-drop [] (suc off) i j at = refl
byte-drop (c ∷ s) zero i j at = let same : j ≡ i = omega arith in rw same refl
byte-drop (c ∷ s) (suc off) i zero at = absurd (omega arith)
byte-drop (c ∷ s) (suc off) i (suc j) at = byte-drop s off i j (omega arith)

-- The four bytes from `off` on, as a number.
abbrev pub word : Bytes → ℕ → ℕ
word s off =
    byte s off + 2 ^ 8 * byte s (off + 1) + 2 ^ 16 * byte s (off + 2) + 2 ^ 24 * byte s (off + 3)

pub rd32-word : (s : Bytes) (off : ℕ) → rd32 (drop off s) ≡ word s off
unfolding rd32
rd32-word s off = omega (
  arith,
  byte-drop s off 0 off (omega arith),
  byte-drop s off 1 (off + 1) refl,
  byte-drop s off 2 (off + 2) refl,
  byte-drop s off 3 (off + 3) refl,
)

pub rd64-word : (s : Bytes) (off : ℕ) → rd64 (drop off s) ≡ word s off + 2 ^ 32 * word s (off + 4)
unfolding rd64
rd64-word s off = omega (
  arith,
  rd32-word s off,
  rd32-word (drop off s) 4,
  byte-drop s off 4 (off + 4) refl,
  byte-drop s off 5 (off + 4 + 1) (omega arith),
  byte-drop s off 6 (off + 4 + 2) (omega arith),
  byte-drop s off 7 (off + 4 + 3) (omega arith),
)

-- What a read gives behind the write of a number.
pub word-overwrite4 :
    (s : Bytes) (off v : ℕ)
    → v < 2 ^ 32
    → off + 4 ≤ length s
    → word (overwrite s off (le 4 v)) off ≡ v
word-overwrite4 s off v small room =
    let new = le 4 v in
    omega (
      arith,
      byte-overwrite_new s off new 0 off (omega arith) (omega arith) room,
      byte-overwrite_new s off new 1 (off + 1) refl (omega arith) room,
      byte-overwrite_new s off new 2 (off + 2) refl (omega arith) room,
      byte-overwrite_new s off new 3 (off + 3) refl (omega arith) room,
    )

pub word-overwrite8 :
    (s : Bytes) (off v : ℕ)
    → v < 2 ^ 64
    → off + 8 ≤ length s
    → word (overwrite s off (le 8 v)) off + 2 ^ 32 * word (overwrite s off (le 8 v)) (off + 4) ≡ v
word-overwrite8 s off v small room =
    let new = le 8 v in
    omega (
      arith,
      byte-overwrite_new s off new 0 off (omega arith) (omega arith) room,
      byte-overwrite_new s off new 1 (off + 1) refl (omega arith) room,
      byte-overwrite_new s off new 2 (off + 2) refl (omega arith) room,
      byte-overwrite_new s off new 3 (off + 3) refl (omega arith) room,
      byte-overwrite_new s off new 4 (off + 4) refl (omega arith) room,
      byte-overwrite_new s off new 5 (off + 4 + 1) (omega arith) (omega arith) room,
      byte-overwrite_new s off new 6 (off + 4 + 2) (omega arith) (omega arith) room,
      byte-overwrite_new s off new 7 (off + 4 + 3) (omega arith) (omega arith) room,
    )
