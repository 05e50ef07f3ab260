-- ===== src/Link/Reloc/Meaning.antt =====
-- What the field of a relocation of src/linker.c means to the processor.
use b1cc.Common.{
  ℕ, ◌+◌, ◌-◌, ◌%◌, ◌^◌, ◌≤◌, ◌<◌, ◌≡◌, ◌∙◌, Bool, true, ◌||◌, ◌==◌, ltb, leb, if◌then◌else◌, arith,
  inl, inr, Bool-cases, length, drop, Bytes,
}
use b1cc.Elf.Buffer.{rd32, rd64}
use b1cc.Link.{Rela}
use b1cc.Link.Reloc.{ok, le, overwrite, patch, apply_rela}
use b1cc.Link.Reloc.Field.{rd32-word, rd64-word, word-overwrite4, word-overwrite8}

-- How many bytes a relocation writes.
abbrev pub width : Rela → ℕ
width r = if r.type == 1 then 8 else 4

-- Sign extension to 64 bits.
abbrev sign32 : ℕ → ℕ
sign32 v = if ltb v (2 ^ 31) then v else v + (2 ^ 64 - 2 ^ 32)

-- What the field means to the processor, for the field's address `p`.
unfoldable pub meaning : Rela → ℕ → Bytes → ℕ
meaning r p s =
    if r.type == 1
    then rd64 (drop r.off s)
    else if r.type == 2 || r.type == 4
    then (p + sign32 (rd32 (drop r.off s))) % 2 ^ 64
    else if r.type == 10
    then rd32 (drop r.off s)
    else sign32 (rd32 (drop r.off s))

-- The 64-bit pattern is in the range of a signed 32-bit number.
abbrev is_int32 : ℕ → Bool
is_int32 v = ltb v (2 ^ 31) || leb (2 ^ 64 - 2 ^ 31) v

-- The value fits the field.
unfoldable pub fits : Rela → ℕ → ℕ → Bool
fits r p t =
    if r.type == 1
    then true
    else if r.type == 2 || r.type == 4
    then is_int32 ((t + (2 ^ 64 - p)) % 2 ^ 64)
    else if r.type == 10
    then ltb t (2 ^ 32)
    else is_int32 t

pub patch-ok :
    (off : ℕ) (new s w : Bytes)
    → patch off new s ≡ ok w
    → (off + length new ≤ length s) × (w ≡ overwrite s off new)
unfolding patch
patch-ok off new s w e = elim (Bool-cases (ltb (length s) (off + length new))) [
  | inl h ↦ let clash = rw (h, patch) at e in absurd cc
  | inr h ↦ let same = rw (h, patch) at e in (ground arith, cc)
]

patch-rd32 :
    (off v : ℕ) (s w : Bytes) → v < 2 ^ 32 → patch off (le 4 v) s ≡ ok w → rd32 (drop off w) ≡ v
patch-rd32 off v s w small e =
    let (room, is) = patch-ok off (le 4 v) s w e in
    rd32-word w off ∙ rw is (word-overwrite4 s off v small room)

-- The distance from the field, sign extended, leads to the target.
reaches :
    (t p : ℕ)
    → t < 2 ^ 64
    → p < 2 ^ 64
    → is_int32 ((t + (2 ^ 64 - p)) % 2 ^ 64) ≡ true
    → (p + sign32 ((t + (2 ^ 64 - p)) % 2 ^ 64 % 2 ^ 32)) % 2 ^ 64 ≡ t
reaches t p small low fit = ground arith

extends : (t : ℕ) → t < 2 ^ 64 → is_int32 t ≡ true → sign32 (t % 2 ^ 32) ≡ t
extends t small fit = ground arith

shorten :
    (x p : ℕ) → p < 2 ^ 64 → (x + (2 ^ 64 - p)) % 2 ^ 64 ≡ (x % 2 ^ 64 + (2 ^ 64 - p)) % 2 ^ 64
shorten x p low = omega arith

-- Type by type: where the value fits, the field means the symbol's address plus the addend.
pub apply_rela-meaning :
    (s p : ℕ) (r : Rela) (bytes w : Bytes)
    → p < 2 ^ 64
    → fits r p ((s + r.add) % 2 ^ 64) ≡ true
    → apply_rela s p r bytes ≡ ok w
    → meaning r p w ≡ (s + r.add) % 2 ^ 64
unfolding apply_rela meaning fits
apply_rela-meaning s p r bytes w low fit e = elim (Bool-cases (r.type == 1)) [
  | inl one ↦
      let (room, is) =
        patch-ok r.off (le 8 ((s + r.add) % 2 ^ 64)) bytes w (rw (one, apply_rela) at e) in
      let value = word-overwrite8 bytes r.off ((s + r.add) % 2 ^ 64) (omega arith) room in
      rw (one, meaning) (rd64-word w r.off ∙ rw is value)
  | inr other ↦ elim (Bool-cases (r.type == 2 || r.type == 4)) [
    | inl relative ↦
        let t = (s + r.add) % 2 ^ 64 in
        let written = rw (relative, apply_rela) at (rw (other, apply_rela) at e) in
        let field = patch-rd32 r.off _ bytes w (omega arith) written in
        let fit' = rw (relative, fits) at (rw (other, fits) at fit) in
        rw (other, meaning)
          (rw (relative, meaning)
            (rw field (rw (shorten (s + r.add) p low) (reaches t p (omega arith) low fit'))))
    | inr absolute ↦ elim (Bool-cases (r.type == 10 || r.type == 11)) [
      | inl known ↦
          let t = (s + r.add) % 2 ^ 64 in
          let written =
            rw (known, apply_rela) at
              (rw (absolute, apply_rela) at (rw (other, apply_rela) at e)) in
          let field = patch-rd32 r.off (t % 2 ^ 32) bytes w (omega arith) written in
          let fit' = rw (absolute, fits) at (rw (other, fits) at fit) in
          rw (other, meaning)
            (rw (absolute, meaning)
              (elim (Bool-cases (r.type == 10)) [
                | inl zero_extended ↦
                    let fit'' = rw (zero_extended, fits) at fit' in
                    rw (zero_extended, meaning) (field ∙ ground arith)
                | inr sign_extended ↦
                    let fit'' = rw (sign_extended, fits) at fit' in
                    rw (sign_extended, meaning) (rw field (extends t (omega arith) fit''))
              ]))
      | inr unknown ↦
          let clash =
            rw (unknown, apply_rela) at
              (rw (absolute, apply_rela) at (rw (other, apply_rela) at e)) in
          absurd cc
    ]
  ]
]
