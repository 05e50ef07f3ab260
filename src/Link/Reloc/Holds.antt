-- ===== src/Link/Reloc/Holds.antt =====
-- One relocation of a section of src/linker.c: its result, and the bytes outside its field.
use b1cc.Common.{
  ℕ, ◌+◌, ◌-◌, ◌%◌, ◌^◌, ◌≤◌, ◌<◌, ◌≡◌, ◌⊎◌, refl, sym, ◌∙◌, true, ◌||◌, List, [], ◌∷◌, ◌==◌, arith,
  inl, inr, Bool-cases, All, length, drop, Bytes,
}
use b1cc.Elf.Buffer.{rd32}
use b1cc.Link.{Rela, Obj, Linker}
use b1cc.Link.Reloc.{
  Result, ok, undefined_symbol, unsupported_type, outside, ◌>>=◌, le, overwrite, patch, apply_rela,
  symbol_value,
}
use b1cc.Link.Reloc.Field.{byte, word, byte-overwrite_old, length-overwrite, rd32-word, rd64-word}
use b1cc.Link.Reloc.Meaning.{width, meaning, patch-ok}

pub bind-ok :
    {A B : Type 0} (m : Result A) (f : A → Result B) {b : B}
    → m >>= f ≡ ok b
    → (a : A) × (m ≡ ok a) × (f a ≡ ok b)
bind-ok (ok a) f h = (a, refl, h)
bind-ok (undefined_symbol name) f h = absurd cc
bind-ok (unsupported_type t) f h = absurd cc
bind-ok outside f h = absurd cc

-- The byte `j` is not in the relocation's field.
abbrev pub Away : ℕ → Rela → Type 0
Away j r = (j < r.off) ⊎ (r.off + width r ≤ j)

pub apply_rela-kept :
    (s p : ℕ) (r : Rela) (bytes w : Bytes) (j : ℕ)
    → apply_rela s p r bytes ≡ ok w
    → Away j r
    → byte w j ≡ byte bytes j
unfolding apply_rela
apply_rela-kept s p r bytes w j e away = elim (Bool-cases (r.type == 1)) [
  | inl one ↦
      let (room, is) = patch-ok r.off _ bytes w (rw (one, apply_rela) at e) in
      rw is (byte-overwrite_old bytes r.off _ j (ground arith))
  | inr other ↦ elim (Bool-cases (r.type == 2 || r.type == 4)) [
    | inl relative ↦
        let (room, is) =
          patch-ok r.off _ bytes w (rw (relative, apply_rela) at (rw (other, apply_rela) at e)) in
        rw is (byte-overwrite_old bytes r.off _ j (ground arith))
    | inr absolute ↦ elim (Bool-cases (r.type == 10 || r.type == 11)) [
      | inl known ↦
          let (room, is) = patch-ok r.off _ bytes w (
            rw (known, apply_rela) at
              (rw (absolute, apply_rela) at (rw (other, apply_rela) at e))) in
          rw is (byte-overwrite_old bytes r.off _ j (ground arith))
      | inr unknown ↦
          let clash =
            rw (unknown, apply_rela) at
              (rw (absolute, apply_rela) at (rw (other, apply_rela) at e)) in
          absurd cc
    ]
  ]
]

-- The fields of two relocations have no byte in common.
abbrev pub Separated : Rela → Rela → Type 0
Separated r q = (r.off + width r ≤ q.off) ⊎ (q.off + width q ≤ r.off)

abbrev pub Separate : List Rela → Type 0
Separate [] = Unit
Separate (r ∷ rels) = All (Separated r) rels × Separate rels

-- The type is known, the field is inside the section, and the symbol has a value.
abbrev pub IsGood : Linker → Obj → ℕ → Rela → Type 0
IsGood lk o size r =
    (r.type == 1 || (r.type == 2 || r.type == 4) || (r.type == 10 || r.type == 11) ≡ true)
    × (r.off + width r ≤ size)
    × ((s : ℕ) × (symbol_value lk o r.sym ≡ ok s))

patch-returns :
    (off : ℕ) (new s : Bytes)
    → off + length new ≤ length s
    → patch off new s ≡ ok (overwrite s off new)
unfolding patch
patch-returns off new s room = ground arith

pub apply_rela-returns :
    (s p : ℕ) (r : Rela) (bytes : Bytes)
    → r.type == 1 || (r.type == 2 || r.type == 4) || (r.type == 10 || r.type == 11) ≡ true
    → r.off + width r ≤ length bytes
    → (w : Bytes) × (apply_rela s p r bytes ≡ ok w) × (length w ≡ length bytes)
unfolding apply_rela
apply_rela-returns s p r bytes known room = elim (Bool-cases (r.type == 1)) [
  | inl one ↦
      let new = le 8 ((s + r.add) % 2 ^ 64) in
      (
        overwrite bytes r.off new,
        rw (one, apply_rela) (patch-returns r.off new bytes (ground arith)),
        length-overwrite bytes r.off new,
      )
  | inr other ↦ elim (Bool-cases (r.type == 2 || r.type == 4)) [
    | inl relative ↦
        let new = le 4 ((s + r.add + (2 ^ 64 - p)) % 2 ^ 64 % 2 ^ 32) in
        (
          overwrite bytes r.off new,
          rw (other, apply_rela)
              (rw (relative, apply_rela) (patch-returns r.off new bytes (ground arith))),
          length-overwrite bytes r.off new,
        )
    | inr absolute ↦
        let new = le 4 ((s + r.add) % 2 ^ 64 % 2 ^ 32) in
        let listed : r.type == 10 || r.type == 11 ≡ true = ground arith in
        (
          overwrite bytes r.off new,
          rw (other, apply_rela)
              (rw (absolute, apply_rela)
                (rw (listed, apply_rela) (patch-returns r.off new bytes (ground arith)))),
          length-overwrite bytes r.off new,
        )
  ]
]

-- The field of a relocation is the same in both.
abbrev SameField : Rela → Bytes → Bytes → Type 0
SameField r v w = (j : ℕ) → r.off ≤ j → j < r.off + width r → byte w j ≡ byte v j

word-same :
    (v w : Bytes) (off : ℕ)
    → ((j : ℕ) → off ≤ j → j < off + 4 → byte w j ≡ byte v j)
    → word w off ≡ word v off
word-same v w off h = omega (
  arith,
  h off (omega arith) (omega arith),
  h (off + 1) (omega arith) (omega arith),
  h (off + 2) (omega arith) (omega arith),
  h (off + 3) (omega arith) (omega arith),
)

pub meaning-same :
    (r : Rela) (p : ℕ) (v w : Bytes) → SameField r v w → meaning r p w ≡ meaning r p v
unfolding meaning
meaning-same r p v w h =
    let low = word-same v w r.off (λ j a b. h j a (ground arith)) in
    let four : rd32 (drop r.off w) ≡ rd32 (drop r.off v) =
      rd32-word w r.off ∙ low ∙ sym (rd32-word v r.off) in
    elim (Bool-cases (r.type == 1)) [
      | inl one ↦
          let high = word-same v w (r.off + 4) (λ j a b. h j (omega arith) (ground arith)) in
          rw (one, meaning) (rd64-word w r.off ∙ omega (arith, low, high) ∙ sym (rd64-word v r.off))
      | inr other ↦ rw (other, meaning) (rw four refl)
    ]
