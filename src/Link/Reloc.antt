-- ===== src/Link/Reloc.antt =====
-- The relocations of elf_link_static of src/linker.c, step 4. Addresses and addends are 64-bit
-- patterns; an addend that is negative is its two's complement.
pub mod Field
pub mod Meaning
pub mod Holds
pub mod Section
mod Examples
use b1cc.Common.{
  ℕ, zero, suc, ◌+◌, ◌-◌, ◌/◌, ◌%◌, ◌^◌, Bool, true, false, ◌||◌, Option, none, some, List, [], ◌∷◌,
  ◌==◌, ltb, if◌then◌else◌, get_elem?, set, length, Bytes,
}
use b1cc.Link.{Rela, Sec, Sym, Obj, Linker, sym_addr, stb_weak}

-- The messages that end the run with 1; `outside` is a symbol index, an object or an offset that
-- points to nothing.
pub data Result {ℓ} (A : Type ℓ) : Type ℓ where
  ok : A → Result A
  undefined_symbol : Bytes → Result A
  unsupported_type : ℕ → Result A
  outside : Result A

infixl 5 ◌>>=◌
abbrev pub ◌>>=◌ {ℓ κ} : {A : Type ℓ} {B : Type κ} → Result A → (A → Result B) → Result B
ok a >>= f = f a
undefined_symbol name >>= f = undefined_symbol name
unsupported_type t >>= f = unsupported_type t
outside >>= f = outside

abbrev pub le : ℕ → ℕ → Bytes
le zero v = []
le (suc n) v = v % 2 ^ 8 ∷ le n (v / 2 ^ 8)

-- memcpy(data + off, new, ..), where that is inside
unfoldable pub overwrite : Bytes → ℕ → Bytes → Bytes
overwrite [] off new = []
overwrite (c ∷ s) (suc off) new = c ∷ overwrite s off new
overwrite (c ∷ s) zero [] = c ∷ s
overwrite (c ∷ s) zero (x ∷ new) = x ∷ overwrite s zero new

unfoldable pub patch : ℕ → Bytes → Bytes → Result Bytes
patch off new bytes =
    if ltb (length bytes) (off + length new) then outside else ok (overwrite bytes off new)

-- The switch over the types: R_X86_64_64, PC32, PLT32, 32 and 32S.
unfoldable pub apply_rela : ℕ → ℕ → Rela → Bytes → Result Bytes
apply_rela s p r bytes =
    if r.type == 1
    then patch r.off (le 8 ((s + r.add) % 2 ^ 64)) bytes
    else if r.type == 2 || r.type == 4
    then patch r.off (le 4 ((s + r.add + (2 ^ 64 - p)) % 2 ^ 64 % 2 ^ 32)) bytes
    else if r.type == 10 || r.type == 11
    then patch r.off (le 4 ((s + r.add) % 2 ^ 64 % 2 ^ 32)) bytes
    else unsupported_type r.type

-- sym_addr, and what is done where it fails: an undefined weak symbol is 0.
unfoldable pub symbol_value : Linker → Obj → ℕ → Result ℕ
symbol_value lk o index = elim (get_elem? o.syms index) [
  | none ↦ outside
  | some y ↦ elim (sym_addr lk o y) [
    | some v ↦ ok v
    | none ↦ if y.bind == stb_weak then ok 0 else undefined_symbol y.name
  ]
]

-- The loop over the relocations of a section at `va`.
unfoldable pub relocate : Linker → Obj → ℕ → List Rela → Bytes → Result Bytes
relocate lk o va [] bytes = ok bytes
relocate lk o va (r ∷ rels) bytes = do
  s ← symbol_value lk o r.sym
  written ← apply_rela s ((va + r.off) % 2 ^ 64) r bytes
  relocate lk o va rels written

-- `if (!s->nrel || !s->data) continue;`
unfoldable relocate_sec : Linker → Obj → Sec → Result Sec
relocate_sec lk o s = elim s.data_of [
  | none ↦ ok s
  | some bytes ↦ do
    written ← relocate lk o s.va s.rel bytes
    ok (record s { data_of = some written })
]

unfoldable relocate_secs : Linker → Obj → List Sec → Result (List Sec)
relocate_secs lk o [] = ok []
relocate_secs lk o (s ∷ secs) = do
  s' ← relocate_sec lk o s
  secs' ← relocate_secs lk o secs
  ok (s' ∷ secs')

-- The objects in the order of `lk->objs`. Addresses do not depend on the bytes that change.
unfoldable relocate_objs : Linker → List ℕ → Result Linker
relocate_objs lk [] = ok lk
relocate_objs lk (o ∷ os) = elim (get_elem? lk.heap o) [
  | none ↦ outside
  | some obj ↦ do
    secs ← relocate_secs lk obj obj.secs
    relocate_objs (record lk { heap = set lk.heap o (record obj { secs = secs }) }) os
]
