-- ===== src/Link/Address.antt =====
-- The address that sym_addr gives to a global symbol.
use b1cc.Common.{
  ℕ, ◌+◌, ◌≡◌, ◌≢◌, refl, sym, some_injective, ◌∙◌, true, false, Option, none, some, arith, inl,
  inr, Bool-cases, ◌==◌, get_elem?, str_eq,
}
use b1cc.HashMap.Laws.{hashmap_get-Models}
use b1cc.Link.{Sec, Sym, Obj, GlobalDef, Linker}
use b1cc.Common.{Option-cases}
use b1cc.Link.Resolve.{Dictionary, Holds}
use b1cc.Link.Winner.{globals_of}
use b1cc.Link.{sym_addr, defined_addr, stb_local, stt_section, shn_undef}
use b1cc.Common.{codes, ◌%◌, ◌^◌}

-- The address of a symbol by the section that it is in: the value alone in the absolute section
-- 0xfff1, the section's address plus the value in a section of the object, and none elsewhere.
pub data AddressOf (o : Obj) (y : Sym) : Option ℕ → Type 0 where
  absolute : y.shndx ≡ 0xfff1 → AddressOf o y (some y.value)
  in_section :
      {s : Sec}
      → y.shndx ≢ 0xfff1
      → get_elem? o.secs y.shndx ≡ some s
      → AddressOf o y (some ((s.va + y.value) % 2 ^ 64))
  nowhere : y.shndx ≢ 0xfff1 → get_elem? o.secs y.shndx ≡ none → AddressOf o y none

defined_addr-AddressOf : (o : Obj) (y : Sym) → AddressOf o y (defined_addr o y)
unfolding defined_addr
defined_addr-AddressOf o y = elim (Bool-cases (y.shndx == 0xfff1)) [
  | inl e ↦ rw (e, defined_addr) (absolute (ground arith))
  | inr ne ↦ elim (Option-cases (get_elem? o.secs y.shndx)) [
    | inl gone ↦ rw (ne, defined_addr) (rw gone (nowhere (ground arith) gone))
    | inr (s, there) ↦ rw (ne, defined_addr) (rw there (in_section (ground arith) there))
  ]
]

-- In a linker whose names stand for the definitions of a dictionary, a symbol that is neither
-- local nor a section nor a boundary of the constructors has the address of the symbol that its
-- name's definition points to, in the object of that definition, whichever object refers to it: the
-- value alone in the absolute section, the address of its section plus the value in a section of
-- the object, and none elsewhere.
pub sym_addr-global :
    (lk : Linker) (o : Obj) (y : Sym) (f : Dictionary) (g : GlobalDef) (def : Obj) (z : Sym)
    → Holds (globals_of lk) f
    → y.bind ≢ stb_local
    → y.type ≢ stt_section
    → str_eq y.name (codes "__init_array_start") ≡ false
    → str_eq y.name (codes "__init_array_end") ≡ false
    → f y.name ≡ some g
    → get_elem? lk.heap g.obj ≡ some def
    → get_elem? def.syms g.symidx ≡ some z
    → AddressOf def z (sym_addr lk o y)
unfolding sym_addr
sym_addr-global lk o y f g def z w global plain start stop stands object symbol =
    let global' : y.bind == stb_local ≡ false = ground arith in
    let plain' : y.type == stt_section ≡ false = ground arith in
    let found = (hashmap_get-Models w.stored y.name).0 in
    rw (global', sym_addr)
      (rw (plain', sym_addr)
        (rw (start, sym_addr)
          (rw (stop, sym_addr)
            (elim (Option-cases (w.place y.name)) [
              | inl fresh ↦ let gone = w.absent y.name fresh in absurd cc
              | inr (d, there) ↦
                  let (x, at, value) = w.points y.name d there in
                  let same : x ≡ g = some_injective (sym value ∙ stands) in
                  let at' = rw same at at in
                  rw (found ∙ there) (rw at' (rw object (rw symbol (defined_addr-AddressOf def z))))
            ]))))

-- An undefined symbol whose name no definition stands for has no address.
pub sym_addr-undefined :
    (lk : Linker) (o : Obj) (y : Sym) (f : Dictionary)
    → Holds (globals_of lk) f
    → y.bind ≢ stb_local
    → y.type ≢ stt_section
    → str_eq y.name (codes "__init_array_start") ≡ false
    → str_eq y.name (codes "__init_array_end") ≡ false
    → f y.name ≡ none
    → y.shndx ≡ 0
    → sym_addr lk o y ≡ none
unfolding sym_addr
sym_addr-undefined lk o y f w global plain start stop stands undefined =
    let global' : y.bind == stb_local ≡ false = ground arith in
    let plain' : y.type == stt_section ≡ false = ground arith in
    let undefined' : y.shndx == shn_undef ≡ true = ground arith in
    let found = (hashmap_get-Models w.stored y.name).0 in
    rw (global', sym_addr)
      (rw (plain', sym_addr)
        (rw (start, sym_addr)
          (rw (stop, sym_addr)
            (elim (Option-cases (w.place y.name)) [
              | inl fresh ↦ rw (found ∙ fresh) (rw undefined' refl)
              | inr (d, there) ↦ let (x, at, value) = w.points y.name d there in absurd cc
            ]))))
