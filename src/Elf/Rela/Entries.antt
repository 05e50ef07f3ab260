-- ===== src/Elf/Rela/Entries.antt =====
-- The entries of a relocation section, written by src/elf_writer.c and read by src/linker.c.
use b1cc.Common.{
  ℕ, zero, suc, ◌+◌, ◌*◌, ◌/◌, ◌%◌, ◌^◌, ◌<◌, ◌≡◌, refl, sym, ap, ◌∙◌, some, some_injective, List,
  [], ◌∷◌, ◌++◌, append-nil, append_assoc, map, arith, All, length, get_elem?, drop, Bytes,
}
use b1cc.Elf.Buffer.{ByteBuf, size, bb_init, rd64}
use b1cc.Elf.Header.{le64, write64-bytes, rd64-le64}
use b1cc.Link.{Rela}
use b1cc.Elf.Rela.{
  ElfSym, ElfReloc, locals, others, add_undefined, symbol_index, extend_addend, write_rela,
  write_relas, read_rela, read_relas, read_rela_section,
}
use b1cc.Elf.Rela.Names.{NamedAt, relocation-named}

-- The fields have the widths that their C types give them.
abbrev pub IsWide : ElfReloc → Type 0
IsWide r = (r.offset < 2 ^ 64) × (r.addend < 2 ^ 32) × (r.type < 2 ^ 32)

-- What the linker is meant to read.
abbrev pub entry : List ElfSym → ElfReloc → Rela
entry syms r = record {
  off = r.offset;
  sym = symbol_index syms r.sym_name;
  type = r.type;
  add = extend_addend r.addend;
}

-- The second field: the symbol's index and the type.
abbrev info : List ElfSym → ElfReloc → ℕ
info syms r = symbol_index syms r.sym_name * 2 ^ 32 % 2 ^ 64 + r.type

abbrev entry_bytes : List ElfSym → ElfReloc → Bytes
entry_bytes syms r = le64 r.offset ++ (le64 (info syms r) ++ le64 (extend_addend r.addend))

write_rela-bytes :
    (syms : List ElfSym) (out : ByteBuf) (r : ElfReloc)
    → (write_rela syms out r).bytes ≡ out.bytes ++ entry_bytes syms r
unfolding write_rela
write_rela-bytes syms out r =
    write64-bytes _ (extend_addend r.addend)
    ∙ (ap (λ b. b ++ le64 (extend_addend r.addend))
          (write64-bytes _ (info syms r)
            ∙ ap (λ b. b ++ le64 (info syms r)) (write64-bytes out r.offset))
        ∙ simp (append_assoc) refl)

all_bytes : List ElfSym → List ElfReloc → Bytes
all_bytes syms [] = []
all_bytes syms (r ∷ rels) = entry_bytes syms r ++ all_bytes syms rels

write_relas-bytes :
    (syms : List ElfSym) (rels : List ElfReloc) (out : ByteBuf)
    → (write_relas syms out rels).bytes ≡ out.bytes ++ all_bytes syms rels
unfolding write_relas all_bytes
write_relas-bytes syms [] out = sym (append-nil out.bytes)
write_relas-bytes syms (r ∷ rels) out =
    write_relas-bytes syms rels (write_rela syms out r)
    ∙ (ap (λ b. b ++ all_bytes syms rels) (write_rela-bytes syms out r)
        ∙ append_assoc out.bytes (entry_bytes syms r) (all_bytes syms rels))

read_rela-entry :
    (syms : List ElfSym) (r : ElfReloc) (rest : Bytes)
    → IsWide r
    → symbol_index syms r.sym_name < 2 ^ 32
    → read_rela (entry_bytes syms r ++ rest) ≡ entry syms r
unfolding read_rela
read_rela-entry syms r rest (o, a, t) few =
    let middle : rd64 (drop 8 (entry_bytes syms r ++ rest)) ≡ info syms r =
      rd64-le64 (info syms r) (le64 (extend_addend r.addend) ++ rest) (omega arith) in
    λ i. record {
      off = rd64-le64 r.offset (drop 8 (entry_bytes syms r ++ rest)) o i;
      sym = (ap (λ v. v / 2 ^ 32) middle ∙ index) i;
      type = (ap (λ v. v % 2 ^ 32) middle ∙ kind) i;
      add = rd64-le64 (extend_addend r.addend) rest (ground arith) i;
    }
  where
    index : info syms r / 2 ^ 32 ≡ symbol_index syms r.sym_name
    index = omega arith

    kind : info syms r % 2 ^ 32 ≡ r.type
    kind = omega arith

read_relas-entries :
    (syms : List ElfSym) (rels : List ElfReloc)
    → All IsWide rels
    → All (λ r. symbol_index syms r.sym_name < 2 ^ 32) rels
    → (length (all_bytes syms rels) ≡ 24 * length rels)
      × (read_relas (length rels) 24 (all_bytes syms rels) ≡ map (entry syms) rels)
unfolding read_relas all_bytes
read_relas-entries syms [] w few = (refl, refl)
read_relas-entries syms (r ∷ rels) (w, ws) (few, fews) =
    let (size, same) = read_relas-entries syms rels ws fews in
    let one = read_rela-entry syms r (all_bytes syms rels) w few in
    (omega arith, rw one (rw same refl))

-- The symbols of the table behind the null symbol, and the bytes of `.rela.text`.
abbrev pub table : List ElfReloc → List ElfSym → List ElfSym
table rels syms = locals (add_undefined rels syms) ++ others (add_undefined rels syms)

abbrev pub rela_text : List ElfReloc → List ElfSym → Bytes
rela_text rels syms = (write_relas (add_undefined rels syms) bb_init rels).bytes

get_elem?-lt : {A : Type 0} (xs : List A) (i : ℕ) (a : A) → get_elem? xs i ≡ some a → i < length xs
get_elem?-lt [] i a g = absurd cc
get_elem?-lt (x ∷ xs) zero a g = omega arith
get_elem?-lt (x ∷ xs) (suc i) a g = let less = get_elem?-lt xs i a g in omega arith

get_elem?-map :
    {A B : Type 0} (f : A → B) (xs : List A) (i : ℕ) (a : A)
    → get_elem? xs i ≡ some a
    → get_elem? (map f xs) i ≡ some (f a)
get_elem?-map f [] i a g = absurd cc
get_elem?-map f (x ∷ xs) zero a g = ap (λ b. some (f b)) (some_injective g)
get_elem?-map f (x ∷ xs) (suc i) a g = get_elem?-map f xs i a g

All-of :
    {A : Type 0} (P : A → Type 0) (xs : List A)
    → ((k : ℕ) (a : A) → get_elem? xs k ≡ some a → P a)
    → All P xs
All-of P [] h = tt
All-of P (x ∷ xs) h = (h 0 x refl, All-of P xs (λ k a g. h (suc k) a g))

-- The whole section, read with the size that it has.
rela_text-entries :
    (rels : List ElfReloc) (syms : List ElfSym)
    → All IsWide rels
    → length (table rels syms) < 2 ^ 31
    → read_rela_section (length (rela_text rels syms)) 24 (rela_text rels syms)
      ≡ map (entry (add_undefined rels syms)) rels
unfolding read_rela_section bb_init
rela_text-entries rels syms w few =
    let syms' = add_undefined rels syms in
    let fews =
      All-of (λ r. symbol_index syms' r.sym_name < 2 ^ 32) rels
        (λ k r g.
          let (i, e, (s, at, named)) = relocation-named rels syms k r g in
          let less = get_elem?-lt (table rels syms) i s at in omega arith) in
    let (size, same) = read_relas-entries syms' rels w fews in
    let count : length (all_bytes syms' rels) / 24 ≡ length rels = omega arith in
    rw (write_relas-bytes syms' rels bb_init) (rw count same)

-- What the linker reads at the place of a relocation has its offset and its type, its addend
-- extended to 64 bits, and the index of a symbol of the symbol table, counted from behind the null
-- symbol, that has the relocation's name, whether the unit defines it or not; the fields have the
-- widths of their C types and there are fewer than 2 ^ 31 symbols.
pub read_rela_section-rela_text :
    (rels : List ElfReloc) (syms : List ElfSym) (k : ℕ) (r : ElfReloc)
    → All IsWide rels
    → length (table rels syms) < 2 ^ 31
    → get_elem? rels k ≡ some r
    → (q : Rela) × (get_elem?
          (read_rela_section (length (rela_text rels syms)) 24 (rela_text rels syms))
          k
        ≡ some q)
      × (q.off ≡ r.offset)
      × (q.type ≡ r.type)
      × (q.add ≡ extend_addend r.addend)
      × ((i : ℕ) × (q.sym ≡ suc i) × NamedAt r.sym_name (table rels syms) i)
read_rela_section-rela_text rels syms k r w few g =
    let (i, e, named) = relocation-named rels syms k r g in
    (
      entry (add_undefined rels syms) r,
      rw (rela_text-entries rels syms w few) (get_elem?-map _ rels k r g),
      refl,
      refl,
      refl,
      (i, e, named),
    )
