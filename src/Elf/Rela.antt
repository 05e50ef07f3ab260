-- ===== src/Elf/Rela.antt =====
-- The relocations of an object file: the symbol table's order, the undefined symbols and `.rela.text`
-- of src/elf_writer.c, and the entries that `parse_object` of src/linker.c reads. Counts are C ints
-- that stay below 2 ^ 31.
pub mod Names
pub mod Entries
use b1cc.Common.{
  ℕ, zero, suc, ◌+◌, ◌-◌, ◌*◌, ◌/◌, ◌%◌, ◌^◌, Bool, true, false, ◌&&◌, ◌||◌, List, [], ◌∷◌, ◌++◌,
  ◌==◌, ltb, if◌then◌else◌, length, drop, Bytes, str_eq,
}
use b1cc.Elf.Buffer.{ByteBuf, bb_write64le, rd64}
use b1cc.Link.{Rela}

-- `addend` is an int32_t as its 32-bit pattern.
pub record ElfReloc : Type 0 where
  pub sym_name : Bytes
  pub offset : ℕ
  pub addend : ℕ
  pub type : ℕ

pub record ElfSym : Type 0 where
  pub name : Bytes
  pub shndx : ℕ
  pub value : ℕ
  pub size : ℕ
  pub bind : ℕ
  pub type : ℕ
  pub defined : Bool

abbrev pub is_local : ElfSym → Bool
is_local s = s.bind == 0

-- The entries behind the null symbol: the local ones, then the others. The undefined symbols that
-- come last are global and stand at the end of `syms`.
abbrev pub locals : List ElfSym → List ElfSym
locals [] = []
locals (s ∷ syms) = if is_local s then s ∷ locals syms else locals syms

abbrev pub others : List ElfSym → List ElfSym
others [] = []
others (s ∷ syms) = if is_local s then others syms else s ∷ others syms

abbrev pub found : Bytes → List ElfSym → Bool
found name [] = false
found name (s ∷ syms) = str_eq s.name name || found name syms

abbrev undef_sym : Bytes → ElfSym
undef_sym name = record {
  name = name;
  shndx = 0;
  value = 0;
  size = 0;
  bind = 1;
  type = 0;
  defined = false;
}

-- "Add undefined external symbols from relocations"
unfoldable pub add_undefined : List ElfReloc → List ElfSym → List ElfSym
add_undefined [] syms = syms
add_undefined (r ∷ rels) syms =
    add_undefined rels (if found r.sym_name syms then syms else syms ++ undef_sym r.sym_name ∷ [])

-- The two loops: `sym_idx` stays 0 where none has the name.
unfoldable pub local_index : Bytes → List ElfSym → ℕ → ℕ
local_index name [] sym_num = 0
local_index name (s ∷ syms) sym_num =
    let rest = local_index name syms (if is_local s then sym_num + 1 else sym_num) in
    if is_local s && str_eq s.name name then sym_num + 1 - 1 else rest

unfoldable pub global_index : Bytes → List ElfSym → ℕ → ℕ
global_index name [] sym_num = 0
global_index name (s ∷ syms) sym_num =
    let rest = global_index name syms (if is_local s then sym_num else sym_num + 1) in
    if is_local s then rest else if str_eq s.name name then sym_num else rest

-- `symtab_info` counts the null symbol and the local ones.
unfoldable pub symbol_index : List ElfSym → Bytes → ℕ
symbol_index syms name =
    let first = local_index name syms 1 in
    let info = length (locals syms) + 1 in if first == 0 then global_index name syms info else first

-- `(uint64_t)(int64_t)r->addend`
abbrev pub extend_addend : ℕ → ℕ
extend_addend a = if ltb a (2 ^ 31) then a else a + (2 ^ 64 - 2 ^ 32)

-- The type is a uint32_t, so that the `|` of the entry is a sum.
unfoldable pub write_rela : List ElfSym → ByteBuf → ElfReloc → ByteBuf
write_rela syms out r =
    bb_write64le
      (bb_write64le (bb_write64le out r.offset)
        (symbol_index syms r.sym_name * 2 ^ 32 % 2 ^ 64 + r.type))
      (extend_addend r.addend)

unfoldable pub write_relas : List ElfSym → ByteBuf → List ElfReloc → ByteBuf
write_relas syms out [] = out
write_relas syms out (r ∷ rels) = write_relas syms (write_rela syms out r) rels

-- The reads of the linker.
unfoldable pub read_rela : Bytes → Rela
read_rela p = record {
  off = rd64 p;
  sym = rd64 (drop 8 p) / 2 ^ 32;
  type = rd64 (drop 8 p) % 2 ^ 32;
  add = rd64 (drop 16 p);
}

unfoldable pub read_relas : ℕ → ℕ → Bytes → List Rela
read_relas zero entsize p = []
read_relas (suc n) entsize p = read_rela p ∷ read_relas n entsize (drop entsize p)

-- The section at `p`, by its size and the size of its entries.
unfoldable pub read_rela_section : ℕ → ℕ → Bytes → List Rela
read_rela_section size entsize p =
    let each = if entsize == 0 then 24 else entsize in read_relas (size / each) each p
