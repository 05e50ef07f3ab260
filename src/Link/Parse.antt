-- ===== src/Link/Parse.antt =====
-- parse_object of src/linker.c: an ELF64 object file as sections, symbols and relocations. An offset
-- counts from the start of the file.
pub mod Inverse
pub mod Headers
mod Examples
use b1cc.Common.{
  ℕ, zero, suc, ◌+◌, ◌*◌, ◌/◌, ◌%◌, ◌^◌, true, false, Option, none, some, List, [], ◌∷◌, ◌==◌, ◌||◌,
  ◌&&◌, ltb, if◌then◌else◌, length, get_elem?, get_or, set, take, drop, Bytes, str_eq,
}
use b1cc.Common.Int.{ℤ, pos, ltb_ℤ}
use b1cc.Elf.Buffer.{rd16, rd32, rd64}
use b1cc.Elf.Rela.{read_rela}
use b1cc.Link.{Rela, Sec, Sym, Obj}
use b1cc.Link.Layout.{or_one, classify_section}

-- `fatal` is a message that ends the linker, `unread` an access outside of the file or of an array.
pub data Parsed {ℓ} (A : Type ℓ) : Type ℓ where
  parsed : A → Parsed A
  fatal : Parsed A
  unread : Parsed A

infixl 5 ◌>>=◌
unfoldable pub ◌>>=◌ {ℓ κ} : {A : Type ℓ} {B : Type κ} → Parsed A → (A → Parsed B) → Parsed B
parsed a >>= f = f a
fatal >>= f = fatal
unread >>= f = unread

-- The bytes from `off` on, where `n` of them are read.
abbrev pub bytes_at : Bytes → ℕ → ℕ → Parsed Bytes
bytes_at img off n = if ltb (length img) (off + n) then unread else parsed (drop off img)

unfoldable pub c_string : Bytes → Parsed Bytes
c_string [] = unread
c_string (c ∷ s) =
    let rest = c_string s in if c == 0 then parsed [] else rest >>= (λ t. parsed (c ∷ t))

unfoldable pub string_at : Bytes → ℕ → Parsed Bytes
unfolding c_string
string_at img off = c_string (drop off img)

-- The copy of a section's bytes: NULL where there are none.
unfoldable pub section_data : Bytes → ℕ → ℕ → ℕ → Parsed (Option Bytes)
section_data img type offset size =
    if type == 8 || size == 0
    then parsed none
    else bytes_at img offset size >>= (λ p. parsed (some (take size p)))

-- A section by its header, `shp`.
unfoldable pub parse_section : Bytes → ℕ → Bytes → Parsed Sec
parse_section img shstrtab shp = do
  name ← string_at img (shstrtab + rd32 shp)
  bytes ← section_data img (rd32 (drop 4 shp)) (rd64 (drop 24 shp)) (rd64 (drop 32 shp))
  parsed (record {
    name = name;
    type = rd32 (drop 4 shp);
    flags = rd64 (drop 8 shp);
    size = rd64 (drop 32 shp);
    align = or_one (rd64 (drop 48 shp));
    data_of = bytes;
    rel = [];
    out = classify_section name (rd32 (drop 4 shp)) (rd64 (drop 8 shp));
    va = 0;
  })

-- `n` of the section headers at `sh`, the `i`-th first.
unfoldable pub parse_sections : Bytes → ℕ → ℕ → ℕ → ℕ → ℕ → Parsed (List Sec)
parse_sections img sh shentsize shstrtab zero i = parsed []
parse_sections img sh shentsize shstrtab (suc n) i = do
  shp ← bytes_at img (sh + i * shentsize) 56
  s ← parse_section img shstrtab shp
  secs ← parse_sections img sh shentsize shstrtab n (i + 1)
  parsed (s ∷ secs)

-- The last symbol table.
abbrev symtab_index : List Sec → ℕ → Option ℕ → Option ℕ
symtab_index [] i at = at
symtab_index (s ∷ secs) i at = symtab_index secs (i + 1) (if s.type == 2 then some i else at)

abbrev entry_size : ℕ → ℕ
entry_size entsize = if entsize == 0 then 24 else entsize

-- `(int)(size / entsize)`; for a negative number there is no memory.
unfoldable pub entry_count : ℕ → ℕ → Parsed ℕ
entry_count size entsize =
    let n = size / entry_size entsize % 2 ^ 32 in if ltb n (2 ^ 31) then parsed n else unread

unfoldable pub parse_symbol : Bytes → ℕ → Bytes → Parsed Sym
parse_symbol img strtab sp = do
  name ← string_at img (strtab + rd32 sp)
  parsed (record {
    name = name;
    value = rd64 (drop 8 sp);
    size = rd64 (drop 16 sp);
    shndx = rd16 (drop 6 sp);
    bind = get_or sp 4 0 / 2 ^ 4;
    type = get_or sp 4 0 % 2 ^ 4;
  })

unfoldable pub parse_symbols : Bytes → ℕ → ℕ → ℕ → ℕ → ℕ → Parsed (List Sym)
parse_symbols img strtab off entsize zero i = parsed []
parse_symbols img strtab off entsize (suc n) i = do
  sp ← bytes_at img (off + i * entsize) 24
  y ← parse_symbol img strtab sp
  syms ← parse_symbols img strtab off entsize n (i + 1)
  parsed (y ∷ syms)

-- The symbols of the table, if there is one.
unfoldable pub parse_symtab : Bytes → ℕ → ℕ → Option ℕ → Parsed (List Sym)
parse_symtab img sh shentsize none = parsed []
parse_symtab img sh shentsize (some idx) = do
  shp ← bytes_at img (sh + idx * shentsize) 64
  strhp ← bytes_at img (sh + rd32 (drop 40 shp) * shentsize) 32
  n ← entry_count (rd64 (drop 32 shp)) (rd64 (drop 56 shp))
  parse_symbols img (rd64 (drop 24 strhp)) (rd64 (drop 24 shp)) (entry_size (rd64 (drop 56 shp))) n
      0

unfoldable pub parse_relas : Bytes → ℕ → ℕ → ℕ → ℕ → Parsed (List Rela)
parse_relas img off entsize zero r = parsed []
parse_relas img off entsize (suc n) r = do
  rp ← bytes_at img (off + r * entsize) 24
  rels ← parse_relas img off entsize n (r + 1)
  parsed (read_rela rp ∷ rels)

-- The relocations of one section of type SHT_RELA go to the section that `sh_info` names. Its header
-- is at `shp`.
unfoldable pub attach_section : Bytes → ℕ → List Sec → Parsed (List Sec)
attach_section img shp secs = do
  short ← bytes_at img shp 48
  elim (get_elem? secs (rd32 (drop 44 short))) [
    | none ↦ parsed secs
    | some tgt ↦ do
      all ← bytes_at img shp 64
      n ← entry_count (rd64 (drop 32 all)) (rd64 (drop 56 all))
      rels ← parse_relas img (rd64 (drop 24 all)) (entry_size (rd64 (drop 56 all))) n 0
      parsed (set secs (rd32 (drop 44 all)) (record tgt { rel = rels }))
  ]

unfoldable pub attach_relas : Bytes → ℕ → ℕ → ℕ → ℕ → List Sec → Parsed (List Sec)
attach_relas img sh shentsize zero i secs = parsed secs
attach_relas img sh shentsize (suc n) i secs = do
  shp ← bytes_at img (sh + i * shentsize) 8
  attached ← elim (rd32 (drop 4 shp) == 4) [
    | false ↦ parsed secs
    | true ↦ attach_section img (sh + i * shentsize) secs
  ]
  attach_relas img sh shentsize n (i + 1) attached

-- The object in an image with a valid header.
unfoldable pub parse_tables : Bytes → Bytes → Parsed Obj
parse_tables name img = do
  header ← bytes_at img 0 64
  shstr_hdr ←
      bytes_at img (rd64 (drop 40 header) + rd16 (drop 62 header) * rd16 (drop 58 header)) 32
  secs ←
      parse_sections img (rd64 (drop 40 header)) (rd16 (drop 58 header)) (rd64 (drop 24 shstr_hdr))
        (rd16 (drop 60 header)) 0
  syms ← parse_symtab img (rd64 (drop 40 header)) (rd16 (drop 58 header)) (symtab_index secs 0 none)
  attached ←
      attach_relas img (rd64 (drop 40 header)) (rd16 (drop 58 header)) (rd16 (drop 60 header)) 0
        secs
  parsed (record { name = name; secs = attached; syms = syms; included = false })

-- The size is a signed long; the bytes behind the size can be read as well.
unfoldable pub parse_object : Bytes → Bytes → ℤ → Parsed Obj
parse_object name img imgsz =
    if ltb_ℤ imgsz (pos 64)
    then fatal
    else bytes_at img 0 5 >>= (λ head.
      if str_eq (take 4 head) (0x7f ∷ b'E' ∷ b'L' ∷ b'F' ∷ []) && get_or head 4 0 == 2
      then parse_tables name img
      else fatal)
