-- ===== src/Link/Archives/Examples.antt =====
-- An archive with one member, src/linker.c.
use b1cc.Common.{
  ℕ, ◌+◌, ◌-◌, ◌*◌, ◌/◌, ◌%◌, ◌≡◌, refl, ap, true, ◌&&◌, Option, none, some, [], ◌∷◌, ◌++◌, leb,
  if◌then◌else◌, get_elem?, replicate, arith, Bytes, codes, str_eq,
}
use b1cc.Common.Int.{ℤ, pos}
use b1cc.HashMap.{HashMap, hashmap_init, hashmap_put, hashmap_get, hash_key}
use b1cc.Elf.Buffer.{rd16, rd64}
use b1cc.Link.{Obj, Linker, include_object, is_definition}
use b1cc.Link.Reloc.{le}
use b1cc.Link.Parse.{
  Parsed, parsed, parse_object, parse_tables, string_at, ◌>>=◌, parse_sections, parse_section,
  section_data, parse_symtab, entry_count, parse_symbols, parse_symbol, attach_relas,
}
use b1cc.Link.Archives.{
  Archive, Search, resolve, resolve_loop, resolve_pass, resolve_objs, resolve_symbols,
  resolve_symbol, search_archives, archive_member_at, include_member, member_of, member_name,
}
use b1cc.Link.Archives.Pass.{Provided}
use b1cc.Link.Archives.Resolved.{resolve-returns, resolve-Provided}

abbrev zeros : ℕ → Bytes
zeros n = replicate n 0

-- A section header: the name, the type, the offset, the size, the link and the size of an entry.
abbrev header_of : ℕ → ℕ → ℕ → ℕ → ℕ → ℕ → Bytes
header_of name t offset size link each =
    le 4 name
    ++ (le 4 t
        ++ (zeros 16 ++ (le 8 offset ++ (le 8 size ++ (le 4 link ++ (zeros 12 ++ le 8 each))))))

-- An object file with a null section, a symbol table and its strings, which defines `f`.
abbrev image : Bytes
image =
    0x7f ∷ b'E' ∷ b'L' ∷ b'F' ∷ 2 ∷ []
    ++ zeros 35
    ++ le 8 64
    ++ zeros 10
    ++ le 2 64
    ++ le 2 3
    ++ le 2 2
    ++ zeros 64
    ++ header_of 0 2 256 24 2 24
    ++ header_of 0 3 280 3 0 0
    ++ le 4 1
    ++ 0x12 ∷ 0 ∷ []
    ++ le 2 1
    ++ le 8 0
    ++ le 8 4
    ++ 0 ∷ b'f' ∷ 0 ∷ []

-- The digits that the bytes start with, and the digits of a number below 100.
abbrev number : Bytes → ℕ → ℕ
number [] n = n
number (c ∷ s) n =
    let more = number s (n * 10 + (c - b'0')) in if leb b'0' c && leb c b'9' then more else n

abbrev strtol : Bytes → ℤ
strtol s = pos (number s 0)

abbrev decimal : ℕ → Bytes
decimal n = (n / 10 + b'0') ∷ (n % 10 + b'0') ∷ []

abbrev or_empty : Option (HashMap ℕ) → HashMap ℕ
or_empty none = hashmap_init 4
or_empty (some m) = m

-- The member's header is at 8.
abbrev archive : Archive
archive = record {
  img = codes "!<arch>\nm.o/            " ++ zeros 32 ++ codes "283       `\n" ++ image;
  symmap = or_empty (hashmap_put (hashmap_init 4) (codes "f") 9);
  done = hashmap_init 256;
  longnames = none;
}

abbrev caller : Obj
caller = record {
  name = codes "main.o";
  secs = [];
  syms =
      record { name = codes "f"; value = 0; size = 0; shndx = 0; bind = 1; type = 0 }
      ∷ record { name = codes "g"; value = 0; size = 0; shndx = 0; bind = 2; type = 0 }
      ∷ [];
  included = true;
}

abbrev linker : Linker
linker = record {
  heap = caller ∷ [];
  objs = 0 ∷ [];
  globals = hashmap_init 4;
  defs = [];
  init_start = 0;
  init_end = 0;
}

abbrev state : Option (Parsed Search) → Search
state (some (parsed s)) = s
state _ = record { linker = linker; archives = archive ∷ []; progress = true }

abbrev after : Search
after = state (resolve strtol decimal linker (archive ∷ []))

-- The member is pulled in, the caller is unchanged, and nothing defines `g`.
run :
    (resolve strtol decimal linker (archive ∷ []) ≡ some (parsed after))
    × (after.linker.objs ≡ 0 ∷ 1 ∷ [])
    × (get_elem? after.linker.heap 0 ≡ some caller)
    × (hashmap_get after.linker.globals (codes "g") ≡ none)
unfolding resolve resolve_loop resolve_pass resolve_objs resolve_symbols resolve_symbol
    search_archives archive_member_at include_member member_of member_name parse_object parse_tables
    include_object hashmap_put hashmap_get hashmap_init hash_key string_at ◌>>=◌ str_eq rd64 rd16
    parse_sections parse_section section_data parse_symtab entry_count parse_symbols parse_symbol
    attach_relas is_definition
run = (refl, refl, refl, refl)

resolve-returns_example :
    (r : Parsed Search) × (resolve strtol decimal linker (archive ∷ []) ≡ some r)
resolve-returns_example = resolve-returns strtol decimal linker (archive ∷ []) (refl, tt)

resolve-Provided_example : Provided strtol decimal after.linker (codes "g") after.archives
resolve-Provided_example =
    resolve-Provided strtol decimal linker (archive ∷ []) (refl, tt) after 0 0 caller 1
      (record { name = codes "g"; value = 0; size = 0; shndx = 0; bind = 2; type = 0 }) run.0
      (ap (λ os. get_elem? os 0) run.1) run.2 refl refl (λ e. absurd (omega arith)) (λ e. absurd cc)
      run.3
