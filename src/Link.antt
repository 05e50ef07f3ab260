-- ===== src/Link.antt =====
-- Symbol resolution of src/linker.c: parsed objects, the global definitions, include_object and
-- sym_addr. A pointer to an object is its place in `heap`, a pointer to a GlobalDef its place in
-- `defs`, so that a definition that the hash map points to changes in place.
pub mod Places
pub mod Resolve
pub mod Winner
pub mod Address
pub mod Parse
pub mod Archives
pub mod Layout
pub mod Reloc
mod Examples
use b1cc.Common.{
  ℕ, zero, suc, ◌+◌, ◌%◌, ◌^◌, Bool, true, false, ◌&&◌, not, Option, none, some, List, [], ◌∷◌,
  ◌++◌, ltb, ◌==◌, if◌then◌else◌, length, get_elem?, set, Bytes, codes, str_eq,
}
use b1cc.HashMap.{HashMap, hashmap_get, hashmap_put}

pub record Rela : Type 0 where
  pub off : ℕ
  pub sym : ℕ
  pub type : ℕ
  pub add : ℕ

-- The OUT_* values, in the order of the output.
pub data Slot : Type 0 where
  out_text out_rodata out_data out_init_array out_bss out_discard : Slot

-- `data` is none for the null pointer. Addresses and addends are 64-bit patterns.
pub record Sec : Type 0 where
  pub name : Bytes
  pub type : ℕ
  pub flags : ℕ
  pub size : ℕ
  pub align : ℕ
  pub data_of : Option Bytes
  pub rel : List Rela
  pub out : Slot
  pub va : ℕ

pub record Sym : Type 0 where
  pub name : Bytes
  pub value : ℕ
  pub size : ℕ
  pub shndx : ℕ
  pub bind : ℕ
  pub type : ℕ

pub record Obj : Type 0 where
  pub name : Bytes
  pub secs : List Sec
  pub syms : List Sym
  pub included : Bool

pub record GlobalDef : Type 0 where
  pub obj : ℕ
  pub symidx : ℕ

pub record Linker : Type 0 where
  pub heap : List Obj
  pub objs : List ℕ
  pub globals : HashMap ℕ
  pub defs : List GlobalDef
  pub init_start : ℕ
  pub init_end : ℕ

abbrev pub stb_local : ℕ
stb_local = 0

abbrev pub stb_global : ℕ
stb_global = 1

abbrev pub stb_weak : ℕ
stb_weak = 2

abbrev pub stt_section : ℕ
stt_section = 3

abbrev pub shn_undef : ℕ
shn_undef = 0

abbrev pub shn_abs : ℕ
shn_abs = 0xfff1

-- `&o->syms[symidx]`
pub sym_at : List Obj → GlobalDef → Option Sym
sym_at heap g = elim (get_elem? heap g.obj) [ none ↦ none | some o ↦ get_elem? o.syms g.symidx ]

-- `gd->obj->syms[gd->symidx].bind == STB_WEAK`
pub is_weak : List Obj → GlobalDef → Bool
unfolding sym_at
is_weak heap g = elim (sym_at heap g) [ none ↦ false | some y ↦ y.bind == stb_weak ]

is_empty : Bytes → Bool
is_empty [] = true
is_empty (c ∷ s) = false

-- The symbols that the loop does not pass over.
pub is_definition : Sym → Bool
unfolding is_empty
is_definition y = not (y.bind == stb_local) && not (y.shndx == shn_undef) && not (is_empty y.name)

-- The hash map and the definitions behind it.
pub record Globals : Type 0 where
  pub map : HashMap ℕ
  pub defs : List GlobalDef

-- One round of the loop of include_object, for the symbol `y` that `g` points to.
pub register_symbol : List Obj → GlobalDef → Sym → Globals → Option Globals
register_symbol heap g y t =
    if is_definition y
    then elim (hashmap_get t.map y.name) [
      | none ↦ elim (hashmap_put t.map y.name (length t.defs)) [
        | none ↦ none
        | some r ↦ some (record { map = r; defs = t.defs ++ g ∷ [] })
      ]
      | some d ↦ elim (get_elem? t.defs d) [
        | none ↦ none
        | some gd ↦
            if y.bind == stb_global && is_weak heap gd
            then some (record { map = t.map; defs = set t.defs d g })
            else some t
      ]
    ]
    else some t

pub register_loop : List Obj → ℕ → List Sym → ℕ → Globals → Option Globals
unfolding register_symbol
register_loop heap o [] i t = some t
register_loop heap o (y ∷ syms) i t =
    elim (register_symbol heap (record { obj = o; symidx = i }) y t) [
      | none ↦ none
      | some t' ↦ register_loop heap o syms (i + 1) t'
    ]

-- `none` where the pointer is to no object.
unfoldable pub include_object : Linker → ℕ → Option Linker
unfolding register_loop
include_object lk o = elim (get_elem? lk.heap o) [
  | none ↦ none
  | some obj ↦
      if obj.included
      then some lk
      else (let heap = set lk.heap o (record obj { included = true }) in
          elim (register_loop heap o obj.syms 0 (record { map = lk.globals; defs = lk.defs })) [
            | none ↦ none
            | some t ↦ some (record lk {
              heap = heap;
              objs = lk.objs ++ o ∷ [];
              globals = t.map;
              defs = t.defs;
            })
          ])
]

-- `if (shndx == SHN_ABS) …; if (shndx < nsec) …; return 0`, with 64-bit addresses.
pub defined_addr : Obj → Sym → Option ℕ
defined_addr o y =
    if y.shndx == shn_abs
    then some y.value
    else elim (get_elem? o.secs y.shndx) [ none ↦ none | some s ↦ some ((s.va + y.value) % 2 ^ 64) ]

-- `none` for the result 0, or for a pointer to no symbol.
unfoldable pub sym_addr : Linker → Obj → Sym → Option ℕ
unfolding defined_addr sym_at
sym_addr lk o y =
    if y.bind == stb_local
    then defined_addr o y
    else if y.type == stt_section
    then defined_addr o y
    else if str_eq y.name (codes "__init_array_start")
    then some lk.init_start
    else if str_eq y.name (codes "__init_array_end")
    then some lk.init_end
    else elim (hashmap_get lk.globals y.name) [
      | some d ↦ elim (get_elem? lk.defs d) [
        | none ↦ none
        | some gd ↦ elim (get_elem? lk.heap gd.obj) [
          | none ↦ none
          | some def ↦ elim (get_elem? def.syms gd.symidx) [
            | none ↦ none
            | some z ↦ defined_addr def z
          ]
        ]
      ]
      | none ↦ elim (not (y.shndx == shn_undef)) [
        | false ↦ none
        | true ↦ elim (get_elem? o.secs y.shndx) [
          | none ↦ none
          | some s ↦ some ((s.va + y.value) % 2 ^ 64)
        ]
      ]
    ]
