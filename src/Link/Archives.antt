-- ===== src/Link/Archives.antt =====
-- Archives and the resolution of undefined symbols of src/linker.c: archive_member_at and
-- resolve_pass, and the loop of elf_link_static around it. `strtol` in base 10 and the printing of
-- a number in base 10 are the host's, parameters.
pub mod Offers
pub mod Steps
pub mod Pass
pub mod Objects
pub mod Resolved
mod Examples
use b1cc.Common.{
  ℕ, zero, suc, ◌+◌, ◌-◌, Bool, true, false, ◌&&◌, ◌||◌, not, Option, none, some, List, [], ◌∷◌,
  ◌++◌, ◌==◌, leb, if◌then◌else◌, length, get_elem?, get_or, take, drop, Bytes, codes,
}
use b1cc.Common.Int.{ℤ, pos, negsuc}
use b1cc.HashMap.{Slot, null, tombstone, entry, HashMap, hashmap_get, hashmap_put}
use b1cc.Link.{Sym, Obj, Linker, include_object, stb_local, shn_undef}
use b1cc.Link.Parse.{Parsed, parsed, fatal, unread, ◌>>=◌, bytes_at, string_at, parse_object}

-- `symmap` has the offset of a member's header, plus one; `done` is the field `parsed`.
pub record Archive : Type 0 where
  pub img : Bytes
  pub symmap : HashMap ℕ
  pub done : HashMap ℕ
  pub longnames : Option ℕ

-- A member with the linker and the archive behind its parsing.
pub record Member : Type 0 where
  pub linker : Linker
  pub archive : Archive
  pub obj : ℕ

-- The state of a pass.
pub record Search : Type 0 where
  pub linker : Linker
  pub archives : List Archive
  pub progress : Bool

-- The symbols that a pass looks for.
abbrev is_undefined : Sym → Bool
is_undefined y = y.shndx == shn_undef && not (y.bind == stb_local) && not (length y.name == 0)

abbrev pub is_wanted : Linker → Sym → Bool
is_wanted lk y =
    is_undefined y && elim (hashmap_get lk.globals y.name) [ none ↦ true | some _ ↦ false ]

-- `!e || e->val_int == 0`, or the offset
unfoldable pub member_of : Archive → Bytes → Option ℕ
member_of ar name = elim (hashmap_get ar.symmap name) [
  | none ↦ none
  | some v ↦ if v == 0 then none else some (v - 1)
]

-- The object is included if it is not; the pass made progress then.
unfoldable pub include_member : Member → List Archive → Parsed Search
include_member r ars = elim (get_elem? r.linker.heap r.obj) [
  | none ↦ unread
  | some m ↦ elim m.included [
    | true ↦ parsed (record { linker = r.linker; archives = r.archive ∷ ars; progress = false })
    | false ↦ elim (include_object r.linker r.obj) [
      | none ↦ unread
      | some lk ↦ parsed (record { linker = lk; archives = r.archive ∷ ars; progress = true })
    ]
  ]
]

-- How many entries the tables of the archives have room for.
abbrev pub room : HashMap ℕ → ℕ
room m = elim m.entries [ none ↦ 0 | some es ↦ length es ]

abbrev pub offers : List Archive → ℕ
offers [] = 0
offers (ar ∷ ars) = room ar.symmap + offers ars

module _ (strtol : Bytes → ℤ) (decimal : ℕ → Bytes) where
  -- The second byte is a digit, so that the number is not negative.
  unfoldable pub member_name : Archive → Bytes → Parsed Bytes
  member_name ar nm = elim ar.longnames [
    | none ↦ parsed (codes "archive-member")
    | some longnames ↦
        if get_or nm 0 0 == b'/' && leb b'0' (get_or nm 1 0) && leb (get_or nm 1 0) b'9'
        then elim (strtol (drop 1 nm)) [
          | pos lo ↦ string_at ar.img (longnames + lo)
          | negsuc _ ↦ unread
        ]
        else parsed (codes "archive-member")
  ]

  unfoldable pub archive_member_at : Linker → Archive → ℕ → Parsed Member
  archive_member_at lk ar hdr_off = elim (hashmap_get ar.done (decimal hdr_off)) [
    | some m ↦ parsed (record { linker = lk; archive = ar; obj = m })
    | none ↦ do
      h ← bytes_at ar.img hdr_off 58
      mname ← member_name ar (take 16 h)
      o ← parse_object mname (drop (hdr_off + 60) ar.img) (strtol (take 10 (drop 48 h)))
      elim (hashmap_put ar.done (decimal hdr_off) (length lk.heap)) [
        | none ↦ unread
        | some done ↦ parsed (record {
          linker = record lk { heap = lk.heap ++ o ∷ [] };
          archive = record ar { done = done };
          obj = length lk.heap;
        })
      ]
  ]

  -- "search archives": the first archive that has the name ends the search.
  unfoldable pub search_archives : Bytes → Linker → List Archive → Parsed Search
  search_archives name lk [] = parsed (record { linker = lk; archives = []; progress = false })
  search_archives name lk (ar ∷ ars) = elim (member_of ar name) [
    | none ↦ do s ← search_archives name lk ars; parsed (record s { archives = ar ∷ s.archives })
    | some hdr_off ↦ do r ← archive_member_at lk ar hdr_off; include_member r ars
  ]

  unfoldable pub resolve_symbol : Sym → Search → Parsed Search
  resolve_symbol y st = elim (is_wanted st.linker y) [
    | false ↦ parsed st
    | true ↦ do
      s ← search_archives y.name st.linker st.archives
      parsed (record s { progress = st.progress || s.progress })
  ]

  unfoldable pub resolve_symbols : List Sym → Search → Parsed Search
  resolve_symbols [] st = parsed st
  resolve_symbols (y ∷ syms) st = do s ← resolve_symbol y st; resolve_symbols syms s

  -- The loop over the objects from the `oi`-th on, with those that it adds; `none` where the fuel
  -- ends.
  unfoldable pub resolve_objs : ℕ → ℕ → Search → Option (Parsed Search)
  resolve_objs zero oi st = elim (get_elem? st.linker.objs oi) [
    | none ↦ some (parsed st)
    | some o ↦ none
  ]
  resolve_objs (suc n) oi st = elim (get_elem? st.linker.objs oi) [
    | none ↦ some (parsed st)
    | some o ↦ elim (get_elem? st.linker.heap o) [
      | none ↦ some unread
      | some obj ↦ elim (resolve_symbols obj.syms st) [
        | parsed s ↦ resolve_objs n (oi + 1) s
        | fatal ↦ some fatal
        | unread ↦ some unread
      ]
    ]
  ]

  -- A pass adds at most one object for each entry of the tables.
  unfoldable pub resolve_pass : Linker → List Archive → Option (Parsed Search)
  resolve_pass lk ars =
      resolve_objs (length lk.objs + offers ars) 0
        (record { linker = lk; archives = ars; progress = false })

  -- `while (resolve_pass(...)) {}`, with fuel
  unfoldable pub resolve_loop : ℕ → Linker → List Archive → Option (Parsed Search)
  resolve_loop zero lk ars = none
  resolve_loop (suc n) lk ars = elim (resolve_pass lk ars) [
    | none ↦ none
    | some r ↦ elim r [
      | parsed s ↦ elim s.progress [
        | true ↦ resolve_loop n s.linker s.archives
        | false ↦ some (parsed s)
      ]
      | fatal ↦ some fatal
      | unread ↦ some unread
    ]
  ]

  unfoldable pub resolve : Linker → List Archive → Option (Parsed Search)
  resolve lk ars = resolve_loop (suc (offers ars)) lk ars
