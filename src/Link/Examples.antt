-- ===== src/Link/Examples.antt =====
-- Two objects that define the same name, the first weakly.
use b1cc.Common.{
  ℕ, ◌≡◌, refl, true, false, ◌&&◌, Option, none, some, List, [], ◌∷◌, ◌++◌, arith, inl, inr,
  Bool-cases, All, Bytes, codes, get_elem?, str_eq, str_eq-false,
}
use b1cc.HashMap.{hashmap_init, hashmap_get, hashmap_put, hash_key}
use b1cc.HashMap.Resize.{hashmap_init-Models}
use b1cc.Link.{
  out_text, Sec, Sym, Obj, GlobalDef, Linker, is_definition, is_weak, sym_at, include_object,
  sym_addr,
}
use b1cc.Link.Resolve.{Holds}
use b1cc.Link.Winner.{
  Candidate, Agrees, defines, candidates, winner, globals_of, mark_included, include_object-winner,
}
use b1cc.Link.Address.{AddressOf, sym_addr-global}

abbrev name : Bytes
name = codes "f"

abbrev text_at : ℕ → Sec
text_at va = record {
  name = codes ".text";
  type = 1;
  flags = 6;
  size = 16;
  align = 16;
  data_of = none;
  rel = [];
  out = out_text;
  va = va;
}

abbrev symbol : ℕ → ℕ → Sym
symbol bind shndx = record {
  name = name;
  value = 4;
  size = 8;
  shndx = shndx;
  bind = bind;
  type = 2;
}

abbrev weak_obj : Obj
weak_obj = record {
  name = codes "a.o";
  secs = text_at 0 ∷ text_at 0x1000 ∷ [];
  syms = symbol 2 1 ∷ [];
  included = false;
}

abbrev strong_obj : Obj
strong_obj = record {
  name = codes "b.o";
  secs = text_at 0 ∷ text_at 0x2000 ∷ [];
  syms = symbol 1 1 ∷ [];
  included = false;
}

abbrev start : Linker
start = record {
  heap = weak_obj ∷ strong_obj ∷ [];
  objs = [];
  globals = hashmap_init 4;
  defs = [];
  init_start = 0;
  init_end = 0;
}

nothing : Bytes → List Candidate
nothing q = []

start-Holds : Holds (globals_of start) (λ q. winner (nothing q))
unfolding nothing
start-Holds = record {
  place = λ q. none;
  stored = hashmap_init-Models 4 (omega arith);
  points = λ q d h. absurd cc;
  absent = λ q h. refl;
  apart = λ q q' d h h'. absurd cc;
}

one-Agrees :
    (heap : List Obj) (o : ℕ) (y : Sym) (q : Bytes)
    → Agrees heap (y.bind, record { obj = o; symidx = 0 })
    → All (Agrees heap) (candidates o (y ∷ []) 0 q)
one-Agrees heap o y q h = elim (Bool-cases (defines y && str_eq y.name q)) [
  | inl here ↦ rw (here, candidates) (h, tt)
  | inr other ↦ rw (other, candidates) tt
]

include_object-winner_example :
    (lk' : Linker) × (include_object start 0 ≡ some lk')
    × Holds (globals_of lk') (λ q. winner (nothing q ++ candidates 0 weak_obj.syms 0 q))
    × (lk'.objs ≡ 0 ∷ [])
unfolding nothing is_weak sym_at
include_object-winner_example =
    include_object-winner start 0 weak_obj nothing start-Holds refl refl
      (λ q. one-Agrees (mark_included start.heap 0 weak_obj) 0 (symbol 2 1) q refl)

abbrev or_start : Option Linker → Linker
or_start none = start
or_start (some lk) = lk

-- The linker with the weak definition included.
one_included : Linker
one_included = or_start (include_object start 0)

one_included-Holds :
    Holds (globals_of one_included) (λ q. winner (nothing q ++ candidates 0 weak_obj.syms 0 q))
unfolding one_included nothing is_weak sym_at
one_included-Holds =
    let (lk, run, w, _) =
      include_object-winner start 0 weak_obj nothing start-Holds refl refl
        (λ q. one-Agrees (mark_included start.heap 0 weak_obj) 0 (symbol 2 1) q refl) in
    rw run w

abbrev weak_place : GlobalDef
weak_place = record { obj = 0; symidx = 0 }

one_included-heap : get_elem? one_included.heap 0 ≡ some (record weak_obj { included = true })
unfolding one_included include_object is_definition hashmap_get hashmap_init hash_key hashmap_put
one_included-heap = refl

sym_addr-global_example :
    AddressOf
      (record weak_obj { included = true })
      (symbol 2 1)
      (sym_addr one_included strong_obj (symbol 1 0))
unfolding nothing str_eq
sym_addr-global_example =
    sym_addr-global one_included strong_obj (symbol 1 0)
      (λ q. winner (nothing q ++ candidates 0 weak_obj.syms 0 q)) weak_place
      (record weak_obj { included = true }) (symbol 2 1) one_included-Holds
      (λ e. absurd (omega arith)) (λ e. absurd (omega arith))
      (str_eq-false name (codes "__init_array_start") (ground arith))
      (str_eq-false name (codes "__init_array_end") (ground arith)) refl one_included-heap refl
