-- ===== src/Link/Reloc/Examples.antt =====
-- Tests of the relocations of src/linker.c.
use b1cc.Common.{
  ◌≡◌, refl, true, none, List, [], ◌∷◌, ◌++◌, arith, inl, All, Bytes, codes, str_eq-false, length,
}
use b1cc.HashMap.{hashmap_init}
use b1cc.HashMap.Resize.{hashmap_init-Models}
use b1cc.Link.Resolve.{Holds}
use b1cc.Link.Winner.{globals_of}
use b1cc.Link.{Rela, out_text, Sec, Sym, Obj, Linker, sym_addr}
use b1cc.Link.Reloc.{ok, undefined_symbol, symbol_value, relocate}
use b1cc.Link.Reloc.Meaning.{meaning, fits}
use b1cc.Link.Reloc.Holds.{IsGood}
use b1cc.Link.Reloc.Section.{relocate-meaning, relocate-undefined}

abbrev text : Sec
text = record {
  name = codes ".text";
  type = 1;
  flags = 6;
  size = 12;
  align = 16;
  data_of = none;
  rel = [];
  out = out_text;
  va = 0x400000;
}

-- A local function at 8 in the section, and a name that nothing defines.
abbrev syms : List Sym
syms =
    record { name = codes "f"; value = 8; size = 4; shndx = 0; bind = 0; type = 2 }
    ∷ record { name = codes "g"; value = 0; size = 0; shndx = 0; bind = 1; type = 0 }
    ∷ []

abbrev obj : Obj
obj = record { name = codes "a.o"; secs = text ∷ []; syms = syms; included = true }

abbrev linker : Linker
linker = record {
  heap = obj ∷ [];
  objs = 0 ∷ [];
  globals = hashmap_init 4;
  defs = [];
  init_start = 0;
  init_end = 0;
}

-- `call f` at 0, whose field is at 1, and `f`'s address in 8 bytes at 5. The addend is -4.
abbrev call : Rela
call = record { off = 1; sym = 0; type = 4; add = 0xfffffffffffffffc }

abbrev address : Rela
address = record { off = 5; sym = 0; type = 1; add = 0 }

abbrev bytes : Bytes
bytes = 0xe8 ∷ 0 ∷ 0 ∷ 0 ∷ 0 ∷ 0 ∷ 0 ∷ 0 ∷ 0 ∷ 0 ∷ 0 ∷ 0 ∷ 0 ∷ []

f-value : symbol_value linker obj 0 ≡ ok 0x400008
unfolding symbol_value sym_addr
f-value = refl

-- No name has a global definition.
linker-Holds : Holds (globals_of linker) (λ q. none)
linker-Holds = record {
  place = λ q. none;
  stored = hashmap_init-Models 4 (omega arith);
  points = λ q d h. absurd cc;
  absent = λ q h. refl;
  apart = λ q q' d h h'. absurd cc;
}

rels-IsGood : All (IsGood linker obj 13) (call ∷ address ∷ [])
rels-IsGood =
    ((refl, omega arith, (0x400008, f-value)), ((refl, omega arith, (0x400008, f-value)), tt))

relocate-meaning_example :
    (w : Bytes) × (relocate linker obj 0x400000 (call ∷ address ∷ []) bytes ≡ ok w)
    × (length w ≡ 13)
    × (meaning call 0x400001 w ≡ 0x400004)
unfolding fits
relocate-meaning_example =
    relocate-meaning linker obj 0x400000 (call ∷ address ∷ []) bytes 0 call 0x400008 rels-IsGood
      ((inl (omega arith), tt), (tt, tt)) refl f-value refl

relocate-undefined_example :
    relocate linker obj 0x400000
      ((call ∷ []) ++ (record { off = 5; sym = 1; type = 1; add = 0 } ∷ address ∷ []))
      bytes
    ≡ undefined_symbol (codes "g")
relocate-undefined_example =
    relocate-undefined linker obj (λ q. none) 0x400000 (call ∷ []) (address ∷ [])
      (record { off = 5; sym = 1; type = 1; add = 0 }) bytes
      (record { name = codes "g"; value = 0; size = 0; shndx = 0; bind = 1; type = 0 }) linker-Holds
      ((refl, omega arith, (0x400008, f-value)), tt) refl refl (λ e. absurd (omega arith))
      (λ e. absurd (omega arith)) (λ e. absurd (omega arith))
      (str_eq-false (codes "g") (codes "__init_array_start") (ground arith))
      (str_eq-false (codes "g") (codes "__init_array_end") (ground arith)) refl
