-- ===== src/Link/Layout/Examples.antt =====
-- Tests of the layout of src/linker.c.
use b1cc.Common.{
  ℕ, ◌+◌, ◌^◌, ◌≤◌, ◌<◌, ◌≡◌, refl, false, none, some, List, [], ◌∷◌, arith, inl, inr, map, All,
  codes,
}
use b1cc.HashMap.{hashmap_init}
use b1cc.Link.{out_text, out_bss, Sec, Sym, Obj, Linker}
use b1cc.Link.Layout.{
  layout, Out, all_slots, align_va, place_sec, place_secs, place_objs, place_common, place_syms,
  place_commons, bss_commons, place_slot, place_slots,
}
use b1cc.Link.Layout.Aligned.{Aligned}
use b1cc.Link.Layout.Heap.{Distinct, sections}
use b1cc.Link.Layout.Sections.{IsPlain, demand}
use b1cc.Link.Layout.Laid.{erase, total}
use b1cc.Link.Layout.Apart.{Apart, InSome, layout-placed, layout-Apart}

abbrev text_sec : ℕ → ℕ → Sec
text_sec size va = record {
  name = codes ".text";
  type = 1;
  flags = 6;
  size = size;
  align = 16;
  data_of = none;
  rel = [];
  out = out_text;
  va = va;
}

abbrev bss_sec : ℕ → Sec
bss_sec va = record {
  name = codes ".bss";
  type = 8;
  flags = 3;
  size = 64;
  align = 0;
  data_of = none;
  rel = [];
  out = out_bss;
  va = va;
}

abbrev common : ℕ → ℕ → Sym
common value shndx = record {
  name = codes "c";
  value = value;
  size = 8;
  shndx = shndx;
  bind = 1;
  type = 1;
}

abbrev first_obj : ℕ → ℕ → ℕ → ℕ → Obj
first_obj a b value shndx = record {
  name = codes "a.o";
  secs = text_sec 5 a ∷ bss_sec b ∷ [];
  syms = common value shndx ∷ [];
  included = false;
}

abbrev second_obj : ℕ → Obj
second_obj a = record { name = codes "b.o"; secs = text_sec 7 a ∷ []; syms = []; included = false }

abbrev linker : List Obj → ℕ → ℕ → Linker
linker heap start stop = record {
  heap = heap;
  objs = 1 ∷ 0 ∷ [];
  globals = hashmap_init 4;
  defs = [];
  init_start = start;
  init_end = stop;
}

abbrev before : Linker
before = linker (first_obj 0 0 8 0xfff2 ∷ second_obj 0 ∷ []) 0 0

-- The text of the second object, the first in the order, is at the base; the common symbol is
-- behind .bss.
abbrev after : Linker
after =
    linker (first_obj 0x400010 0x401000 0x401040 0xfff1 ∷ second_obj 0x400000 ∷ []) 0x401000
      0x401000

abbrev outs : List Out
outs =
    record { start = 0x400000; stop = 0x400015 }
    ∷ record { start = 0x401000; stop = 0x401000 }
    ∷ record { start = 0x401000; stop = 0x401000 }
    ∷ record { start = 0x401000; stop = 0x401000 }
    ∷ record { start = 0x401000; stop = 0x401048 }
    ∷ []

before-after : layout 0x400000 before ≡ some (after, outs)
unfolding layout place_slots place_slot place_objs place_secs place_sec place_commons bss_commons
    place_syms place_common align_va
before-after = refl

before-IsPlain : All IsPlain (sections before.heap before.objs)
unfolding sections
before-IsPlain = ((4, 60, refl, refl), ((4, 60, refl, refl), ((0, 64, refl, refl), tt)))

before-room : 0x400000 + total all_slots (demand (sections before.heap before.objs)) < 2 ^ 64
unfolding sections total demand
before-room = omega arith

before-Distinct : Distinct before.objs
before-Distinct = ((omega arith, tt), (tt, tt))

layout-placed_example :
    (map erase (sections after.heap before.objs) ≡ map erase (sections before.heap before.objs))
    × (0x400000 ≤ 0x401000)
    × Aligned 1 0x401000
unfolding sections InSome
layout-placed_example =
    layout-placed 0x400000 before after outs 2 (bss_sec 0x401000) before-Distinct before-IsPlain
      before-room before-after refl (inr (inr (inr (inr (inl refl)))))

layout-Apart_example : Apart (text_sec 7 0x400000) (text_sec 5 0x400010)
unfolding sections InSome
layout-Apart_example =
    layout-Apart 0x400000 before after outs 0 1 (text_sec 7 0x400000) (text_sec 5 0x400010)
      before-Distinct before-IsPlain before-room before-after (omega arith) refl refl (inl refl)
      (inl refl)
