-- ===== src/Link/Layout.antt =====
-- The addresses that elf_link_static of src/linker.c gives to sections and common symbols: step 3.
pub mod Aligned
pub mod Sections
pub mod Heap
pub mod Laid
pub mod Apart
mod Examples
use b1cc.Common.{
  ℕ, zero, suc, ◌+◌, ◌-◌, ◌*◌, ◌/◌, ◌%◌, ◌^◌, Bool, true, false, ◌&&◌, not, Option, none, some,
  List, [], ◌∷◌, ◌++◌, ◌==◌, if◌then◌else◌, get_elem?, set, take, Bytes, codes, str_eq,
}
use Prim.Native.Nat.{bit_and}
use b1cc.Link.{
  Rela, Slot, out_text, out_rodata, out_data, out_init_array, out_bss, out_discard, Sec, Sym, Obj,
  Linker, shn_abs,
}

-- `strncmp(name, prefix, n) == 0`
abbrev has_prefix : Bytes → ℕ → Bytes → Bool
has_prefix prefix n name = str_eq (take n name) prefix

abbrev has_flag : ℕ → ℕ → Bool
has_flag flags mask = not (bit_and flags mask == 0)

unfoldable pub classify_section : Bytes → ℕ → ℕ → Slot
classify_section name type flags =
    if not (has_flag flags 2)
    then out_discard
    else if type == 8
    then out_bss
    else if has_prefix (codes ".init_array") 11 name
    then out_init_array
    else if has_prefix (codes ".preinit_array") 14 name
    then out_init_array
    else if has_prefix (codes ".fini_array") 11 name
    then out_init_array
    else if has_flag flags 4
    then out_text
    else if has_flag flags 1
    then out_data
    else out_rodata

-- `(va + al - 1) & ~(al - 1)` on 64 bits, for an alignment that is not 0
unfoldable pub align_va : ℕ → ℕ → ℕ
align_va va al = bit_and ((va + (al - 1)) % 2 ^ 64) (2 ^ 64 - al)

abbrev pub or_one : ℕ → ℕ
or_one al = if al == 0 then 1 else al

abbrev pub slot_number : Slot → ℕ
slot_number out_text = 0
slot_number out_rodata = 1
slot_number out_data = 2
slot_number out_init_array = 3
slot_number out_bss = 4
slot_number out_discard = 5

abbrev pub out_align : Slot → ℕ
out_align out_init_array = 8
out_align _ = 0x1000

-- `s->out == slot`, and the section is one that is loaded
abbrev pub in_slot : Slot → Sec → Bool
in_slot slot s = slot_number s.out == slot_number slot && has_flag s.flags 2

-- One round of the loop over the sections: the section, and the address behind it.
unfoldable pub place_sec : Slot → ℕ → Sec → Sec × ℕ
place_sec slot va s =
    let here = align_va va (or_one s.align) in
    if in_slot slot s then (record s { va = here }, (here + s.size) % 2 ^ 64) else (s, va)

unfoldable pub place_secs : Slot → ℕ → List Sec → List Sec × ℕ
place_secs slot va [] = ([], va)
place_secs slot va (s ∷ secs) =
    let (s', here) = place_sec slot va s in
    let (secs', end) = place_secs slot here secs in (s' ∷ secs', end)

-- The objects in the order of `lk->objs`; `none` where a pointer is to no object.
unfoldable pub place_objs : Slot → ℕ → List ℕ → List Obj → Option (List Obj × ℕ)
place_objs slot va [] heap = some (heap, va)
place_objs slot va (o ∷ os) heap = elim (get_elem? heap o) [
  | none ↦ none
  | some obj ↦
      let (secs, end) = place_secs slot va obj.secs in
      place_objs slot end os (set heap o (record obj { secs = secs }))
]

abbrev shn_common : ℕ
shn_common = 0xfff2

unfoldable pub place_common : ℕ → Sym → Sym × ℕ
place_common va y =
    let here = align_va va (or_one y.value) in
    if y.shndx == shn_common
    then (record y { value = here; shndx = shn_abs }, (here + y.size) % 2 ^ 64)
    else (y, va)

unfoldable pub place_syms : ℕ → List Sym → List Sym × ℕ
place_syms va [] = ([], va)
place_syms va (y ∷ syms) =
    let (y', here) = place_common va y in
    let (syms', end) = place_syms here syms in (y' ∷ syms', end)

unfoldable pub place_commons : ℕ → List ℕ → List Obj → Option (List Obj × ℕ)
place_commons va [] heap = some (heap, va)
place_commons va (o ∷ os) heap = elim (get_elem? heap o) [
  | none ↦ none
  | some obj ↦
      let (syms, end) = place_syms va obj.syms in
      place_commons end os (set heap o (record obj { syms = syms }))
]

-- An output section: its start and its size.
pub record Out : Type 0 where
  pub start : ℕ
  pub stop : ℕ

abbrev pub out_size : Out → ℕ
out_size x = (x.stop + 2 ^ 64 - x.start) % 2 ^ 64

-- "COMMON symbols land in .bss"
unfoldable pub bss_commons : Slot → ℕ → List ℕ → List Obj → Option (List Obj × ℕ)
bss_commons out_bss va objs heap = place_commons va objs heap
bss_commons _ va objs heap = some (heap, va)

-- The heap behind one round of the loop over the slots, and the slot's range.
unfoldable pub place_slot : Slot → ℕ → List ℕ → List Obj → Option (List Obj × Out)
place_slot slot va objs heap =
    let start = align_va va (out_align slot) in
    elim (place_objs slot start objs heap) [
      | none ↦ none
      | some (placed, mid) ↦ elim (bss_commons slot mid objs placed) [
        | none ↦ none
        | some (done, stop) ↦ some (done, record { start = start; stop = stop })
      ]
    ]

-- The slots in their order.
unfoldable pub place_slots : List Slot → ℕ → List ℕ → List Obj → Option (List Obj × List Out)
place_slots [] va objs heap = some (heap, [])
place_slots (slot ∷ slots) va objs heap = elim (place_slot slot va objs heap) [
  | none ↦ none
  | some (placed, x) ↦ elim (place_slots slots x.stop objs placed) [
    | none ↦ none
    | some (done, xs) ↦ some (done, x ∷ xs)
  ]
]

abbrev pub all_slots : List Slot
all_slots = out_text ∷ out_rodata ∷ out_data ∷ out_init_array ∷ out_bss ∷ []

abbrev pub nth_out : List Out → ℕ → Out
nth_out xs i = elim (get_elem? xs i) [ none ↦ record { start = 0; stop = 0 } | some x ↦ x ]

unfoldable pub layout : ℕ → Linker → Option (Linker × List Out)
layout base lk = elim (place_slots all_slots base lk.objs lk.heap) [
  | none ↦ none
  | some (heap, xs) ↦
      let init = nth_out xs 3 in
      some (
        record lk {
          heap = heap;
          init_start = init.start;
          init_end = (init.start + out_size init) % 2 ^ 64;
        },
        xs,
      )
]
