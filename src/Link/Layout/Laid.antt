-- ===== src/Link/Layout/Laid.antt =====
-- The addresses behind the layout of src/linker.c.
use b1cc.Common.{
  ℕ, ◌+◌, ◌^◌, ◌≤◌, ◌<◌, ◌≡◌, ◌≢◌, refl, sym, ap, ◌∙◌, some, some_injective, List, [], ◌∷◌, map,
  arith, inl, inr, Bool-cases, Option-cases, All,
}
use b1cc.Link.{Slot, out_text, out_rodata, out_data, out_init_array, out_bss, out_discard, Sec, Obj}
use b1cc.Link.Layout.{
  in_slot, slot_number, out_align, align_va, place_sec, place_secs, place_slot, place_slots, Out,
}
use b1cc.Link.Layout.Aligned.{IsPower, Aligned, align_va-RoundsUp}
use b1cc.Link.Layout.Sections.{Ascending, demand, IsPlain, place_secs-Ascending, place_secs-kept}
use b1cc.Link.Layout.Heap.{Distinct, sections, place_slot-Passed}

-- A section without its address.
abbrev pub erase : Sec → Sec
erase s = record s { va = 0 }

erase-place_sec : (slot : Slot) (va : ℕ) (s : Sec) → erase (place_sec slot va s).0 ≡ erase s
unfolding place_sec
erase-place_sec slot va s = elim (Bool-cases (in_slot slot s)) [
  | inl e ↦ rw (e, place_sec) refl
  | inr e ↦ rw (e, place_sec) refl
]

erase-place_secs :
    (slot : Slot) (secs : List Sec) (va : ℕ)
    → map erase (place_secs slot va secs).0 ≡ map erase secs
unfolding place_secs
erase-place_secs slot [] va = refl
erase-place_secs slot (s ∷ secs) va =
    let rest = erase-place_secs slot secs (place_sec slot va s).1 in
    let one = erase-place_sec slot va s in cc

demand-erase : (secs : List Sec) → demand (map erase secs) ≡ demand secs
unfolding demand
demand-erase [] = refl
demand-erase (s ∷ secs) = omega (arith, demand-erase secs)

IsPlain-erase : (secs : List Sec) → All IsPlain (map erase secs) → All IsPlain secs
IsPlain-erase [] h = tt
IsPlain-erase (s ∷ secs) (p, h) = (p, IsPlain-erase secs h)

erase-IsPlain : (secs : List Sec) → All IsPlain secs → All IsPlain (map erase secs)
erase-IsPlain [] h = tt
erase-IsPlain (s ∷ secs) (p, h) = (p, erase-IsPlain secs h)

-- Slots in the order of their starts: each start is aligned and not below the end of the slot
-- before, and the slot's sections ascend from it.
pub data Laid (secs : List Sec) : List Slot → ℕ → Type 0 where
  end : {va : ℕ} → Laid secs [] va
  next :
      {slot : Slot} {slots : List Slot} {va start mid : ℕ}
      → va ≤ start
      → Aligned (out_align slot) start
      → Ascending slot start secs mid
      → Laid secs slots mid
      → Laid secs (slot ∷ slots) va

-- What the slots take at most, for sections that take `d`.
unfoldable pub total : List Slot → ℕ → ℕ
total [] d = 0
total (slot ∷ slots) d = 0x1000 + d + total slots d

-- The slots are different ones, and .bss is the last one.
abbrev pub Ordered : List Slot → Type 0
Ordered [] = Unit
Ordered (slot ∷ []) = Unit
Ordered (slot ∷ t ∷ ts) =
    (slot_number slot ≢ 4) × All (λ u. slot_number u ≢ slot_number slot) (t ∷ ts) × Ordered (t ∷ ts)

out_align-IsPower : (slot : Slot) → IsPower (out_align slot) × (out_align slot ≤ 0x1000)
out_align-IsPower out_init_array = ((3, 61, refl, refl), omega arith)
out_align-IsPower out_text = ((12, 52, refl, refl), omega arith)
out_align-IsPower out_rodata = ((12, 52, refl, refl), omega arith)
out_align-IsPower out_data = ((12, 52, refl, refl), omega arith)
out_align-IsPower out_bss = ((12, 52, refl, refl), omega arith)
out_align-IsPower out_discard = ((12, 52, refl, refl), omega arith)

-- The two parts of a run over slots.
abbrev Runs : Slot → List Slot → ℕ → List ℕ → List Obj → List Obj × List Out → Type 0
Runs u slots va os heap r =
    (placed : List Obj) × (x : Out) × (xs : List Out) × (place_slot u va os heap ≡ some (placed, x))
    × (place_slots slots x.stop os placed ≡ some (r.0, xs))

place_slots-Runs :
    (u : Slot) (slots : List Slot) (va : ℕ) (os : List ℕ) (heap : List Obj)
    (r : List Obj × List Out)
    → place_slots (u ∷ slots) va os heap ≡ some r
    → Runs u slots va os heap r
unfolding place_slots
place_slots-Runs u slots va os heap r e = elim (Option-cases (place_slot u va os heap)) [
  | inl missing ↦ let clash = rw (missing, place_slots) at e in absurd cc
  | inr ((placed, x), one) ↦
      let rest = rw (one, place_slots) at e in
      elim (Option-cases (place_slots slots x.stop os placed)) [
        | inl missing ↦ let clash = rw (missing, place_slots) at rest in absurd cc
        | inr ((final, xs), more) ↦
            let same = some_injective (rw (more, place_slots) at rest) in
            rw⁻¹ same (placed, x, xs, one, more)
      ]
]

-- Later slots leave the sections of this one where they are.
place_slots-kept :
    (slots : List Slot) (slot : Slot) (os : List ℕ) (va lo hi : ℕ) (heap : List Obj)
    (r : List Obj × List Out)
    → All (λ u. slot_number u ≢ slot_number slot) slots
    → Distinct os
    → place_slots slots va os heap ≡ some r
    → Ascending slot lo (sections heap os) hi
    → Ascending slot lo (sections r.0 os) hi
unfolding place_slots
place_slots-kept [] slot os va lo hi heap r ne h e asc =
    let same = some_injective e in rw⁻¹ same asc
place_slots-kept (u ∷ slots) slot os va lo hi heap r (ne, nes) h e asc =
    let (placed, x, xs, one, more) = place_slots-Runs u slots va os heap r e in
    let (mid, pass, stops) = place_slot-Passed u os va heap (placed, x) h one in
    let kept = place_secs-kept u slot (sections heap os) (align_va va (out_align u)) lo hi ne asc in
    place_slots-kept slots slot os x.stop lo hi placed (r.0, xs) nes h more
      (rw (ap (λ t. t.0) pass) at kept)

-- One slot, with its range.
abbrev Ranged : Slot → ℕ → ℕ → List Sec → List Sec → Out → Type 0
Ranged slot va room before after x =
    (start : ℕ) × (mid : ℕ) × (va ≤ start)
    × Aligned (out_align slot) start
    × Ascending slot start after mid
    × (mid ≤ va + room)
    × (slot_number slot ≢ 4 → x.stop ≡ mid)
    × (map erase after ≡ map erase before)

place_slot-Ranged :
    (slot : Slot) (va : ℕ) (os : List ℕ) (heap placed : List Obj) (x : Out)
    → Distinct os
    → All IsPlain (sections heap os)
    → va + (0x1000 + demand (sections heap os)) < 2 ^ 64
    → place_slot slot va os heap ≡ some (placed, x)
    → Ranged slot va (0x1000 + demand (sections heap os)) (sections heap os) (sections placed os) x
place_slot-Ranged slot va os heap placed x h plain room e =
    let secs = sections heap os in
    let start = align_va va (out_align slot) in
    let (mid, pass, stops) = place_slot-Passed slot os va heap (placed, x) h e in
    let (power, page) = out_align-IsPower slot in
    let (aligned, up, near) = align_va-RoundsUp va (out_align slot) power (omega arith) in
    let (asc, short) = place_secs-Ascending slot start secs plain (omega arith) in
    let secs' = ap (λ t. t.0) pass in
    let mid' = ap (λ t. t.1) pass in
    (
      start,
      mid,
      up,
      aligned,
      rw mid' at (rw secs' at asc),
      omega arith,
      stops,
      rw secs' at (erase-place_secs slot secs start),
    )

-- The result of a run over slots.
abbrev LaidOut : List Slot → ℕ → List Sec → List Sec → Type 0
LaidOut slots va before after = Laid after slots va × (map erase after ≡ map erase before)

pub place_slots-Laid :
    (slots : List Slot) (va : ℕ) (os : List ℕ) (heap : List Obj) (r : List Obj × List Out)
    → Ordered slots
    → Distinct os
    → All IsPlain (sections heap os)
    → va + total slots (demand (sections heap os)) < 2 ^ 64
    → place_slots slots va os heap ≡ some r
    → LaidOut slots va (sections heap os) (sections r.0 os)
unfolding place_slots total
place_slots-Laid [] va os heap r ord h plain room e =
    let same = some_injective e in rw⁻¹ same (end, refl)
place_slots-Laid (u ∷ []) va os heap r ord h plain room e =
    let (placed, x, xs, one, more) = place_slots-Runs u [] va os heap r e in
    let (start, mid, up, aligned, asc, short, stops, kept) =
      place_slot-Ranged u va os heap placed x h plain (omega arith) one in
    let same : placed ≡ r.0 = ap (λ t. t.0) (some_injective more) in
    rw⁻¹ same (next up aligned asc end, kept)
place_slots-Laid (u ∷ t ∷ ts) va os heap r (plain_slot, ne, ord) h plain room e =
    let (placed, x, xs, one, more) = place_slots-Runs u (t ∷ ts) va os heap r e in
    let (start, mid, up, aligned, asc, short, stops, kept) =
      place_slot-Ranged u va os heap placed x h plain (omega arith) one in
    let size : demand (sections placed os) ≡ demand (sections heap os) =
      sym (demand-erase (sections placed os)) ∙ ap demand kept ∙ demand-erase (sections heap os) in
    let plain' : All IsPlain (sections placed os) =
      IsPlain-erase (sections placed os) (rw kept (erase-IsPlain (sections heap os) plain)) in
    let stop = stops plain_slot in
    let more' = rw stop at more in
    let (laid, kept') =
      place_slots-Laid (t ∷ ts) mid os placed (r.0, xs) ord h plain' (rw size (omega arith))
        more' in
    let asc' = place_slots-kept (t ∷ ts) u os mid start mid placed (r.0, xs) ne h more' asc in
    (next up aligned asc' laid, kept' ∙ kept)
