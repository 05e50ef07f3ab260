-- ===== src/Link/Layout/Heap.antt =====
-- The layout of src/linker.c over the objects in the order of lk->objs: what it does to the
-- sections of all of them, in that order.
use b1cc.Common.{
  ℕ, zero, suc, ◌≡◌, ◌≢◌, refl, sym, ap, ◌∙◌, none, some, some_injective, List, [], ◌∷◌, ◌++◌, inl,
  inr, All, get_elem?, set, Option-cases,
}
use b1cc.Link.{
  Slot, out_text, out_rodata, out_data, out_init_array, out_bss, out_discard, Sec, Sym, Obj,
}
use b1cc.Link.Places.{get-set_same, get-set_other}
use b1cc.Link.Layout.{
  place_sec, place_secs, place_objs, place_commons, bss_commons, place_slot, Out, align_va,
  out_align, slot_number,
}

abbrev pub Distinct : List ℕ → Type 0
Distinct [] = Unit
Distinct (o ∷ os) = All (λ p. o ≢ p) os × Distinct os

abbrev secs_at : List Obj → ℕ → List Sec
secs_at heap o = elim (get_elem? heap o) [ none ↦ [] | some obj ↦ obj.secs ]

-- The sections of the objects, in their order.
unfoldable pub sections : List Obj → List ℕ → List Sec
sections heap [] = []
sections heap (o ∷ os) = secs_at heap o ++ sections heap os

place_secs-append :
    (slot : Slot) (xs ys : List Sec) (va : ℕ)
    → place_secs slot va (xs ++ ys) ≡ (
      (place_secs slot va xs).0 ++ (place_secs slot (place_secs slot va xs).1 ys).0,
      (place_secs slot (place_secs slot va xs).1 ys).1,
    )
unfolding place_secs
place_secs-append slot [] ys va = refl
place_secs-append slot (s ∷ xs) ys va =
    let rest = place_secs-append slot xs ys (place_sec slot va s).1 in rw rest refl

secs_at-set :
    (heap : List Obj) (o p : ℕ) (obj : Obj) → o ≢ p → secs_at (set heap o obj) p ≡ secs_at heap p
secs_at-set heap o p obj ne = rw (get-set_other heap obj o p ne, secs_at) refl

sections-set :
    (heap : List Obj) (o : ℕ) (obj : Obj) (os : List ℕ)
    → All (λ p. o ≢ p) os
    → sections (set heap o obj) os ≡ sections heap os
unfolding sections
sections-set heap o obj [] h = refl
sections-set heap o obj (p ∷ os) (ne, h) =
    let rest = sections-set heap o obj os h in
    let one = secs_at-set heap o p obj ne in
    ap (λ l. l ++ sections (set heap o obj) os) one ∙ ap (λ l. secs_at heap p ++ l) rest

-- A pass over other objects.
place_objs-other :
    (slot : Slot) (os : List ℕ) (va : ℕ) (heap : List Obj) (o : ℕ) (r : List Obj × ℕ)
    → All (λ p. o ≢ p) os
    → place_objs slot va os heap ≡ some r
    → get_elem? r.0 o ≡ get_elem? heap o
unfolding place_objs
place_objs-other slot [] va heap o r h e =
    let same : (heap, va) ≡ r = some_injective e in rw⁻¹ same refl
place_objs-other slot (p ∷ os) va heap o r (ne, h) e = elim (Option-cases (get_elem? heap p)) [
  | inl none_there ↦ let clash = rw (none_there, place_objs) at e in absurd cc
  | inr (obj, there) ↦
      let rest = rw (there, place_objs) at e in
      let back : p ≢ o = λ q. ne (sym q) in
      place_objs-other slot os _ _ o r h rest ∙ get-set_other heap _ p o back
]

place_objs-sections :
    (slot : Slot) (os : List ℕ) (va : ℕ) (heap : List Obj) (r : List Obj × ℕ)
    → Distinct os
    → place_objs slot va os heap ≡ some r
    → place_secs slot va (sections heap os) ≡ (sections r.0 os, r.1)
unfolding place_objs sections place_secs
place_objs-sections slot [] va heap r h e =
    let same : (heap, va) ≡ r = some_injective e in rw⁻¹ same refl
place_objs-sections slot (o ∷ os) va heap r (away, h) e = elim (Option-cases (get_elem? heap o)) [
  | inl none_there ↦ let clash = rw (none_there, place_objs) at e in absurd cc
  | inr (obj, there) ↦
      let pass = place_secs slot va obj.secs in
      let moved = record obj { secs = pass.0 } in
      let rest = rw (there, place_objs) at e in
      let more = place_objs-sections slot os pass.1 (set heap o moved) r h rest in
      let others = sections-set heap o moved os away in
      let kept =
        place_objs-other slot os pass.1 (set heap o moved) o r away rest
        ∙ get-set_same heap moved obj o there in
      let tail : place_secs slot pass.1 (sections heap os) ≡ (sections r.0 os, r.1) =
        ap (place_secs slot pass.1) (sym others) ∙ more in
      rw (there, secs_at)
        (rw (kept, secs_at)
          (place_secs-append slot obj.secs (sections heap os) va
            ∙ ap (λ t. (pass.0 ++ t.0, t.1)) tail))
]

-- Common symbols move no section.
secs_at-syms :
    (heap : List Obj) (o p : ℕ) (obj : Obj) (syms : List Sym)
    → get_elem? heap o ≡ some obj
    → secs_at (set heap o (record obj { syms = syms })) p ≡ secs_at heap p
secs_at-syms [] o p obj syms h = absurd cc
secs_at-syms (x ∷ heap) zero zero obj syms h =
    let same : x ≡ obj = some_injective h in ap (λ y. y.secs) (sym same)
secs_at-syms (x ∷ heap) zero (suc p) obj syms h = refl
secs_at-syms (x ∷ heap) (suc o) zero obj syms h = refl
secs_at-syms (x ∷ heap) (suc o) (suc p) obj syms h = secs_at-syms heap o p obj syms h

sections-syms :
    (heap : List Obj) (o : ℕ) (obj : Obj) (syms : List Sym) (os : List ℕ)
    → get_elem? heap o ≡ some obj
    → sections (set heap o (record obj { syms = syms })) os ≡ sections heap os
unfolding sections
sections-syms heap o obj syms [] there = refl
sections-syms heap o obj syms (p ∷ os) there =
    let rest = sections-syms heap o obj syms os there in
    let one = secs_at-syms heap o p obj syms there in
    ap (λ l. l ++ sections (set heap o (record obj { syms = syms })) os) one
    ∙ ap (λ l. secs_at heap p ++ l) rest

place_commons-sections :
    (os all : List ℕ) (va : ℕ) (heap : List Obj) (r : List Obj × ℕ)
    → place_commons va os heap ≡ some r
    → sections r.0 all ≡ sections heap all
unfolding place_commons
place_commons-sections [] all va heap r e =
    let same : (heap, va) ≡ r = some_injective e in rw⁻¹ same refl
place_commons-sections (o ∷ os) all va heap r e = elim (Option-cases (get_elem? heap o)) [
  | inl none_there ↦ let clash = rw (none_there, place_commons) at e in absurd cc
  | inr (obj, there) ↦
      let rest = rw (there, place_commons) at e in
      place_commons-sections os all _ _ r rest ∙ sections-syms heap o obj _ all there
]

bss_commons-sections :
    (slot : Slot) (os : List ℕ) (va : ℕ) (heap : List Obj) (r : List Obj × ℕ)
    → bss_commons slot va os heap ≡ some r
    → sections r.0 os ≡ sections heap os
unfolding bss_commons
bss_commons-sections out_bss os va heap r e = place_commons-sections os os va heap r e
bss_commons-sections out_text os va heap r e = ap (λ x. sections x.0 os) (sym (some_injective e))
bss_commons-sections out_rodata os va heap r e = ap (λ x. sections x.0 os) (sym (some_injective e))
bss_commons-sections out_data os va heap r e = ap (λ x. sections x.0 os) (sym (some_injective e))
bss_commons-sections out_init_array os va heap r e =
    ap (λ x. sections x.0 os) (sym (some_injective e))
bss_commons-sections out_discard os va heap r e = ap (λ x. sections x.0 os) (sym (some_injective e))

bss_commons-end :
    (slot : Slot) (os : List ℕ) (va : ℕ) (heap : List Obj) (r : List Obj × ℕ)
    → slot_number slot ≢ 4
    → bss_commons slot va os heap ≡ some r
    → r.1 ≡ va
unfolding bss_commons
bss_commons-end out_bss os va heap r ne e = absurd (ne refl)
bss_commons-end out_text os va heap r ne e = ap (λ x. x.1) (sym (some_injective e))
bss_commons-end out_rodata os va heap r ne e = ap (λ x. x.1) (sym (some_injective e))
bss_commons-end out_data os va heap r ne e = ap (λ x. x.1) (sym (some_injective e))
bss_commons-end out_init_array os va heap r ne e = ap (λ x. x.1) (sym (some_injective e))
bss_commons-end out_discard os va heap r ne e = ap (λ x. x.1) (sym (some_injective e))

-- One slot: a pass over the sections from the aligned start. Without common symbols the slot ends
-- where the pass ends.
abbrev Passed : Slot → ℕ → List ℕ → List Obj → List Obj × Out → Type 0
Passed slot va os heap r =
    (mid : ℕ) × (place_secs slot (align_va va (out_align slot)) (sections heap os)
      ≡ (sections r.0 os, mid))
    × (slot_number slot ≢ 4 → r.1.stop ≡ mid)

pub place_slot-Passed :
    (slot : Slot) (os : List ℕ) (va : ℕ) (heap : List Obj) (r : List Obj × Out)
    → Distinct os
    → place_slot slot va os heap ≡ some r
    → Passed slot va os heap r
unfolding place_slot
place_slot-Passed slot os va heap r h e =
    let start = align_va va (out_align slot) in
    elim (Option-cases (place_objs slot start os heap)) [
      | inl missing ↦ let clash = rw (missing, place_slot) at e in absurd cc
      | inr ((placed, mid), one) ↦
          let pass = place_objs-sections slot os start heap (placed, mid) h one in
          elim (Option-cases (bss_commons slot mid os placed)) [
            | inl missing ↦
                let clash = rw (missing, place_slot) at (rw (one, place_slot) at e) in absurd cc
            | inr ((done, stop), two) ↦
                let same = some_injective (rw (two, place_slot) at (rw (one, place_slot) at e)) in
                let kept = bss_commons-sections slot os mid placed (done, stop) two in
                rw⁻¹ same
                  (mid, rw kept pass, λ ne. bss_commons-end slot os mid placed (done, stop) ne two)
          ]
    ]
