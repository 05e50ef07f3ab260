-- ===== src/Link/Layout/Sections.antt =====
-- One pass of the layout of src/linker.c over sections.
use b1cc.Common.{
  ℕ, ◌+◌, ◌^◌, ◌≤◌, ◌<◌, ◌≡◌, ◌≢◌, refl, true, false, List, [], ◌∷◌, arith, inl, inr, Bool-cases,
  All, ◌%◌,
}
use b1cc.Link.{Slot, Sec}
use b1cc.Link.Layout.{in_slot, slot_number, or_one, align_va, place_sec, place_secs}
use b1cc.Link.Layout.Aligned.{IsPower, Aligned, align_va-RoundsUp}

-- The sections of the slot have ascending, aligned addresses from `lo` on, none reaches into the
-- next one, and the last one ends at most at `hi`.
pub data Ascending (slot : Slot) : ℕ → List Sec → ℕ → Type 0 where
  done : {lo hi : ℕ} → lo ≤ hi → Ascending slot lo [] hi
  other :
      {lo hi : ℕ} {s : Sec} {secs : List Sec}
      → in_slot slot s ≡ false
      → Ascending slot lo secs hi
      → Ascending slot lo (s ∷ secs) hi
  here :
      {lo hi : ℕ} {s : Sec} {secs : List Sec}
      → in_slot slot s ≡ true
      → lo ≤ s.va
      → Aligned (or_one s.align) s.va
      → Ascending slot (s.va + s.size) secs hi
      → Ascending slot lo (s ∷ secs) hi

-- What the sections take at most.
unfoldable pub demand : List Sec → ℕ
demand [] = 0
demand (s ∷ secs) = or_one s.align + s.size + demand secs

abbrev pub IsPlain : Sec → Type 0
IsPlain s = IsPower (or_one s.align)

place_sec-here :
    (slot : Slot) (va : ℕ) (s : Sec)
    → in_slot slot s ≡ true
    → place_sec slot va s ≡ (
      record s { va = align_va va (or_one s.align) },
      (align_va va (or_one s.align) + s.size) % 2 ^ 64,
    )
unfolding place_sec
place_sec-here slot va s h = rw (h, place_sec) refl

place_sec-other :
    (slot : Slot) (va : ℕ) (s : Sec) → in_slot slot s ≡ false → place_sec slot va s ≡ (s, va)
unfolding place_sec
place_sec-other slot va s h = rw (h, place_sec) refl

-- What a pass makes of the sections, and where it ends.
abbrev Placed : Slot → ℕ → List Sec → List Sec × ℕ → Type 0
Placed slot va secs r = Ascending slot va r.0 r.1 × (r.1 ≤ va + demand secs)

weaken :
    (slot : Slot) (lo lo' hi : ℕ) (secs : List Sec)
    → lo ≤ lo'
    → Ascending slot lo' secs hi
    → Ascending slot lo secs hi
weaken slot lo lo' hi secs h (done le) = done (omega arith)
weaken slot lo lo' hi secs h (other e rest) = other e (weaken slot lo lo' hi _ h rest)
weaken slot lo lo' hi secs h (here e le al rest) = here e (omega arith) al rest

pub place_secs-Ascending :
    (slot : Slot) (va : ℕ) (secs : List Sec)
    → All IsPlain secs
    → va + demand secs < 2 ^ 64
    → Placed slot va secs (place_secs slot va secs)
unfolding demand place_secs
place_secs-Ascending slot va [] h room = (done (omega arith), omega arith)
place_secs-Ascending slot va (s ∷ secs) (p, h) room = elim (Bool-cases (in_slot slot s)) [
  | inl e ↦
      let (aligned, up, near) = align_va-RoundsUp va (or_one s.align) p (omega arith) in
      let there = align_va va (or_one s.align) in
      let next : (there + s.size) % 2 ^ 64 ≡ there + s.size = omega arith in
      let (rest, short) = place_secs-Ascending slot (there + s.size) secs h (omega arith) in
      rw (place_sec-here slot va s e) (rw next (here e up aligned rest, omega arith))
  | inr e ↦
      let (rest, short) = place_secs-Ascending slot va secs h (omega arith) in
      rw (place_sec-other slot va s e) (other e rest, omega arith)
]

-- A pass for one slot leaves the sections of the others where they are.
other_slot :
    (slot slot' : Slot) (s : Sec)
    → slot_number slot ≢ slot_number slot'
    → in_slot slot s ≡ true
    → in_slot slot' s ≡ false
other_slot slot slot' s ne h = ground arith

pub place_secs-kept :
    (slot slot' : Slot) (secs : List Sec) (va lo hi : ℕ)
    → slot_number slot ≢ slot_number slot'
    → Ascending slot' lo secs hi
    → Ascending slot' lo (place_secs slot va secs).0 hi
unfolding place_secs
place_secs-kept slot slot' secs va lo hi ne (done le) = done le
place_secs-kept slot slot' (s ∷ secs) va lo hi ne (other e rest) =
    elim (Bool-cases (in_slot slot s)) [
      | inl h ↦
          rw (place_sec-here slot va s h)
            (other e (place_secs-kept slot slot' secs _ lo hi ne rest))
      | inr h ↦
          rw (place_sec-other slot va s h)
            (other e (place_secs-kept slot slot' secs _ lo hi ne rest))
    ]
place_secs-kept slot slot' (s ∷ secs) va lo hi ne (here e le al rest) =
    elim (Bool-cases (in_slot slot s)) [
      | inl h ↦ let clash = other_slot slot slot' s ne h in absurd cc
      | inr h ↦
          rw (place_sec-other slot va s h)
            (here e le al (place_secs-kept slot slot' secs _ _ hi ne rest))
    ]
