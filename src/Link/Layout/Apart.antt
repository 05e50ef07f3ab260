-- ===== src/Link/Layout/Apart.antt =====
-- Two sections in the layout of src/linker.c.
use b1cc.Common.{
  ℕ, zero, suc, ◌+◌, ◌^◌, ◌≤◌, ◌<◌, ◌≡◌, ◌≢◌, refl, ap, ◌⊎◌, true, false, some, some_injective,
  List, [], ◌∷◌, map, arith, inl, inr, Option-cases, All, get_elem?,
}
use b1cc.Link.{Slot, Sec, Linker}
use b1cc.Link.Layout.{in_slot, or_one, place_slots, all_slots, layout, Out}
use b1cc.Link.Layout.Aligned.{Aligned}
use b1cc.Link.Layout.Sections.{Ascending, done, other, here, demand, IsPlain}
use b1cc.Link.Layout.Heap.{Distinct, sections}
use b1cc.Link.Layout.Laid.{erase, Ordered, Laid, end, next, total, place_slots-Laid}

-- One section ends before the other starts.
abbrev pub Apart : Sec → Sec → Type 0
Apart s t = (s.va + s.size ≤ t.va) ⊎ (t.va + t.size ≤ s.va)

-- The section goes into one of the slots.
unfoldable pub InSome : List Slot → Sec → Type 0
InSome [] s = true ≡ false
InSome (slot ∷ slots) s = (in_slot slot s ≡ true) ⊎ InSome slots s

-- What is known of one section of a slot.
abbrev Within : ℕ → ℕ → Sec → Type 0
Within lo hi s = (lo ≤ s.va) × (s.va + s.size ≤ hi) × Aligned (or_one s.align) s.va

Ascending-le : {slot : Slot} {lo hi : ℕ} {secs : List Sec} → Ascending slot lo secs hi → lo ≤ hi
Ascending-le (done le) = le
Ascending-le (other e rest) = Ascending-le rest
Ascending-le (here e le al rest) = let more = Ascending-le rest in omega arith

Ascending-Within :
    {slot : Slot} (secs : List Sec) {lo hi : ℕ} (i : ℕ) (s : Sec)
    → Ascending slot lo secs hi
    → get_elem? secs i ≡ some s
    → in_slot slot s ≡ true
    → Within lo hi s
Ascending-Within [] i s asc g h = absurd cc
Ascending-Within (t ∷ secs) zero s (other e rest) g h =
    let same : t ≡ s = some_injective g in let clash = rw same at e in absurd cc
Ascending-Within (t ∷ secs) zero s (here e le al rest) g h =
    let more = Ascending-le rest in rw⁻¹ (some_injective g) (le, more, al)
Ascending-Within (t ∷ secs) (suc i) s (other e rest) g h = Ascending-Within secs i s rest g h
Ascending-Within (t ∷ secs) (suc i) s (here e le al rest) g h =
    let (low, high, aligned) = Ascending-Within secs i s rest g h in (omega arith, high, aligned)

Ascending-Apart :
    {slot : Slot} (secs : List Sec) {lo hi : ℕ} (i j : ℕ) (s t : Sec)
    → Ascending slot lo secs hi
    → i ≢ j
    → get_elem? secs i ≡ some s
    → get_elem? secs j ≡ some t
    → in_slot slot s ≡ true
    → in_slot slot t ≡ true
    → Apart s t
Ascending-Apart [] i j s t asc ne gi gj hs ht = absurd cc
Ascending-Apart (x ∷ secs) zero zero s t asc ne gi gj hs ht = absurd (ne refl)
Ascending-Apart (x ∷ secs) zero (suc j) s t (other e rest) ne gi gj hs ht =
    let clash = rw (some_injective gi) at e in absurd cc
Ascending-Apart (x ∷ secs) zero (suc j) s t (here e le al rest) ne gi gj hs ht =
    let (low, high, aligned) = Ascending-Within secs j t rest gj ht in
    inl (rw⁻¹ (some_injective gi) low)
Ascending-Apart (x ∷ secs) (suc i) zero s t (other e rest) ne gi gj hs ht =
    let clash = rw (some_injective gj) at e in absurd cc
Ascending-Apart (x ∷ secs) (suc i) zero s t (here e le al rest) ne gi gj hs ht =
    let (low, high, aligned) = Ascending-Within secs i s rest gi hs in
    inr (rw⁻¹ (some_injective gj) low)
Ascending-Apart (x ∷ secs) (suc i) (suc j) s t (other e rest) ne gi gj hs ht =
    Ascending-Apart secs i j s t rest (λ q. ne (ap suc q)) gi gj hs ht
Ascending-Apart (x ∷ secs) (suc i) (suc j) s t (here e le al rest) ne gi gj hs ht =
    Ascending-Apart secs i j s t rest (λ q. ne (ap suc q)) gi gj hs ht

-- A section of any slot.
Laid-within :
    (secs : List Sec) {slots : List Slot} {va : ℕ} (i : ℕ) (s : Sec)
    → Laid secs slots va
    → get_elem? secs i ≡ some s
    → InSome slots s
    → (va ≤ s.va) × Aligned (or_one s.align) s.va
unfolding InSome
Laid-within secs i s end g h = absurd cc
Laid-within secs i s (next up al asc laid) g (inl h) =
    let (low, high, aligned) = Ascending-Within secs i s asc g h in (omega arith, aligned)
Laid-within secs i s (next up al asc laid) g (inr h) =
    let (low, aligned) = Laid-within secs i s laid g h in
    let room = Ascending-le asc in (omega arith, aligned)

Laid-Apart :
    (secs : List Sec) {slots : List Slot} {va : ℕ} (i j : ℕ) (s t : Sec)
    → Laid secs slots va
    → i ≢ j
    → get_elem? secs i ≡ some s
    → get_elem? secs j ≡ some t
    → InSome slots s
    → InSome slots t
    → Apart s t
unfolding InSome
Laid-Apart secs i j s t end ne gi gj hs ht = absurd cc
Laid-Apart secs i j s t (next up al asc laid) ne gi gj (inl hs) (inl ht) =
    Ascending-Apart secs i j s t asc ne gi gj hs ht
Laid-Apart secs i j s t (next up al asc laid) ne gi gj (inl hs) (inr ht) =
    let (low, high, aligned) = Ascending-Within secs i s asc gi hs in
    let (later, aligned') = Laid-within secs j t laid gj ht in inl (omega arith)
Laid-Apart secs i j s t (next up al asc laid) ne gi gj (inr hs) (inl ht) =
    let (low, high, aligned) = Ascending-Within secs j t asc gj ht in
    let (later, aligned') = Laid-within secs i s laid gi hs in inr (omega arith)
Laid-Apart secs i j s t (next up al asc laid) ne gi gj (inr hs) (inr ht) =
    Laid-Apart secs i j s t laid ne gi gj hs ht

ordered : Ordered all_slots
ordered = (
  omega arith,
  (omega arith, (omega arith, (omega arith, (omega arith, tt)))),
  (
    omega arith,
    (omega arith, (omega arith, (omega arith, tt))),
    (omega arith, (omega arith, (omega arith, tt)), (omega arith, (omega arith, tt), tt)),
  ),
)

module _ (base : ℕ) (lk lk' : Linker) (xs : List Out) where
  layout-Laid :
      Distinct lk.objs
      → All IsPlain (sections lk.heap lk.objs)
      → base + total all_slots (demand (sections lk.heap lk.objs)) < 2 ^ 64
      → layout base lk ≡ some (lk', xs)
      → Laid (sections lk'.heap lk.objs) all_slots base
        × (map erase (sections lk'.heap lk.objs) ≡ map erase (sections lk.heap lk.objs))
  unfolding layout
  layout-Laid h plain room e = elim (Option-cases (place_slots all_slots base lk.objs lk.heap)) [
    | inl missing ↦ let clash = rw (missing, layout) at e in absurd cc
    | inr ((heap, ys), run) ↦
        let same = ap (λ t. t.0) (some_injective (rw (run, layout) at e)) in
        rw⁻¹ same
          (place_slots-Laid all_slots base lk.objs lk.heap (heap, ys) ordered h plain room run)
  ]

  -- Where the objects are different ones, all alignments are powers of two and the address space
  -- has room, in each slot, for all sections with their padding, the layout changes nothing of a
  -- section but its address, and a section that goes into a slot has an aligned address that is
  -- not below the base.
  pub layout-placed :
      (i : ℕ) (s : Sec)
      → Distinct lk.objs
      → All IsPlain (sections lk.heap lk.objs)
      → base + total all_slots (demand (sections lk.heap lk.objs)) < 2 ^ 64
      → layout base lk ≡ some (lk', xs)
      → get_elem? (sections lk'.heap lk.objs) i ≡ some s
      → InSome all_slots s
      → (map erase (sections lk'.heap lk.objs) ≡ map erase (sections lk.heap lk.objs))
        × (base ≤ s.va)
        × Aligned (or_one s.align) s.va
  layout-placed i s h plain room e g hs =
      let (laid, kept) = layout-Laid h plain room e in
      let (low, aligned) = Laid-within (sections lk'.heap lk.objs) i s laid g hs in
      (kept, low, aligned)

  -- Where the objects are different ones, all alignments are powers of two and the address space
  -- has room, in each slot, for all sections with their padding, no two sections that go into
  -- slots overlap behind the layout, whether of one object or of two, of one slot or of two.
  pub layout-Apart :
      (i j : ℕ) (s t : Sec)
      → Distinct lk.objs
      → All IsPlain (sections lk.heap lk.objs)
      → base + total all_slots (demand (sections lk.heap lk.objs)) < 2 ^ 64
      → layout base lk ≡ some (lk', xs)
      → i ≢ j
      → get_elem? (sections lk'.heap lk.objs) i ≡ some s
      → get_elem? (sections lk'.heap lk.objs) j ≡ some t
      → InSome all_slots s
      → InSome all_slots t
      → Apart s t
  layout-Apart i j s t h plain room e ne gi gj hs ht =
      let (laid, kept) = layout-Laid h plain room e in
      Laid-Apart (sections lk'.heap lk.objs) i j s t laid ne gi gj hs ht
