-- ===== src/HashMap/Values.antt =====
-- The values in a slot array of src/common.c, and how many of them satisfy a test.
use b1cc.Common.{
  ℕ, zero, suc, ◌+◌, ◌%◌, ◌≤◌, ◌<◌, ◌≡◌, refl, ◌⊎◌, Bool, true, false, some, some_injective, List,
  [], ◌∷◌, arith, inl, inr, Bool-cases, Option-cases, if◌then◌else◌, length, get_or, Bytes, str_eq,
}
use b1cc.HashMap.{Slot, null, tombstone, entry, HashMap, get_loop, hashmap_get}

module _ {V : Type 0} where
  -- One of the entries has the value.
  abbrev Listed : V → List (Slot V) → Type 0
  Listed v [] = ⊥
  Listed v (null ∷ es) = Listed v es
  Listed v (tombstone ∷ es) = Listed v es
  Listed v (entry k w ∷ es) = (w ≡ v) ⊎ Listed v es

  abbrev pub pending : (V → Bool) → List (Slot V) → ℕ
  pending p [] = 0
  pending p (null ∷ es) = pending p es
  pending p (tombstone ∷ es) = pending p es
  pending p (entry k w ∷ es) = if p w then suc (pending p es) else pending p es

  pub pending-le : (p : V → Bool) (es : List (Slot V)) → pending p es ≤ length es
  pending-le p [] = omega arith
  pending-le p (null ∷ es) = let le = pending-le p es in omega arith
  pending-le p (tombstone ∷ es) = let le = pending-le p es in omega arith
  pending-le p (entry k w ∷ es) = let le = pending-le p es in ground arith

  pending_mono :
      (p q : V → Bool) (es : List (Slot V))
      → ((v : V) → q v ≡ true → p v ≡ true)
      → pending q es ≤ pending p es
  pending_mono p q [] h = omega arith
  pending_mono p q (null ∷ es) h = pending_mono p q es h
  pending_mono p q (tombstone ∷ es) h = pending_mono p q es h
  pending_mono p q (entry k w ∷ es) h =
      let le = pending_mono p q es h in
      elim (Bool-cases (q w)) [
        | inl here ↦ let there = h w here in rw here (rw there (omega arith))
        | inr out ↦ rw out (ground arith)
      ]

  -- A value that no longer satisfies the test counts gone more.
  pub pending-less :
      (p q : V → Bool) (es : List (Slot V)) (v : V)
      → ((w : V) → q w ≡ true → p w ≡ true)
      → Listed v es
      → p v ≡ true
      → q v ≡ false
      → pending q es < pending p es
  pending-less p q [] v h l was gone = absurd l
  pending-less p q (null ∷ es) v h l was gone = pending-less p q es v h l was gone
  pending-less p q (tombstone ∷ es) v h l was gone = pending-less p q es v h l was gone
  pending-less p q (entry k w ∷ es) v h (inl e) was gone =
      let le = pending_mono p q es h in
      let was_w : p w ≡ true = rw e was in
      let is_w : q w ≡ false = rw e gone in rw was_w (rw is_w (omega arith))
  pending-less p q (entry k w ∷ es) v h (inr l) was gone =
      let less = pending-less p q es v h l was gone in
      elim (Bool-cases (q w)) [
        | inl here ↦ let there = h w here in rw here (rw there (omega arith))
        | inr out ↦ rw out (ground arith)
      ]

  get_or-Listed :
      (es : List (Slot V)) (i : ℕ) (k : Bytes) (v : V) → get_or es i null ≡ entry k v → Listed v es
  get_or-Listed [] i k v e = absurd cc
  get_or-Listed (null ∷ es) zero k v e = absurd cc
  get_or-Listed (tombstone ∷ es) zero k v e = absurd cc
  get_or-Listed (entry k' w ∷ es) zero k v e = inl cc
  get_or-Listed (null ∷ es) (suc i) k v e = get_or-Listed es i k v e
  get_or-Listed (tombstone ∷ es) (suc i) k v e = get_or-Listed es i k v e
  get_or-Listed (entry k' w ∷ es) (suc i) k v e = inr (get_or-Listed es i k v e)

  Slot-cases :
      (s : Slot V) → (s ≡ null) ⊎ (s ≡ tombstone) ⊎ ((k : Bytes) × (v : V) × (s ≡ entry k v))
  Slot-cases null = inl refl
  Slot-cases tombstone = inr (inl refl)
  Slot-cases (entry k v) = inr (inr (k, v, refl))

  get_loop-Listed :
      (es : List (Slot V)) (n : ℕ) (key : Bytes) (h rounds i : ℕ) (v : V)
      → get_loop es n key h rounds i ≡ some v
      → Listed v es
  unfolding get_loop
  get_loop-Listed es n key h zero i v e = absurd cc
  get_loop-Listed es n key h (suc rounds) i v e = elim (Slot-cases (get_or es ((h + i) % n) null)) [
    | inl s ↦ let e' = rw (s, get_loop) at e in absurd cc
    | inr (inl s) ↦ get_loop-Listed es n key h rounds (i + 1) v (rw (s, get_loop) at e)
    | inr (inr (k, w, s)) ↦
        let e' = rw (s, get_loop) at e in
        elim (Bool-cases (str_eq k key)) [
          | inl same ↦
              let is = some_injective (rw same at e') in
              get_or-Listed es ((h + i) % n) k v (rw is at s)
          | inr other ↦ get_loop-Listed es n key h rounds (i + 1) v (rw other at e')
        ]
  ]

  -- What `hashmap_get` finds is in the slots.
  pub hashmap_get-Listed :
      (m : HashMap V) (key : Bytes) (v : V)
      → hashmap_get m key ≡ some v
      → (es : List (Slot V)) × (m.entries ≡ some es) × Listed v es
  unfolding hashmap_get
  hashmap_get-Listed m key v e = elim (Option-cases m.entries) [
    | inl empty ↦ let e' = rw (empty, hashmap_get) at e in absurd cc
    | inr (es, full) ↦ (es, full, get_loop-Listed es _ key _ _ _ v (rw (full, hashmap_get) at e))
  ]
