-- ===== src/HashMap/Slots.antt =====
-- The contents of a slot array as a dictionary, whatever the order of probing: the value under a
-- key, how many slots hold the key, and how many hold an entry.
use b1cc.Common.{
  ℕ, zero, suc, ◌+◌, ◌≤◌, ◌<◌, ◌≡◌, refl, Option, none, some, List, [], ◌∷◌, arith, if◌then◌else◌,
  length, get_or, set, replicate, Bytes, str_eq,
}
use b1cc.HashMap.{Slot, null, tombstone, entry}

module _ {ℓ} {V : Type ℓ} where
  -- The value that one slot holds under a key.
  abbrev pub slot_val : Bytes → Slot V → Option V
  slot_val q null = none
  slot_val q tombstone = none
  slot_val q (entry k v) = if str_eq k q then some v else none

  abbrev pub or_else : Option V → Option V → Option V
  or_else none b = b
  or_else (some a) b = some a

  abbrev hits : Option V → ℕ
  hits none = 0
  hits (some _) = 1

  -- 1 for an entry
  abbrev pub weight : Slot V → ℕ
  weight null = 0
  weight tombstone = 0
  weight (entry k v) = 1

  abbrev pub lookup : Bytes → List (Slot V) → Option V
  lookup q [] = none
  lookup q (s ∷ es) = or_else (slot_val q s) (lookup q es)

  abbrev pub count : Bytes → List (Slot V) → ℕ
  count q [] = 0
  count q (s ∷ es) = hits (slot_val q s) + count q es

  abbrev pub live : List (Slot V) → ℕ
  live [] = 0
  live (s ∷ es) = weight s + live es

module _ {ℓ} {V : Type ℓ} where
  pub lookup-count_zero : (q : Bytes) (es : List (Slot V)) → count q es ≡ 0 → lookup q es ≡ none
  lookup-count_zero q [] h = refl
  lookup-count_zero q (s ∷ es) h = ground (arith, lookup-count_zero q es)

  pub count_zero-lookup : (q : Bytes) (es : List (Slot V)) → lookup q es ≡ none → count q es ≡ 0
  count_zero-lookup q [] h = refl
  count_zero-lookup q (s ∷ es) h = ground (arith, count_zero-lookup q es)

  hits-le-count :
      (q : Bytes) (es : List (Slot V)) (i : ℕ) → hits (slot_val q (get_or es i null)) ≤ count q es
  hits-le-count q [] i = omega arith
  hits-le-count q (s ∷ es) zero = omega arith
  hits-le-count q (s ∷ es) (suc i) = omega (arith, hits-le-count q es i)

  -- If no slot holds the key, the dictionary does not.
  pub lookup-zero_count :
      (q : Bytes) (es : List (Slot V))
      → ((i : ℕ) → i < length es → slot_val q (get_or es i null) ≡ none)
      → lookup q es ≡ none
  lookup-zero_count q [] h = refl
  lookup-zero_count q (s ∷ es) h =
      ground (arith, h 0 (omega arith), lookup-zero_count q es (λ i lt. h (suc i) (omega arith)))

  -- The value in a slot is the dictionary's, if the key stands once.
  pub lookup_at :
      (q : Bytes) (es : List (Slot V)) (i : ℕ) (v : V)
      → count q es ≤ 1
      → slot_val q (get_or es i null) ≡ some v
      → lookup q es ≡ some v
  lookup_at q [] i v once h = h
  lookup_at q (s ∷ es) zero v once h = rw h
  lookup_at q (s ∷ es) (suc i) v once h = ground (arith, lookup_at q es i v, hits-le-count q es i)

  pub live-set :
      (es : List (Slot V)) (i : ℕ) (s : Slot V)
      → i < length es
      → live (set es i s) + weight (get_or es i null) ≡ live es + weight s
  live-set [] i s h = absurd (omega arith)
  live-set (x ∷ es) zero s h = omega arith
  live-set (x ∷ es) (suc i) s h = omega (arith, live-set es i s)

  pub count-set :
      (q : Bytes) (es : List (Slot V)) (i : ℕ) (s : Slot V)
      → i < length es
      → count q (set es i s) + hits (slot_val q (get_or es i null))
        ≡ count q es + hits (slot_val q s)
  count-set q [] i s h = absurd (omega arith)
  count-set q (x ∷ es) zero s h = omega arith
  count-set q (x ∷ es) (suc i) s h = omega (arith, count-set q es i s)

  pub lookup-set :
      (q : Bytes) (es : List (Slot V)) (i : ℕ) (s : Slot V)
      → i < length es
      → count q es ≤ 1
      → count q (set es i s) ≤ 1
      → lookup q (set es i s)
        ≡ or_else
            (slot_val q s)
            (elim (slot_val q (get_or es i null)) [ none ↦ lookup q es | some _ ↦ none ])
  lookup-set q [] i s h once once' = absurd (omega arith)
  lookup-set q (x ∷ es) zero s h once once' = ground (arith, lookup-count_zero q es)
  lookup-set q (x ∷ es) (suc i) s h once once' =
      ground (arith, lookup-set q es i s, count-set q es i s, hits-le-count q es i)

  pub live-le-length : (es : List (Slot V)) → live es ≤ length es
  live-le-length [] = omega arith
  live-le-length (null ∷ es) = omega (arith, live-le-length es)
  live-le-length (tombstone ∷ es) = omega (arith, live-le-length es)
  live-le-length (entry k v ∷ es) = omega (arith, live-le-length es)

  -- An array with fewer entries than slots has a slot without an entry.
  pub full-live :
      (es : List (Slot V))
      → ((i : ℕ) → i < length es → weight (get_or es i null) ≡ 1)
      → live es ≡ length es
  full-live [] h = refl
  full-live (s ∷ es) h =
      omega (arith, h 0 (omega arith), full-live es (λ i lt. h (suc i) (omega arith)))

module _ {ℓ} {V : Type ℓ} where
  pub lookup-replicate : (q : Bytes) (n : ℕ) → lookup q (replicate {A = Slot V} n null) ≡ none
  lookup-replicate q zero = refl
  lookup-replicate q (suc n) = lookup-replicate q n

pub live-replicate {ℓ} : (V : Type ℓ) (n : ℕ) → live (replicate {A = Slot V} n null) ≡ 0
live-replicate V zero = refl
live-replicate V (suc n) = omega (arith, live-replicate V n)
