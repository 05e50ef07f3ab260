-- ===== src/HashMap/Write.antt =====
-- Writes to one slot: storing a value under a key that stands in the table, storing a new key in a
-- free slot of its probe sequence, and leaving a tombstone.
use mathlib.Core.Path.{subst}
use native.Mathlib.Nat.{mod-lt}
use b1cc.Common.{
  ℕ, ◌+◌, ◌-◌, ◌%◌, ◌≤◌, ◌<◌, ◌≡◌, refl, sym, ap, ◌∙◌, Bool, true, false, none, some, List, arith,
  inl, inr, ◌==◌, ==_iff, if◌then◌else◌, Bool-cases, length, get_or, set, length-set, get_or-set,
  Bytes, str_eq, str_eq_iff,
}
use b1cc.HashMap.{Slot, null, tombstone, entry, hash_key}
use b1cc.HashMap.Slots.{
  slot_val, weight, count, lookup, live, count_zero-lookup, live-set, count-set, lookup-set,
}
use b1cc.HashMap.Probe.{probe, is_null, IsPlaced, probe_injective}

same_key : (a b q : Bytes) → str_eq a b ≡ true → str_eq a q ≡ str_eq b q
same_key a b q e = rw ((str_eq_iff a b).0 e)

module _ {ℓ} {V : Type ℓ} where
  -- The table of a well-formed map.
  pub record IsTable (es : List (Slot V)) (n size : ℕ) : Type ℓ where
    pub pos : 0 < n
    pub len : length es ≡ n
    pub once : (q : Bytes) → count q es ≤ 1
    pub sized : live es ≡ size
    pub placed : IsPlaced es n

  set-IsPlaced :
      (es : List (Slot V)) (n idx : ℕ) (s : Slot V)
      → idx < length es
      → is_null s ≡ false
      → IsPlaced es n
      → ((k : Bytes) (v : V) (d i : ℕ)
          → s ≡ entry k v
          → d < n
          → (hash_key k % n + d) % n ≡ idx
          → i < d
          → is_null (probe es n (hash_key k % n) i) ≡ false)
      → IsPlaced (set es idx s) n
  set-IsPlaced es n idx s lt solid placed new k v d i ltd p before =
      rw (get_or-set es idx _ s null lt)
        (go (get_or-set es idx ((hash_key k % n + d) % n) s null lt))
    where
      go :
          probe (set es idx s) n (hash_key k % n) d
            ≡ (if idx == (hash_key k % n + d) % n then s else probe es n (hash_key k % n) d)
          → is_null (if idx == (hash_key k % n + i) % n then s else probe es n (hash_key k % n) i)
            ≡ false
      go r = elim (Bool-cases (idx == (hash_key k % n + i) % n)) [
        | inl here ↦ rw here solid
        | inr there ↦ elim (Bool-cases (idx == (hash_key k % n + d) % n)) [
          | inl written ↦ rw there (
              new k v d i
                (cc (ap (λ (b : Bool). if b then s else probe es n (hash_key k % n) d) written)) ltd
                (sym ((==_iff idx _).0 written)) before)
          | inr kept ↦ rw there (
              placed k v d i ltd
                (cc (ap (λ (b : Bool). if b then s else probe es n (hash_key k % n) d) kept))
                before)
        ]
      ]

  entry_key : (a b : Bytes) (x y : V) → ◌≡◌ {A = Slot V} (entry a x) (entry b y) → a ≡ b
  entry_key a b x y e = cc

  free_val : (q : Bytes) (s : Slot V) → weight s ≡ 0 → slot_val q s ≡ none
  free_val q null h = refl
  free_val q tombstone h = refl
  free_val q (entry k v) h = cc

  module _ {es : List (Slot V)} {n size : ℕ} (t : IsTable es n size) (idx : ℕ) (lt : idx < n) where
    -- A key that is stored: its value changes, all else stays.
    pub update-IsTable :
        (key k : Bytes) (v w : V)
        → get_or es idx null ≡ entry k w
        → IsTable (set es idx (entry k v)) n size
    update-IsTable key k v w old = record {
      pos = t.pos;
      len = length-set es idx _ ∙ t.len;
      once = λ q.
          let c = count-set q es idx (entry k v) (rw t.len lt) in
          let c' = rw old at c in ground (arith, t.once q);
      sized =
          let c = live-set es idx (entry k v) (rw t.len lt) in
          let c' = rw old at c in omega (arith, t.sized);
      placed =
          set-IsPlaced es n idx (entry k v) (rw t.len lt) refl t.placed
            λ k' v' d i e ltd at_idx before.
              t.placed k' w d i ltd
                (ap (λ x. get_or es x null) at_idx
                  ∙ old
                  ∙ ap (λ x. entry x w) (entry_key k k' v v' e))
                before;
    }

    pub lookup-update :
        (key k : Bytes) (v w : V)
        → get_or es idx null ≡ entry k w
        → str_eq k key ≡ true
        → (q : Bytes)
        → lookup q (set es idx (entry k v)) ≡ (if str_eq key q then some v else lookup q es)
    lookup-update key k v w old same q =
        let u = update-IsTable key k v w old in
        rw
          (
            lookup-set q es idx (entry k v) (rw t.len lt) (t.once q) (u.once q),
            old,
            same_key k key q same,
          )
          (ground arith)

    -- A free slot of the probe sequence of a key that is not stored.
    pub insert-IsTable :
        (key : Bytes) (v : V) (r : ℕ)
        → lookup key es ≡ none
        → weight (get_or es idx null) ≡ 0
        → r < n
        → idx ≡ (hash_key key % n + r) % n
        → ((i : ℕ) → i < r → is_null (probe es n (hash_key key % n) i) ≡ false)
        → IsTable (set es idx (entry key v)) n (size + 1)
    insert-IsTable key v r absent free ltr at_r solid = record {
      pos = t.pos;
      len = length-set es idx _ ∙ t.len;
      once = λ q. ground (
        arith,
        count-set q es idx (entry key v) (rw t.len lt),
        t.once q,
        count_zero-lookup key es absent,
        str_eq_iff key q,
      );
      sized = omega (arith, live-set es idx (entry key v) (rw t.len lt), t.sized);
      placed =
          set-IsPlaced es n idx (entry key v) (rw t.len lt) refl t.placed
            λ k' v' d i e ltd at_idx before.
              let same = entry_key key k' v v' e in
              let d_at_r : (hash_key key % n + d) % n ≡ (hash_key key % n + r) % n =
                subst (λ x. (hash_key x % n + d) % n ≡ (hash_key key % n + r) % n) (sym same)
                  (at_idx ∙ at_r) in
              let d_is_r =
                probe_injective (hash_key key % n) d r n (mod-lt _ t.pos) ltd ltr d_at_r in
              subst (λ x. is_null (probe es n (hash_key x % n) i) ≡ false) same
                (solid i (omega arith));
    }

    pub lookup-insert :
        (key : Bytes) (v : V) (r : ℕ)
        → lookup key es ≡ none
        → weight (get_or es idx null) ≡ 0
        → IsTable (set es idx (entry key v)) n (size + 1)
        → (q : Bytes)
        → lookup q (set es idx (entry key v)) ≡ (if str_eq key q then some v else lookup q es)
    lookup-insert key v r absent free u q =
        rw
          (
            lookup-set q es idx (entry key v) (rw t.len lt) (t.once q) (u.once q),
            free_val q (get_or es idx null) free,
          )
          (ground arith)

    -- A removed entry leaves a tombstone, and the rest of its probe sequence stays reachable.
    pub remove-IsTable :
        (k : Bytes) (w : V)
        → get_or es idx null ≡ entry k w
        → IsTable (set es idx tombstone) n (size - 1)
    remove-IsTable k w old = record {
      pos = t.pos;
      len = length-set es idx _ ∙ t.len;
      once = λ q. omega (arith, count-set q es idx tombstone (rw t.len lt), t.once q);
      sized =
          let c = live-set es idx tombstone (rw t.len lt) in
          let c' = rw old at c in omega (arith, t.sized);
      placed =
          set-IsPlaced es n idx tombstone (rw t.len lt) refl t.placed
            λ k' v' d i e ltd at_idx before. cc;
    }

    pub lookup-remove :
        (key k : Bytes) (w : V)
        → get_or es idx null ≡ entry k w
        → str_eq k key ≡ true
        → (q : Bytes)
        → lookup q (set es idx tombstone) ≡ (if str_eq key q then none else lookup q es)
    lookup-remove key k w old same q =
        let u = remove-IsTable k w old in
        rw
          (
            lookup-set q es idx tombstone (rw t.len lt) (t.once q) (u.once q),
            old,
            same_key k key q same,
          )
          (ground arith)
