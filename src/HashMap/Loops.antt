-- ===== src/HashMap/Loops.antt =====
-- The probe loops of `hashmap_put` and `hashmap_remove` on a well-formed table.
use mathlib.Core.Path.{subst}
use native.Mathlib.Nat.{mod-lt}
use b1cc.Common.{
  ℕ, zero, suc, ◌+◌, ◌-◌, ◌%◌, ◌<◌, ◌≡◌, refl, sym, true, false, Option, none, some, List, arith,
  inl, inr, ◌==◌, ==_iff, if◌then◌else◌, Bool-cases, length, get_or, set, Bytes, str_eq, str_eq_iff,
}
use b1cc.HashMap.{Slot, null, tombstone, entry, hash_key, put_loop, remove_loop}
use b1cc.HashMap.Slots.{slot_val, weight, lookup, full-live, lookup_at}
use b1cc.HashMap.Probe.{
  probe, is_null, probe_lt, lookup-probe, Missed, Missed-suc, stop_at_null, round_of, round_of-lt,
  probe-round_of,
}
use b1cc.HashMap.Write.{
  IsTable, update-IsTable, lookup-update, insert-IsTable, lookup-insert, remove-IsTable,
  lookup-remove,
}

-- A fact about all rounds below `i`, and about `i`, is one about all rounds below `i + 1`.
below_suc {ℓ} : (P : ℕ → Type ℓ) (i : ℕ) → ((d : ℕ) → d < i → P d) → P i → (d : ℕ) → d < i + 1 → P d
below_suc P i h p d lt = elim (Bool-cases (d == i)) [
  | inl same ↦ subst P (sym ((==_iff d i).0 same)) p
  | inr other ↦ h d (ground arith)
]

module _ {ℓ} {V : Type ℓ} where
  -- The table after a write that makes the dictionary `f`, with one entry more or less.
  pub record Wrote (f : Bytes → Option V) (n size : ℕ) (r : List (Slot V) × ℕ) : Type ℓ where
    pub table : IsTable r.0 n r.1
    pub reads : (q : Bytes) → lookup q r.0 ≡ f q
    pub counted : r.1 ≡ size

  abbrev pub found : Option V → ℕ
  found none = 0
  found (some _) = 1

  module _ {es : List (Slot V)} {n size : ℕ} (t : IsTable es n size) (key : Bytes) where
    abbrev at : ℕ → Slot V
    at i = probe es n (hash_key key % n) i

    abbrev idx : ℕ → ℕ
    idx i = (hash_key key % n + i) % n

    at_lt : (i : ℕ) → idx i < n
    at_lt i = probe_lt (hash_key key % n) i n t.pos

    absent : Missed key es n t.len t.placed (t.once key) n → lookup key es ≡ none
    absent m = lookup-probe key es n (hash_key key % n) t.len (omega (arith, t.pos)) m

    -- `tombstone_idx` is the slot of an earlier round with a tombstone; while it is -1 the rounds
    -- before `i` all read entries.
    abbrev TombAt : ℕ → Option ℕ → Type 0
    TombAt i none = (d : ℕ) → d < i → weight (at d) ≡ 1
    TombAt i (some j) = (d : ℕ) × (d < i) × (j ≡ idx d) × (weight (at d) ≡ 0)

    module _ (v : V) where
      abbrev Put : List (Slot V) × ℕ → Type ℓ
      Put r =
          Wrote (λ q. if str_eq key q then some v else lookup q es) n
            (size + 1 - found (lookup key es)) r

      insert-Put :
          (j r : ℕ)
          → lookup key es ≡ none
          → r < n
          → j ≡ idx r
          → weight (at r) ≡ 0
          → ((i : ℕ) → i < r → is_null (at i) ≡ false)
          → Put (set es j (entry key v), size + 1)
      insert-Put j r no_key ltr at_r free solid =
          let lt : j < n = rw at_r (at_lt r) in
          let free' : weight (get_or es j null) ≡ 0 = rw at_r free in
          let u = insert-IsTable t j lt key v r no_key free' ltr at_r solid in
          record {
            table = u;
            reads = lookup-insert t j lt key v r no_key free' u;
            counted = rw no_key (omega arith);
          }

      update-Put :
          (i : ℕ) (k : Bytes) (w : V)
          → at i ≡ entry k w
          → str_eq k key ≡ true
          → lookup key es ≡ some w
          → Put (set es (idx i) (entry k v), size)
      update-Put i k w old same stored = record {
        table = update-IsTable t (idx i) (at_lt i) key k v w old;
        reads = lookup-update t (idx i) (at_lt i) key k v w old same;
        counted = rw stored (omega arith);
      }

      abbrev Solid : ℕ → Type 0
      Solid i = (d : ℕ) → d < i → is_null (at d) ≡ false

      TombAt-suc :
          (i : ℕ) (tomb : Option ℕ) → weight (at i) ≡ 1 → TombAt i tomb → TombAt (i + 1) tomb
      TombAt-suc i none w t = below_suc (λ d. weight (at d) ≡ 1) i t w
      TombAt-suc i (some j) w t = (t.0, omega arith, t.2, t.3)

      not_full : size < n → TombAt n none → ⊥
      not_full room all =
          let one : (j : ℕ) → j < length es → weight (get_or es j null) ≡ 1 = λ j lt.
            let r =
              all (round_of (hash_key key % n) j n)
                (round_of-lt _ j n (mod-lt _ t.pos) (omega (arith, t.len))) in
            rw (probe-round_of (hash_key key % n) j n (mod-lt _ t.pos) (omega (arith, t.len))) at
              r in
          omega (arith, full-live es one, t.len, t.sized)

      abbrev Rest : ℕ → ℕ → Type ℓ
      Rest rounds i =
          (tomb : Option ℕ)
          → Missed key es n t.len t.placed (t.once key) i
          → Solid i
          → TombAt i tomb
          → Put (put_loop es n size key v (hash_key key % n) rounds i tomb)

      round_null :
          (rounds i : ℕ) (tomb : Option ℕ)
          → i < n
          → at i ≡ null
          → Missed key es n t.len t.placed (t.once key) i
          → Solid i
          → TombAt i tomb
          → Put (put_loop es n size key v (hash_key key % n) (suc rounds) i tomb)
      unfolding put_loop
      round_null rounds i none lt p m solid tomb_at =
          let no_key = absent (stop_at_null key es n t.len t.placed (t.once key) i m (rw p)) in
          rw (p, put_loop) (insert-Put (idx i) i no_key lt refl (rw p) solid)
      round_null rounds i (some j) lt p m solid (d, before, at_d, free) =
          let no_key = absent (stop_at_null key es n t.len t.placed (t.once key) i m (rw p)) in
          rw (p, put_loop)
            (insert-Put j d no_key (omega arith) at_d free (λ e le. solid e (omega arith)))

      round_tombstone :
          (rounds i : ℕ) → at i ≡ tombstone → Rest rounds (i + 1) → Rest (suc rounds) i
      unfolding put_loop
      round_tombstone rounds i p rest none m solid tomb_at =
          rw (p, put_loop)
            (rest (some (idx i)) (Missed-suc key es n t.len t.placed (t.once key) i m (rw p))
              (below_suc (λ d. is_null (at d) ≡ false) i solid (rw p)) (i, omega arith, refl, rw p))
      round_tombstone rounds i p rest (some j) m solid (d, before, at_d, free) =
          rw (p, put_loop)
            (rest (some j) (Missed-suc key es n t.len t.placed (t.once key) i m (rw p))
              (below_suc (λ d. is_null (at d) ≡ false) i solid (rw p)) (d, omega arith, at_d, free))

      round_entry :
          (rounds i : ℕ) (k : Bytes) (w : V)
          → at i ≡ entry k w
          → Rest rounds (i + 1)
          → Rest (suc rounds) i
      unfolding put_loop
      round_entry rounds i k w p rest tomb m solid tomb_at = elim (Bool-cases (str_eq k key)) [
        | inl same ↦
            rw (p, same, put_loop)
              (update-Put i k w p same (lookup_at key es (idx i) w (t.once key) (rw (p, same))))
        | inr differ ↦
            rw (p, differ, put_loop)
              (rest tomb (Missed-suc key es n t.len t.placed (t.once key) i m (rw (p, differ)))
                (below_suc (λ d. is_null (at d) ≡ false) i solid (rw p))
                (TombAt-suc i tomb (rw p) tomb_at))
      ]

      -- The loop of `hashmap_put` stores the value, whatever tombstones it meets.
      pub put_loop-Put : (rounds i : ℕ) → i + rounds ≡ n → size < n → Rest rounds i
      unfolding put_loop
      put_loop-Put zero i e room none m solid all =
          absurd (not_full room (λ d lt. all d (omega arith)))
      put_loop-Put zero i e room (some j) m solid (d, before, at_d, free) =
          insert-Put j d (absent (λ e' lt. m e' (omega arith))) (omega arith) at_d free
            (λ e' lt. solid e' (omega arith))
      put_loop-Put (suc rounds) i e room tomb m solid tomb_at =
          go (put_loop-Put rounds (i + 1) (omega arith) room) (at i) refl
        where
          go :
              Rest rounds (i + 1)
              → (s : Slot V) → at i ≡ s
              → Put (put_loop es n size key v (hash_key key % n) (suc rounds) i tomb)
          go rest null p = round_null rounds i tomb (omega arith) p m solid tomb_at
          go rest tombstone p = round_tombstone rounds i p rest tomb m solid tomb_at
          go rest (entry k w) p = round_entry rounds i k w p rest tomb m solid tomb_at

    abbrev Remove : List (Slot V) × ℕ → Type ℓ
    Remove r =
        Wrote (λ q. if str_eq key q then none else lookup q es) n (size - found (lookup key es)) r

    unchanged-Remove : lookup key es ≡ none → Remove (es, size)
    unchanged-Remove no_key = record {
      table = t;
      reads = λ q. elim (Bool-cases (str_eq key q)) [
        | inl same ↦ rw same (subst (λ x. lookup x es ≡ none) ((str_eq_iff key q).0 same) no_key)
        | inr differ ↦ rw differ
      ];
      counted = rw no_key (omega arith);
    }

    -- The loop of `hashmap_remove` takes the key out, and changes nothing if it is not there.
    pub remove_loop-Remove :
        (rounds i : ℕ)
        → i + rounds ≡ n
        → Missed key es n t.len t.placed (t.once key) i
        → Remove (remove_loop es n size key (hash_key key % n) rounds i)
    unfolding remove_loop
    remove_loop-Remove zero i e m = unchanged-Remove (absent (λ d lt. m d (omega arith)))
    remove_loop-Remove (suc rounds) i e m =
        go
          (λ miss.
            remove_loop-Remove rounds (i + 1) (omega arith)
              (Missed-suc key es n t.len t.placed (t.once key) i m miss))
          (at i) refl
      where
        go :
            (slot_val key (at i) ≡ none
              → Remove (remove_loop es n size key (hash_key key % n) rounds (i + 1)))
            → (s : Slot V) → at i ≡ s
            → Remove (remove_loop es n size key (hash_key key % n) (suc rounds) i)
        go later null p =
            rw (p, remove_loop)
              (unchanged-Remove
                (absent (stop_at_null key es n t.len t.placed (t.once key) i m (rw p))))
        go later tombstone p = rw (p, remove_loop) (later (rw p))
        go later (entry k w) p = elim (Bool-cases (str_eq k key)) [
          | inl same ↦
              let stored = lookup_at key es (idx i) w (t.once key) (rw (p, same)) in
              rw (p, same, remove_loop)
                (record {
                  table = remove-IsTable t (idx i) (at_lt i) k w p;
                  reads = lookup-remove t (idx i) (at_lt i) key k w p same;
                  counted = rw stored refl;
                })
          | inr differ ↦ rw (p, differ, remove_loop) (later (rw (p, differ)))
        ]
