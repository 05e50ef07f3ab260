-- ===== src/HashMap/Laws.antt =====
-- What callers of the hash map rely on: a map is a dictionary from byte strings to values.
use b1cc.Common.{
  ℕ, ◌+◌, ◌-◌, ◌*◌, ◌<◌, ◌≡◌, refl, ◌∙◌, true, false, Option, none, some, List, arith, inl, inr,
  if◌then◌else◌, Bool-cases, Bytes, str_eq, ltb,
}
use b1cc.HashMap.{
  Slot, HashMap, hashmap_get, hashmap_has, hashmap_put, hashmap_remove, overloaded, put_depth,
}
use b1cc.HashMap.Slots.{lookup, live-le-length}
use b1cc.HashMap.Probe.{get_loop_from}
use b1cc.HashMap.Loops.{found, remove_loop-Remove}
use b1cc.HashMap.Resize.{IsValid, Models, put_entry-Stored, resize-Models}

calm_room : (n size : ℕ) → 0 < n → ltb (n * 3) (size * 4) ≡ false → size < n
calm_room n size pos h = ground arith

module _ {ℓ} {V : Type ℓ} where
  get-lookup :
      {m : HashMap V} {es : List (Slot V)} (w : IsValid m es) (key : Bytes)
      → hashmap_get m key ≡ lookup key es
  unfolding hashmap_get
  get-lookup {m} {es} w key =
      let t = w.table in
      rw w.stored (
        get_loop_from key es m.bucket_count t.len t.placed (t.once key) m.bucket_count 0
          (omega arith) t.pos (λ d lt. absurd (omega arith)))

  -- A map that holds the dictionary `f` answers every `hashmap_get` by `f`, and `hashmap_has`
  -- says whether `f` has the key.
  pub hashmap_get-Models :
      {f : Bytes → Option V} {m : HashMap V} (w : Models f m) (key : Bytes)
      → (hashmap_get m key ≡ f key)
        × (hashmap_has m key ≡ elim (f key) [ none ↦ false | some _ ↦ true ])
  unfolding hashmap_has
  hashmap_get-Models (es, w, reads) key =
      let e = get-lookup w key ∙ reads key in (e, rw (e, hashmap_has))

  -- `hashmap_put` on a well-formed map succeeds; afterwards the key has the value, every other
  -- key what it had, and the size counts one more if the key was not there. This holds through
  -- tombstones, collisions and a resize.
  pub hashmap_put-Models :
      {f : Bytes → Option V} {m : HashMap V} (w : Models f m) (key : Bytes) (v : V)
      → (r : HashMap V) × (hashmap_put m key v ≡ some r)
        × Models (λ q. if str_eq key q then some v else f q) r
        × (r.size ≡ m.size + 1 - found (f key))
  unfolding hashmap_put overloaded
  hashmap_put-Models {m = m} (es, w, reads) key v = elim (Bool-cases (overloaded m)) [
    | inr calm ↦
        let (r, run, s) = put_entry-Stored w key v (calm_room _ _ w.table.pos calm) in
        let (es', w', reads') = s.models in
        (
          r,
          rw (calm, hashmap_put, put_depth) run,
          (es', w', λ q. rw (reads' q, reads q)),
          rw (← reads key) s.size,
        )
    | inl full ↦
        let (m', grown, (es₁, w₁, same), width, size) = resize-Models m es w in
        let half_full = live-le-length es in
        let (r, run, s) =
          put_entry-Stored w₁ key v
            (omega (arith, size, width, w.table.sized, w.table.len, w.table.pos)) in
        let (es', w', reads') = s.models in
        (
          r,
          rw (full, hashmap_put, put_depth) (rw (grown, put_depth) run),
          (es', w', λ q. rw (reads' q, same q, reads q)),
          rw (← reads key, ← same key, ← size) s.size,
        )
  ]

  -- `hashmap_remove` takes the key out of the dictionary and leaves every other key; the size
  -- counts one less if the key was there.
  pub hashmap_remove-Models :
      {f : Bytes → Option V} {m : HashMap V} (w : Models f m) (key : Bytes)
      → Models (λ q. if str_eq key q then none else f q) (hashmap_remove m key)
        × ((hashmap_remove m key).size ≡ m.size - found (f key))
  unfolding hashmap_remove
  hashmap_remove-Models {m = m} (es, w, reads) key =
      let t = w.table in
      let n = m.bucket_count in
      let r = remove_loop-Remove t key n 0 (omega arith) (λ d lt. absurd (omega arith)) in
      rw (w.stored, hashmap_remove)
        (
          (_, record { stored = refl; table = r.table }, λ q. rw (r.reads q, reads q)),
          rw (← reads key) r.counted,
        )
