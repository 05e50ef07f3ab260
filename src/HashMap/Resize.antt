-- ===== src/HashMap/Resize.antt =====
-- `hashmap_put` and `hashmap_resize` of src/common.c together.
use b1cc.Common.{
  ℕ, suc, ◌+◌, ◌-◌, ◌*◌, ◌%◌, ◌≤◌, ◌<◌, ◌≡◌, refl, ◌∙◌, false, Option, none, some, List, [], ◌∷◌,
  arith, if◌then◌else◌, replicate, length-replicate, get_or-replicate, Bytes, str_eq, str_eq_refl,
  ltb,
}
use b1cc.HashMap.{
  Slot, null, tombstone, entry, HashMap, hash_key, hashmap_init, put_loop, put_entry, overloaded,
  reinsert, resize_with, put_depth,
}
use b1cc.HashMap.Slots.{
  count, lookup, or_else, live, lookup-count_zero, count_zero-lookup, live-le-length,
  lookup-replicate, live-replicate,
}
use b1cc.HashMap.Write.{IsTable}
use b1cc.HashMap.Loops.{found, put_loop-Put}

module _ {ℓ} {V : Type ℓ} where
  -- A well-formed map with the table `es`.
  pub record IsValid (m : HashMap V) (es : List (Slot V)) : Type ℓ where
    pub stored : m.entries ≡ some es
    pub table : IsTable es m.bucket_count m.size

  -- The map `m` holds the dictionary `f`.
  abbrev pub Models : (Bytes → Option V) → HashMap V → Type ℓ
  Models f m = (es : List (Slot V)) × IsValid m es × ((q : Bytes) → lookup q es ≡ f q)

  -- A map with a positive number of slots and no entries is well formed and holds the empty
  -- dictionary.
  pub hashmap_init-Models : (n : ℕ) → 0 < n → Models (λ _. none) (hashmap_init {V = V} n)
  unfolding hashmap_init
  hashmap_init-Models n pos = (
    replicate n null,
    record {
      stored = refl;
      table = record {
        pos = pos;
        len = length-replicate n null;
        once = λ q.
            omega (arith, count_zero-lookup {V = V} q (replicate n null) (lookup-replicate q n));
        sized = live-replicate V n;
        placed =
            λ k v d i lt p. cc (get_or-replicate {A = Slot V} n ((hash_key k % n + d) % n) null);
      };
    },
    λ q. lookup-replicate q n,
  )

  module _ {m : HashMap V} {es : List (Slot V)} (w : IsValid m es) (key : Bytes) (v : V) where
    abbrev with_key : Bytes → Option V
    with_key q = if str_eq key q then some v else lookup q es

    pub record Stored (r : HashMap V) : Type ℓ where
      pub models : Models with_key r
      buckets : r.bucket_count ≡ m.bucket_count
      pub size : r.size ≡ m.size + 1 - found (lookup key es)

    -- With a free slot `put_entry` stores the value.
    pub put_entry-Stored :
        m.size < m.bucket_count → (r : HashMap V) × (put_entry m key v ≡ some r) × Stored r
    unfolding put_entry
    put_entry-Stored room =
        let n = m.bucket_count in
        let p =
          put_loop-Put w.table key v n 0 (omega arith) room none (λ d lt. absurd (omega arith))
            (λ d lt. absurd (omega arith)) (λ d lt. absurd (omega arith)) in
        (
          record m {
            entries = some (put_loop es n m.size key v (hash_key key % n) n 0 none).0;
            size = (put_loop es n m.size key v (hash_key key % n) n 0 none).1;
          },
          rw w.stored,
          record {
            models = (_, record { stored = refl; table = p.table }, p.reads);
            buckets = refl;
            size = p.counted;
          },
        )

  -- Storing a slot array's entries one after another, later ones first in the dictionary.
  abbrev merged : List (Slot V) → (Bytes → Option V) → Bytes → Option V
  merged es f q = or_else (lookup q es) (f q)

  abbrev Puts : (HashMap V → Bytes → V → Option (HashMap V)) → ℕ → ℕ → Type ℓ
  Puts put n limit =
      (m : HashMap V) (es : List (Slot V)) (w : IsValid m es) (key : Bytes) (v : V)
      → m.bucket_count ≡ n
      → m.size < limit
      → (r : HashMap V) × (put m key v ≡ some r) × Stored w key v r

  reinsert-Models :
      (put : HashMap V → Bytes → V → Option (HashMap V)) (n limit : ℕ)
      → Puts put n limit
      → (old : List (Slot V)) (m : HashMap V) (f : Bytes → Option V) → Models f m
      → m.bucket_count ≡ n
      → m.size + live old ≤ limit
      → ((q : Bytes) → count q old ≤ 1)
      → ((q : Bytes) → 0 < count q old → f q ≡ none)
      → (r : HashMap V) × (reinsert put old m ≡ some r)
        × Models (merged old f) r
        × (r.bucket_count ≡ n)
        × (r.size ≡ m.size + live old)
  unfolding reinsert
  reinsert-Models put n limit ok [] m f models width room once apart =
      (m, refl, models, width, omega arith)
  reinsert-Models put n limit ok (null ∷ old) m f models width room once apart =
      let (r, run, models', width', size') =
        reinsert-Models put n limit ok old m f models width (omega arith)
          (λ q. omega (arith, once q)) (λ q h. apart q (omega arith)) in
      (r, run, models', width', omega arith)
  reinsert-Models put n limit ok (tombstone ∷ old) m f models width room once apart =
      let (r, run, models', width', size') =
        reinsert-Models put n limit ok old m f models width (omega arith)
          (λ q. omega (arith, once q)) (λ q h. apart q (omega arith)) in
      (r, run, models', width', omega arith)
  reinsert-Models put n limit ok (entry k v ∷ old) m f (es, w, reads) width room once apart =
      let (m', run, s) = ok m es w k v width (omega arith) in
      let new_key : lookup k es ≡ none = reads k ∙ apart k (rw str_eq_refl (omega arith)) in
      let (r, run', (es'', w'', reads''), width', size') =
        reinsert-Models put n limit ok old m' (with_key w k v) s.models (s.buckets ∙ width)
          (ground (arith, s.size)) (λ q. omega (arith, once q))
          (λ q h. ground (arith, once q, apart q, reads q)) in
      (
        r,
        rw (run, reinsert) run',
        (es'', w'', λ q. ground (arith, reads'' q, reads q, once q, lookup-count_zero q old)),
        width',
        ground (arith, s.size),
      )

  put_depth_calm : (d n limit : ℕ) → limit * 4 ≤ n * 3 + 4 → Puts (put_depth (suc d)) n limit
  unfolding put_depth overloaded
  put_depth_calm d n limit small m es w key v width room =
      let (r, run, s) = put_entry-Stored w key v (omega (arith, w.table.pos)) in
      let calm : ltb (m.bucket_count * 3) (m.size * 4) ≡ false = ground arith in
      (r, rw (calm, put_depth) run, s)

  -- Growing keeps the dictionary and the number of entries, and doubles the slots.
  pub resize-Models :
      (m : HashMap V) (es : List (Slot V))
      → IsValid m es
      → (r : HashMap V) × (resize_with (put_depth 1) m (m.bucket_count * 2) ≡ some r)
        × Models (λ q. lookup q es) r
        × (r.bucket_count ≡ m.bucket_count * 2)
        × (r.size ≡ m.size)
  unfolding resize_with hashmap_init
  resize-Models m es w =
      let n = m.bucket_count in
      let start = hashmap_init-Models (n * 2) (omega (arith, w.table.pos)) in
      let fits = live-le-length es in
      let (r, run, (es', w', reads), width, size) =
        reinsert-Models (put_depth 1) (n * 2) n (put_depth_calm 0 (n * 2) n (omega arith)) es
          (hashmap_init (n * 2)) (λ _. none) start refl (omega (arith, w.table.len)) w.table.once
          (λ q h. refl) in
      (
        r,
        rw w.stored run,
        (es', w', λ q. ground (arith, reads q)),
        width,
        omega (arith, size, w.table.sized),
      )
