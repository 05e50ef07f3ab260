-- ===== src/HashMap.antt =====
-- The open-addressing hash map of src/common.c: `hash_key`, `hashmap_init`, `hashmap_free`,
-- `hashmap_put`, `hashmap_get`, `hashmap_has`, `hashmap_remove` and the static `hashmap_resize`.
-- A slot is a cleared entry (its key is NULL), a TOMBSTONE, or an entry with its key and the two
-- values `val_ptr` and `val_int` together as `V`. `none` as the entries is the null pointer.
-- The counts are C ints that stay below 2 ^ 31, so `h + i` does not wrap.
pub mod Slots
pub mod Probe
pub mod Write
pub mod Loops
pub mod Resize
pub mod Laws
pub mod Values
mod Examples
use Prim.Native.Nat.{bit_xor}
use b1cc.Common.{
  ℕ, zero, suc, ◌+◌, ◌-◌, ◌*◌, ◌%◌, ◌^◌, Bool, true, false, Option, none, some, List, [], ◌∷◌, ltb,
  get_or, set, replicate, Bytes, str_eq,
}

pub data Slot {ℓ} (V : Type ℓ) : Type ℓ where
  null : Slot V
  tombstone : Slot V
  entry : Bytes → V → Slot V

pub record HashMap {ℓ} (V : Type ℓ) : Type ℓ where
  pub entries : Option (List (Slot V))
  pub bucket_count : ℕ
  pub size : ℕ

-- FNV-1a over the bytes, in unsigned 32-bit arithmetic.
hash_loop : Bytes → ℕ → ℕ
hash_loop [] h = h
hash_loop (c ∷ s) h = hash_loop s (bit_xor h c * 16777619 % 2 ^ 32)

unfoldable pub hash_key : Bytes → ℕ
unfolding hash_loop
hash_key str = hash_loop str 2166136261

module _ {ℓ} {V : Type ℓ} where
  unfoldable pub hashmap_init : ℕ → HashMap V
  hashmap_init n = record { entries = some (replicate n null); bucket_count = n; size = 0 }

  unfoldable hashmap_free : HashMap V → HashMap V
  hashmap_free m = elim m.entries [
    | none ↦ m
    | some _ ↦ record { entries = none; bucket_count = 0; size = 0 }
  ]

  -- The probe loops run `rounds` times from `i`, at slot (h + i) % bucket_count.
  pub get_loop : List (Slot V) → ℕ → Bytes → ℕ → ℕ → ℕ → Option V
  get_loop es n key h zero i = none
  get_loop es n key h (suc rounds) i = elim (get_or es ((h + i) % n) null) [
    | null ↦ none
    | tombstone ↦ get_loop es n key h rounds (i + 1)
    | entry k v ↦ elim (str_eq k key) [ true ↦ some v | false ↦ get_loop es n key h rounds (i + 1) ]
  ]

  -- The entry that is found is returned as the value that it holds.
  unfoldable pub hashmap_get : HashMap V → Bytes → Option V
  unfolding get_loop
  hashmap_get m key = elim m.entries [
    | none ↦ none
    | some es ↦ get_loop es m.bucket_count key (hash_key key % m.bucket_count) m.bucket_count 0
  ]

  unfoldable pub hashmap_has : HashMap V → Bytes → Bool
  unfolding hashmap_get
  hashmap_has m key = elim (hashmap_get m key) [ none ↦ false | some _ ↦ true ]

  pub remove_loop : List (Slot V) → ℕ → ℕ → Bytes → ℕ → ℕ → ℕ → List (Slot V) × ℕ
  remove_loop es n size key h zero i = (es, size)
  remove_loop es n size key h (suc rounds) i = elim (get_or es ((h + i) % n) null) [
    | null ↦ (es, size)
    | tombstone ↦ remove_loop es n size key h rounds (i + 1)
    | entry k v ↦ elim (str_eq k key) [
      | true ↦ (set es ((h + i) % n) tombstone, size - 1)
      | false ↦ remove_loop es n size key h rounds (i + 1)
    ]
  ]

  unfoldable pub hashmap_remove : HashMap V → Bytes → HashMap V
  unfolding remove_loop
  hashmap_remove m key = elim m.entries [
    | none ↦ m
    | some es ↦
        let n = m.bucket_count in
        let (es', size') = remove_loop es n m.size key (hash_key key % n) n 0 in
        record m { entries = some es'; size = size' }
  ]

  -- `tombstone_idx` is `none` for -1.
  pub put_loop : List (Slot V) → ℕ → ℕ → Bytes → V → ℕ → ℕ → ℕ → Option ℕ → List (Slot V) × ℕ
  put_loop es n size key v h zero i none = (es, size)
  put_loop es n size key v h zero i (some t) = (set es t (entry key v), size + 1)
  put_loop es n size key v h (suc rounds) i tomb = elim (get_or es ((h + i) % n) null) [
    | null ↦ elim tomb [
      | none ↦ (set es ((h + i) % n) (entry key v), size + 1)
      | some t ↦ (set es t (entry key v), size + 1)
    ]
    | tombstone ↦ elim tomb [
      | none ↦ put_loop es n size key v h rounds (i + 1) (some ((h + i) % n))
      | some t ↦ put_loop es n size key v h rounds (i + 1) (some t)
    ]
    | entry k w ↦ elim (str_eq k key) [
      | true ↦ (set es ((h + i) % n) (entry k v), size)
      | false ↦ put_loop es n size key v h rounds (i + 1) tomb
    ]
  ]

  -- The part of `hashmap_put` after the load test. Without a table the code divides by zero.
  pub put_entry : HashMap V → Bytes → V → Option (HashMap V)
  unfolding put_loop
  put_entry m key v = elim m.entries [
    | none ↦ none
    | some es ↦
        let n = m.bucket_count in
        let (es', size') = put_loop es n m.size key v (hash_key key % n) n 0 none in
        some (record m { entries = some es'; size = size' })
  ]

  -- `map->size > map->bucket_count * 0.75`
  pub overloaded : HashMap V → Bool
  overloaded m = ltb (m.bucket_count * 3) (m.size * 4)

  -- The loop of `hashmap_resize`, over the function that stores one entry.
  pub reinsert :
      (HashMap V → Bytes → V → Option (HashMap V)) → List (Slot V) → HashMap V → Option (HashMap V)
  reinsert put [] m = some m
  reinsert put (null ∷ es) m = reinsert put es m
  reinsert put (tombstone ∷ es) m = reinsert put es m
  reinsert put (entry k v ∷ es) m = elim (put m k v) [ none ↦ none | some m' ↦ reinsert put es m' ]

  pub resize_with :
      (HashMap V → Bytes → V → Option (HashMap V)) → HashMap V → ℕ → Option (HashMap V)
  unfolding reinsert
  resize_with put m count = elim m.entries [
    | none ↦ none
    | some old ↦ reinsert put old (hashmap_init count)
  ]

  -- `hashmap_put` and `hashmap_resize` call one another: the first argument bounds how deep.
  pub put_depth : ℕ → HashMap V → Bytes → V → Option (HashMap V)
  unfolding put_entry overloaded resize_with hashmap_init
  put_depth zero m key v = none
  put_depth (suc d) m key v = elim (overloaded m) [
    | false ↦ put_entry m key v
    | true ↦ elim (resize_with (put_depth d) m (m.bucket_count * 2)) [
      | none ↦ none
      | some m' ↦ put_entry m' key v
    ]
  ]

  -- A resize inside a resize does not happen: depth two is enough (`Laws`).
  unfoldable pub hashmap_put : HashMap V → Bytes → V → Option (HashMap V)
  unfolding put_depth
  hashmap_put m key v = put_depth 2 m key v
