-- ===== src/HashMap/Examples.antt =====
-- The hash map on a map of four slots.
use b1cc.Common.{
  ℕ, ◌+◌, ◌-◌, ◌≡◌, true, false, Option, none, some, arith, if◌then◌else◌, Bytes, codes, str_eq,
}
use b1cc.HashMap.{HashMap, hashmap_init, hashmap_get, hashmap_has, hashmap_put, hashmap_remove}
use b1cc.HashMap.Loops.{found}
use b1cc.HashMap.Resize.{Models, hashmap_init-Models}
use b1cc.HashMap.Laws.{hashmap_get-Models, hashmap_put-Models, hashmap_remove-Models}

abbrev key : Bytes
key = codes "ab"

-- An empty map of four slots, and one in which the key stands.
four_slots : HashMap ℕ
unfolding hashmap_init
four_slots = hashmap_init 4

abbrev held : Bytes → Option ℕ
held q = if str_eq key q then some 7 else none

four_slots-Models : Models {V = ℕ} (λ _. none) four_slots
unfolding four_slots
four_slots-Models = hashmap_init-Models 4 (omega arith)

abbrev or_empty : Option (HashMap ℕ) → HashMap ℕ
or_empty none = four_slots
or_empty (some m) = m

one_entry : HashMap ℕ
one_entry = or_empty (hashmap_put four_slots key 7)

one_entry-Models : Models held one_entry
unfolding one_entry
one_entry-Models = let (r, run, w, _) = hashmap_put-Models four_slots-Models key 7 in rw run w

hashmap_put-Models_example :
    (r : HashMap ℕ) × (hashmap_put one_entry (codes "c") 9 ≡ some r)
    × Models (λ q. if str_eq (codes "c") q then some 9 else held q) r
    × (r.size ≡ one_entry.size + 1 - found (held (codes "c")))
hashmap_put-Models_example = hashmap_put-Models one_entry-Models (codes "c") 9

hashmap_get-Models_example :
    (hashmap_get one_entry key ≡ held key)
    × (hashmap_has one_entry key ≡ elim (held key) [ none ↦ false | some _ ↦ true ])
hashmap_get-Models_example = hashmap_get-Models one_entry-Models key

hashmap_remove-Models_example :
    Models (λ q. if str_eq key q then none else held q) (hashmap_remove one_entry key)
    × ((hashmap_remove one_entry key).size ≡ one_entry.size - found (held key))
hashmap_remove-Models_example = hashmap_remove-Models one_entry-Models key
