-- ===== src/Intern.antt =====
-- String interning of src/common.c over the hash map. A pointer to an interned string is its place
-- among them; a string holds no zero byte.
pub mod Pool
mod Examples
use b1cc.Common.{ℕ, Option, none, some, List, [], ◌∷◌, ◌++◌, length, take, Bytes}
use b1cc.HashMap.{HashMap, hashmap_init, hashmap_get, hashmap_put}

-- `intern_map`, `none` until it is initialized, and the strings in the arena.
pub record InternPool : Type 0 where
  pub intern_map : Option (HashMap ℕ)
  pub strings : List Bytes

pub initialized : InternPool → HashMap ℕ
initialized p = elim p.intern_map [ none ↦ hashmap_init 4096 | some m ↦ m ]

-- `none` where the hash map has no table.
pub intern_string_n : InternPool → Bytes → ℕ → Option (InternPool × ℕ)
unfolding initialized
intern_string_n p s len =
    let tmp = take len s in
    let map = initialized p in
    elim (hashmap_get map tmp) [
      | some i ↦ some (record { intern_map = some map; strings = p.strings }, i)
      | none ↦ elim (hashmap_put map tmp (length p.strings)) [
        | none ↦ none
        | some m ↦
            some (record { intern_map = some m; strings = p.strings ++ tmp ∷ [] }, length p.strings)
      ]
    ]

intern_string : InternPool → Bytes → Option (InternPool × ℕ)
unfolding intern_string_n
intern_string p s = intern_string_n p s (length s)
