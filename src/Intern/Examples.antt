-- ===== src/Intern/Examples.antt =====
-- Interning into an empty pool.
use b1cc.Common.{none, [], arith, codes}
use b1cc.HashMap.Resize.{hashmap_init-Models}
use b1cc.Intern.{InternPool, initialized, intern_string_n}
use b1cc.Intern.Pool.{IsPool, Interned, intern_string_n-Interned}

abbrev empty_pool : InternPool
empty_pool = record { intern_map = none; strings = [] }

empty_pool-IsPool : IsPool empty_pool
unfolding initialized
empty_pool-IsPool = record {
  place = λ q. none;
  stored = hashmap_init-Models 4096 (omega arith);
  points = λ q i h. absurd cc;
}

intern_string_n-Interned_example :
    Interned empty_pool (codes "index") 3 (intern_string_n empty_pool (codes "index") 3)
intern_string_n-Interned_example =
    intern_string_n-Interned empty_pool (codes "index") 3 empty_pool-IsPool
