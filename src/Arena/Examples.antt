-- ===== src/Arena/Examples.antt =====
-- An allocation behind another one.
use b1cc.Common.{◌≡◌, refl, some, [], ◌∷◌, arith}
use b1cc.Arena.{Arena, arena_alloc}
use b1cc.Arena.Regions.{Allocated, arena_alloc-Allocated}

-- Ten bytes are rounded up to sixteen.
abbrev one_region : Arena
one_region = record { offset = 16; capacity = 65536 } ∷ []

ten_bytes : arena_alloc [] 10 ≡ some (one_region, record { chunk = 0; offset = 0 })
unfolding arena_alloc
ten_bytes = refl

arena_alloc-Allocated_example : Allocated one_region 65530 (arena_alloc one_region 65530)
arena_alloc-Allocated_example =
    arena_alloc-Allocated one_region 65530 (omega arith, omega arith) (omega arith)
