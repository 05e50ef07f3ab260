-- ===== src/Arena.antt =====
-- The arena allocator of src/common.c. The chunks are a list, the head first; a pointer is the
-- number of chunks below its chunk, and the offset in it. `malloc` succeeds.
pub mod Regions
mod Examples
use b1cc.Common.{
  ℕ, Bool, true, zero, suc, ◌+◌, ◌-◌, ◌*◌, ◌/◌, ◌%◌, ◌^◌, ◌==◌, ltb, if◌then◌else◌, Option, none,
  some, List, [], ◌∷◌, length,
}

pub record ArenaChunk : Type 0 where
  pub offset : ℕ
  pub capacity : ℕ

abbrev pub Arena : Type 0
Arena = List ArenaChunk

pub record Pointer : Type 0 where
  pub chunk : ℕ
  pub offset : ℕ

abbrev arena_chunk_default_capacity : ℕ
arena_chunk_default_capacity = 64 * 1024

-- `alignof(max_align_t)`, on the 64-bit targets.
abbrev pub max_align : ℕ
max_align = 16

-- `(value + alignment - 1) & ~(alignment - 1)`, for an alignment that is a power of two
pub align_up : ℕ → ℕ → ℕ
align_up value alignment = (value + (alignment - 1)) % 2 ^ 64 / alignment * alignment

unfoldable arena_init : Arena
arena_init = []

-- `!a->head || a->head->offset + size > a->head->capacity`
pub is_full : Arena → ℕ → Bool
is_full [] size = true
is_full (c ∷ a) size = ltb c.capacity ((c.offset + size) % 2 ^ 64)

pub push_chunk : Arena → ℕ → Arena
push_chunk a size =
    record {
      offset = 0;
      capacity =
          if ltb arena_chunk_default_capacity size then size else arena_chunk_default_capacity;
    }
    ∷ a

-- The allocation in the head chunk, which is there.
pub take_bytes : Arena → ℕ → Option (Arena × Pointer)
take_bytes [] size = none
take_bytes (c ∷ a) size = some (
  record c { offset = (c.offset + size) % 2 ^ 64 } ∷ a,
  record { chunk = length a; offset = c.offset },
)

unfoldable pub arena_alloc : Arena → ℕ → Option (Arena × Pointer)
unfolding align_up is_full push_chunk take_bytes
arena_alloc a size =
    let aligned = align_up size max_align in
    if is_full a aligned then take_bytes (push_chunk a aligned) aligned else take_bytes a aligned

unfoldable arena_free : Arena → Arena
arena_free a = []
