-- ===== src/Arena/Regions.antt =====
-- What the arena hands out lies in a chunk and overlaps nothing that it handed out before.
use b1cc.Common.{
  ℕ, ◌+◌, ◌^◌, ◌%◌, ◌≤◌, ◌<◌, ◌≡◌, ◌≢◌, ◌⊎◌, inl, inr, refl, ap, ◌==◌, if◌then◌else◌, true, false,
  Bool-cases, Option, none, some, [], ◌∷◌, arith, length,
}
use b1cc.Arena.{
  ArenaChunk, Arena, Pointer, arena_alloc, align_up, is_full, push_chunk, take_bytes, max_align,
}

-- The chunk with `i` chunks below it.
abbrev chunk_at : Arena → ℕ → Option ArenaChunk
chunk_at [] i = none
chunk_at (c ∷ a) i = if i == length a then some c else chunk_at a i

-- The `size` bytes at a pointer lie in a chunk, in the part that is handed out.
abbrev Owned : Arena → Pointer → ℕ → Type 0
Owned a p size =
    (c : ArenaChunk) × (chunk_at a p.chunk ≡ some c)
    × (p.offset + size ≤ c.offset)
    × (c.offset ≤ c.capacity)

-- The `size` bytes at `p` and the bytes from `q` on have no byte in common.
abbrev Before : Pointer → ℕ → Pointer → Type 0
Before p size q = (p.chunk ≢ q.chunk) ⊎ (p.offset + size ≤ q.offset)

chunk_at-lt : (a : Arena) (i : ℕ) (c : ArenaChunk) → chunk_at a i ≡ some c → i < length a
chunk_at-lt [] i c h = absurd cc
chunk_at-lt (d ∷ a) i c h = elim (Bool-cases (i == length a)) [
  | inl here ↦ ground arith
  | inr below ↦ let lt = chunk_at-lt a i c (rw below at h) in omega arith
]

align_up-lt : (size : ℕ) → size + 15 < 2 ^ 63 → align_up size max_align < 2 ^ 63
unfolding align_up
align_up-lt size lt = omega arith

align_up-le : (size : ℕ) → size + 15 < 2 ^ 63 → size ≤ align_up size max_align
unfolding align_up
align_up-le size lt = omega arith

-- The head chunk's offset is within it, and no object has 2 ^ 63 bytes.
abbrev IsArena : Arena → Type 0
IsArena [] = Unit
IsArena (c ∷ a) = (c.offset ≤ c.capacity) × (c.capacity < 2 ^ 63)

-- What an allocation of `size` bytes out of `a` owes.
abbrev pub Allocated : Arena → ℕ → Option (Arena × Pointer) → Type 0
Allocated a size out =
    (a' : Arena) × (q : Pointer) × (out ≡ some (a', q))
    × IsArena a'
    × Owned a' q size
    × ((p : Pointer) (n : ℕ) → Owned a p n → Owned a' p n × Before p n q)

or_chunk : ArenaChunk → Option ArenaChunk → ArenaChunk
or_chunk c none = c
or_chunk c (some d) = d

take_bytes-Allocated :
    (c : ArenaChunk) (a : Arena) (size : ℕ)
    → c.offset + size ≤ c.capacity
    → c.capacity < 2 ^ 63
    → Allocated (c ∷ a) size (take_bytes (c ∷ a) size)
unfolding take_bytes or_chunk
take_bytes-Allocated c a size room small =
    let c' : ArenaChunk = record c { offset = (c.offset + size) % 2 ^ 64 } in
    let here : length a == length a ≡ true = ground arith in
    (
      c' ∷ a,
      record { chunk = length a; offset = c.offset },
      refl,
      (omega arith, small),
      (c', rw here, omega arith, omega arith),
      λ p n (d, there, le, fits). elim (Bool-cases (p.chunk == length a)) [
        | inl same ↦
            let head : some c ≡ some d = rw same at there in
            let same_offset : c.offset ≡ d.offset = ap (λ z. (or_chunk c z).offset) head in
            ((c', rw (same, chunk_at), omega arith, omega arith), inr (omega arith))
        | inr other ↦ ((d, rw (other, chunk_at) (rw other at there), le, fits), inl (ground arith))
      ],
    )

push_chunk-Owned :
    (a : Arena) (size : ℕ) (p : Pointer) (n : ℕ) → Owned a p n → Owned (push_chunk a size) p n
unfolding push_chunk
push_chunk-Owned a size p n (d, there, le, fits) =
    let lt = chunk_at-lt a p.chunk d there in
    let other : p.chunk == length a ≡ false = ground arith in
    (d, rw (other, chunk_at) there, le, fits)

-- A region that is large enough for more is large enough.
shrink :
    (a : Arena) (size more : ℕ) (out : Option (Arena × Pointer))
    → size ≤ more
    → Allocated a more out
    → Allocated a size out
shrink a size more out le (a', q, run, w, (c, there, room, fits), old) =
    (a', q, run, w, (c, there, omega arith, fits), old)

head_alloc :
    (a : Arena) (size : ℕ)
    → IsArena a
    → size < 2 ^ 63
    → is_full a size ≡ false
    → Allocated a size (take_bytes a size)
unfolding is_full
head_alloc [] size w lt room = absurd cc
head_alloc (c ∷ a) size (within, small) lt room = take_bytes-Allocated c a size (ground arith) small

push_alloc :
    (a : Arena) (size : ℕ) → size < 2 ^ 63 → Allocated a size (take_bytes (push_chunk a size) size)
unfolding push_chunk
push_alloc a size lt =
    let (a', q, run, w, mine, old) = take_bytes-Allocated _ a size (ground arith) (ground arith) in
    (a', q, run, w, mine, λ p n h. old p n (push_chunk-Owned a size p n h))

-- Where the head chunk has its offset within its capacity and fewer than 2 ^ 63 bytes, an
-- allocation of `size` bytes, with `size + 15` below 2 ^ 63, succeeds and leaves such an arena. The
-- bytes lie in a chunk; every region that was handed out before is still handed out, and has no
-- byte in common with the new one.
pub arena_alloc-Allocated :
    (a : Arena) (size : ℕ) → IsArena a → size + 15 < 2 ^ 63 → Allocated a size (arena_alloc a size)
unfolding arena_alloc
arena_alloc-Allocated a size w lt =
    let aligned = align_up size max_align in
    let more = align_up-le size lt in
    let small = align_up-lt size lt in
    elim (Bool-cases (is_full a aligned)) [
      | inl full ↦
          rw (full, arena_alloc) (shrink a size aligned _ more (push_alloc a aligned small))
      | inr room ↦
          rw (room, arena_alloc) (shrink a size aligned _ more (head_alloc a aligned w small room))
    ]
