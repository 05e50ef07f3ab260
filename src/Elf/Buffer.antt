-- ===== src/Elf/Buffer.antt =====
-- The growable byte buffer of src/elf_writer.c (`bb_*`), its string table (`strtab_*`) and the
-- little-endian readers of src/linker.c (`rd16`, `rd32`, `rd64`). `size` is the number of bytes.
use b1cc.Common.{
  ℕ, zero, suc, ◌+◌, ◌*◌, ◌/◌, ◌%◌, ◌^◌, ◌≤◌, ◌<◌, ◌≡◌, [], ◌∷◌, ◌++◌, arith, ltb, leb, ◌==◌,
  if◌then◌else◌, length, get_or, set, drop, Bytes,
}

pub record ByteBuf : Type 0 where
  pub bytes : Bytes
  pub cap : ℕ

abbrev pub size : ByteBuf → ℕ
size b = length b.bytes

unfoldable pub bb_init : ByteBuf
bb_init = record { bytes = []; cap = 0 }

-- `while (newcap < need) newcap *= 2;`, with fuel
double_until : ℕ → ℕ → ℕ → ℕ
double_until zero newcap need = newcap
double_until (suc fuel) newcap need =
    let more = double_until fuel (newcap * 2) need in if ltb newcap need then more else newcap

-- The loop gains at least one each round, so that `need` rounds are enough.
unfoldable pub bb_reserve : ByteBuf → ℕ → ByteBuf
unfolding double_until
bb_reserve b extra =
    let need = size b + extra in
    if ltb b.cap need
    then record b { cap = double_until need (if b.cap == 0 then 256 else b.cap * 2) need }
    else b

-- `b->data[b->size++] = v;`, within the capacity
append : ByteBuf → ℕ → ByteBuf
append b v = record b { bytes = b.bytes ++ v ∷ [] }

unfoldable pub bb_write8 : ByteBuf → ℕ → ByteBuf
unfolding append bb_reserve
bb_write8 b v = append (bb_reserve b 1) (v % 2 ^ 8)

unfoldable bb_write16le : ByteBuf → ℕ → ByteBuf
unfolding append bb_reserve
bb_write16le b v = append (append (bb_reserve b 2) (v % 2 ^ 8)) (v / 2 ^ 8 % 2 ^ 8)

unfoldable pub bb_write32le : ByteBuf → ℕ → ByteBuf
unfolding append bb_reserve
bb_write32le b v =
    append
      (append (append (append (bb_reserve b 4) (v % 2 ^ 8)) (v / 2 ^ 8 % 2 ^ 8))
        (v / 2 ^ 16 % 2 ^ 8))
      (v / 2 ^ 24 % 2 ^ 8)

unfoldable pub bb_write64le : ByteBuf → ℕ → ByteBuf
bb_write64le b v = bb_write32le (bb_write32le b (v % 2 ^ 32)) (v / 2 ^ 32)

unfoldable bb_writebytes : ByteBuf → Bytes → ByteBuf
unfolding bb_reserve
bb_writebytes b src = let r = bb_reserve b (length src) in record r { bytes = r.bytes ++ src }

unfoldable bb_patch32le : ByteBuf → ℕ → ℕ → ByteBuf
bb_patch32le b off v = record b {
  bytes =
      set
        (set (set (set b.bytes (off + 0) (v % 2 ^ 8)) (off + 1) (v / 2 ^ 8 % 2 ^ 8)) (off + 2)
          (v / 2 ^ 16 % 2 ^ 8))
        (off + 3) (v / 2 ^ 24 % 2 ^ 8);
}

-- `while (b->size % align) bb_write8(b, 0);`, with fuel
align_loop : ℕ → ByteBuf → ℕ → ByteBuf
unfolding bb_write8
align_loop zero b align = b
align_loop (suc fuel) b align =
    let more = align_loop fuel (bb_write8 b 0) align in if size b % align == 0 then b else more

-- Fewer than `align` bytes are missing.
unfoldable bb_align : ByteBuf → ℕ → ByteBuf
unfolding align_loop
bb_align b align = if leb align 1 then b else align_loop align b align

unfoldable strtab_init : ByteBuf
unfolding bb_write8
strtab_init = bb_write8 bb_init 0

-- The buffer and the offset of the string in it.
unfoldable strtab_add : ByteBuf → Bytes → ByteBuf × ℕ
unfolding bb_writebytes
strtab_add st s = (bb_writebytes st (s ++ 0 ∷ []), size st % 2 ^ 32)

-- The readers, at the start of the bytes.
unfoldable pub rd16 : Bytes → ℕ
rd16 p = get_or p 0 0 + 2 ^ 8 * get_or p 1 0

unfoldable pub rd32 : Bytes → ℕ
rd32 p = get_or p 0 0 + 2 ^ 8 * get_or p 1 0 + 2 ^ 16 * get_or p 2 0 + 2 ^ 24 * get_or p 3 0

unfoldable pub rd64 : Bytes → ℕ
unfolding rd32
rd64 p = rd32 p + 2 ^ 32 * rd32 (drop 4 p)

-- The buffer has room for what it holds.
abbrev IsBuffer : ByteBuf → Type 0
IsBuffer b = size b ≤ b.cap

double_until-le :
    (fuel newcap need : ℕ)
    → 0 < newcap
    → need ≤ newcap + fuel
    → need ≤ double_until fuel newcap need
unfolding double_until
double_until-le zero newcap need pos h = omega arith
double_until-le (suc fuel) newcap need pos h =
    ground (arith, double_until-le fuel (newcap * 2) need)

-- `bb_reserve` keeps the bytes and leaves room for `extra` more.
pub bb_reserve-cap :
    (b : ByteBuf) (extra : ℕ)
    → ((bb_reserve b extra).bytes ≡ b.bytes) × (size b + extra ≤ (bb_reserve b extra).cap)
unfolding bb_reserve
bb_reserve-cap b extra =
    let need = size b + extra in
    ground (arith, double_until-le need (if b.cap == 0 then 256 else b.cap * 2) need)
