-- ===== src/Elf/Memory.antt =====
-- The bytes of a memory operand in src/elf_writer.c: the REX prefix, the ModRM and SIB bytes and
-- enc_mem_idx. A register is its number.
pub mod Decode
pub mod Encoded
use Prim.Native.Nat.{bit_and, bit_or}
use b1cc.Common.{
  ℕ, zero, suc, ◌+◌, ◌-◌, ◌*◌, ◌/◌, ◌%◌, ◌^◌, ◌≤◌, ◌<◌, ◌≡◌, ◌≢◌, ◌⊎◌, refl, sym, ap, ◌∙◌, Bool,
  true, false, ◌&&◌, ◌||◌, not, Option, none, some, List, [], ◌∷◌, ◌++◌, append_assoc, ◌==◌, ==_iff,
  if◌then◌else◌, ltb, leb, arith, Bytes, inl, inr, Bool-cases,
}
use b1cc.Elf.Buffer.{ByteBuf, bb_write8, bb_reserve, bb_reserve-cap}

unfoldable pub rex : Bool → ℕ → ℕ → ℕ
rex wide r b =
    bit_or (bit_or (bit_or 0x40 (if wide then 8 else 0)) (if bit_and r 8 == 0 then 0 else 4))
      (if bit_and b 8 == 0 then 0 else 1)

unfoldable pub modrm_rr : ℕ → ℕ → ℕ
modrm_rr r m = bit_or (bit_or 0xC0 (bit_and r 7 * 8)) (bit_and m 7)

unfoldable pub modrm_r0 : ℕ → ℕ → ℕ
modrm_r0 r m = bit_or (bit_or 0 (bit_and r 7 * 8)) (bit_and m 7)

unfoldable pub modrm_r8 : ℕ → ℕ → ℕ
modrm_r8 r m = bit_or (bit_or 0x40 (bit_and r 7 * 8)) (bit_and m 7)

unfoldable pub modrm_r32 : ℕ → ℕ → ℕ
modrm_r32 r m = bit_or (bit_or 0x80 (bit_and r 7 * 8)) (bit_and m 7)

unfoldable pub sib_byte : ℕ → ℕ → ℕ → ℕ
sib_byte scale_log2 idx base =
    bit_or (bit_or (scale_log2 * 64) (bit_and idx 7 * 8)) (bit_and base 7)

unfoldable pub scale_log2_of : ℕ → ℕ
scale_log2_of scale =
    if scale == 2 then 1 else if scale == 4 then 2 else if scale == 8 then 3 else 0

-- The prefix of enc_mem_idx.
unfoldable pub mem_rex : Bool → Bool → Bool → Bool → ℕ
mem_rex w r x b =
    bit_or
      (bit_or (bit_or (bit_or 0x40 (if w then 8 else 0)) (if r then 4 else 0)) (if x then 2 else 0))
      (if b then 1 else 0)

unfoldable pub mem_modrm : Bool → ℕ → ℕ
mem_modrm use_disp8 reg = bit_or (bit_or (if use_disp8 then 0x40 else 0) (bit_and reg 7 * 8)) 4

-- The opcode, the ModRM and SIB bytes and the displacement.
unfoldable pub write_access : ByteBuf → ℕ → ℕ → ℕ → Bool → ByteBuf
write_access start op modrm sib use_disp8 =
    let coded = bb_write8 (bb_write8 (bb_write8 start op) modrm) sib in
    if use_disp8 then bb_write8 coded 0 else coded

unfoldable pub enc_mem_idx : ByteBuf → ℕ → Bool → ℕ → ℕ → ℕ → ℕ → ByteBuf
enc_mem_idx text op w reg base idx scale =
    let use_disp8 = bit_and base 7 == 5 in
    let start =
      if w || leb 8 reg || leb 8 base || leb 8 idx
      then bb_write8 text (mem_rex w (leb 8 reg) (leb 8 idx) (leb 8 base))
      else text in
    write_access start op (mem_modrm use_disp8 reg) (sib_byte (scale_log2_of scale) idx base)
      use_disp8
