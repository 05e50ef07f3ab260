-- ===== src/Elf/Header.antt =====
-- Section headers: `elf_write_shdr64` of src/elf_writer.c, and the 64 bytes that it writes.
use b1cc.Common.{
  ℕ, ◌/◌, ◌%◌, ◌^◌, ◌<◌, ◌≡◌, refl, [], ◌∷◌, ◌++◌, append_assoc, arith, length, drop, Bytes,
}
use b1cc.Elf.Buffer.{ByteBuf, bb_write32le, bb_write64le, rd32, rd64, bb_reserve-cap}

-- The fields of a section header.
pub record SectionHeader : Type 0 where
  pub name : ℕ
  pub type : ℕ
  pub flags : ℕ
  pub addr : ℕ
  pub offset : ℕ
  pub size : ℕ
  pub link : ℕ
  pub info : ℕ
  pub addralign : ℕ
  pub entsize : ℕ

unfoldable pub elf_write_shdr64 : ByteBuf → SectionHeader → ByteBuf
elf_write_shdr64 out h =
    bb_write64le
      (bb_write64le
        (bb_write32le
          (bb_write32le
            (bb_write64le
              (bb_write64le
                (bb_write64le (bb_write64le (bb_write32le (bb_write32le out h.name) h.type) h.flags)
                  h.addr)
                h.offset)
              h.size)
            h.link)
          h.info)
        h.addralign)
      h.entsize

-- The fields have the widths that the format gives them.
pub record IsWide (h : SectionHeader) : Type 0 where
  pub name : h.name < 2 ^ 32
  pub type : h.type < 2 ^ 32
  pub flags : h.flags < 2 ^ 64
  pub addr : h.addr < 2 ^ 64
  pub offset : h.offset < 2 ^ 64
  pub size : h.size < 2 ^ 64
  pub link : h.link < 2 ^ 32
  pub info : h.info < 2 ^ 32
  pub addralign : h.addralign < 2 ^ 64
  pub entsize : h.entsize < 2 ^ 64

abbrev le32 : ℕ → Bytes
le32 v = (v % 2 ^ 8) ∷ (v / 2 ^ 8 % 2 ^ 8) ∷ (v / 2 ^ 16 % 2 ^ 8) ∷ (v / 2 ^ 24 % 2 ^ 8) ∷ []

abbrev pub le64 : ℕ → Bytes
le64 v = le32 (v % 2 ^ 32) ++ le32 (v / 2 ^ 32)

write32-bytes : (b : ByteBuf) (v : ℕ) → (bb_write32le b v).bytes ≡ b.bytes ++ le32 v
unfolding bb_write32le
write32-bytes b v = simp (append_assoc) (rw (bb_reserve-cap b 4).0)

pub write64-bytes : (b : ByteBuf) (v : ℕ) → (bb_write64le b v).bytes ≡ b.bytes ++ le64 v
unfolding bb_write64le
write64-bytes b v =
    rw (write32-bytes (bb_write32le b (v % 2 ^ 32)) (v / 2 ^ 32), write32-bytes b (v % 2 ^ 32))
      (append_assoc b.bytes (le32 (v % 2 ^ 32)) (le32 (v / 2 ^ 32)))

pub rd32-le32 : (v : ℕ) (rest : Bytes) → v < 2 ^ 32 → rd32 (le32 v ++ rest) ≡ v
unfolding rd32
rd32-le32 v rest h = omega arith

pub rd64-le64 : (v : ℕ) (rest : Bytes) → v < 2 ^ 64 → rd64 (le64 v ++ rest) ≡ v
unfolding rd64
rd64-le64 v rest h = omega arith

pub drop-append : (xs ys : Bytes) → drop (length xs) (xs ++ ys) ≡ ys
drop-append [] ys = refl
drop-append (x ∷ xs) ys = drop-append xs ys

-- The 64 bytes of a section header.
unfoldable pub shdr_bytes : SectionHeader → Bytes
shdr_bytes h =
    le32 h.name
    ++ (le32 h.type
        ++ (le64 h.flags
            ++ (le64 h.addr
                ++ (le64 h.offset
                    ++ (le64 h.size
                        ++ (le32 h.link
                            ++ (le32 h.info ++ (le64 h.addralign ++ le64 h.entsize))))))))

pub write-shdr_bytes :
    (out : ByteBuf) (h : SectionHeader) → (elf_write_shdr64 out h).bytes ≡ out.bytes ++ shdr_bytes h
unfolding elf_write_shdr64 shdr_bytes
write-shdr_bytes out h = simp (write64-bytes, write32-bytes, append_assoc)

pub length-shdr : (h : SectionHeader) → length (shdr_bytes h) ≡ 64
length-shdr h = unfold shdr_bytes in refl
