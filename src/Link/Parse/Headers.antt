-- ===== src/Link/Parse/Headers.antt =====
-- The section headers that elf_write_shdr64 of src/elf_writer.c writes, as parse_object of
-- src/linker.c reads them.
use b1cc.Common.{
  ℕ, zero, suc, ◌+◌, ◌≡◌, none, some, Option, [], ◌≢◌, ◌⊎◌, ◌≤◌, drop, take, length, Bytes,
}
use b1cc.Elf.Buffer.{size, rd32, rd64}
use b1cc.Elf.Header.{SectionHeader}
use b1cc.Link.{Sec}
use b1cc.Link.Layout.{classify_section}
use b1cc.Link.Parse.{parsed, parse_section}

-- An alignment of 0 stands for 1.
abbrev pub alignment : ℕ → ℕ
alignment zero = 1
alignment (suc n) = suc n

-- The section of a header, with its name and its data.
abbrev pub section_of : SectionHeader → Bytes → Option Bytes → Sec
section_of h name bytes = record {
  name = name;
  type = h.type;
  flags = h.flags;
  size = h.size;
  align = alignment h.addralign;
  data_of = bytes;
  rel = [];
  out = classify_section name h.type h.flags;
  va = 0;
}

-- The data of a section: none for a section without bytes in the file or of no size, and else its
-- bytes in the file.
pub data DataOf (img : Bytes) (h : SectionHeader) : Option Bytes → Type 0 where
  absent : (h.type ≡ 8) ⊎ (h.size ≡ 0) → DataOf img h none
  present :
      h.type ≢ 8
      → h.size ≢ 0
      → h.offset + h.size ≤ length img
      → DataOf img h (some (take h.size (drop h.offset img)))

-- A section and the fields that parse_object reads from its header at later steps.
pub record ReadsAs (img : Bytes) (shstrtab : ℕ) (shp : Bytes) (h : SectionHeader) (s : Sec)
    : Type 0 where
  pub section : parse_section img shstrtab shp ≡ parsed s
  pub link : rd32 (drop 40 shp) ≡ h.link
  pub info : rd32 (drop 44 shp) ≡ h.info
  pub entsize : rd64 (drop 56 shp) ≡ h.entsize
