-- ===== src/Link/Parse/Examples.antt =====
-- A section header that is written and read again.
use b1cc.Common.{[], ◌∷◌, ◌++◌, Bytes, codes}
use b1cc.Elf.Buffer.{ByteBuf, size}
use b1cc.Elf.Header.{SectionHeader}

abbrev filled : ByteBuf
filled = record { bytes = codes "abc"; cap = 4 }

-- The names of the sections, `.text` at 1, and four bytes at 8.
abbrev image : Bytes
image = 0 ∷ codes ".text" ++ 0 ∷ 0 ∷ 0x55 ∷ 0x89 ∷ 0xe5 ∷ 0xc3 ∷ []

abbrev text_header : SectionHeader
text_header = record {
  name = 1;
  type = 1;
  flags = 6;
  addr = 0x401000;
  offset = 8;
  size = 4;
  link = 0;
  info = 0;
  addralign = 0;
  entsize = 24;
}

abbrev text_data : Bytes
text_data = 0x55 ∷ 0x89 ∷ 0xe5 ∷ 0xc3 ∷ []
