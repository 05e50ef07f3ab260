-- ===== src/Elf/Examples.antt =====
-- The object file writer on concrete inputs.
use b1cc.Common.{get_elem?, length, suc, List, ◌<◌, Bytes, true, [], ◌∷◌, ◌++◌, ◌^◌}
use b1cc.Elf.Buffer.{bb_init}
use b1cc.Elf.Memory.{enc_mem_idx}
use b1cc.Elf.Memory.Decode.{decode_memory, access_at}
use b1cc.Elf.Memory.Encoded.{decode_memory-enc_mem_idx}
use b1cc.Common.{ℕ, Bool, ◌&&◌, some, refl, leb, str_eq, ◌≡◌, arith, codes}
use b1cc.Elf.Registers.{
  x64_reg_num, reg_optype, ot_reg64, infer_gp_suffix, suffix_of, suffix_loop, in_parentheses,
  x64_regs, reg_loop,
}
use b1cc.Common.Int.{negsuc}
use b1cc.Link.{Rela}
use b1cc.Elf.Rela.{ElfSym, ElfReloc, add_undefined, read_rela_section}
use b1cc.Elf.Rela.Names.{NamedAt}
use b1cc.Elf.Rela.Entries.{table, rela_text, read_rela_section-rela_text}
use b1cc.Elf.Leb.{Reads, read_sleb, write_sleb128, write_sleb128-read_sleb}

-- `main` calls `puts`, which it does not define, and its own `f`.
abbrev unit_syms : List ElfSym
unit_syms =
    record {
      name = codes "main";
      shndx = 1;
      value = 0;
      size = 9;
      bind = 1;
      type = 2;
      defined = true;
    }
    ∷ record {
      name = codes "f";
      shndx = 1;
      value = 9;
      size = 4;
      bind = 0;
      type = 2;
      defined = true;
    }
    ∷ []

abbrev call_puts : ElfReloc
call_puts = record { sym_name = codes "puts"; offset = 5; addend = 0xfffffffc; type = 4 }

abbrev call_f : ElfReloc
call_f = record { sym_name = codes "f"; offset = 1; addend = 0xfffffffc; type = 4 }

table-few : length (table (call_f ∷ call_puts ∷ []) unit_syms) < 2 ^ 31
unfolding add_undefined str_eq
table-few = omega arith

read_rela_section-rela_text_example :
    (q : Rela) × (get_elem?
        (read_rela_section
          (length (rela_text (call_f ∷ call_puts ∷ []) unit_syms))
          24
          (rela_text (call_f ∷ call_puts ∷ []) unit_syms))
        1
      ≡ some q)
    × (q.off ≡ 5)
    × (q.type ≡ 4)
    × (q.add ≡ 0xfffffffffffffffc)
    × ((i : ℕ) × (q.sym ≡ suc i)
        × NamedAt (codes "puts") (table (call_f ∷ call_puts ∷ []) unit_syms) i)
read_rela_section-rela_text_example =
    read_rela_section-rela_text (call_f ∷ call_puts ∷ []) unit_syms 1 call_puts
      ((omega arith, omega arith, omega arith), ((omega arith, omega arith, omega arith), tt))
      table-few refl

write_sleb128-read_sleb_example :
    Reads read_sleb (write_sleb128 (negsuc 123455)) (negsuc 123455) 10 (codes "x")
write_sleb128-read_sleb_example = write_sleb128-read_sleb (negsuc 123455) (codes "x") (omega arith)

abbrev is_letter : ℕ → Bool
is_letter c = leb b'a' c && leb c b'z'

r11_number : x64_reg_num (codes "%r11d") ≡ some 11
unfolding x64_reg_num x64_regs reg_loop str_eq
r11_number = refl

-- The 32-bit register is taken for a 64-bit one.
r11d_class : reg_optype is_letter (codes "%r11d") ≡ ot_reg64
unfolding reg_optype str_eq
r11d_class = refl

-- The address register does not count.
load_suffix : infer_gp_suffix is_letter (codes "(%rdi), %eax") ≡ b'l'
unfolding infer_gp_suffix suffix_loop reg_optype suffix_of in_parentheses str_eq
load_suffix = refl

-- The index register counts: a store of 32 bits gets the suffix of 64.
indexed_suffix : infer_gp_suffix is_letter (codes "%eax, (%rdi,%rcx)") ≡ b'q'
unfolding infer_gp_suffix suffix_loop reg_optype suffix_of in_parentheses str_eq
indexed_suffix = refl

-- mov (%r13,%r12,8), %r9 with a displacement of zero bytes
decode_memory-enc_mem_idx_example :
    (code : Bytes) × ((enc_mem_idx bb_init 0x8B true 9 13 12 (2 ^ 3)).bytes ≡ bb_init.bytes ++ code)
    × (decode_memory (code ++ 0x90 ∷ []) ≡ some (access_at true 0x8B 9 13 12 3 0, 0x90 ∷ []))
decode_memory-enc_mem_idx_example =
    decode_memory-enc_mem_idx bb_init true 0x8B 9 13 12 3 (0x90 ∷ []) (omega arith) refl
      (omega arith) (omega arith) (omega arith) (λ e. absurd (omega arith)) (omega arith)
