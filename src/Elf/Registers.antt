-- ===== src/Elf/Registers.antt =====
-- The register names of the assembler in src/elf_writer.c: their numbers, the class of an operand
-- and the size suffix that it implies. `isalpha` is the C library's.
use b1cc.Common.{
  ℕ, ◌==◌, ◌||◌, ◌&&◌, not, Bool, false, if◌then◌else◌, Option, none, some, List, [], ◌∷◌, length,
  get_or, take, Bytes, codes, str_eq,
}

unfoldable pub x64_regs : List (Bytes × ℕ)
x64_regs =
    (codes "%xmm0", 0)
    ∷ (codes "%xmm1", 1)
    ∷ (codes "%xmm2", 2)
    ∷ (codes "%xmm3", 3)
    ∷ (codes "%xmm4", 4)
    ∷ (codes "%xmm5", 5)
    ∷ (codes "%xmm6", 6)
    ∷ (codes "%xmm7", 7)
    ∷ (codes "%xmm8", 8)
    ∷ (codes "%xmm9", 9)
    ∷ (codes "%xmm10", 10)
    ∷ (codes "%xmm11", 11)
    ∷ (codes "%xmm12", 12)
    ∷ (codes "%xmm13", 13)
    ∷ (codes "%xmm14", 14)
    ∷ (codes "%xmm15", 15)
    ∷ (codes "%rax", 0)
    ∷ (codes "%rcx", 1)
    ∷ (codes "%rdx", 2)
    ∷ (codes "%rbx", 3)
    ∷ (codes "%rsp", 4)
    ∷ (codes "%rbp", 5)
    ∷ (codes "%rsi", 6)
    ∷ (codes "%rdi", 7)
    ∷ (codes "%r8", 8)
    ∷ (codes "%r9", 9)
    ∷ (codes "%r10", 10)
    ∷ (codes "%r11", 11)
    ∷ (codes "%r12", 12)
    ∷ (codes "%r13", 13)
    ∷ (codes "%r14", 14)
    ∷ (codes "%r15", 15)
    ∷ (codes "%eax", 0)
    ∷ (codes "%ecx", 1)
    ∷ (codes "%edx", 2)
    ∷ (codes "%ebx", 3)
    ∷ (codes "%esp", 4)
    ∷ (codes "%ebp", 5)
    ∷ (codes "%esi", 6)
    ∷ (codes "%edi", 7)
    ∷ (codes "%r8d", 8)
    ∷ (codes "%r9d", 9)
    ∷ (codes "%r10d", 10)
    ∷ (codes "%r11d", 11)
    ∷ (codes "%ax", 0)
    ∷ (codes "%cx", 1)
    ∷ (codes "%dx", 2)
    ∷ (codes "%bx", 3)
    ∷ (codes "%r11w", 11)
    ∷ (codes "%al", 0)
    ∷ (codes "%cl", 1)
    ∷ (codes "%dl", 2)
    ∷ (codes "%bl", 3)
    ∷ (codes "%r11b", 11)
    ∷ []

unfoldable pub reg_loop : List (Bytes × ℕ) → Bytes → Option ℕ
reg_loop [] name = none
reg_loop ((n, num) ∷ regs) name =
    let rest = reg_loop regs name in if str_eq n name then some num else rest

-- `none` is the result -1.
unfoldable pub x64_reg_num : Bytes → Option ℕ
unfolding x64_regs reg_loop
x64_reg_num name = reg_loop x64_regs name

pub data OpType : Type 0 where
  ot_reg64 ot_reg32 ot_reg16 ot_reg8 ot_regxmm ot_imm ot_mem_rip ot_mem_base ot_mem_idx : OpType
  ot_mem_indir ot_label ot_sym ot_none : OpType

module _ (isalpha : ℕ → Bool) where
  -- `s[1]` and on are read at the terminating zero at most.
  unfoldable pub reg_optype : Bytes → OpType
  reg_optype s =
      if str_eq (take 4 s) (codes "%xmm")
      then ot_regxmm
      else if get_or s 1 0 == b'r'
      then ot_reg64
      else if get_or s 1 0 == b'e'
      then ot_reg32
      else if length s == 3 && get_or s 2 0 == b'l'
      then ot_reg8
      else if length s == 3 && isalpha (get_or s 2 0)
      then ot_reg16
      else if length s == 4 && (get_or s 3 0 == b'b' || get_or s 3 0 == b'w')
      then ot_reg8
      else ot_reg64

  unfoldable pub suffix_of : OpType → ℕ → ℕ
  suffix_of ot_reg64 suf = b'q'
  suffix_of ot_reg32 suf = b'l'
  suffix_of ot_reg16 suf = b'w'
  suffix_of ot_reg8 suf = b'b'
  suffix_of _ suf = suf

  -- Whether an opening parenthesis stands before `q`, behind blanks; `before` is what stands
  -- before it, the last byte first.
  unfoldable pub in_parentheses : Bytes → Bool
  in_parentheses [] = false
  in_parentheses (c ∷ before) =
      let further = in_parentheses before in if c == b' ' || c == 9 then further else c == b'('

  unfoldable pub suffix_loop : Bytes → Bytes → ℕ → ℕ
  unfolding reg_optype suffix_of in_parentheses
  suffix_loop before [] suf = suf
  suffix_loop before (c ∷ q) suf =
      let counts = c == b'%' && not (in_parentheses before) in
      suffix_loop (c ∷ before) q (if counts then suffix_of (reg_optype (c ∷ q)) suf else suf)

  unfoldable pub infer_gp_suffix : Bytes → ℕ
  unfolding suffix_loop
  infer_gp_suffix ops = suffix_loop [] ops b'q'
