-- ===== src/Ir.antt =====
-- The intermediate representation: the operations and instructions of src/ir.h, and the pass of
-- src/ir_opt.c over them. Strings that an instruction names stand for their pool index, as in the
-- source.
pub mod Optimize
mod Examples
use b1cc.Common.{ℕ, List, Bytes}

pub data IrOp : Type 0 where
  nop trap atomic_load atomic_store atomic_add atomic_fetch_add atomic_exchange atomic_cas : IrOp
  frame_addr clz ctz popcount add_overflow not noteq noteq64 «mod» mod64 and and64 mul mul64 : IrOp
  add add64 sub sub64 div div64 lt lt64 ltlt ltlt64 lteq lteq64 eqeq eqeq64 gt gt64 gteq : IrOp
  gteq64 gtgt gtgt64 xor xor64 addr asm call cast const const64 copy d2f dup extract_bits : IrOp
  fnoteq f2i flt flteq feqeq fgt fgteq fadd fconst fdiv fgload fgstore fload4 fload8 : IrOp
  fload_addr4 fload_addr8 fmul fneg fret fstore4 fstore8 fstore_addr4 fstore_addr8 fsub : IrOp
  ldconst ldadd ldsub ldmul lddiv ldneg ldlt ldgt ldlteq ldgteq ldeqeq ldnoteq ldload : IrOp
  ldstore ldgload ldgstore i2ld ld2i d2ld ld2d ldret gaddr gload gload64 gstore gstore64 : IrOp
  i2f icall index insert_bits jmp jz jz64 label load load64 load_addr neg neg64 pop pop64 : IrOp
  ret ret64 ret_agg sext64 sext_bits store store64 store_agg store_index store_index_keep : IrOp
  str trunc32 umod umod64 udiv udiv64 ult ult64 ulteq ulteq64 ugt ugt64 ugteq ugteq64 ugtgt : IrOp
  ugtgt64 ucast va_start vla_alloc zext64 or or64 tilde tilde64 : IrOp

-- `value` is the 64-bit pattern of the long.
pub record IrInst : Type 0 where
  pub op : IrOp
  pub arg : ℕ
  pub value : ℕ
  pub line : ℕ
  pub col : ℕ

-- The fields that the optimizer reads and writes; it passes the others on as they are.
pub record IrFunction : Type 0 where
  pub name : Bytes
  pub code : List IrInst
