-- ===== src/Ir/Optimize.antt =====
-- ir_optimize_function and ir_optimize_module of src/ir_opt.c: the instructions between a jump,
-- return or trap and the next label are dropped.
pub mod Preserves
use b1cc.Common.{Bool, true, false, List, [], ◌∷◌, ◌++◌, map}
use b1cc.Ir.{IrOp, IrInst, IrFunction}

unfoldable pub is_label : IrOp → Bool
is_label IrOp.label = true
is_label _ = false

-- `inst->op == IR_RET || inst->op == IR_RET64 || inst->op == IR_JMP || inst->op == IR_TRAP`
unfoldable pub ends_block : IrOp → Bool
ends_block IrOp.ret = true
ends_block IrOp.ret64 = true
ends_block IrOp.jmp = true
ends_block IrOp.trap = true
ends_block _ = false

-- The body of the loop for an instruction that is not skipped.
abbrev still : Bool → IrInst → Bool
still unreachable i = elim (is_label i.op) [ true ↦ false | false ↦ unreachable ]

pub dce_loop : List IrInst → Bool → List IrInst → List IrInst
dce_loop [] unreachable new_code = new_code
dce_loop (i ∷ code) unreachable new_code = elim (still unreachable i) [
  | true ↦ dce_loop code true new_code
  | false ↦ dce_loop code (ends_block i.op) (new_code ++ i ∷ [])
]

unfoldable pub ir_optimize_function : IrFunction → IrFunction
unfolding dce_loop
ir_optimize_function fn = elim fn.code [
  | [] ↦ fn
  | i ∷ code ↦ record fn { code = dce_loop (i ∷ code) false [] }
]

unfoldable ir_optimize_module : List IrFunction → List IrFunction
unfolding ir_optimize_function
ir_optimize_module functions = map ir_optimize_function functions
