-- ===== src/Ir/Examples.antt =====
-- The optimizer on a function with dead code.
use b1cc.Common.{ℕ, ◌+◌, ◌-◌, ◌≡◌, refl, [], ◌∷◌, ◌==◌, length, codes}
use b1cc.Ir.{IrOp, IrInst, IrFunction}
use b1cc.Ir.Optimize.{ir_optimize_function, ends_block, is_label}
use b1cc.Ir.Optimize.Preserves.{Effect, goes_on, run, run-ir_optimize_function}

abbrev inst : IrOp → ℕ → IrInst
inst op arg = record { op = op; arg = arg; value = 0; line = 1; col = 1 }

-- A loop that counts the state down, with an addition behind a jump and one behind the return.
abbrev countdown : IrFunction
countdown = record {
  name = codes "countdown";
  code =
      inst IrOp.label 1
      ∷ inst IrOp.jz 2
      ∷ inst IrOp.jmp 1
      ∷ inst IrOp.add 0
      ∷ inst IrOp.label 2
      ∷ inst IrOp.ret 0
      ∷ inst IrOp.add 0
      ∷ [];
}

five_left : length (ir_optimize_function countdown).code ≡ 5
unfolding ir_optimize_function ends_block is_label
five_left = refl

abbrev count_up : IrInst → ℕ → Effect ℕ
count_up i s = goes_on (s + 1)

run-ir_optimize_function_example :
    run count_up
      (λ s. s == 0)
      (λ s. s - 1)
      (ir_optimize_function countdown).code
      9
      (ir_optimize_function countdown).code
      3
    ≡ run count_up (λ s. s == 0) (λ s. s - 1) countdown.code 9 countdown.code 3
run-ir_optimize_function_example =
    run-ir_optimize_function count_up (λ s. s == 0) (λ s. s - 1) countdown 9 3
