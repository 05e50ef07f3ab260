-- ===== src/Ast/Examples.antt =====
-- Names of operators.
use b1cc.Common.{◌≡◌, refl, codes}
use b1cc.Ast.{op_count, op_table, op_to_str, op_to_str_loop}

-- What stands for no operator has the name of the conditional operator.
no_operator : op_to_str op_count ≡ codes "?"
unfolding op_to_str op_table op_to_str_loop
no_operator = refl
