-- ===== src/Ast.antt =====
-- The operators of src/ast.h and their names in src/ast.c: op_table, str_to_op and op_to_str.
pub mod Names
mod Examples
use b1cc.Common.{
  ℕ, zero, suc, ◌+◌, Bool, true, false, Option, none, some, List, [], ◌∷◌, ◌==◌, if◌then◌else◌,
  Bytes, codes, str_eq,
}

pub data OpKind : Type 0 where
  op_num op_fnum op_str op_char op_var : OpKind
  op_unary_minus op_unary_tilde op_unary_not op_unary_addr op_unary_deref : OpKind
  op_prefix_inc op_prefix_dec op_postfix_inc op_postfix_dec : OpKind
  op_add op_sub op_mul op_div op_mod op_eq op_ne op_lt op_gt op_le op_ge : OpKind
  op_band op_bor op_bxor op_shl op_shr op_land op_lor op_comma op_ternary : OpKind
  op_assign op_store_index op_cast op_bool_cast op_call op_return op_func : OpKind
  op_if op_while op_do_while op_for op_break op_continue op_switch op_case op_default : OpKind
  op_goto op_label_stmt op_decl op_array_decl op_expr op_block op_empty : OpKind
  op_index op_member op_member_ptr op_asm op_complex_real op_complex_imag : OpKind
  op_compound_literal op_init_item op_sizeof op_va_start op_va_arg op_va_copy op_count : OpKind

-- The place in the enumeration.
abbrev ordinal : OpKind → ℕ
ordinal op_num = 0
ordinal op_fnum = 1
ordinal op_str = 2
ordinal op_char = 3
ordinal op_var = 4
ordinal op_unary_minus = 5
ordinal op_unary_tilde = 6
ordinal op_unary_not = 7
ordinal op_unary_addr = 8
ordinal op_unary_deref = 9
ordinal op_prefix_inc = 10
ordinal op_prefix_dec = 11
ordinal op_postfix_inc = 12
ordinal op_postfix_dec = 13
ordinal op_add = 14
ordinal op_sub = 15
ordinal op_mul = 16
ordinal op_div = 17
ordinal op_mod = 18
ordinal op_eq = 19
ordinal op_ne = 20
ordinal op_lt = 21
ordinal op_gt = 22
ordinal op_le = 23
ordinal op_ge = 24
ordinal op_band = 25
ordinal op_bor = 26
ordinal op_bxor = 27
ordinal op_shl = 28
ordinal op_shr = 29
ordinal op_land = 30
ordinal op_lor = 31
ordinal op_comma = 32
ordinal op_ternary = 33
ordinal op_assign = 34
ordinal op_store_index = 35
ordinal op_cast = 36
ordinal op_bool_cast = 37
ordinal op_call = 38
ordinal op_return = 39
ordinal op_func = 40
ordinal op_if = 41
ordinal op_while = 42
ordinal op_do_while = 43
ordinal op_for = 44
ordinal op_break = 45
ordinal op_continue = 46
ordinal op_switch = 47
ordinal op_case = 48
ordinal op_default = 49
ordinal op_goto = 50
ordinal op_label_stmt = 51
ordinal op_decl = 52
ordinal op_array_decl = 53
ordinal op_expr = 54
ordinal op_block = 55
ordinal op_empty = 56
ordinal op_index = 57
ordinal op_member = 58
ordinal op_member_ptr = 59
ordinal op_asm = 60
ordinal op_complex_real = 61
ordinal op_complex_imag = 62
ordinal op_compound_literal = 63
ordinal op_init_item = 64
ordinal op_sizeof = 65
ordinal op_va_start = 66
ordinal op_va_arg = 67
ordinal op_va_copy = 68
ordinal op_count = 69

-- The entries before the terminating null pointer.
pub op_table : List (Bytes × OpKind)
op_table =
    (codes "num", op_num)
    ∷ (codes "fnum", op_fnum)
    ∷ (codes "str", op_str)
    ∷ (codes "char", op_char)
    ∷ (codes "var", op_var)
    ∷ (codes "unary_-", op_unary_minus)
    ∷ (codes "unary_~", op_unary_tilde)
    ∷ (codes "unary_!", op_unary_not)
    ∷ (codes "unary_&", op_unary_addr)
    ∷ (codes "unary_*", op_unary_deref)
    ∷ (codes "prefix_++", op_prefix_inc)
    ∷ (codes "prefix_--", op_prefix_dec)
    ∷ (codes "postfix_++", op_postfix_inc)
    ∷ (codes "postfix_--", op_postfix_dec)
    ∷ (codes "+", op_add)
    ∷ (codes "-", op_sub)
    ∷ (codes "*", op_mul)
    ∷ (codes "/", op_div)
    ∷ (codes "%", op_mod)
    ∷ (codes "==", op_eq)
    ∷ (codes "!=", op_ne)
    ∷ (codes "<", op_lt)
    ∷ (codes ">", op_gt)
    ∷ (codes "<=", op_le)
    ∷ (codes ">=", op_ge)
    ∷ (codes "&", op_band)
    ∷ (codes "|", op_bor)
    ∷ (codes "^", op_bxor)
    ∷ (codes "<<", op_shl)
    ∷ (codes ">>", op_shr)
    ∷ (codes "&&", op_land)
    ∷ (codes "||", op_lor)
    ∷ (codes ",", op_comma)
    ∷ (codes "?", op_ternary)
    ∷ (codes "assign", op_assign)
    ∷ (codes "store_index", op_store_index)
    ∷ (codes "cast", op_cast)
    ∷ (codes "bool_cast", op_bool_cast)
    ∷ (codes "call", op_call)
    ∷ (codes "return", op_return)
    ∷ (codes "func", op_func)
    ∷ (codes "if", op_if)
    ∷ (codes "while", op_while)
    ∷ (codes "do_while", op_do_while)
    ∷ (codes "for", op_for)
    ∷ (codes "break", op_break)
    ∷ (codes "continue", op_continue)
    ∷ (codes "switch", op_switch)
    ∷ (codes "case", op_case)
    ∷ (codes "default", op_default)
    ∷ (codes "goto", op_goto)
    ∷ (codes "label_stmt", op_label_stmt)
    ∷ (codes "decl", op_decl)
    ∷ (codes "array_decl", op_array_decl)
    ∷ (codes "expr", op_expr)
    ∷ (codes "block", op_block)
    ∷ (codes "empty", op_empty)
    ∷ (codes "index", op_index)
    ∷ (codes "member", op_member)
    ∷ (codes "member_ptr", op_member_ptr)
    ∷ (codes "asm", op_asm)
    ∷ (codes "complex_real", op_complex_real)
    ∷ (codes "complex_imag", op_complex_imag)
    ∷ (codes "compound_literal", op_compound_literal)
    ∷ (codes "init_item", op_init_item)
    ∷ (codes "sizeof", op_sizeof)
    ∷ (codes "va_start", op_va_start)
    ∷ (codes "va_arg", op_va_arg)
    ∷ (codes "va_copy", op_va_copy)
    ∷ []

pub str_to_op_loop : Bytes → List (Bytes × OpKind) → OpKind
str_to_op_loop s [] = op_count
str_to_op_loop s ((str, kind) ∷ m) =
    let rest = str_to_op_loop s m in if str_eq s str then kind else rest

-- `none` is the null pointer.
unfoldable pub str_to_op : Option Bytes → OpKind
unfolding op_table str_to_op_loop
str_to_op s = elim s [ none ↦ op_count | some t ↦ str_to_op_loop t op_table ]

pub op_to_str_loop : OpKind → List (Bytes × OpKind) → Bytes
op_to_str_loop op [] = codes "?"
op_to_str_loop op ((str, kind) ∷ m) =
    let rest = op_to_str_loop op m in if ordinal kind == ordinal op then str else rest

unfoldable pub op_to_str : OpKind → Bytes
unfolding op_table op_to_str_loop
op_to_str op = op_to_str_loop op op_table
