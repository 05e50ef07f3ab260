-- ===== src/Ast/Names.antt =====
-- Operators and their names correspond.
use b1cc.Common.{
  ◌≡◌, ◌≢◌, ◌⊎◌, refl, sym, ◌∙◌, Bool, true, ◌&&◌, some, List, [], ◌∷◌, Bool-cases, inl, inr, Bytes,
  str_eq, str_eq_iff, All,
}
use b1cc.Ast.{OpKind, op_count, op_table, str_to_op, str_to_op_loop, op_to_str, op_to_str_loop}

-- Every operator but OP_COUNT is what its name is read as.
str_to_op-op_to_str : (op : OpKind) → op ≢ op_count → str_to_op (some (op_to_str op)) ≡ op
unfolding str_to_op op_to_str op_table op_to_str_loop str_to_op_loop str_eq
str_to_op-op_to_str op_count ne = absurd (ne refl)
str_to_op-op_to_str _ ne = refl

abbrev Named : Bytes × OpKind → Type 0
Named (str, kind) = op_to_str kind ≡ str

named_all : List (Bytes × OpKind) → Bool
named_all [] = true
named_all ((str, kind) ∷ m) = str_eq (op_to_str kind) str && named_all m

named_all-Named : (m : List (Bytes × OpKind)) → named_all m ≡ true → All Named m
unfolding named_all
named_all-Named [] h = tt
named_all-Named ((str, kind) ∷ m) h = elim (Bool-cases (str_eq (op_to_str kind) str)) [
  | inl e ↦ ((str_eq_iff (op_to_str kind) str).0 e, named_all-Named m (rw e at h))
  | inr e ↦ let clash = rw e at h in absurd cc
]

op_table-Named : All Named op_table
unfolding named_all op_table op_to_str op_to_str_loop str_eq
op_table-Named = named_all-Named op_table checked
  where
    checked : named_all op_table ≡ true
    checked = refl

loop-Named :
    (s : Bytes) (m : List (Bytes × OpKind))
    → All Named m
    → (str_to_op_loop s m ≡ op_count) ⊎ (op_to_str (str_to_op_loop s m) ≡ s)
unfolding str_to_op_loop
loop-Named s [] h = inl refl
loop-Named s ((str, kind) ∷ m) (e, h) = elim (Bool-cases (str_eq s str)) [
  | inl here ↦ inr (rw (here, str_to_op_loop) (e ∙ sym ((str_eq_iff s str).0 here)))
  | inr later ↦ rw (later, str_to_op_loop) (loop-Named s m h)
]

-- A string that is read as an operator is the operator's name.
op_to_str-str_to_op :
    (s : Bytes) → str_to_op (some s) ≢ op_count → op_to_str (str_to_op (some s)) ≡ s
unfolding str_to_op
op_to_str-str_to_op s ne = elim (loop-Named s op_table op_table-Named) [
  | inl e ↦ absurd (ne e)
  | inr e ↦ e
]
