-- ===== src/Preproc/Expr/Total.antt =====
-- Whether the evaluator of src/preprocessor.c returns.
use b1cc.Common.{
  ℕ, zero, suc, ◌≤◌, ◌<◌, ◌≡◌, refl, Option, none, some, [], ◌∷◌, arith, Bytes, codes, str_eq, inl,
  inr, Bool-cases, Option-cases, length,
}
use b1cc.Common.Int.{ℤ, pos}
use b1cc.Preproc.Expr.{
  Tokens, Parser, BinaryOp, ep_peek, ep_take, ep_primary, ep_eval_or, left_loop, level, eval_tokens,
  mul_op, add_op, shift_op, relational_op, equality_op, and_op, xor_op, or_op, eval_and_op,
  eval_or_op, skip_close, with_value, starts_number, starts_quote,
}

-- The parser gives a value on `ts` and leaves at most as many tokens.
abbrev pub Returns : Option (ℤ × Tokens) → Tokens → Type 0
Returns o ts = (v : ℤ) × (r : Tokens) × (o ≡ some (v, r)) × (length r ≤ length ts)

-- With fuel `n`, on fewer tokens than that.
abbrev TotalBelow : ℕ → Parser → Type 0
TotalBelow n p = (ts : Tokens) → length ts < n → Returns (p ts) ts

length-ep_take : (ts : Tokens) → length (ep_take ts) ≤ length ts
unfolding ep_take
length-ep_take [] = omega arith
length-ep_take (t ∷ ts) = omega arith

weaken :
    (o : Option (ℤ × Tokens)) (ts us : Tokens) → length ts ≤ length us → Returns o ts → Returns o us
weaken o ts us h (v, r, e, short) = (v, r, e, omega arith)

-- The token is one of the level's, so that there is one.
operator_there :
    (op_of : Bytes → Option BinaryOp) (ts : Tokens) (f : BinaryOp)
    → op_of [] ≡ none
    → op_of (ep_peek ts) ≡ some f
    → length (ep_take ts) < length ts
unfolding ep_peek ep_take
operator_there op_of [] f nil e = absurd cc
operator_there op_of (t ∷ ts) f nil e = omega arith

left_loop-TotalBelow :
    (op_of : Bytes → Option BinaryOp) (operand : Parser) (n fuel : ℕ) (v : ℤ)
    → op_of [] ≡ none
    → TotalBelow n operand
    → (ts : Tokens) → length ts < fuel
    → length ts < n
    → Returns (left_loop op_of operand fuel v ts) ts
unfolding left_loop
left_loop-TotalBelow op_of operand n zero v nil total ts h g = absurd (omega arith)
left_loop-TotalBelow op_of operand n (suc fuel) v nil total ts h g =
    elim (Option-cases (op_of (ep_peek ts))) [
      | inl stop ↦ rw (stop, left_loop) (v, ts, refl, omega arith)
      | inr (f, e) ↦
          let fewer = operator_there op_of ts f nil e in
          let (w, r, read, short) = total (ep_take ts) (omega arith) in
          let rest =
            left_loop-TotalBelow op_of operand n fuel (f v w) nil total r (omega arith)
              (omega arith) in
          rw (e, left_loop) (rw (read, left_loop) (weaken _ r ts (omega arith) rest))
    ]

level-TotalBelow :
    (op_of : Bytes → Option BinaryOp) (operand : Parser) (n : ℕ)
    → op_of [] ≡ none
    → TotalBelow n operand
    → TotalBelow n (level op_of operand n)
unfolding level
level-TotalBelow op_of operand n nil total ts h =
    let (v, r, e, short) = total ts h in
    rw (e, level)
      (weaken _ r ts short
        (left_loop-TotalBelow op_of operand n n v nil total r (omega arith) (omega arith)))

ep_eval_or-TotalBelow :
    (primary : Parser) (n : ℕ) → TotalBelow n primary → TotalBelow n (ep_eval_or primary n)
unfolding mul_op add_op shift_op relational_op equality_op and_op xor_op or_op eval_and_op
    eval_or_op str_eq
ep_eval_or-TotalBelow primary n total = level-TotalBelow eval_or_op _ n refl (
    level-TotalBelow eval_and_op _ n refl (
      level-TotalBelow or_op _ n refl (
        level-TotalBelow xor_op _ n refl (
          level-TotalBelow and_op _ n refl (
            level-TotalBelow equality_op _ n refl (
              level-TotalBelow relational_op _ n refl (
                level-TotalBelow shift_op _ n refl (
                  level-TotalBelow add_op _ n refl
                    (level-TotalBelow mul_op primary n refl total)))))))))

Returns-with :
    (f : ℤ → ℤ) (o : Option (ℤ × Tokens)) (ts us : Tokens)
    → length ts ≤ length us
    → Returns o ts
    → Returns (with_value f o) us
Returns-with f o ts us h (v, r, e, short) = rw e (f v, r, refl, omega arith)

Returns-skip :
    (o : Option (ℤ × Tokens)) (ts us : Tokens)
    → length ts ≤ length us
    → Returns o ts
    → Returns (skip_close o) us
Returns-skip o ts us h (v, r, e, short) =
    let fewer = length-ep_take r in rw e (v, ep_take r, refl, omega arith)

-- With a token to take, from what the calls on the tokens behind it return.
primary_step :
    (strtol : Bytes → ℤ) (n : ℕ) (t : Bytes) (ts : Tokens)
    → Returns (ep_eval_or (ep_primary strtol n) n ts) ts
    → Returns (ep_primary strtol n ts) ts
    → Returns (ep_primary strtol (suc n) (t ∷ ts)) (t ∷ ts)
unfolding ep_primary ep_peek ep_take
primary_step strtol n t ts or inner = elim (Bool-cases (str_eq t (codes "("))) [
  | inl e ↦ rw (e, ep_primary) (Returns-skip _ ts (t ∷ ts) up or)
  | inr e ↦
      rw (e, ep_primary)
        (elim (Bool-cases (starts_number t)) [
          | inl e ↦ rw (e, ep_primary) (_, ts, refl, up)
          | inr e ↦
              rw (e, ep_primary)
                (elim (Bool-cases (starts_quote t)) [
                  | inl e ↦ rw (e, ep_primary) (_, ts, refl, up)
                  | inr e ↦
                      rw (e, ep_primary)
                        (elim (Bool-cases (str_eq t (codes "!"))) [
                          | inl e ↦ rw (e, ep_primary) (Returns-with _ _ ts (t ∷ ts) up inner)
                          | inr e ↦
                              rw (e, ep_primary)
                                (elim (Bool-cases (str_eq t (codes "~"))) [
                                  | inl e ↦
                                      rw (e, ep_primary) (Returns-with _ _ ts (t ∷ ts) up inner)
                                  | inr e ↦
                                      rw (e, ep_primary)
                                        (elim (Bool-cases (str_eq t (codes "-"))) [
                                          | inl e ↦
                                              rw (e, ep_primary)
                                                (Returns-with _ _ ts (t ∷ ts) up inner)
                                          | inr e ↦
                                              rw (e, ep_primary)
                                                (elim (Bool-cases (str_eq t (codes "+"))) [
                                                  | inl e ↦
                                                      rw (e, ep_primary)
                                                        (weaken _ ts (t ∷ ts) up inner)
                                                  | inr e ↦
                                                      rw (e, ep_primary)
                                                        (pos 0, t ∷ ts, refl, omega arith)
                                                ])
                                        ])
                                ])
                        ])
                ])
        ])
]
  where
    up : length ts ≤ length (t ∷ ts)
    up = omega arith

ep_primary-TotalBelow : (strtol : Bytes → ℤ) (n : ℕ) → TotalBelow n (ep_primary strtol n)
unfolding ep_primary ep_peek str_eq starts_number starts_quote
ep_primary-TotalBelow strtol zero ts h = absurd (omega arith)
ep_primary-TotalBelow strtol (suc n) [] h = (pos 0, [], refl, omega arith)
ep_primary-TotalBelow strtol (suc n) (t ∷ ts) h =
    let total = ep_primary-TotalBelow strtol n in
    primary_step strtol n t ts
      (ep_eval_or-TotalBelow (ep_primary strtol n) n total ts (omega arith))
      (total ts (omega arith))

-- The evaluator returns a value on every list of tokens, well-formed or not: its fuel is enough.
pub eval_tokens-Returns : (strtol : Bytes → ℤ) (ts : Tokens) → Returns (eval_tokens strtol ts) ts
unfolding eval_tokens
eval_tokens-Returns strtol ts =
    let n = suc (length ts) in
    ep_eval_or-TotalBelow (ep_primary strtol n) n (ep_primary-TotalBelow strtol n) ts (omega arith)
