-- ===== src/Preproc/Expr/Levels.antt =====
-- The levels of the evaluator by number: what each one does with an operator, and when a loop stops.
use b1cc.Common.{
  ℕ, zero, suc, ◌≤◌, ◌<◌, ◌≡◌, refl, ap, ◌-◌, ◌∙◌, Bool, get_or, leb, leb→le, Bool-cases, true,
  false, ◌&&◌, Option, none, some, List, [], ◌∷◌, arith, Bytes, codes, str_eq, inl, inr,
  Option-cases,
}
use b1cc.Common.Int.{ℤ}
use b1cc.Preproc.Expr.{
  Tokens, Parser, BinaryOp, ep_peek, ep_take, mul_op, add_op, shift_op, relational_op, equality_op,
  and_op, xor_op, or_op, eval_and_op, eval_or_op, left_loop, level,
}
use b1cc.Preproc.Expr.Syntax.{
  Binary, mul, div, rem, add, sub, shl, shr, lt, gt, le, ge, eq, ne, band, bxor, bor, and, or,
  precedence, binary_text, meaning,
}

-- The operators of the level above `k`.
abbrev level_ops : List (Bytes → Option BinaryOp)
level_ops =
    mul_op ∷ add_op ∷ shift_op ∷ relational_op ∷ equality_op ∷ and_op ∷ xor_op ∷ or_op ∷ eval_and_op
    ∷ eval_or_op ∷ []

abbrev pub op_at : ℕ → Bytes → Option BinaryOp
op_at k = get_or level_ops k (λ t. none)

-- The level `k`: a primary expression at 0, ep_eval_or at 10.
unfoldable pub parse : Parser → ℕ → ℕ → Parser
parse primary n zero = primary
parse primary n (suc k) = level (op_at k) (parse primary n k) n

abbrev is_none : Option BinaryOp → Bool
is_none none = true
is_none (some f) = false

-- A token that is no operator of the levels up to `k`.
unfoldable pub stops : ℕ → Bytes → Bool
stops zero t = true
stops (suc k) t = is_none (op_at k t) && stops k t

stops-op_at : (k : ℕ) (t : Bytes) → stops (suc k) t ≡ true → op_at k t ≡ none
unfolding stops
stops-op_at k t h = elim (Option-cases (op_at k t)) [
  | inl e ↦ e
  | inr (f, e) ↦ let clash = rw e at h in absurd cc
]

pub stops_below : (k : ℕ) (t : Bytes) → stops (suc k) t ≡ true → stops k t ≡ true
unfolding stops
stops_below k t h = ground arith

-- An operator belongs to its level and to none before it.
pub op_at-precedence : (o : Binary) → op_at (precedence o) (binary_text o) ≡ some (meaning o)
unfolding mul_op add_op shift_op relational_op equality_op and_op xor_op or_op eval_and_op
    eval_or_op str_eq
op_at-precedence mul = refl
op_at-precedence div = refl
op_at-precedence rem = refl
op_at-precedence add = refl
op_at-precedence sub = refl
op_at-precedence shl = refl
op_at-precedence shr = refl
op_at-precedence lt = refl
op_at-precedence gt = refl
op_at-precedence le = refl
op_at-precedence ge = refl
op_at-precedence eq = refl
op_at-precedence ne = refl
op_at-precedence band = refl
op_at-precedence bxor = refl
op_at-precedence bor = refl
op_at-precedence and = refl
op_at-precedence or = refl

pub stops-precedence : (o : Binary) → stops (precedence o) (binary_text o) ≡ true
unfolding stops mul_op add_op shift_op relational_op equality_op and_op xor_op or_op eval_and_op
    eval_or_op str_eq
stops-precedence mul = refl
stops-precedence div = refl
stops-precedence rem = refl
stops-precedence add = refl
stops-precedence sub = refl
stops-precedence shl = refl
stops-precedence shr = refl
stops-precedence lt = refl
stops-precedence gt = refl
stops-precedence le = refl
stops-precedence ge = refl
stops-precedence eq = refl
stops-precedence ne = refl
stops-precedence band = refl
stops-precedence bxor = refl
stops-precedence bor = refl
stops-precedence and = refl
stops-precedence or = refl

pub precedence-bound : (o : Binary) → precedence o < 10
precedence-bound o = ground arith

-- A closing parenthesis and the end of the tokens stop every level.
pub stops-close : stops 10 (codes ")") ≡ true
unfolding stops mul_op add_op shift_op relational_op equality_op and_op xor_op or_op eval_and_op
    eval_or_op str_eq
stops-close = refl

pub stops-end : stops 10 [] ≡ true
unfolding stops mul_op add_op shift_op relational_op equality_op and_op xor_op or_op eval_and_op
    eval_or_op str_eq
stops-end = refl

pub stops-le : (j k : ℕ) (t : Bytes) → k ≤ j → stops j t ≡ true → stops k t ≡ true
stops-le zero k t bound h = let e : 0 ≡ k = omega arith in rw e at h
stops-le (suc j) k t bound h = elim (Bool-cases (leb k j)) [
  | inl below ↦ stops-le j k t (leb→le k j below) (stops_below j t h)
  | inr top ↦ let e : suc j ≡ k = ground arith in rw e at h
]

pub left_loop-stops :
    (k : ℕ) (operand : Parser) (f : ℕ) (v : ℤ) (r : Tokens)
    → 0 < f
    → stops (suc k) (ep_peek r) ≡ true
    → left_loop (op_at k) operand f v r ≡ some (v, r)
unfolding left_loop
left_loop-stops k operand zero v r p h = absurd (omega arith)
left_loop-stops k operand (suc f) v r p h = rw (stops-op_at k (ep_peek r) h)

-- A loop takes an operator of its level and the operand behind it.
pub left_loop-step :
    (k : ℕ) (operand : Parser) (fuel : ℕ) (v w : ℤ) (t : Bytes) (ts r : Tokens) (f : BinaryOp)
    → 0 < fuel
    → op_at k t ≡ some f
    → operand ts ≡ some (w, r)
    → left_loop (op_at k) operand fuel v (t ∷ ts) ≡ left_loop (op_at k) operand (fuel - 1) (f v w) r
unfolding left_loop ep_peek ep_take
left_loop-step k operand zero v w t ts r f p e g = absurd (omega arith)
left_loop-step k operand (suc n) v w t ts r f p e g =
    let back : n ≡ suc n - 1 = omega arith in
    rw (e, left_loop) (rw (g, left_loop) (ap (λ m. left_loop (op_at k) operand m (f v w) r) back))

-- A level gets to its loop with what the level below it reads.
pub parse-level :
    (primary : Parser) (n k : ℕ) (ts r : Tokens) (v : ℤ)
    → parse primary n k ts ≡ some (v, r)
    → parse primary n (suc k) ts ≡ left_loop (op_at k) (parse primary n k) n v r
unfolding parse level
parse-level primary n k ts r v e = rw (e, level) refl

-- What one level reads, the levels above it read as well, where the token behind stops them.
pub parse_climb :
    (primary : Parser) (n k j : ℕ) (ts r : Tokens) (v : ℤ)
    → 0 < n
    → k ≤ j
    → parse primary n k ts ≡ some (v, r)
    → stops j (ep_peek r) ≡ true
    → parse primary n j ts ≡ some (v, r)
parse_climb primary n k zero ts r v p bound e h = let z : k ≡ 0 = omega arith in rw z at e
parse_climb primary n k (suc j) ts r v p bound e h = elim (Bool-cases (leb k j)) [
  | inl below ↦
      parse-level primary n j ts r v
        (parse_climb primary n k j ts r v p (leb→le k j below) e (stops_below j (ep_peek r) h))
      ∙ (left_loop-stops j (parse primary n j) n v r p h)
  | inr top ↦ let z : k ≡ suc j = ground arith in rw z at e
]
