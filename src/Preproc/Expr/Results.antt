-- ===== src/Preproc/Expr/Results.antt =====
-- The program's operations of #if give the results that C gives them.
use b1cc.Common.{
  ℕ, zero, suc, ◌+◌, ◌*◌, ◌/◌, ◌%◌, ◌^◌, ◌<◌, ◌≡◌, ◌≢◌, refl, sym, ap, ◌∙◌, Bool, true, false, inl,
  inr, arith, Bytes, leb, Bool-cases, ◌==◌, if◌then◌else◌, not,
}
use b1cc.Common.Int.{ℤ, pos, negsuc, pos_part, neg_part, sub_ℕ, neg_ℤ, to_u64, from_u64, ◌+ℤ◌, ◌-ℤ◌}
use native.Mathlib.Nat.{mul-add-div_right, div-eq_of_lt, mod-eq-sub-div-mul}
use b1cc.Runtime.Divide.{quot_ℤ, rem_ℤ}
use b1cc.Preproc.Expr.{
  of_bool, is_true, wrap, mul_long, div_long, rem_long, add_long, sub_long, shl_long, shr_long,
  not_long, complement_long, neg_long,
}
use b1cc.Preproc.Expr.Syntax.{
  Binary, Unary, Expr, meaning, unary_meaning, escape_value, EscapeChar, nul, newline, tab,
  backslash, quote, value,
}
use b1cc.Preproc.Expr.Denotes.{
  InRange, IsSum, Less, Truth, holds, fails, abs, signed, negative, differ, Gives, product,
  quotient, remainder, div_by_zero, rem_by_zero, sum, difference, shifted_left, shifted_right,
  shifted_negative, less, greater, at_most, at_least, equal, unequal, bits_and, bits_xor, bits_or,
  both, either, UnaryGives, is_zero, complement, opposite, same, Denotes, of_number, of_character,
  of_escaped, of_unary, of_binary,
}

wrap-InRange : (c : ℤ) → InRange c → wrap c ≡ c
unfolding wrap
wrap-InRange (pos n) (low, high) = ground arith
wrap-InRange (negsuc n) (low, high) = ground arith

sub_ℕ-is : (x y : ℕ) (c : ℤ) → x + neg_part c ≡ pos_part c + y → sub_ℕ x y ≡ c
sub_ℕ-is x y (pos n) e =
    let there : leb y x ≡ true = ground arith in rw (there, if◌then◌else◌) (ap pos (omega arith))
sub_ℕ-is x y (negsuc n) e =
    let not_there : leb y x ≡ false = ground arith in
    rw (not_there, if◌then◌else◌) (ap negsuc (omega arith))

pattern-InRange : (c : ℤ) (w : ℕ) → InRange c → to_u64 c ≡ w → from_u64 w ≡ c
unfolding wrap
pattern-InRange c w h e = ap from_u64 (sym e) ∙ wrap-InRange c h

of_bool-Truth :
    (P : Type 0) (b : Bool) (c : ℤ) → Truth P c → (P → b ≡ true) → (¬ P → b ≡ false) → of_bool b ≡ c
unfolding of_bool
of_bool-Truth P b c (holds p) yes_case no_case = rw (yes_case p) refl
of_bool-Truth P b c (fails n) yes_case no_case = rw (no_case n) refl

zero_plus : (n : ℕ) → 0 + n ≡ n
zero_plus n = omega arith

plus_zero : (n : ℕ) → n + 0 ≡ n
plus_zero n = omega arith

module _ (q r b a : ℕ) (e : a ≡ q * b + r) (low : r < b) where
  div-is : a / b ≡ q
  div-is =
      let small = div-eq_of_lt low in
      let positive : 0 < b = omega arith in
      let whole = mul-add-div_right positive q r in
      rw e (whole ∙ ap (λ n. q + n) small ∙ plus_zero q)

  mod-is : a % b ≡ r
  mod-is = rw (mod-eq-sub-div-mul a b) (rw div-is (omega arith))

neg-signed : (n : ℕ) → neg_ℤ (pos n) ≡ signed true n
neg-signed zero = refl
neg-signed (suc n) = ground arith

is_true-nonzero : (b : ℤ) (r : ℕ) → r < abs b → is_true b ≡ true
unfolding is_true
is_true-nonzero (pos n) r low = ground arith
is_true-nonzero (negsuc n) r low = refl

quot_ℤ-signed :
    (a b : ℤ) (q r : ℕ)
    → abs a ≡ q * abs b + r
    → r < abs b
    → quot_ℤ a b ≡ signed (differ (negative a) (negative b)) q
quot_ℤ-signed (pos m) (pos n) q r e low = ap pos (div-is q r n m e low)
quot_ℤ-signed (pos m) (negsuc n) q r e low =
    ap (λ k. neg_ℤ (pos k)) (div-is q r (suc n) m e low) ∙ neg-signed q
quot_ℤ-signed (negsuc m) (pos n) q r e low =
    ap (λ k. neg_ℤ (pos k)) (div-is q r n (suc m) e low) ∙ neg-signed q
quot_ℤ-signed (negsuc m) (negsuc n) q r e low = ap pos (div-is q r (suc n) (suc m) e low)

rem_ℤ-signed :
    (a b : ℤ) (q r : ℕ) → abs a ≡ q * abs b + r → r < abs b → rem_ℤ a b ≡ signed (negative a) r
rem_ℤ-signed (pos m) (pos n) q r e low =
    ap (λ k. pos (m % k)) (plus_zero n) ∙ ap pos (mod-is q r n m e low)
rem_ℤ-signed (pos m) (negsuc n) q r e low =
    ap (λ k. pos (m % k)) (zero_plus (suc n)) ∙ ap pos (mod-is q r (suc n) m e low)
rem_ℤ-signed (negsuc m) (pos n) q r e low =
    ap (λ k. neg_ℤ (pos (suc m % k))) (plus_zero n)
    ∙ ap (λ k. neg_ℤ (pos k)) (mod-is q r n (suc m) e low)
    ∙ neg-signed r
rem_ℤ-signed (negsuc m) (negsuc n) q r e low =
    ap (λ k. neg_ℤ (pos (suc m % k))) (zero_plus (suc n))
    ∙ ap (λ k. neg_ℤ (pos k)) (mod-is q r (suc n) (suc m) e low)
    ∙ neg-signed r

is_true-nonzero_iff : (a : ℤ) → (a ≢ pos 0 → is_true a ≡ true) × (a ≡ pos 0 → is_true a ≡ false)
unfolding is_true
is_true-nonzero_iff (pos zero) = (λ n. absurd (n refl), λ e. refl)
is_true-nonzero_iff (pos (suc n)) = (λ h. ground arith, λ e. absurd cc)
is_true-nonzero_iff (negsuc n) = (λ h. refl, λ e. absurd cc)

nonzero : (a : ℤ) → is_true a ≡ true → a ≢ pos 0
unfolding is_true
nonzero a h e = let clash = rw e at h in absurd cc

eq-true : (x y : ℕ) → x ≡ y → (x == y) ≡ true
eq-true x y e = ground arith

eq-false : (x y : ℕ) → x ≢ y → (x == y) ≡ false
eq-false x y n = ground arith

same_pattern : (a b : ℤ) → a ≡ b → (to_u64 a == to_u64 b) ≡ true
same_pattern a b e = eq-true (to_u64 a) (to_u64 b) (ap to_u64 e)

other_pattern : (a b : ℤ) → InRange a → InRange b → a ≢ b → (to_u64 a == to_u64 b) ≡ false
unfolding wrap
other_pattern a b ha hb n =
    eq-false (to_u64 a) (to_u64 b)
      (λ e. n (sym (wrap-InRange a ha) ∙ ap from_u64 e ∙ wrap-InRange b hb))

-- The program's operations give the results of C where it has them.
meaning-Gives :
    {o : Binary} {a b c : ℤ} → InRange a → InRange b → InRange c → Gives o a b c → meaning o a b ≡ c
unfolding mul_long div_long rem_long add_long sub_long shl_long shr_long of_bool is_true ◌+ℤ◌ ◌-ℤ◌
meaning-Gives {c = c} ha hb hc (product e) = ap wrap (sub_ℕ-is _ _ c (e)) ∙ wrap-InRange c hc
meaning-Gives {a = a} {b = b} ha hb hc (quotient q r e low) =
    rw (is_true-nonzero b r low) (ap wrap (quot_ℤ-signed a b q r e low) ∙ wrap-InRange _ hc)
meaning-Gives {a = a} {b = b} ha hb hc (remainder q r e low fits) =
    rw (is_true-nonzero b r low) (rem_ℤ-signed a b q r e low)
meaning-Gives ha hb hc div_by_zero = refl
meaning-Gives ha hb hc rem_by_zero = refl
meaning-Gives {c = c} ha hb hc (sum e) = ap wrap (sub_ℕ-is _ _ c (e)) ∙ wrap-InRange c hc
meaning-Gives {a = a} {b = b} {c = c} ha hb hc (difference e) =
    ap wrap (sub_ℕ-is _ _ c (omega arith)) ∙ wrap-InRange c hc
meaning-Gives ha hb hc (shifted_left m n few) =
    let count : n % 2 ^ 64 % 64 ≡ n = omega arith in
    let small : m % 2 ^ 64 ≡ m = omega arith in
    ap (λ j. from_u64 (m % 2 ^ 64 * 2 ^ j % 2 ^ 64)) count
    ∙ ap (λ j. from_u64 (j * 2 ^ n % 2 ^ 64)) small
    ∙ pattern-InRange (pos (m * 2 ^ n)) _ hc refl
meaning-Gives ha hb hc (shifted_right m n q r few e low) =
    let count : n % 2 ^ 64 % 64 ≡ n = omega arith in
    ap (λ j. pos (m / 2 ^ j)) count ∙ ap pos (div-is q r (2 ^ n) m e low)
meaning-Gives ha hb hc (shifted_negative m n q r few e low) =
    let count : n % 2 ^ 64 % 64 ≡ n = omega arith in
    ap (λ j. negsuc (m / 2 ^ j)) count ∙ ap negsuc (div-is q r (2 ^ n) m e low)
meaning-Gives {a = a} {b = b} {c = c} ha hb hc (less t) =
    of_bool-Truth (Less a b) _ c t (λ p. ground arith) (λ p. ground arith)
meaning-Gives {a = a} {b = b} {c = c} ha hb hc (greater t) =
    of_bool-Truth (Less b a) _ c t (λ p. ground arith) (λ p. ground arith)
meaning-Gives {a = a} {b = b} {c = c} ha hb hc (at_most t) =
    of_bool-Truth (¬ Less b a) _ c t (λ p. ground arith) (λ p. ground arith)
meaning-Gives {a = a} {b = b} {c = c} ha hb hc (at_least t) =
    of_bool-Truth (¬ Less a b) _ c t (λ p. ground arith) (λ p. ground arith)
meaning-Gives {a = a} {b = b} {c = c} ha hb hc (equal t) =
    of_bool-Truth (a ≡ b) _ c t (same_pattern a b) (other_pattern a b ha hb)
meaning-Gives {a = a} {b = b} {c = c} ha hb hc (unequal t) =
    of_bool-Truth (a ≢ b) _ c t (λ n. ap not (other_pattern a b ha hb n))
      (λ n. elim (Bool-cases (to_u64 a == to_u64 b)) [
        | inl e ↦ ap not e
        | inr d ↦ absurd (n (λ s. let clash = same_pattern a b s in absurd cc))
      ])
meaning-Gives {c = c} ha hb hc (bits_and e) = pattern-InRange c _ hc e
meaning-Gives {c = c} ha hb hc (bits_xor e) = pattern-InRange c _ hc e
meaning-Gives {c = c} ha hb hc (bits_or e) = pattern-InRange c _ hc e
meaning-Gives {a = a} {b = b} {c = c} ha hb hc (both t) =
    of_bool-Truth _ _ c t (λ (p, q). rw ((is_true-nonzero_iff a).0 p) ((is_true-nonzero_iff b).0 q))
      (λ h. elim (Bool-cases (is_true a)) [
        | inr fa ↦ rw fa refl
        | inl ta ↦ elim (Bool-cases (is_true b)) [
          | inl tb ↦ absurd (h (nonzero a ta, nonzero b tb))
          | inr fb ↦ rw ta fb
        ]
      ])
meaning-Gives {a = a} {b = b} {c = c} ha hb hc (either t) =
    of_bool-Truth _ _ c t
      (λ s. elim s [
        | inl p ↦ rw ((is_true-nonzero_iff a).0 p) refl
        | inr q ↦ elim (Bool-cases (is_true a)) [
          | inl ta ↦ rw ta refl
          | inr fa ↦ rw fa ((is_true-nonzero_iff b).0 q)
        ]
      ])
      (λ h. elim (Bool-cases (is_true a)) [
        | inl ta ↦ absurd (h (inl (nonzero a ta)))
        | inr fa ↦ elim (Bool-cases (is_true b)) [
          | inl tb ↦ absurd (h (inr (nonzero b tb)))
          | inr fb ↦ rw fa fb
        ]
      ])

complement-is : (a c : ℤ) → IsSum a c (negsuc 0) → complement_long a ≡ c
unfolding complement_long
complement-is (pos n) (pos k) e = absurd (omega arith)
complement-is (pos n) (negsuc k) e = ap negsuc (omega arith)
complement-is (negsuc n) (pos k) e = ap pos (omega arith)
complement-is (negsuc n) (negsuc k) e = absurd (omega arith)

unary_meaning-UnaryGives :
    {u : Unary} {a c : ℤ} → InRange a → InRange c → UnaryGives u a c → unary_meaning u a ≡ c
unfolding not_long neg_long of_bool is_true
unary_meaning-UnaryGives {a = a} {c = c} ha hc (is_zero t) =
    of_bool-Truth _ _ c t (λ e. ap not ((is_true-nonzero_iff a).1 e))
      (λ n. ap not ((is_true-nonzero_iff a).0 n))
unary_meaning-UnaryGives {a = a} {c = c} ha hc (complement e) = complement-is a c e
unary_meaning-UnaryGives {a = a} {c = c} ha hc (opposite e) =
    ap wrap (sub_ℕ-is (neg_part a) (pos_part a) c (omega arith)) ∙ wrap-InRange c hc
unary_meaning-UnaryGives ha hc same = refl

escape_value-small : (e : EscapeChar) → escape_value e < 128
escape_value-small nul = omega arith
escape_value-small newline = omega arith
escape_value-small tab = omega arith
escape_value-small backslash = omega arith
escape_value-small quote = omega arith

pub value-Denotes :
    (strtol : Bytes → ℤ) {e : Expr} {v : ℤ} → Denotes strtol e v → (value strtol e ≡ v) × InRange v
unfolding value
value-Denotes strtol (of_number fits) = (refl, fits)
value-Denotes strtol (of_character small) = (refl, (omega arith, omega arith))
value-Denotes strtol (of_escaped {e = e}) =
    let small = escape_value-small e in (refl, (omega arith, omega arith))
value-Denotes strtol (of_unary {u = u} d g fits) =
    let (same_value, ha) = value-Denotes strtol d in
    (ap (unary_meaning u) same_value ∙ unary_meaning-UnaryGives ha fits g, fits)
value-Denotes strtol (of_binary {o = o} {y = y} {a = a} d d' g fits) =
    let (left, ha) = value-Denotes strtol d in
    let (right, hb) = value-Denotes strtol d' in
    (
      ap (λ z. meaning o z (value strtol y)) left
          ∙ ap (λ z. meaning o a z) right
          ∙ meaning-Gives ha hb fits g,
      fits,
    )
