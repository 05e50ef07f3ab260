-- ===== src/Preproc/Expr/Correct.antt =====
-- The evaluator reads the tokens of an expression as that expression.
use b1cc.Common.{
  ℕ, zero, suc, ◌-◌, ◌<◌, ◌≡◌, ◌≢◌, ◌⊎◌, refl, sym, ap, ◌∙◌, true, false, some, [], ◌∷◌, ◌++◌,
  append_assoc, append-nil, arith, Bytes, codes, str_eq, inl, inr, Bool-cases, length,
  length-append, ltb, ltb→lt, ==_iff, ◌==◌, take, take-all,
}
use b1cc.Common.Int.{ℤ, pos}
use b1cc.Preproc.Expr.{
  Tokens, skip_close, ep_peek, ep_take, ep_primary, left_loop, eval_tokens, strip_suffix,
  starts_number, starts_quote, char_value,
}
use b1cc.Preproc.Expr.Syntax.{
  Expr, number, character, escaped, unary, binary, Binary, Unary, not_op, complement_op, neg_op,
  plus_op, nul, newline, tab, backslash, quote, EscapeChar, escape_value, precedence, binary_text,
  meaning, parenthesized, print, value, unary_text, unary_meaning, WellFormed, is_number,
  ends_plain, all_suffix,
}
use b1cc.Preproc.Expr.Levels.{
  op_at, parse, stops, stops-le, stops_below, op_at-precedence, stops-precedence, precedence-bound,
  stops-close, stops-end, left_loop-stops, parse_climb, parse-level, left_loop-step,
}

-- The suffix of a number comes off, and no more.
strip_suffix-suffix : (s : Bytes) → all_suffix s ≡ true → strip_suffix s ≡ []
unfolding strip_suffix all_suffix
strip_suffix-suffix [] h = refl
strip_suffix-suffix (c ∷ s) h =
    let e = strip_suffix-suffix s (ground arith) in rw (e, strip_suffix) (ground arith)

strip_suffix-number :
    (d s : Bytes) → ends_plain d ≡ true → all_suffix s ≡ true → strip_suffix (d ++ s) ≡ d
unfolding strip_suffix ends_plain
strip_suffix-number [] s h g = strip_suffix-suffix s g
strip_suffix-number (c ∷ []) s h g = rw (strip_suffix-suffix s g, strip_suffix) (ground arith)
strip_suffix-number (c ∷ d ∷ t) s h g = rw (strip_suffix-number (d ∷ t) s h g)

print-open :
    (k : ℕ) (o : Binary) (a b : Expr) (r : Tokens)
    → ltb (precedence o) k ≡ true
    → print k (binary o a b) ++ r
      ≡ print (suc (precedence o)) a ++ (binary_text o ∷ (print (precedence o) b ++ r))
unfolding print
print-open k o a b r h =
    rw (h, parenthesized)
      (append_assoc (print (suc (precedence o)) a) (binary_text o ∷ print (precedence o) b) r)

print-closed :
    (k : ℕ) (o : Binary) (a b : Expr) (r : Tokens)
    → ltb (precedence o) k ≡ false
    → print k (binary o a b) ++ r
      ≡ codes "("
        ∷ (print (suc (precedence o)) a
            ++ (binary_text o ∷ (print (precedence o) b ++ (codes ")" ∷ r))))
unfolding print
print-closed k o a b r h =
    let left = print (suc (precedence o)) a in
    let right = print (precedence o) b in
    rw (h, parenthesized)
      (ap (λ ts. codes "(" ∷ ts)
        (append_assoc (left ++ (binary_text o ∷ right)) (codes ")" ∷ []) r
          ∙ append_assoc left (binary_text o ∷ right) (codes ")" ∷ r)))

print-same :
    (k : ℕ) (o : Binary) (a b : Expr)
    → ltb (precedence o) (suc k) ≡ ltb (precedence o) k
    → print (suc k) (binary o a b) ≡ print k (binary o a b)
unfolding print
print-same k o a b e =
    ap
      (λ c.
        parenthesized c (print (suc (precedence o)) a ++ (binary_text o ∷ print (precedence o) b)))
      e

module _ (strtol : Bytes → ℤ) where
  -- With fuel `n` the level `k` reads `v` and leaves `r`.
  abbrev Reads : ℕ → ℕ → Tokens → ℤ → Tokens → Type 0
  Reads n k ts v r = parse (ep_primary strtol n) n k ts ≡ some (v, r)

  -- The level above `k` gets to its loop with `v` read and enough fuel left.
  abbrev Chains : ℕ → ℕ → Tokens → ℤ → Tokens → Type 0
  Chains n k ts v r =
      (f : ℕ) × (length r < f)
      × (parse (ep_primary strtol n) n (suc k) ts
          ≡ left_loop (op_at k) (parse (ep_primary strtol n) n k) f v r)

  ReadsAll : Expr → Type 0
  ReadsAll e =
      (n k : ℕ) (r : Tokens)
      → length (print k e ++ r) < n
      → stops k (ep_peek r) ≡ true
      → Reads n k (print k e ++ r) (value strtol e) r

  ChainsAll : Expr → Type 0
  ChainsAll e =
      (n k : ℕ) (r : Tokens)
      → length (print (suc k) e ++ r) < n
      → stops k (ep_peek r) ≡ true
      → Chains n k (print (suc k) e ++ r) (value strtol e) r

  -- An expression that starts with no operator of the level reads alike on both.
  Chains-of_Reads :
      (n k : ℕ) (ts r : Tokens) (v : ℤ) → length r < n → Reads n k ts v r → Chains n k ts v r
  Chains-of_Reads n k ts r v h e = (n, h, parse-level (ep_primary strtol n) n k ts r v e)

  -- A left operand, an operator and a right operand.
  Chains-binary :
      (o : Binary) (a b : Expr)
      → ChainsAll a
      → ReadsAll b
      → (n : ℕ) (r : Tokens)
      → length (print (suc (precedence o)) a ++ binary_text o ∷ (print (precedence o) b ++ r)) < n
      → stops (precedence o) (ep_peek r) ≡ true
      → Chains n
          (precedence o)
          (print (suc (precedence o)) a ++ binary_text o ∷ (print (precedence o) b ++ r))
          (value strtol (binary o a b))
          r
  unfolding ChainsAll ReadsAll value ep_peek
  Chains-binary o a b chain read n r h stop =
      let k = precedence o in
      let (fuel, long, e) = chain n k (binary_text o ∷ (print k b ++ r)) h (stops-precedence o) in
      let operand =
        read n k r
          (omega (arith, length-append (print (suc k) a) (binary_text o ∷ (print k b ++ r))))
          stop in
      let short = length-append (print k b) r in
      (
        fuel - 1,
        omega arith,
        e
            ∙ left_loop-step k (parse (ep_primary strtol n) n k) fuel (value strtol a)
                (value strtol b) (binary_text o) (print k b ++ r) r (meaning o) (omega arith)
                (op_at-precedence o) operand,
      )

  -- From its own level, a binary expression reads alike on every level above.
  Reads-open :
      (o : Binary) (a b : Expr)
      → ChainsAll a
      → ReadsAll b
      → (n k : ℕ) (r : Tokens) → precedence o < k
      → length (print (suc (precedence o)) a ++ binary_text o ∷ (print (precedence o) b ++ r)) < n
      → stops k (ep_peek r) ≡ true
      → Reads n k
          (print (suc (precedence o)) a ++ binary_text o ∷ (print (precedence o) b ++ r))
          (value strtol (binary o a b))
          r
  Reads-open o a b chain read n k r p h stop =
      let own = stops-le k (suc (precedence o)) (ep_peek r) (omega arith) stop in
      let (f, long, e) =
        Chains-binary o a b chain read n r h (stops_below (precedence o) (ep_peek r) own) in
      parse_climb (ep_primary strtol n) n (suc (precedence o)) k _ r _ (omega arith) (omega arith)
        (e
          ∙ left_loop-stops (precedence o) (parse (ep_primary strtol n) n (precedence o)) f _ r
              (omega arith) own)
        stop

  -- In parentheses, it reads as a primary expression.
  primary_closed :
      (o : Binary) (a b : Expr)
      → ChainsAll a
      → ReadsAll b
      → (n : ℕ) (r : Tokens)
      → length (
          codes "("
          ∷ (print (suc (precedence o)) a
              ++ (binary_text o ∷ (print (precedence o) b ++ (codes ")" ∷ r)))))
        < n
      → Reads n 0
          (codes "("
            ∷ (print (suc (precedence o)) a
                ++ (binary_text o ∷ (print (precedence o) b ++ (codes ")" ∷ r)))))
          (value strtol (binary o a b))
          r
  unfolding parse ep_primary ep_peek ep_take str_eq
  primary_closed o a b chain read zero r h = absurd (omega arith)
  primary_closed o a b chain read (suc n) r h =
      let inner =
        Reads-open o a b chain read n 10 (codes ")" ∷ r) (precedence-bound o) (omega arith)
          stops-close in
      rw (inner, skip_close) refl

  -- What reads as a primary expression.
  leaf :
      (n : ℕ) (t : Bytes) (r : Tokens) (v : ℤ)
      → 0 < n
      → str_eq t (codes "(") ≡ false
      → (starts_number t ≡ true) × (strtol (strip_suffix (take 127 t)) ≡ v)
        ⊎ (starts_number t ≡ false) × (starts_quote t ≡ true) × (char_value t ≡ v)
      → Reads n 0 (t ∷ r) v r
  unfolding parse ep_primary ep_peek ep_take
  leaf zero t r v p h c = absurd (omega arith)
  leaf (suc n) t r v p h (inl (digit, e)) =
      rw (h, ep_primary) (rw (digit, ep_primary) (ap (λ w. some (w, r)) e))
  leaf (suc n) t r v p h (inr (other, quoted, e)) =
      rw (h, ep_primary)
        (rw (other, ep_primary) (rw (quoted, ep_primary) (ap (λ w. some (w, r)) e)))

  number_leaf :
      (n : ℕ) (digits suffix : Bytes) (r : Tokens)
      → 0 < n
      → WellFormed (number digits suffix)
      → Reads n 0 ((digits ++ suffix) ∷ r) (strtol digits) r
  unfolding WellFormed is_number str_eq starts_number
  number_leaf n [] suffix r p (first, last, ends, bound) = absurd cc
  number_leaf n (c ∷ d) suffix r p (first, last, ends, bound) =
      let whole = take-all 127 (c ∷ (d ++ suffix)) (omega arith) in
      leaf n (c ∷ (d ++ suffix)) r (strtol (c ∷ d)) p (ground arith) (
        inl (
          ground arith,
          ap strtol (ap strip_suffix whole ∙ strip_suffix-number (c ∷ d) suffix last ends),
        ))

  character_leaf :
      (n c : ℕ) (r : Tokens)
      → 0 < n
      → c ≢ b'\\'
      → Reads n 0 ((b'\'' ∷ c ∷ b'\'' ∷ []) ∷ r) (pos c) r
  unfolding starts_number starts_quote str_eq char_value
  character_leaf n c r p ne =
      leaf n (b'\'' ∷ c ∷ b'\'' ∷ []) r (pos c) p refl (inr (refl, refl, ground arith))

  escaped_leaf :
      (n : ℕ) (e : EscapeChar) (r : Tokens)
      → 0 < n
      → Reads n 0 (print 0 (escaped e) ++ r) (pos (escape_value e)) r
  unfolding starts_number starts_quote str_eq char_value print
  escaped_leaf n nul r p = leaf n _ r _ p refl (inr (refl, refl, refl))
  escaped_leaf n newline r p = leaf n _ r _ p refl (inr (refl, refl, refl))
  escaped_leaf n tab r p = leaf n _ r _ p refl (inr (refl, refl, refl))
  escaped_leaf n backslash r p = leaf n _ r _ p refl (inr (refl, refl, refl))
  escaped_leaf n quote r p = leaf n _ r _ p refl (inr (refl, refl, refl))

  unary_step :
      (u : Unary) (n : ℕ) (ts r : Tokens) (v : ℤ)
      → Reads n 0 ts v r
      → Reads (suc n) 0 (unary_text u ∷ ts) (unary_meaning u v) r
  unfolding parse ep_primary ep_peek ep_take str_eq starts_number starts_quote
  unary_step not_op n ts r v e = rw e refl
  unary_step complement_op n ts r v e = rw e refl
  unary_step neg_op n ts r v e = rw e refl
  unary_step plus_op n ts r v e = e

  Chains-same :
      (e : Expr)
      → ReadsAll e
      → (n k : ℕ) (r : Tokens) → print (suc k) e ≡ print k e
      → length (print (suc k) e ++ r) < n
      → stops k (ep_peek r) ≡ true
      → Chains n k (print (suc k) e ++ r) (value strtol e) r
  unfolding ReadsAll
  Chains-same e reads n k r same h stop =
      let shorter = rw same at h in
      let read = reads n k r shorter stop in
      let total = length-append (print (suc k) e) r in
      rw same (Chains-of_Reads n k (print k e ++ r) r (value strtol e) (omega arith) read)

  -- A primary expression reads alike on every level.
  from_primary :
      (e : Expr)
      → ((k : ℕ) → print k e ≡ print 0 e)
      → ((n : ℕ) (r : Tokens)
          → length (print 0 e ++ r) < n
          → Reads n 0 (print 0 e ++ r) (value strtol e) r)
      → ReadsAll e × ChainsAll e
  unfolding ReadsAll ChainsAll
  from_primary e same primary =
      (reads, λ n k r h stop. Chains-same e reads n k r (same (suc k) ∙ sym (same k)) h stop)
    where
      reads : ReadsAll e
      reads n k r h stop =
          let shorter = rw (same k) at h in
          rw (same k) (
            parse_climb (ep_primary strtol n) n 0 k (print 0 e ++ r) r (value strtol e)
              (omega arith) (omega arith) (primary n r shorter) stop)

  ReadsAll-binary : (o : Binary) (a b : Expr) → ChainsAll a → ReadsAll b → ReadsAll (binary o a b)
  unfolding ReadsAll
  ReadsAll-binary o a b chain read n k r h stop = elim (Bool-cases (ltb (precedence o) k)) [
    | inl opened ↦
        let e = print-open k o a b r opened in
        let bound = rw e at h in
        rw e (Reads-open o a b chain read n k r (ltb→lt (precedence o) k opened) bound stop)
    | inr closed ↦
        let e = print-closed k o a b r closed in
        let bound = rw e at h in
        rw e (
          parse_climb (ep_primary strtol n) n 0 k _ r (value strtol (binary o a b)) (omega arith)
            (omega arith) (primary_closed o a b chain read n r bound) stop)
  ]

  ChainsAll-binary : (o : Binary) (a b : Expr) → ChainsAll a → ReadsAll b → ChainsAll (binary o a b)
  unfolding ChainsAll
  ChainsAll-binary o a b chain read n k r h stop = elim (Bool-cases (ltb k (precedence o))) [
    | inl above ↦ same (ground arith)
    | inr reached ↦ elim (Bool-cases (precedence o == k)) [
      | inl here ↦
          let own : precedence o ≡ k = (==_iff (precedence o) k).0 here in
          let e = print-open (suc k) o a b r (ground arith) in
          let bound = rw e at h in
          rw e (rw (← own) (Chains-binary o a b chain read n r bound (rw (← own) at stop)))
      | inr below ↦ same (ground arith)
    ]
  ]
    where
      same :
          ltb (precedence o) (suc k) ≡ ltb (precedence o) k
          → Chains n k (print (suc k) (binary o a b) ++ r) (value strtol (binary o a b)) r
      same e =
          Chains-same (binary o a b) (ReadsAll-binary o a b chain read) n k r (print-same k o a b e)
            h stop

  unary_all :
      (u : Unary) (a : Expr)
      → ReadsAll a
      → (n : ℕ) (r : Tokens) → length (print 0 (unary u a) ++ r) < n
      → Reads n 0 (print 0 (unary u a) ++ r) (value strtol (unary u a)) r
  unfolding ReadsAll print value stops
  unary_all u a read zero r h = absurd (omega arith)
  unary_all u a read (suc n) r h =
      unary_step u n (print 0 a ++ r) r (value strtol a) (read n 0 r (omega arith) refl)

  correct : (e : Expr) → WellFormed e → ReadsAll e × ChainsAll e
  unfolding WellFormed print value
  correct (number digits suffix) w =
      from_primary (number digits suffix) (λ k. refl)
        (λ n r h. number_leaf n digits suffix r (omega arith) w)
  correct (character c) w =
      from_primary (character c) (λ k. refl) (λ n r h. character_leaf n c r (omega arith) w)
  correct (escaped e) w =
      from_primary (escaped e) (λ k. refl) (λ n r h. escaped_leaf n e r (omega arith))
  correct (unary u a) w = from_primary (unary u a) (λ k. refl) (unary_all u a (correct a w).0)
  correct (binary o a b) (wa, wb) =
      let chain = (correct a wa).1 in
      let read = (correct b wb).0 in
      (ReadsAll-binary o a b chain read, ChainsAll-binary o a b chain read)

-- The evaluator takes the tokens of a well-formed expression for the value of the expression and
-- uses all of them.
pub eval_tokens-print :
    (strtol : Bytes → ℤ) (e : Expr)
    → WellFormed e
    → eval_tokens strtol (print 10 e) ≡ some (value strtol e, [])
unfolding eval_tokens parse ReadsAll ep_peek
eval_tokens-print strtol e w =
    let nil = append-nil (print 10 e) in
    let read =
      (correct strtol e w).0 (suc (length (print 10 e))) 10 [] (omega (arith, ap length nil))
        stops-end in
    rw nil at read
