-- ===== src/Preproc/Tokens/Split.antt =====
-- The tokens of get_expr_tokens, src/preprocessor.c, and the text.
use b1cc.Common.{
  ℕ, zero, suc, ◌≤◌, ◌<◌, ◌≡◌, refl, ◌∙◌, true, false, some, List, [], ◌∷◌, ◌++◌, arith, Bytes, inl,
  inr, Bool-cases, length, take, drop, length-drop, length-take, take-append-drop,
}
use b1cc.Common.Int.{ℤ}
use b1cc.Preproc.Expr.{eval_tokens}
use b1cc.Preproc.Expr.Total.{eval_tokens-Returns}
use b1cc.Preproc.{is_space}
use b1cc.Preproc.Tokens.{span, number_length, token_length, tokens_loop, get_expr_tokens, eval_text}

-- The tokens in their order, none of them empty, with blanks between them make up the text.
data Splits : Bytes → List Bytes → Type 0 where
  end : Splits [] []
  blank :
      {c : ℕ} {s : Bytes} {ts : List Bytes} → is_space c ≡ true → Splits s ts → Splits (c ∷ s) ts
  token : {t s : Bytes} {ts : List Bytes} → 0 < length t → Splits s ts → Splits (t ++ s) (t ∷ ts)

token_length-positive : (c : ℕ) (s : Bytes) → 0 < token_length c s
unfolding token_length number_length span
token_length-positive c [] = ground arith
token_length-positive c (d ∷ s) = ground arith

pub tokens_loop-blank :
    (n c : ℕ) (s : Bytes) → is_space c ≡ true → tokens_loop (suc n) (c ∷ s) ≡ tokens_loop n s
unfolding tokens_loop
tokens_loop-blank n c s h = rw (h, tokens_loop) refl

pub tokens_loop-token :
    (n c : ℕ) (s : Bytes) (ts : List Bytes)
    → is_space c ≡ false
    → tokens_loop n (drop (token_length c s) (c ∷ s)) ≡ some ts
    → tokens_loop (suc n) (c ∷ s) ≡ some (take (token_length c s) (c ∷ s) ∷ ts)
unfolding tokens_loop
tokens_loop-token n c s ts h e = rw (h, tokens_loop) (rw e refl)

tokens_loop-Splits :
    (n : ℕ) (s : Bytes)
    → length s ≤ n
    → (ts : List Bytes) × (tokens_loop n s ≡ some ts) × Splits s ts
unfolding tokens_loop
tokens_loop-Splits zero [] h = ([], refl, end)
tokens_loop-Splits (suc n) [] h = ([], refl, end)
tokens_loop-Splits zero (c ∷ s) h = absurd (omega arith)
tokens_loop-Splits (suc n) (c ∷ s) h = elim (Bool-cases (is_space c)) [
  | inl space ↦
      let (ts, e, splits) = tokens_loop-Splits n s (omega arith) in
      (ts, tokens_loop-blank n c s space ∙ e, blank space splits)
  | inr solid ↦
      let width = token_length c s in
      let some_width = token_length-positive c s in
      let rest = length-drop width (c ∷ s) in
      let (ts, e, splits) = tokens_loop-Splits n (drop width (c ∷ s)) (omega arith) in
      let whole = take-append-drop width (c ∷ s) in
      let first = length-take width (c ∷ s) in
      let parts : Splits (take width (c ∷ s) ++ drop width (c ∷ s)) (take width (c ∷ s) ∷ ts) =
        token (omega arith) splits in
      (take width (c ∷ s) ∷ ts, tokens_loop-token n c s ts solid e, rw whole at parts)
]

-- get_expr_tokens returns on every text, and its tokens split the text: none is empty, and what lies
-- between them is blank.
get_expr_tokens-Splits :
    (s : Bytes) → (ts : List Bytes) × (get_expr_tokens s ≡ some ts) × Splits s ts
unfolding get_expr_tokens
get_expr_tokens-Splits s = tokens_loop-Splits (length s) s (omega arith)

-- What the two halves give together.
pub eval_text-tokens :
    (strtol : Bytes → ℤ) (s : Bytes) (ts r : List Bytes) (v : ℤ)
    → get_expr_tokens s ≡ some ts
    → eval_tokens strtol ts ≡ some (v, r)
    → eval_text strtol s ≡ some v
unfolding eval_text
eval_text-tokens strtol s ts r v e g = rw (e, eval_text) (rw g refl)

-- Every text has a value: the fuel of the tokenizer and of the evaluator is enough.
pub eval_text-returns : (strtol : Bytes → ℤ) (s : Bytes) → (v : ℤ) × (eval_text strtol s ≡ some v)
eval_text-returns strtol s =
    let (ts, e, splits) = get_expr_tokens-Splits s in
    let (v, r, g, short) = eval_tokens-Returns strtol ts in
    (v, eval_text-tokens strtol s ts r v e g)
