-- ===== src/Lexer/Rounds.antt =====
-- Rounds of the lexer's loop with as much fuel as the text is long.
use b1cc.Common.{
  ℕ, zero, suc, ◌≤◌, ◌≡◌, refl, ap, ◌∙◌, some, [], ◌∷◌, ◌++◌, ◌==◌, if◌then◌else◌, arith, inl, inr,
  Bool-cases, length, take, drop, length-drop, Bytes, codes,
}
use b1cc.Lexer.Scan.{pass, token, refuse}
use b1cc.Arrays.{Token}
use b1cc.Lexer.{
  Pos, Lexed, lexed, failed, LexContext, advance, token_at, push_token, step, lex_loop,
}

pub advance-append :
    (s : Bytes) (p : Pos) (t : Bytes) → advance p (s ++ t) ≡ advance (advance p s) t
unfolding advance
advance-append [] p t = refl
advance-append (c ∷ s) p t = elim (Bool-cases (c == 10)) [
  | inl e ↦ rw (e, if◌then◌else◌) (advance-append s _ t)
  | inr e ↦ rw (e, if◌then◌else◌) (advance-append s _ t)
]

-- A token in front of what the rest gives.
abbrev pub before : Token → Lexed → Lexed
before t (lexed ts k) = lexed (t ∷ ts) k
before t (failed line col msg) = failed line col msg

push_token-before : (t : Token) (r : Lexed) → push_token t (some r) ≡ some (before t r)
unfolding push_token
push_token-before t (lexed ts k) = refl
push_token-before t (failed line col msg) = refl

module _ (ctx : LexContext) where
  -- The text is lexed with this result.
  abbrev pub Lexes : Pos → ℕ → Bytes → Lexed → Type 0
  Lexes p k s r = (n : ℕ) → length s ≤ n → lex_loop ctx n p k s ≡ some r

  pub Lexes-end : (p : Pos) (k : ℕ) → Lexes p k [] (lexed (token_at p (codes "EOF") ∷ []) k)
  unfolding lex_loop
  Lexes-end p k zero h = refl
  Lexes-end p k (suc n) h = refl

  pub Lexes-pass :
      (p : Pos) (k c w : ℕ) (s : Bytes) (r : Lexed)
      → step ctx c s ≡ pass (suc w)
      → Lexes (advance p (take (suc w) (c ∷ s))) k (drop (suc w) (c ∷ s)) r
      → Lexes p k (c ∷ s) r
  unfolding lex_loop
  Lexes-pass p k c w s r e rest zero h = absurd (omega arith)
  Lexes-pass p k c w s r e rest (suc n) h =
      rw (e, lex_loop) (rest n (omega (arith, length-drop w s)))

  pub Lexes-token :
      (p : Pos) (k c w : ℕ) (t s : Bytes) (r : Lexed)
      → step ctx c s ≡ token (suc w) t
      → Lexes (advance p (take (suc w) (c ∷ s))) k (drop (suc w) (c ∷ s)) r
      → Lexes p k (c ∷ s) (before (token_at p t) r)
  unfolding lex_loop
  Lexes-token p k c w t s r e rest zero h = absurd (omega arith)
  Lexes-token p k c w t s r e rest (suc n) h =
      rw (e, lex_loop)
        (ap (push_token (token_at p t)) (rest n (omega (arith, length-drop w s)))
          ∙ push_token-before (token_at p t) r)

  pub Lexes-refuse :
      (p : Pos) (k c : ℕ) (s msg : Bytes)
      → step ctx c s ≡ refuse msg
      → Lexes p k (c ∷ s) (failed p.line p.col msg)
  unfolding lex_loop
  Lexes-refuse p k c s msg e zero h = absurd (omega arith)
  Lexes-refuse p k c s msg e (suc n) h = rw (e, lex_loop) refl
