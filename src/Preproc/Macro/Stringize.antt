-- ===== src/Preproc/Macro/Stringize.antt =====
-- What # makes of an argument is a string literal of its tokens.
use b1cc.Common.{
  ℕ, ◌≡◌, refl, sym, ap, ◌∙◌, true, false, ◌||◌, Option, none, some, List, [], ◌∷◌, ◌++◌,
  append_assoc, append-nil, ◌==◌, if◌then◌else◌, arith, Bytes, inl, inr, Bool-cases,
}
use b1cc.Preproc.Macro.{quote_text, quote_more, pp_stringize}

-- A string literal as the language reads it: the characters up to the closing quote, a backslash and
-- a character standing for the character, and what is behind the literal.
unfoldable pub before : Bytes → Option (Bytes × Bytes) → Option (Bytes × Bytes)
before s none = none
before s (some (t, rest)) = some (s ++ t, rest)

unfoldable read_chars : Bytes → Option (Bytes × Bytes)
unfolding before
read_chars [] = none
read_chars (c ∷ []) = if c == b'"' then some ([], []) else none
read_chars (c ∷ d ∷ s) = elim (c == b'"') [
  | true ↦ some ([], d ∷ s)
  | false ↦ elim (c == b'\\') [
    | true ↦ before (d ∷ []) (read_chars s)
    | false ↦ before (c ∷ []) (read_chars (d ∷ s))
  ]
]

unfoldable pub read_literal : Bytes → Option (Bytes × Bytes)
unfolding read_chars
read_literal [] = none
read_literal (c ∷ s) = if c == b'"' then read_chars s else none

-- The tokens with a blank between them.
unfoldable pub blank_join : List Bytes → Bytes
blank_join [] = []
blank_join (t ∷ []) = t
blank_join (t ∷ u ∷ ts) = t ++ b' ' ∷ blank_join (u ∷ ts)

before-append :
    (s t : Bytes) (o : Option (Bytes × Bytes)) → before s (before t o) ≡ before (s ++ t) o
unfolding before
before-append s t none = refl
before-append s t (some (u, rest)) = ap (λ v. some (v, rest)) (sym (append_assoc s t u))

before-nil : (o : Option (Bytes × Bytes)) → before [] o ≡ o
unfolding before
before-nil none = refl
before-nil (some (t, r)) = refl

read_chars-plain :
    (c : ℕ) (s : Bytes)
    → c == b'"' || c == b'\\' ≡ false
    → read_chars (c ∷ s) ≡ before (c ∷ []) (read_chars s)
unfolding read_chars before
read_chars-plain c [] h =
    let other : c == b'"' ≡ false = ground arith in rw (other, if◌then◌else◌) refl
read_chars-plain c (d ∷ s) h =
    let not_quote : c == b'"' ≡ false = ground arith in
    let not_slash : c == b'\\' ≡ false = ground arith in
    rw (not_quote, read_chars) (rw not_slash refl)

read_chars-quote : (s rest : Bytes) → read_chars (quote_text s ++ rest) ≡ before s (read_chars rest)
unfolding quote_text read_chars
read_chars-quote [] rest = sym (before-nil (read_chars rest))
read_chars-quote (c ∷ s) rest = elim (Bool-cases (c == b'"' || c == b'\\')) [
  | inl special ↦
      rw (special, if◌then◌else◌)
        (ap (before (c ∷ [])) (read_chars-quote s rest)
          ∙ before-append (c ∷ []) s (read_chars rest))
  | inr ordinary ↦
      rw (ordinary, if◌then◌else◌)
        (read_chars-plain c (quote_text s ++ rest) ordinary
          ∙ ap (before (c ∷ [])) (read_chars-quote s rest)
          ∙ before-append (c ∷ []) s (read_chars rest))
]

-- The tokens behind the first, each with a blank.
blank_more : List Bytes → Bytes
blank_more [] = []
blank_more (t ∷ ts) = b' ' ∷ (t ++ blank_more ts)

read_chars-more :
    (ts : List Bytes) (rest : Bytes)
    → read_chars (quote_more ts ++ (b'"' ∷ rest)) ≡ some (blank_more ts, rest)
unfolding quote_more blank_more read_chars before
read_chars-more [] [] = refl
read_chars-more [] (c ∷ rest) = refl
read_chars-more (t ∷ ts) rest =
    read_chars-plain b' ' ((quote_text t ++ quote_more ts) ++ (b'"' ∷ rest)) refl
    ∙ ap (λ s. before (b' ' ∷ []) (read_chars s))
        (append_assoc (quote_text t) (quote_more ts) (b'"' ∷ rest))
    ∙ ap (before (b' ' ∷ [])) (
        read_chars-quote t (quote_more ts ++ (b'"' ∷ rest))
        ∙ ap (before t) (read_chars-more ts rest))

blank_join-more : (t : Bytes) (ts : List Bytes) → blank_join (t ∷ ts) ≡ t ++ blank_more ts
unfolding blank_join blank_more
blank_join-more t [] = sym (append-nil t)
blank_join-more t (u ∷ ts) = ap (λ s. t ++ (b' ' ∷ s)) (blank_join-more u ts)

-- What # makes of the tokens of an argument reads, as a string literal, as the tokens with a blank
-- between them, whatever quotes and backslashes they have, and the literal ends where it ends.
pub read_literal-pp_stringize :
    (ts : List Bytes) (rest : Bytes)
    → read_literal (pp_stringize ts ++ rest) ≡ some (blank_join ts, rest)
unfolding read_literal pp_stringize read_chars blank_join before
read_literal-pp_stringize [] [] = refl
read_literal-pp_stringize [] (c ∷ rest) = refl
read_literal-pp_stringize (t ∷ ts) rest =
    ap read_chars (
      append_assoc (quote_text t) (quote_more ts ++ (b'"' ∷ [])) rest
      ∙ ap (λ s. quote_text t ++ s) (append_assoc (quote_more ts) (b'"' ∷ []) rest))
    ∙ read_chars-quote t (quote_more ts ++ (b'"' ∷ rest))
    ∙ ap (before t) (read_chars-more ts rest)
    ∙ ap (λ s. some (s, rest)) (sym (blank_join-more t ts))
