-- ===== src/Preproc/Source/Joined.antt =====
-- join_continuation_lines against lines and their ends.
use b1cc.Common.{
  ℕ, ◌≡◌, ◌≢◌, refl, ap, ◌∙◌, Bool, false, ◌&&◌, ◌||◌, List, [], ◌∷◌, ◌++◌, ◌==◌, arith, Bytes, All,
}
use b1cc.Preproc.Source.{join_continuation_lines}

-- How a line ends: with a newline, or with a backslash before it, which continues it.
pub data LineEnd : Type 0 where
  ended continued continued_cr : LineEnd

abbrev end_bytes : LineEnd → Bytes
end_bytes ended = 10 ∷ []
end_bytes continued = b'\\' ∷ 10 ∷ []
end_bytes continued_cr = b'\\' ∷ 13 ∷ 10 ∷ []

abbrev end_kept : LineEnd → Bytes
end_kept ended = 10 ∷ []
end_kept continued = []
end_kept continued_cr = []

-- A backslash, or one and a carriage return, at the end.
unfoldable pub ends_open : Bytes → Bool
ends_open [] = false
ends_open (c ∷ []) = c == b'\\'
ends_open (c ∷ d ∷ []) = d == b'\\' || (c == b'\\' && d == 13)
ends_open (c ∷ d ∷ e ∷ s) = ends_open (d ∷ e ∷ s)

unfoldable pub written : List (Bytes × LineEnd) → Bytes
written [] = []
written ((s, e) ∷ ls) = s ++ (end_bytes e ++ written ls)

unfoldable pub joined : List (Bytes × LineEnd) → Bytes
joined [] = []
joined ((s, e) ∷ ls) = s ++ (end_kept e ++ joined ls)

-- A line has no newline inside, and one that is not continued does not look as if it were.
abbrev pub LineOk : Bytes × LineEnd → Type 0
LineOk (s, e) = All (λ c. c ≢ 10) s × (e ≡ ended → ends_open s ≡ false)

continues : ℕ → Bytes → Bool
continues c [] = false
continues c (d ∷ []) = c == b'\\' && d == 10
continues c (d ∷ e ∷ s) = c == b'\\' && (d == 10 || (d == 13 && e == 10))

join-keep :
    (c : ℕ) (s : Bytes)
    → continues c s ≡ false
    → join_continuation_lines (c ∷ s) ≡ c ∷ join_continuation_lines s
unfolding continues join_continuation_lines
join-keep c [] h = refl
join-keep c (d ∷ []) h = rw (h, join_continuation_lines) refl
join-keep c (d ∷ e ∷ s) h =
    let one : c == b'\\' && d == 10 ≡ false = ground arith in
    let two : c == b'\\' && d == 13 && e == 10 ≡ false = ground arith in
    rw (one, join_continuation_lines) (rw two refl)

-- The bytes of a line stay, whatever its end is.
line_stays :
    (s : Bytes) (e : LineEnd) (rest : Bytes)
    → All (λ c. c ≢ 10) s
    → (e ≡ ended → ends_open s ≡ false)
    → join_continuation_lines (s ++ (end_bytes e ++ rest))
      ≡ s ++ join_continuation_lines (end_bytes e ++ rest)
unfolding continues ends_open
line_stays [] e rest ok h = refl
line_stays (c ∷ []) ended [] ok h = let plain = h refl in join-keep c (10 ∷ []) (ground arith)
line_stays (c ∷ []) ended (d ∷ rest) ok h =
    let plain = h refl in join-keep c (10 ∷ d ∷ rest) (ground arith)
line_stays (c ∷ []) continued rest ok h = join-keep c (b'\\' ∷ 10 ∷ rest) (ground arith)
line_stays (c ∷ []) continued_cr rest ok h = join-keep c (b'\\' ∷ 13 ∷ 10 ∷ rest) (ground arith)
line_stays (c ∷ d ∷ []) ended rest (p, ok) h =
    let plain = h refl in
    let q : d ≢ 10 = ok.0 in
    join-keep c (d ∷ 10 ∷ rest) (ground arith)
    ∙ ap (λ t. c ∷ t) (line_stays (d ∷ []) ended rest ok (λ e. ground arith))
line_stays (c ∷ d ∷ []) continued rest (p, ok) h =
    let q : d ≢ 10 = ok.0 in
    join-keep c (d ∷ b'\\' ∷ 10 ∷ rest) (ground arith)
    ∙ ap (λ t. c ∷ t) (line_stays (d ∷ []) continued rest ok (λ e. absurd cc))
line_stays (c ∷ d ∷ []) continued_cr rest (p, ok) h =
    let q : d ≢ 10 = ok.0 in
    join-keep c (d ∷ b'\\' ∷ 13 ∷ 10 ∷ rest) (ground arith)
    ∙ ap (λ t. c ∷ t) (line_stays (d ∷ []) continued_cr rest ok (λ e. absurd cc))
line_stays (c ∷ d ∷ f ∷ s) e rest (p, ok) h =
    let q : d ≢ 10 = ok.0 in
    let r : f ≢ 10 = ok.1.0 in
    join-keep c (d ∷ f ∷ (s ++ (end_bytes e ++ rest))) (ground arith)
    ∙ ap (λ t. c ∷ t) (line_stays (d ∷ f ∷ s) e rest ok h)

end_joins :
    (e : LineEnd) (rest : Bytes)
    → join_continuation_lines (end_bytes e ++ rest) ≡ end_kept e ++ join_continuation_lines rest
unfolding join_continuation_lines
end_joins ended [] = refl
end_joins ended (c ∷ []) = refl
end_joins ended (c ∷ d ∷ s) = refl
end_joins continued [] = refl
end_joins continued (c ∷ s) = refl
end_joins continued_cr s = refl

-- join_continuation_lines removes the ends of the lines that are continued, with or without a
-- carriage return, and nothing else.
pub join_continuation_lines-joined :
    (ls : List (Bytes × LineEnd)) → All LineOk ls → join_continuation_lines (written ls) ≡ joined ls
unfolding written joined join_continuation_lines
join_continuation_lines-joined [] ok = refl
join_continuation_lines-joined ((s, e) ∷ ls) ((plain, shut), ok) =
    line_stays s e (written ls) plain shut
    ∙ ap (λ t. s ++ t)
        (end_joins e (written ls)
          ∙ ap (λ t. end_kept e ++ t) (join_continuation_lines-joined ls ok))
