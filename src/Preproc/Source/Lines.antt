-- ===== src/Preproc/Source/Lines.antt =====
-- What the passes do to the lines.
use b1cc.Common.{
  ℕ, suc, ◌+◌, ◌≡◌, refl, false, ◌&&◌, [], ◌∷◌, ◌==◌, if◌then◌else◌, arith, Bytes, inl, inr,
  Bool-cases, ==_iff,
}
use b1cc.Preproc.Source.{
  Mode, code, in_string, in_char, in_line, in_block, Stripped, kept, unterminated, sb_emit, report,
  strip_loop, strip_comments,
}

unfoldable pub newlines : Bytes → ℕ
newlines [] = 0
newlines (c ∷ s) = if c == 10 then suc (newlines s) else newlines s

-- What is kept has as many lines as the text.
abbrev SameLines : Stripped → Bytes → Type 0
SameLines (kept t) s = newlines t ≡ newlines s
SameLines (unterminated line col) s = Unit

same_emit : (c : ℕ) (o : Stripped) (s : Bytes) → SameLines o s → SameLines (sb_emit c o) (c ∷ s)
unfolding sb_emit newlines
same_emit c (kept t) s h = ground arith
same_emit c (unterminated line col) s h = tt

-- Bytes that are no newlines come and go.
same_drop :
    (c : ℕ) (o : Stripped) (s : Bytes) → c == 10 ≡ false → SameLines o s → SameLines o (c ∷ s)
unfolding newlines
same_drop c (kept t) s e h = ground arith
same_drop c (unterminated line col) s e h = tt

same_blank : (o : Stripped) (s : Bytes) → SameLines o s → SameLines (sb_emit b' ' o) s
unfolding sb_emit newlines
same_blank (kept t) s h = h
same_blank (unterminated line col) s h = tt

strip_loop-SameLines :
    (src : Bytes) (m : Mode) (i : ℕ) (s : Bytes) → SameLines (strip_loop src m i s) s
unfolding strip_loop report newlines
strip_loop-SameLines src (in_block start) i [] = tt
strip_loop-SameLines src (in_block start) i (c ∷ []) = tt
strip_loop-SameLines src (in_block start) i (c ∷ d ∷ s) =
    elim (Bool-cases (c == b'*' && d == b'/')) [
      | inl e ↦
          rw (e, strip_loop)
            (same_drop c _ (d ∷ s) (ground arith)
              (same_drop d _ s (ground arith) (strip_loop-SameLines src code (i + 2) s)))
      | inr e ↦ elim (Bool-cases (c == 10)) [
        | inl g ↦
            let lf : c ≡ 10 = (==_iff c 10).0 g in
            rw (e, strip_loop)
              (rw g (
                rw lf (
                  same_emit 10 _ (d ∷ s)
                    (strip_loop-SameLines src (in_block start) (i + 1) (d ∷ s)))))
        | inr g ↦
            rw (e, strip_loop)
              (rw g (
                same_drop c _ (d ∷ s) g
                  (strip_loop-SameLines src (in_block start) (i + 1) (d ∷ s))))
      ]
    ]
strip_loop-SameLines src in_line i [] = refl
strip_loop-SameLines src in_line i (c ∷ s) = elim (Bool-cases (c == 10)) [
  | inl e ↦ rw (e, strip_loop) (same_emit c _ s (strip_loop-SameLines src code (i + 1) s))
  | inr e ↦ rw (e, strip_loop) (same_drop c _ s e (strip_loop-SameLines src in_line (i + 1) s))
]
strip_loop-SameLines src code i [] = refl
strip_loop-SameLines src in_string i [] = refl
strip_loop-SameLines src in_char i [] = refl
strip_loop-SameLines src code i (c ∷ []) = refl
strip_loop-SameLines src in_string i (c ∷ []) = refl
strip_loop-SameLines src in_char i (c ∷ []) = refl
strip_loop-SameLines src in_string i (c ∷ d ∷ s) = elim (Bool-cases (c == b'\\')) [
  | inl e ↦
      rw (e, strip_loop)
        (same_emit c _ (d ∷ s) (same_emit d _ s (strip_loop-SameLines src in_string (i + 2) s)))
  | inr e ↦ elim (Bool-cases (c == b'"')) [
    | inl g ↦
        rw (e, strip_loop)
          (rw g (same_emit c _ (d ∷ s) (strip_loop-SameLines src code (i + 1) (d ∷ s))))
    | inr g ↦
        rw (e, strip_loop)
          (rw g (same_emit c _ (d ∷ s) (strip_loop-SameLines src in_string (i + 1) (d ∷ s))))
  ]
]
strip_loop-SameLines src in_char i (c ∷ d ∷ s) = elim (Bool-cases (c == b'\\')) [
  | inl e ↦
      rw (e, strip_loop)
        (same_emit c _ (d ∷ s) (same_emit d _ s (strip_loop-SameLines src in_char (i + 2) s)))
  | inr e ↦ elim (Bool-cases (c == b'\'')) [
    | inl g ↦
        rw (e, strip_loop)
          (rw g (same_emit c _ (d ∷ s) (strip_loop-SameLines src code (i + 1) (d ∷ s))))
    | inr g ↦
        rw (e, strip_loop)
          (rw g (same_emit c _ (d ∷ s) (strip_loop-SameLines src in_char (i + 1) (d ∷ s))))
  ]
]
strip_loop-SameLines src code i (c ∷ d ∷ s) = elim (Bool-cases (c == b'"')) [
  | inl e ↦
      rw (e, strip_loop)
        (same_emit c _ (d ∷ s) (strip_loop-SameLines src in_string (i + 1) (d ∷ s)))
  | inr e ↦
      rw (e, strip_loop)
        (elim (Bool-cases (c == b'\'')) [
          | inl g ↦ rw g (same_emit c _ (d ∷ s) (strip_loop-SameLines src in_char (i + 1) (d ∷ s)))
          | inr g ↦ rw g (elim (Bool-cases (c == b'/' && d == b'/')) [
            | inl k ↦ rw k (
                same_drop c _ (d ∷ s) (ground arith) (
                  same_drop d _ s (ground arith)
                    (same_blank _ s (strip_loop-SameLines src in_line (i + 2) s))))
            | inr k ↦ rw k (elim (Bool-cases (c == b'/' && d == b'*')) [
              | inl l ↦ rw l (
                  same_drop c _ (d ∷ s) (ground arith) (
                    same_drop d _ s (ground arith)
                      (same_blank _ s (strip_loop-SameLines src (in_block i) (i + 2) s))))
              | inr l ↦ rw l (same_emit c _ (d ∷ s) (strip_loop-SameLines src code (i + 1) (d ∷ s)))
            ])
          ])
        ])
]

-- What strip_comments keeps has as many newlines as the source.
strip_comments-newlines : (src t : Bytes) → strip_comments src ≡ kept t → newlines t ≡ newlines src
unfolding strip_comments
strip_comments-newlines src t e = let same = strip_loop-SameLines src code 0 src in rw e at same
