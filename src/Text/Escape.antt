-- ===== src/Text/Escape.antt =====
-- What escape_asm_string leaves: a literal that means the same, without the escapes of C that the
-- assembler does not know.
use b1cc.Common.{
  ℕ, ◌≡◌, refl, sym, ap, ◌∙◌, ◌==◌, ◌||◌, Bool, true, false, if◌then◌else◌, Bool-cases, inl, inr,
  [], ◌∷◌, ◌++◌, append_assoc, append-nil, arith, Bytes,
}
use b1cc.Text.{StringBuilder, sb_init, sb_append_char, escape_loop, escape_asm_string}

-- The bytes that the loop appends.
escaped : Bytes → Bytes
escaped [] = []
escaped (c ∷ []) = c ∷ []
escaped (c ∷ next ∷ s) =
    let pair = escaped s in
    let single = escaped (next ∷ s) in
    if c == b'\\'
    then (if next == b'\'' || next == b'?' then next ∷ pair else b'\\' ∷ next ∷ pair)
    else c ∷ single

escape_loop-escaped :
    (s : Bytes) (sb : StringBuilder) → (escape_loop sb s).text ≡ sb.text ++ escaped s
unfolding escape_loop escaped sb_append_char
escape_loop-escaped [] sb = sym (append-nil sb.text)
escape_loop-escaped (c ∷ []) sb = refl
escape_loop-escaped (c ∷ next ∷ s) sb = elim (Bool-cases (c == b'\\')) [
  | inr plain ↦
      rw (plain, if◌then◌else◌)
        (escape_loop-escaped (next ∷ s) (sb_append_char sb c)
          ∙ append_assoc sb.text (c ∷ []) (escaped (next ∷ s)))
  | inl slash ↦ elim (Bool-cases (next == b'\'' || next == b'?')) [
    | inl bare ↦
        rw (slash, if◌then◌else◌)
          (rw (bare, if◌then◌else◌)
            (escape_loop-escaped s (sb_append_char sb next)
              ∙ append_assoc sb.text (next ∷ []) (escaped s)))
    | inr kept ↦
        rw (slash, if◌then◌else◌)
          (rw (kept, if◌then◌else◌)
            (escape_loop-escaped s (sb_append_char (sb_append_char sb b'\\') next)
              ∙ append_assoc (sb.text ++ b'\\' ∷ []) (next ∷ []) (escaped s)
              ∙ append_assoc sb.text (b'\\' ∷ []) (next ∷ escaped s)))
  ]
]

-- The characters of a literal in which `esc` says what a backslash and a character stand for; a
-- backslash at the end stands for itself.
module _ (esc : ℕ → ℕ) where
  pub meaning : Bytes → Bytes
  meaning [] = []
  meaning (c ∷ []) = c ∷ []
  meaning (c ∷ next ∷ s) =
      let pair = meaning s in
      let single = meaning (next ∷ s) in if c == b'\\' then esc next ∷ pair else c ∷ single

  meaning-plain : (c : ℕ) (s : Bytes) → c == b'\\' ≡ false → meaning (c ∷ s) ≡ c ∷ meaning s
  unfolding meaning
  meaning-plain c [] plain = refl
  meaning-plain c (next ∷ s) plain = rw (plain, if◌then◌else◌)

  bare_meaning :
      (next : ℕ)
      → next == b'\'' || next == b'?' ≡ true
      → esc b'\'' ≡ b'\''
      → esc b'?' ≡ b'?'
      → esc next ≡ next
  bare_meaning next bare q m = elim (Bool-cases (next == b'\'')) [
    | inl e ↦ let same : next ≡ b'\'' = ground arith in rw same q
    | inr e ↦ let same : next ≡ b'?' = ground arith in rw same m
  ]

  meaning-escaped :
      (s : Bytes) → esc b'\'' ≡ b'\'' → esc b'?' ≡ b'?' → meaning (escaped s) ≡ meaning s
  unfolding meaning escaped
  meaning-escaped [] q m = refl
  meaning-escaped (c ∷ []) q m = refl
  meaning-escaped (c ∷ next ∷ s) q m = elim (Bool-cases (c == b'\\')) [
    | inr plain ↦
        rw (plain, if◌then◌else◌)
          (meaning-plain c (escaped (next ∷ s)) plain
            ∙ ap (λ z. c ∷ z) (meaning-escaped (next ∷ s) q m))
    | inl slash ↦ elim (Bool-cases (next == b'\'' || next == b'?')) [
      | inl bare ↦
          let plain : next == b'\\' ≡ false = ground arith in
          rw (slash, if◌then◌else◌)
            (rw (bare, if◌then◌else◌)
              (meaning-plain next (escaped s) plain
                ∙ ap (λ z. next ∷ z) (meaning-escaped s q m)
                ∙ ap (λ z. z ∷ meaning s) (sym (bare_meaning next bare q m))))
      | inr kept ↦
          rw (slash, if◌then◌else◌)
            (rw (kept, if◌then◌else◌) (ap (λ z. esc next ∷ z) (meaning-escaped s q m)))
    ]
  ]

-- No backslash escapes a quote or a question mark.
abbrev pub bare_escape : Bytes → Bool
bare_escape [] = false
bare_escape (c ∷ []) = false
bare_escape (c ∷ next ∷ s) =
    let pair = bare_escape s in
    let single = bare_escape (next ∷ s) in
    if c == b'\\' then next == b'\'' || next == b'?' || pair else single

bare_escape-plain : (c : ℕ) (s : Bytes) → c == b'\\' ≡ false → bare_escape (c ∷ s) ≡ bare_escape s
bare_escape-plain c [] plain = refl
bare_escape-plain c (next ∷ s) plain = rw (plain, bare_escape)

bare_escape-escaped : (s : Bytes) → bare_escape (escaped s) ≡ false
unfolding escaped
bare_escape-escaped [] = refl
bare_escape-escaped (c ∷ []) = refl
bare_escape-escaped (c ∷ next ∷ s) = elim (Bool-cases (c == b'\\')) [
  | inr plain ↦
      rw (plain, if◌then◌else◌)
        (bare_escape-plain c (escaped (next ∷ s)) plain ∙ bare_escape-escaped (next ∷ s))
  | inl slash ↦ elim (Bool-cases (next == b'\'' || next == b'?')) [
    | inl bare ↦
        let plain : next == b'\\' ≡ false = ground arith in
        rw (slash, if◌then◌else◌)
          (rw (bare, if◌then◌else◌)
            (bare_escape-plain next (escaped s) plain ∙ bare_escape-escaped s))
    | inr kept ↦
        rw (slash, if◌then◌else◌)
          (rw (kept, if◌then◌else◌) (ground (arith, kept, bare_escape-escaped s)))
  ]
]

-- Whatever the escapes mean, if a backslash before a quote or a question mark stands for that
-- character: the escaped literal means what the literal means, and no backslash in it stands
-- before a quote or a question mark that it escapes.
pub meaning-escape_asm_string :
    (esc : ℕ → ℕ) (s : Bytes)
    → esc b'\'' ≡ b'\''
    → esc b'?' ≡ b'?'
    → (meaning esc (escape_asm_string s) ≡ meaning esc s)
      × (bare_escape (escape_asm_string s) ≡ false)
unfolding escape_asm_string sb_init
meaning-escape_asm_string esc s q m =
    let e = escape_loop-escaped s sb_init in
    (ap (meaning esc) e ∙ meaning-escaped esc s q m, ap bare_escape e ∙ bare_escape-escaped s)
