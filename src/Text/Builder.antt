-- ===== src/Text/Builder.antt =====
-- The appends of the builder of src/common.c: the text and the room in the buffer.
use b1cc.Common.{
  ℕ, zero, sym, append-nil, suc, ◌+◌, ◌≤◌, ◌<◌, ◌≡◌, ◌⊎◌, inl, inr, refl, ◌==◌, if◌then◌else◌,
  Bool-cases, some, [], ◌∷◌, ◌++◌, arith, length, length-append, take, Bytes,
}
use b1cc.Text.{StringBuilder, sb_append, sb_append_n, sb_append_char, grow}

-- No buffer and no text, or room for the text and a zero behind it.
abbrev HasRoom : StringBuilder → Type 0
HasRoom sb = (sb.text ≡ []) ⊎ (length sb.text < sb.cap)

-- What an append does: the bytes are behind the text, and there is room.
abbrev Appended : StringBuilder → Bytes → StringBuilder → Type 0
Appended sb s r = (r.text ≡ sb.text ++ s) × HasRoom r

grow-le : (sb : StringBuilder) (needed : ℕ) → needed ≤ grow sb needed
unfolding grow
grow-le sb needed = ground arith

taken : (n : ℕ) (s : Bytes) → n ≤ length s → length (take n s) ≡ n
taken zero s le = refl
taken (suc n) [] le = absurd (omega arith)
taken (suc n) (c ∷ s) le = let ih = taken n s (omega arith) in omega arith

-- Every operation of the builder keeps room for its text and the terminating zero, and appends
-- what it is given: the string, the first `n` bytes of a string that has as many, or the byte.
sb_append-Appended :
    (sb : StringBuilder) (s : Bytes) (n c : ℕ)
    → HasRoom sb
    → n ≤ length s
    → Appended sb s (sb_append sb (some s))
      × Appended sb (take n s) (sb_append_n sb (some s) n)
      × Appended sb (c ∷ []) (sb_append_char sb c)
unfolding sb_append sb_append_n sb_append_char
sb_append-Appended sb s n c room le = (
  (refl, inr (omega (arith, length-append sb.text s, grow-le sb (length sb.text + length s + 1)))),
  elim (Bool-cases (n == 0)) [
    | inl none_asked ↦
        let zero_bytes : n ≡ 0 = ground arith in rw zero_bytes (sym (append-nil sb.text), room)
    | inr some_asked ↦
        rw (some_asked, if◌then◌else◌)
          (
            refl,
            inr (
                omega (
                  arith,
                  length-append sb.text (take n s),
                  taken n s le,
                  grow-le sb (length sb.text + n + 1),
                )),
          )
  ],
  (refl, inr (omega (arith, length-append sb.text (c ∷ []), grow-le sb (length sb.text + 2)))),
)
