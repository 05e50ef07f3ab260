-- ===== src/Text.antt =====
-- The string builder and escape_asm_string of src/common.c. The builder's text is what stands
-- before the terminating zero; its length is `len`.
pub mod Builder
pub mod Escape
mod Examples
use b1cc.Common.{
  ℕ, zero, suc, ◌+◌, ◌==◌, ltb, if◌then◌else◌, ◌||◌, Option, none, some, List, [], ◌∷◌, ◌++◌,
  length, take, Bytes,
}

pub record StringBuilder : Type 0 where
  pub text : Bytes
  pub cap : ℕ

unfoldable pub sb_init : StringBuilder
sb_init = record { text = []; cap = 0 }

-- `needed > sb->cap`: the buffer is grown to `needed + 16`.
pub grow : StringBuilder → ℕ → ℕ
grow sb needed = if ltb sb.cap needed then needed + 16 else sb.cap

-- `none` is the null pointer.
unfoldable pub sb_append : StringBuilder → Option Bytes → StringBuilder
unfolding grow
sb_append sb s = elim s [
  | none ↦ sb
  | some t ↦ record { text = sb.text ++ t; cap = grow sb (length sb.text + length t + 1) }
]

-- The first `slen` bytes of `s`, which has as many.
unfoldable pub sb_append_n : StringBuilder → Option Bytes → ℕ → StringBuilder
unfolding grow
sb_append_n sb s slen = elim s [
  | none ↦ sb
  | some t ↦
      if slen == 0
      then sb
      else record { text = sb.text ++ take slen t; cap = grow sb (length sb.text + slen + 1) }
]

unfoldable pub sb_append_char : StringBuilder → ℕ → StringBuilder
unfolding grow
sb_append_char sb c = record { text = sb.text ++ c ∷ []; cap = grow sb (length sb.text + 2) }

unfoldable sb_free : StringBuilder → StringBuilder
sb_free sb = record { text = []; cap = 0 }

-- `while (i < len)`, at the bytes from `i` on
pub escape_loop : StringBuilder → Bytes → StringBuilder
unfolding sb_append_char
escape_loop sb [] = sb
escape_loop sb (c ∷ []) = sb_append_char sb c
escape_loop sb (c ∷ next ∷ s) =
    let pair =
      escape_loop
        (if next == b'\'' || next == b'?'
          then sb_append_char sb next
          else sb_append_char (sb_append_char sb b'\\') next)
        s in
    let single = escape_loop (sb_append_char sb c) (next ∷ s) in if c == b'\\' then pair else single

unfoldable pub escape_asm_string : Bytes → Bytes
unfolding escape_loop sb_init
escape_asm_string s = (escape_loop sb_init s).text
