-- ===== src/Preproc/Source.antt =====
-- The passes of src/preprocessor.c over the whole source: join_continuation_lines and
-- strip_comments. Each loop runs over the bytes from its index on; what it appends comes in front of
-- what the rest of the loop appends.
pub mod Lines
pub mod Comments
pub mod Joined
use b1cc.Common.{
  ℕ, zero, suc, ◌+◌, Bool, true, false, ◌&&◌, ◌||◌, List, [], ◌∷◌, ◌++◌, ◌==◌, if◌then◌else◌, take,
  Bytes,
}

unfoldable pub join_continuation_lines : Bytes → Bytes
join_continuation_lines [] = []
join_continuation_lines (c ∷ []) = c ∷ []
join_continuation_lines (c ∷ d ∷ []) = elim (c == b'\\' && d == 10) [
  | true ↦ []
  | false ↦ c ∷ join_continuation_lines (d ∷ [])
]
join_continuation_lines (c ∷ d ∷ e ∷ s) = elim (c == b'\\' && d == 10) [
  | true ↦ join_continuation_lines (e ∷ s)
  | false ↦ elim (c == b'\\' && d == 13 && e == 10) [
    | true ↦ join_continuation_lines s
    | false ↦ c ∷ join_continuation_lines (d ∷ e ∷ s)
  ]
]

-- Where strip_comments is: `in_string` and `in_char` are its flags, the other two its inner loops;
-- a block comment has its `comment_start`.
pub data Mode : Type 0 where
  code in_string in_char in_line : Mode
  in_block : ℕ → Mode

-- diagnostics_error ends the process, with a line and a column.
pub data Stripped : Type 0 where
  kept : Bytes → Stripped
  unterminated : ℕ → ℕ → Stripped

unfoldable pub sb_emit : ℕ → Stripped → Stripped
sb_emit c (kept s) = kept (c ∷ s)
sb_emit c (unterminated line col) = unterminated line col

-- The line and the column behind some text, from those before it.
unfoldable pub position : ℕ → ℕ → Bytes → ℕ × ℕ
position line col [] = (line, col)
position line col (c ∷ s) = if c == 10 then position (suc line) 1 s else position line (suc col) s

unfoldable pub report : Bytes → ℕ → Stripped
unfolding position
report src comment_start =
    let (line, col) = position 1 1 (take comment_start src) in unterminated line col

module _ (src : Bytes) where
  -- The index is `i`. The newline that ends a line comment is what the next round appends.
  unfoldable pub strip_loop : Mode → ℕ → Bytes → Stripped
  unfolding sb_emit report
  strip_loop (in_block start) i [] = report src start
  strip_loop (in_block start) i (c ∷ []) = report src start
  strip_loop (in_block start) i (c ∷ d ∷ s) = elim (c == b'*' && d == b'/') [
    | true ↦ strip_loop code (i + 2) s
    | false ↦ elim (c == 10) [
      | true ↦ sb_emit 10 (strip_loop (in_block start) (i + 1) (d ∷ s))
      | false ↦ strip_loop (in_block start) (i + 1) (d ∷ s)
    ]
  ]
  strip_loop in_line i [] = kept []
  strip_loop in_line i (c ∷ s) = elim (c == 10) [
    | true ↦ sb_emit c (strip_loop code (i + 1) s)
    | false ↦ strip_loop in_line (i + 1) s
  ]
  strip_loop _ i [] = kept []
  strip_loop _ i (c ∷ []) = kept (c ∷ [])
  strip_loop in_string i (c ∷ d ∷ s) = elim (c == b'\\') [
    | true ↦ sb_emit c (sb_emit d (strip_loop in_string (i + 2) s))
    | false ↦ elim (c == b'"') [
      | true ↦ sb_emit c (strip_loop code (i + 1) (d ∷ s))
      | false ↦ sb_emit c (strip_loop in_string (i + 1) (d ∷ s))
    ]
  ]
  strip_loop in_char i (c ∷ d ∷ s) = elim (c == b'\\') [
    | true ↦ sb_emit c (sb_emit d (strip_loop in_char (i + 2) s))
    | false ↦ elim (c == b'\'') [
      | true ↦ sb_emit c (strip_loop code (i + 1) (d ∷ s))
      | false ↦ sb_emit c (strip_loop in_char (i + 1) (d ∷ s))
    ]
  ]
  strip_loop code i (c ∷ d ∷ s) = elim (c == b'"') [
    | true ↦ sb_emit c (strip_loop in_string (i + 1) (d ∷ s))
    | false ↦ elim (c == b'\'') [
      | true ↦ sb_emit c (strip_loop in_char (i + 1) (d ∷ s))
      | false ↦ elim (c == b'/' && d == b'/') [
        | true ↦ sb_emit b' ' (strip_loop in_line (i + 2) s)
        | false ↦ elim (c == b'/' && d == b'*') [
          | true ↦ sb_emit b' ' (strip_loop (in_block i) (i + 2) s)
          | false ↦ sb_emit c (strip_loop code (i + 1) (d ∷ s))
        ]
      ]
    ]
  ]

unfoldable pub strip_comments : Bytes → Stripped
unfolding strip_loop
strip_comments src = strip_loop src code 0 src
