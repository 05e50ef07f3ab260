-- ===== src/Preproc/Examples.antt =====
-- Expressions and comments.
use b1cc.Common.{
  ℕ, ◌+◌, ◌-◌, ◌*◌, ◌≡◌, ◌≢◌, refl, some, [], ◌∷◌, ◌++◌, arith, Bytes, codes, List, All,
}
use b1cc.Common.Int.{ℤ, pos, negsuc}
use b1cc.Preproc.Tokens.{eval_text}
use b1cc.Preproc.Tokens.Render.{render, Lexical, is_literal, every, eval_text-render}
use b1cc.Preproc.Expr.Denotes.{
  Denotes, of_binary, of_unary, of_number, of_character, opposite, sum, product, equal, fails,
}
use b1cc.Preproc.Expr.Syntax.{
  Expr, number, character, unary, binary, neg_op, add, mul, eq, print, WellFormed, is_number,
  ends_plain, all_suffix,
}
use b1cc.Preproc.Source.{join_continuation_lines}
use b1cc.Preproc.Source.Comments.{Piece, plain, literal, line_comment, block_comment, double, bare}
use b1cc.Preproc.Source.Joined.{
  LineEnd, ended, continued, written, joined, ends_open, join_continuation_lines-joined,
}

-- Decimal numbers.
abbrev decimal_from : ℕ → Bytes → ℤ
decimal_from n [] = pos n
decimal_from n (c ∷ s) = decimal_from (n * 10 + (c - b'0')) s

abbrev decimal : Bytes → ℤ
decimal s = decimal_from 0 s

-- (2 + -3UL) * 'a' == 7
abbrev sample : Expr
sample =
    binary eq
      (binary mul
        (binary add (number (codes "2") []) (unary neg_op (number (codes "3") (codes "UL"))))
        (character b'a'))
      (number (codes "7") [])

sample-text : render (print 10 sample) ≡ codes "( 2 + - 3UL ) * 'a' == 7 "
unfolding render print
sample-text = refl

-- 2 - 3 is -1, times 97 is -97, which is not 7.
sample-Denotes : Denotes decimal sample (pos 0)
sample-Denotes =
    of_binary {a = negsuc 96} {b = pos 7} {c = pos 0}
      (of_binary {a = negsuc 0} {b = pos 97} {c = negsuc 96}
        (of_binary {a = pos 2} {b = negsuc 2} {c = negsuc 0} (of_number (omega arith, omega arith))
          (of_unary {a = pos 3} {c = negsuc 2} (of_number (omega arith, omega arith))
            (opposite refl) (omega arith, omega arith))
          (sum refl) (omega arith, omega arith))
        (of_character (omega arith)) (product refl) (omega arith, omega arith))
      (of_number (omega arith, omega arith)) (equal (fails (λ e. absurd cc)))
      (omega arith, omega arith)

eval_text-render_example : eval_text decimal (render (print 10 sample)) ≡ some (pos 0)
unfolding WellFormed is_number ends_plain all_suffix Lexical is_literal every
eval_text-render_example =
    eval_text-render decimal sample (pos 0)
      (
        (
          ((refl, refl, refl, omega arith), (refl, refl, refl, omega arith)),
          λ e. absurd (omega arith),
        ),
        (refl, refl, refl, omega arith),
      )
      (((refl, refl), tt), refl) sample-Denotes

-- `x"//"` and a comment to the end of the line
abbrev commented : Bytes
commented = codes "x" ++ b'"' ∷ b'/' ∷ b'/' ∷ b'"' ∷ b'/' ∷ b'/' ∷ b'c' ∷ 10 ∷ []

abbrev pieces : List Piece
pieces =
    plain b'x'
    ∷ literal double (bare b'/' ∷ bare b'/' ∷ [])
    ∷ block_comment (codes "a" ++ 10 ∷ codes "**")
    ∷ line_comment (codes "c")
    ∷ []

abbrev source_lines : List (Bytes × LineEnd)
source_lines = (codes "int", continued) ∷ (codes " x;", ended) ∷ []

join_continuation_lines-joined_example :
    join_continuation_lines (written source_lines) ≡ joined source_lines
unfolding ends_open
join_continuation_lines-joined_example =
    join_continuation_lines-joined source_lines ((letters, λ e. refl), ((other, λ e. refl), tt))
  where
    letters : All (λ c. c ≢ 10) (codes "int")
    letters =
        (λ e. absurd (omega arith), (λ e. absurd (omega arith), (λ e. absurd (omega arith), tt)))

    other : All (λ c. c ≢ 10) (codes " x;")
    other =
        (λ e. absurd (omega arith), (λ e. absurd (omega arith), (λ e. absurd (omega arith), tt)))
