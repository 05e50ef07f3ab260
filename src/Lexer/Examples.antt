-- ===== src/Lexer/Examples.antt =====
-- Tests of src/lexer.c.
use b1cc.Common.{◌+◌, ◌≡◌, refl, true, false, some, List, [], ◌∷◌, ◌++◌, codes, str_eq, All}
use b1cc.Preproc.Tokens.Render.{every}
use b1cc.Lexer.{Lexed, lexed, LexContext, push_token, advance, lex}
use b1cc.Preproc.{is_space}
use b1cc.Preproc.Tokens.{span}
use b1cc.Lexer.Scan.{scan, block_body, scan_ident}
use b1cc.Lexer.Lexemes.{plain, escape}
use b1cc.Lexer.Words.{name, hexadecimal, floating, string, operator, WellFormed, mem}
use b1cc.Lexer.Printed.{
  Filler, blank, newline, block_comment, line_comment, Item, fillers_text, print, never_ends,
  IsFiller, IsItem,
}
use b1cc.Lexer.Located.{placed, lex-print}
use b1cc.Lexer.Total.{lex-returns}

abbrev pub context : LexContext
context = record { show_int = λ n. (b'0' + n) ∷ []; current_line = 7; current_file = codes "a.c" }

-- A comment that the text ends in right behind its opening is no error.
comment-unnoticed :
    lex context 0 (codes "x /*")
    ≡ some (
        lexed
          (record { text = codes "x"; line = 1; col = 1 }
            ∷ record { text = codes "EOF"; line = 1; col = 5 }
            ∷ [])
          0)
unfolding lex push_token advance scan is_space span block_body scan_ident str_eq
comment-unnoticed = refl

-- `/* a */` and a newline
abbrev opening : List Filler
opening = block_comment (codes " a ") ∷ newline ∷ []

-- `x1 += 0x1F ; // b`, then `f ( 2.5f , "a\"" )`
abbrev pub items : List Item
items =
    record { lexeme = name b'x' (codes "1"); at_line_end = false; fill = [] }
    ∷ record { lexeme = operator (codes "+="); at_line_end = false; fill = blank ∷ [] }
    ∷ record { lexeme = hexadecimal b'x' (codes "1F") []; at_line_end = false; fill = [] }
    ∷ record {
      lexeme = operator (codes ";");
      at_line_end = false;
      fill = line_comment (codes " b") ∷ [];
    }
    ∷ record { lexeme = name b'f' []; at_line_end = false; fill = [] }
    ∷ record { lexeme = floating b'2' [] (codes "5") (codes "f"); at_line_end = true; fill = [] }
    ∷ record {
      lexeme = string (plain b'a' ∷ escape b'"' ∷ []);
      at_line_end = true;
      fill = newline ∷ [];
    }
    ∷ []

pub items-IsItem : All IsItem items
unfolding WellFormed mem every str_eq
items-IsItem = (
  ((refl, refl, refl), tt),
  (
    (refl, (tt, tt)),
    (
      ((refl, refl, refl), tt),
      (
        (refl, (refl, tt)),
        (
          ((refl, refl, refl), tt),
          (((refl, refl, refl, refl), tt), (((refl, (tt, tt)), (tt, tt)), tt)),
        ),
      ),
    ),
  ),
)

opening-IsFiller : All IsFiller opening
unfolding never_ends
opening-IsFiller = (refl, (tt, tt))

lex-returns_example : (r : Lexed) × (lex context 3 (codes "int @ \" /*") ≡ some r)
lex-returns_example = lex-returns context 3 (codes "int @ \" /*")

lex-print_example :
    lex context 3 (fillers_text opening ++ print items)
    ≡ some (lexed (placed (fillers_text opening) items) 3)
lex-print_example = lex-print context 3 opening items opening-IsFiller items-IsItem
