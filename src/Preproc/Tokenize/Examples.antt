-- ===== src/Preproc/Tokenize/Examples.antt =====
-- Tests of pp_tokenize of src/preprocessor.c.
use b1cc.Common.{◌+◌, ◌≡◌, refl, true, false, some, List, [], ◌∷◌, ◌++◌, arith, codes, str_eq, All}
use b1cc.Preproc.Tokens.Render.{every}
use b1cc.Lexer.{LexContext, lexed, advance}
use b1cc.Lexer.Words.{name, operator, WellFormed, mem}
use b1cc.Lexer.Printed.{blank, Item, IsItem, fillers_text, print, located}
use b1cc.Preproc.Tokenize.{pp_tokenize, line_start, pp_tokenize-print}

abbrev context : LexContext
context = record { show_int = λ n. (b'0' + n) ∷ []; current_line = 7; current_file = codes "a.c" }

-- `EOF +` and a newline
abbrev items : List Item
items =
    record { lexeme = name b'E' (codes "OF"); at_line_end = false; fill = [] }
    ∷ record { lexeme = operator (codes "+"); at_line_end = true; fill = [] }
    ∷ []

items-IsItem : All IsItem items
unfolding WellFormed mem every str_eq
items-IsItem = (((refl, refl, refl), tt), ((refl, tt), tt))

pp_tokenize-print_example :
    pp_tokenize context 0 12 (fillers_text (blank ∷ []) ++ print items)
    ≡ some (lexed (located (advance (line_start 12) (fillers_text (blank ∷ []))) items) 0)
pp_tokenize-print_example =
    pp_tokenize-print context 0 12 (blank ∷ []) items (omega arith) (tt, tt) items-IsItem
