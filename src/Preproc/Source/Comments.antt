-- ===== src/Preproc/Source/Comments.antt =====
-- strip_comments against a description of its input: literals, comments and other bytes.
use b1cc.Common.{
  ℕ, ◌≡◌, ◌≢◌, Bool, false, ◌&&◌, ◌||◌, List, [], ◌∷◌, ◌++◌, ◌==◌, if◌then◌else◌, Bytes, All,
}
use b1cc.Preproc.Source.{Mode, in_string, in_char, Stripped, sb_emit}

pub data Quote : Type 0 where
  double single : Quote

abbrev quote_byte : Quote → ℕ
quote_byte double = b'"'
quote_byte single = b'\''

abbrev quote_mode : Quote → Mode
quote_mode double = in_string
quote_mode single = in_char

-- A character of a literal.
pub data Char : Type 0 where
  bare escape : ℕ → Char

pub data Piece : Type 0 where
  plain : ℕ → Piece
  slash : ℕ → Piece
  literal : Quote → List Char → Piece
  line_comment : Bytes → Piece
  block_comment : Bytes → Piece

unfoldable chars : List Char → Bytes
chars [] = []
chars (bare c ∷ s) = c ∷ chars s
chars (escape c ∷ s) = b'\\' ∷ c ∷ chars s

unfoldable line_ends : Bytes → Bytes
line_ends [] = []
line_ends (c ∷ s) = if c == 10 then 10 ∷ line_ends s else line_ends s

-- The text of a piece, and what stands for it without comments: a blank for a comment, and the
-- newlines of a comment.
unfoldable pub source_of : Piece → Bytes
unfolding chars
source_of (plain c) = c ∷ []
source_of (slash c) = b'/' ∷ c ∷ []
source_of (literal q s) = quote_byte q ∷ (chars s ++ quote_byte q ∷ [])
source_of (line_comment s) = b'/' ∷ b'/' ∷ (s ++ 10 ∷ [])
source_of (block_comment s) = b'/' ∷ b'*' ∷ (s ++ b'*' ∷ b'/' ∷ [])

unfoldable pub kept_of : Piece → Bytes
unfolding chars line_ends
kept_of (plain c) = c ∷ []
kept_of (slash c) = b'/' ∷ c ∷ []
kept_of (literal q s) = quote_byte q ∷ (chars s ++ quote_byte q ∷ [])
kept_of (line_comment s) = b' ' ∷ 10 ∷ []
kept_of (block_comment s) = b' ' ∷ line_ends s

unfoldable pub concat : (Piece → Bytes) → List Piece → Bytes
concat f [] = []
concat f (p ∷ ps) = f p ++ concat f ps

unfoldable pub has_close : Bytes → Bool
has_close [] = false
has_close (c ∷ []) = false
has_close (c ∷ d ∷ s) = (c == b'*' && d == b'/') || has_close (d ∷ s)

unfoldable pub CharOk : Quote → Char → Type 0
CharOk q (bare c) = (c ≢ b'\\') × (c ≢ quote_byte q)
CharOk q (escape c) = Unit

abbrev starts_piece : ℕ → Bool
starts_piece c = c == b'"' || c == b'\'' || c == b'/'

-- What a piece may hold.
unfoldable pub PieceOk : Piece → Type 0
PieceOk (plain c) = starts_piece c ≡ false
PieceOk (slash c) = (starts_piece c ≡ false) × (c ≢ b'*')
PieceOk (literal q s) = All (CharOk q) s
PieceOk (line_comment s) = All (λ c. c ≢ 10) s
PieceOk (block_comment s) = has_close s ≡ false

unfoldable emits : Bytes → Stripped → Stripped
emits [] o = o
emits (c ∷ s) o = sb_emit c (emits s o)
