-- ===== src/Browser/Tokenize/Render.antt =====
-- Markup that the tokenizer takes as it was meant: the pieces, their text and their tokens.
use liumos.Prelude.{
  ℕ, ◌+◌, ◌≤◌, ◌≡◌, ◌≢◌, Bool, true, false, some, List, [], ◌∷◌, ◌++◌, length, All,
}
use liumos.Memory.{Bytes}
use liumos.Browser.Tokenize.{Token, start_tag, end_tag, new_char, is_upper}

pub data Piece : Type 0 where
  text : ℕ → Piece
  open_tag : (name : Bytes) → (self_closing : Bool) → Piece
  close_tag : (name : Bytes) → Piece

-- How a piece is written.
unfoldable pub write_piece : Piece → Bytes
write_piece (text c) = c ∷ []
write_piece (open_tag n false) = b'<' ∷ (n ++ b'>' ∷ [])
write_piece (open_tag n true) = b'<' ∷ (n ++ b'/' ∷ b'>' ∷ [])
write_piece (close_tag n) = b'<' ∷ b'/' ∷ (n ++ b'>' ∷ [])

unfoldable pub write_all : List Piece → Bytes
write_all [] = []
write_all (p ∷ ps) = write_piece p ++ write_all ps

-- The token that a piece stands for.
unfoldable pub token_of : Piece → Token
token_of (text c) = new_char c
token_of (open_tag n closing) = record {
  type = start_tag;
  name = some n;
  self_closing = closing;
  char_data = 0;
}
token_of (close_tag n) = record {
  type = end_tag;
  name = some n;
  self_closing = false;
  char_data = 0;
}

-- A byte that may stand in a tag name and is kept as it is.
pub record IsNameByte (c : ℕ) : Type 0 where
  pub no_slash : c ≢ b'/'
  pub no_end : c ≢ b'>'
  pub no_cr : c ≢ 0x0d
  pub not_upper : is_upper c ≡ false

-- A tag name that fits the buffer: a lower-case letter, and bytes that are kept.
pub record IsName (n : Bytes) : Type 0 where
  pub first : ℕ
  pub others : Bytes
  pub whole : n ≡ first ∷ others
  pub lower : (b'a' ≤ first) × (first ≤ b'z')
  pub kept : All IsNameByte n
  pub fits : length n ≤ 19

abbrev pub IsPiece : Piece → Type 0
IsPiece (text c) = (c ≢ b'<') × (c ≢ 0x0d)
IsPiece (open_tag n closing) = IsName n
IsPiece (close_tag n) = IsName n

-- The bytes that `malloc` gives out for the tokens.
unfoldable pub heap_use : List Piece → ℕ
heap_use [] = 0
heap_use (text c ∷ ps) = 32 + heap_use ps
heap_use (open_tag n closing ∷ ps) = 52 + heap_use ps
heap_use (close_tag n ∷ ps) = 52 + heap_use ps
