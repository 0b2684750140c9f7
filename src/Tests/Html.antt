-- ===== src/Tests/Html.antt =====
-- The tokenizer of app/browser/tokenize.c on short texts.
use liumos.Prelude.{
  ℕ, ◌≤◌, ◌≡◌, ◌⊎◌, refl, true, false, [], ◌∷◌, ◌++◌, List, All, arith, codes, map, replicate,
}
use liumos.Memory.{Bytes}
use liumos.Browser.Tokenize.{Token, ok, overflow, tokenize}
use liumos.Browser.Tokenize.Print.{print_tokens}
use liumos.Browser.Tokenize.Total.{tokenize_total}
use liumos.Browser.Tokenize.Render.{
  Piece, text, open_tag, close_tag, write_piece, write_all, token_of, IsNameByte, IsName, heap_use,
}
use liumos.Browser.Tokenize.RoundTrip.{tokenize-write_all}
use liumos.Browser.Tokenize.Overflow.{tokenize_overflow}

-- "<br/>a</p>"
abbrev pieces : List Piece
pieces = open_tag (codes "br") true ∷ text b'a' ∷ close_tag (codes "p") ∷ []

pub name_byte : (c : ℕ) → b'a' ≤ c → c ≤ b'z' → IsNameByte c
name_byte c lo hi = record {
  no_slash = λ e. absurd (omega arith);
  no_end = λ e. absurd (omega arith);
  no_cr = λ e. absurd (omega arith);
  not_upper = ground arith;
}

br-IsName : IsName (codes "br")
br-IsName = record {
  first = b'b';
  others = codes "r";
  whole = refl;
  lower = omega arith;
  kept = (
    name_byte b'b' (omega arith) (omega arith),
    (name_byte b'r' (omega arith) (omega arith), tt),
  );
  fits = omega arith;
}

p-IsName : IsName (codes "p")
p-IsName = record {
  first = b'p';
  others = [];
  whole = refl;
  lower = omega arith;
  kept = (name_byte b'p' (omega arith) (omega arith), tt);
  fits = omega arith;
}

write_pieces : write_all pieces ≡ codes "<br/>a</p>"
unfolding write_all write_piece
write_pieces = refl

tokenize-write_all_example :
    tokenize 0 (write_all pieces) ≡ ok (map token_of pieces, write_all pieces)
unfolding heap_use
tokenize-write_all_example =
    tokenize-write_all 0 pieces (br-IsName, (omega arith, (p-IsName, tt))) (omega arith)

tokenize_total_example :
    ((r : List Token × Bytes) × (tokenize 0 (codes "<br/>a</p>") ≡ ok r))
    ⊎ (tokenize 0 (codes "<br/>a</p>") ≡ overflow)
tokenize_total_example = tokenize_total 0 (codes "<br/>a</p>") (omega arith)

-- Nineteen times the letter a.
abbrev long : Bytes
long = replicate 19 b'a'

replicate-All : (n : ℕ) → All IsNameByte (replicate n b'a')
replicate-All ℕ.zero = tt
replicate-All (ℕ.suc n) = (name_byte b'a' (omega arith) (omega arith), replicate-All n)

long-IsName : IsName long
long-IsName = record {
  first = b'a';
  others = replicate 18 b'a';
  whole = refl;
  lower = omega arith;
  kept = replicate-All 19;
  fits = omega arith;
}

tokenize_overflow_example :
    tokenize 0 (write_all pieces ++ b'<' ∷ (long ++ b'a' ∷ codes ">")) ≡ overflow
unfolding heap_use
tokenize_overflow_example =
    tokenize_overflow 0 pieces long b'a' (codes ">") (br-IsName, (omega arith, (p-IsName, tt)))
      long-IsName (omega arith) (name_byte b'a' (omega arith) (omega arith)) (omega arith)

-- A carriage return becomes a line feed, and a tag name lower case, also in the text.
tokenize_changes_text :
    tokenize 0 (0x0d ∷ codes "<P>")
    ≡ ok (map token_of (text 0x0a ∷ open_tag (codes "p") false ∷ []), 0x0a ∷ codes "<p>")
unfolding tokenize token_of
tokenize_changes_text = refl

print_pieces :
    print_tokens (map token_of pieces)
    ≡ ok (codes "==============\nstart: br\nchar: a\nend: p\n==============\n")
unfolding print_tokens token_of
print_pieces = refl
