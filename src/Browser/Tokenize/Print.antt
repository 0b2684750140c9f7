-- ===== src/Browser/Tokenize/Print.antt =====
-- app/browser/tokenize.c: PrintToken and PrintTokens, as the bytes that they print.
use liumos.Prelude.{Option, none, some, List, [], ◌∷◌, ◌++◌, codes}
use liumos.Memory.{Bytes}
use liumos.Browser.Tokenize.{
  Token, start_tag, end_tag, char, eof, doctype, Result, ok, null_pointer, ◌>>=◌,
}

abbrev print_name : Bytes → Option Bytes → Result Bytes
print_name label none = null_pointer
print_name label (some name) = ok (label ++ name ++ codes "\n")

-- Behind the character of a token stands the padding of the structure, which is NUL.
unfoldable pub print_token : Token → Result Bytes
print_token k = elim k.type [
  | start_tag ↦ print_name (codes "start: ") k.name
  | end_tag ↦ print_name (codes "end: ") k.name
  | char ↦ ok (codes "char: " ++ k.char_data ∷ codes "\n")
  | eof ↦ ok (codes "EOF: End of file\n")
  | doctype ↦ ok []
]

print_all : List Token → Result Bytes
unfolding print_token
print_all [] = ok []
print_all (k ∷ ks) = do here ← print_token k; after ← print_all ks; ok (here ++ after)

unfoldable pub print_tokens : List Token → Result Bytes
unfolding print_all
print_tokens ks = do
  lines ← print_all ks
  ok (codes "==============\n" ++ lines ++ codes "==============\n")
