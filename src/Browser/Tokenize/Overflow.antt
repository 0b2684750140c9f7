-- ===== src/Browser/Tokenize/Overflow.antt =====
-- A tag name that does not fit its buffer.
use liumos.Prelude.{
  ℕ, suc, ◌+◌, ◌-◌, ◌≤◌, ◌≡◌, ◌∙◌, sym, map, All, true, false, [], ◌∷◌, ◌++◌, List, arith, length,
  length-append, leb,
}
use liumos.Memory.{Bytes}
use liumos.Browser.Tokenize.{
  data_state, tag_open, tag_name, Token, start_tag, Tokenizer, Result, overflow, add_char,
  update_last, step, tokenize_loop, tokenize,
}
use liumos.Browser.Tokenize.Render.{
  Piece, IsPiece, write_all, token_of, heap_use, IsName, IsNameByte,
}
use liumos.Browser.Tokenize.RoundTrip.{loop_pieces_before, fuel_behind}
use liumos.Browser.Tokenize.Rounds.{at, named, step_open, loop_step, loop_first, loop_name}

update_last_overflow :
    (f : Token → Result Token) (ks : List Token) (k : Token)
    → f k ≡ overflow
    → update_last f (ks ++ k ∷ []) ≡ overflow
unfolding update_last
update_last_overflow f [] k e = ground arith
update_last_overflow f (j ∷ []) k e = ground arith
update_last_overflow f (j ∷ i ∷ ks) k e = ground (arith, update_last_overflow f (i ∷ ks) k e)

step_full :
    (ks : List Token) (size : ℕ) (n : Bytes) (c : ℕ)
    → IsNameByte c
    → 19 ≤ length n
    → step (at tag_name (ks ++ named start_tag n false ∷ []) size) c ≡ overflow
unfolding step
step_full ks size n c b full =
    let test : leb 19 (length n) ≡ true = ground arith in
    let added : add_char c (named start_tag n false) ≡ overflow = rw test in
    let e = update_last_overflow (add_char c) ks (named start_tag n false) added in ground arith

loop_full :
    (f : ℕ) (t : Tokenizer) (before : Bytes) (c : ℕ) (cs : Bytes)
    → step t c ≡ overflow
    → tokenize_loop (suc f) t before (c ∷ cs) ≡ overflow
unfolding tokenize_loop
loop_full f t before c cs e = rw e

-- Behind written markup, for which and for one more tag the heap has room, a start tag in lower case
-- whose name has a twentieth byte makes `Tokenize` write beyond the 20 bytes that hold the name and its
-- NUL, whatever follows.
pub tokenize_overflow :
    (size : ℕ) (ps : List Piece) (n : Bytes) (c : ℕ) (rest : Bytes)
    → All IsPiece ps
    → IsName n
    → length n ≡ 19
    → IsNameByte c
    → size + heap_use ps + 52 ≤ 1000000
    → tokenize size (write_all ps ++ b'<' ∷ (n ++ c ∷ rest)) ≡ overflow
unfolding tokenize
tokenize_overflow size ps n c rest pieces h full b room =
    let tag : Bytes = b'<' ∷ (n ++ c ∷ rest) in
    let html = write_all ps ++ tag in
    let len = length-append (write_all ps) tag in
    let len' = length-append n (c ∷ rest) in
    let (g, e, left) = fuel_behind ps (length html + length html + 1) (omega arith) in
    let g' = g - length n - 3 in
    let fuel : g ≡ suc (suc (length n + suc g')) = omega arith in
    let ks = map token_of ps in
    let used = size + heap_use ps in
    let before = write_all ps in
    let start = before ++ b'<' ∷ [] in
    rw (sym e, loop_pieces_before ps g [] size [] tag pieces (omega arith), fuel)
      (loop_step (suc (length n + suc g')) (at data_state ks used) (at tag_open ks used) before b'<'
          b'<' (n ++ c ∷ rest) (step_open ks used)
        ∙ (loop_first n (length n + suc g') ks used start (c ∷ rest) h room).0
        ∙ loop_name n [] (suc g') ks (used + 52) start_tag start (c ∷ rest) h.kept (omega arith)
        ∙ loop_full g' (at tag_name (ks ++ named start_tag n false ∷ []) (used + 52)) (start ++ n) c
            rest (step_full ks (used + 52) n c b (omega arith)))
