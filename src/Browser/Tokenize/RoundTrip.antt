-- ===== src/Browser/Tokenize/RoundTrip.antt =====
-- Written markup is tokenized into the tokens that it was written for.
use liumos.Prelude.{
  ℕ, suc, ◌+◌, ◌*◌, ◌-◌, ◌≤◌, ◌≡◌, refl, ap, ◌∙◌, true, false, List, [], ◌∷◌, ◌++◌, arith, length,
  length-append, All, map, append_assoc, append-nil,
}
use liumos.Memory.{Bytes}
use liumos.Browser.Tokenize.{data_state, Token, start_tag, end_tag, ok, tokenize_loop, tokenize}
use liumos.Browser.Tokenize.Render.{
  Piece, text, open_tag, close_tag, write_piece, write_all, token_of, IsPiece, heap_use,
}
use liumos.Browser.Tokenize.Rounds.{
  at, step_text, step_open, step_open_slash, loop_step, loop_tag, loop_tag_closing, loop_first,
}

-- The fuel that leaves `f` behind a piece, and behind many.
abbrev fuel_for : Piece → ℕ → ℕ
fuel_for (text c) f = suc f
fuel_for (open_tag n false) f = suc (suc (length n + suc f))
fuel_for (open_tag n true) f = suc (suc (length n + suc (suc f)))
fuel_for (close_tag n) f = suc (suc (suc (length n + suc f)))

abbrev cost : Piece → ℕ
cost (text c) = 32
cost (open_tag n closing) = 52
cost (close_tag n) = 52

loop_piece :
    (p : Piece) (f : ℕ) (ks : List Token) (size : ℕ) (before rest : Bytes)
    → IsPiece p
    → size + cost p ≤ 1000000
    → tokenize_loop (fuel_for p f) (at data_state ks size) before (write_piece p ++ rest)
      ≡ tokenize_loop f
          (at data_state (ks ++ token_of p ∷ []) (size + cost p))
          (before ++ write_piece p)
          rest
unfolding write_piece token_of
loop_piece (text c) f ks size before rest h room =
    loop_step f _ _ before c c rest (step_text ks size c h room)
loop_piece (open_tag n false) f ks size before rest h room =
    let start = before ++ b'<' ∷ [] in
    let chain =
      loop_step (suc (length n + suc f)) _ _ before b'<' b'<' (n ++ b'>' ∷ rest) (step_open ks size)
      ∙ (loop_first n (length n + suc f) ks size start (b'>' ∷ rest) h room).0
      ∙ loop_tag n f ks (size + 52) start_tag start rest h in
    simp append_assoc (simp append_assoc at chain)
loop_piece (open_tag n true) f ks size before rest h room =
    let start = before ++ b'<' ∷ [] in
    let fuel = length n + suc (suc f) in
    let chain =
      loop_step (suc fuel) _ _ before b'<' b'<' (n ++ b'/' ∷ b'>' ∷ rest) (step_open ks size)
      ∙ (loop_first n fuel ks size start (b'/' ∷ b'>' ∷ rest) h room).0
      ∙ loop_tag_closing n f ks (size + 52) start_tag start rest h in
    simp append_assoc (simp append_assoc at chain)
loop_piece (close_tag n) f ks size before rest h room =
    let start = before ++ b'<' ∷ [] ++ b'/' ∷ [] in
    let fuel = length n + suc f in
    let chain =
      loop_step (suc (suc fuel)) _ _ before b'<' b'<' (b'/' ∷ (n ++ b'>' ∷ rest))
        (step_open ks size)
      ∙ loop_step (suc fuel) _ _ (before ++ b'<' ∷ []) b'/' b'/' (n ++ b'>' ∷ rest)
          (step_open_slash ks size)
      ∙ (loop_first n fuel ks size start (b'>' ∷ rest) h room).1
      ∙ loop_tag n f ks (size + 52) end_tag start rest h in
    simp append_assoc (simp append_assoc at chain)

abbrev pub fuel_all : List Piece → ℕ → ℕ
fuel_all [] f = f
fuel_all (p ∷ ps) f = fuel_for p (fuel_all ps f)

heap_use-cons : (p : Piece) (ps : List Piece) → heap_use (p ∷ ps) ≡ cost p + heap_use ps
unfolding heap_use
heap_use-cons (text c) ps = refl
heap_use-cons (open_tag n closing) ps = refl
heap_use-cons (close_tag n) ps = refl

loop_pieces :
    (ps : List Piece) (f : ℕ) (ks : List Token) (size : ℕ) (before : Bytes)
    → All IsPiece ps
    → size + heap_use ps ≤ 1000000
    → tokenize_loop (fuel_all ps (suc f)) (at data_state ks size) before (write_all ps)
      ≡ ok (ks ++ map token_of ps, before ++ write_all ps)
unfolding tokenize_loop write_all
loop_pieces [] f ks size before h room = rw (append-nil, append-nil)
loop_pieces (p ∷ ps) f ks size before h room =
    let used = heap_use-cons p ps in
    (loop_piece p (fuel_all ps (suc f)) ks size before (write_all ps) h.0 (omega arith)
      ∙ loop_pieces ps f (ks ++ token_of p ∷ []) (size + cost p) (before ++ write_piece p) h.1
          (omega arith)
      ∙ simp append_assoc)

-- The same with any text behind the pieces.
pub loop_pieces_before :
    (ps : List Piece) (f : ℕ) (ks : List Token) (size : ℕ) (before rest : Bytes)
    → All IsPiece ps
    → size + heap_use ps ≤ 1000000
    → tokenize_loop (fuel_all ps f) (at data_state ks size) before (write_all ps ++ rest)
      ≡ tokenize_loop f
          (at data_state (ks ++ map token_of ps) (size + heap_use ps))
          (before ++ write_all ps)
          rest
unfolding write_all heap_use
loop_pieces_before [] f ks size before rest h room =
    let e : size + 0 ≡ size = omega arith in rw (append-nil, append-nil, e) refl
loop_pieces_before (p ∷ ps) f ks size before rest h room =
    let used = heap_use-cons p ps in
    let sum : size + cost p + heap_use ps ≡ size + heap_use (p ∷ ps) = omega (arith, used) in
    let chain =
      loop_piece p (fuel_all ps f) ks size before (write_all ps ++ rest) h.0 (omega arith)
      ∙ loop_pieces_before ps f (ks ++ token_of p ∷ []) (size + cost p) (before ++ write_piece p)
          rest h.1 (omega arith) in
    ap (tokenize_loop (fuel_all (p ∷ ps) f) (at data_state ks size) before)
      (append_assoc (write_piece p) (write_all ps) rest)
    ∙ (rw sum at (simp append_assoc at chain))

rounds : Piece → ℕ
rounds p = fuel_for p 0

fuel_for-rounds :
    (p : Piece) (f : ℕ) → (fuel_for p f ≡ f + rounds p) × (rounds p ≤ 2 * length (write_piece p))
unfolding rounds write_piece
fuel_for-rounds (text c) f = omega arith
fuel_for-rounds (open_tag n false) f = omega (arith, length-append n (b'>' ∷ []))
fuel_for-rounds (open_tag n true) f = omega (arith, length-append n (b'/' ∷ b'>' ∷ []))
fuel_for-rounds (close_tag n) f = omega (arith, length-append n (b'>' ∷ []))

-- The fuel that is left at the end, where twice the length of the text is given.
fuel_left :
    (ps : List Piece) (f : ℕ)
    → 2 * length (write_all ps) ≤ f
    → (g : ℕ) × (fuel_all ps (suc g) ≡ suc f)
unfolding write_all
fuel_left [] f h = (f, refl)
fuel_left (p ∷ ps) f h =
    let len = length-append (write_piece p) (write_all ps) in
    let bound = (fuel_for-rounds p 0).1 in
    let (g, e) = fuel_left ps (f - rounds p) (omega arith) in
    (g, omega (arith, (fuel_for-rounds p (fuel_all ps (suc g))).0))

-- The fuel that is left for what stands behind the pieces.
pub fuel_behind :
    (ps : List Piece) (f : ℕ)
    → 2 * length (write_all ps) ≤ f
    → (g : ℕ) × (fuel_all ps g ≡ f) × (f ≤ g + 2 * length (write_all ps))
unfolding write_all
fuel_behind [] f h = (f, refl, omega arith)
fuel_behind (p ∷ ps) f h =
    let len = length-append (write_piece p) (write_all ps) in
    let bound = (fuel_for-rounds p 0).1 in
    let (g, e, left) = fuel_behind ps (f - rounds p) (omega arith) in
    (g, omega (arith, (fuel_for-rounds p (fuel_all ps g)).0), omega arith)

-- For written markup, whose tag names are lower case and fit the buffer, and a heap with room for
-- the tokens, `Tokenize` returns the tokens that the markup was written for and leaves the text as
-- it was.
pub tokenize-write_all :
    (size : ℕ) (ps : List Piece)
    → All IsPiece ps
    → size + heap_use ps ≤ 1000000
    → tokenize size (write_all ps) ≡ ok (map token_of ps, write_all ps)
unfolding tokenize
tokenize-write_all size ps h room =
    let len = length (write_all ps) in
    let (g, e) = fuel_left ps (len + len) (omega arith) in
    let e' : len + len + 1 ≡ fuel_all ps (suc g) = omega arith in
    rw e' (loop_pieces ps g [] size [] h room)
