-- ===== src/Browser/Tokenize/Rounds.antt =====
-- Single rounds of the tokenizer's loop, and its run over one tag name.
use Prim.Native.Nat.add
use liumos.Prelude.{
  ℕ, suc, ◌+◌, ◌<◌, ◌≤◌, ◌≡◌, ◌≢◌, refl, ◌∙◌, Bool, true, false, some, List, [], ◌∷◌, ◌++◌, arith,
  leb, length, length-append, All, append_assoc, append-nil,
}
use liumos.Memory.{Bytes}
use liumos.Browser.Tokenize.{
  State, data_state, tag_open, end_tag_open, tag_name, self_closing_start_tag, Token, TokenType,
  start_tag, end_tag, Tokenizer, Result, ok, new_token, new_char, add_char, update_last, step,
  tokenize_loop,
}
use liumos.Browser.Tokenize.Render.{IsNameByte, IsName}

abbrev pub at : State → List Token → ℕ → Tokenizer
at s ks size = record { state = s; tokens = ks; malloc_size = size }

update_last-append :
    (f : Token → Result Token) (ks : List Token) (k k' : Token)
    → f k ≡ ok k'
    → update_last f (ks ++ k ∷ []) ≡ ok (ks ++ k' ∷ [])
unfolding update_last
update_last-append f [] k k' e = ground arith
update_last-append f (j ∷ []) k k' e = ground arith
update_last-append f (j ∷ i ∷ ks) k k' e = ground (arith, update_last-append f (i ∷ ks) k k' e)

module _ (ks : List Token) (size c : ℕ) where
  pub step_text :
      (c ≢ b'<') × (c ≢ 0x0d)
      → size + 32 ≤ 1000000
      → step (at data_state ks size) c
        ≡ ok (at data_state (ks ++ new_char c ∷ []) (size + 32), c, true)
  unfolding step
  step_text h room = ground arith

  step_open_tag :
      (b'a' ≤ c) × (c ≤ b'z')
      → size + 52 ≤ 1000000
      → step (at tag_open ks size) c
        ≡ ok (at tag_name (ks ++ new_token start_tag ∷ []) (size + 52), c, false)
  unfolding step
  step_open_tag h room = ground arith

  step_close_tag :
      (b'a' ≤ c) × (c ≤ b'z')
      → size + 52 ≤ 1000000
      → step (at end_tag_open ks size) c
        ≡ ok (at tag_name (ks ++ new_token end_tag ∷ []) (size + 52), c, false)
  unfolding step
  step_close_tag h room = ground arith

module _ (ks : List Token) (size : ℕ) where
  pub step_open : step (at data_state ks size) b'<' ≡ ok (at tag_open ks size, b'<', true)
  unfolding step
  step_open = refl

  pub step_open_slash : step (at tag_open ks size) b'/' ≡ ok (at end_tag_open ks size, b'/', true)
  unfolding step
  step_open_slash = refl

  step_end : step (at tag_name ks size) b'>' ≡ ok (at data_state ks size, b'>', true)
  unfolding step
  step_end = refl

  step_slash : step (at tag_name ks size) b'/' ≡ ok (at self_closing_start_tag ks size, b'/', true)
  unfolding step
  step_slash = refl

abbrev pub named : TokenType → Bytes → Bool → Token
named type n closing = record { type = type; name = some n; self_closing = closing; char_data = 0 }

module _ (ks : List Token) (size : ℕ) (type : TokenType) (n : Bytes) where
  step_name :
      (c : ℕ)
      → IsNameByte c
      → length n < 19
      → step (at tag_name (ks ++ named type n false ∷ []) size) c
        ≡ ok (at tag_name (ks ++ named type (n ++ c ∷ []) false ∷ []) size, c, true)
  unfolding step
  step_name c b room =
      let full : leb 19 (length n) ≡ false = ground arith in
      let added : add_char c (named type n false) ≡ ok (named type (n ++ c ∷ []) false) = rw full in
      let e = update_last-append (add_char c) ks (named type n false) _ added in ground arith

  step_closing :
      step (at self_closing_start_tag (ks ++ named type n false ∷ []) size) b'>'
      ≡ ok (at data_state (ks ++ named type n true ∷ []) size, b'>', true)
  unfolding step
  step_closing =
      let close = λ (k : Token). ok (record k { self_closing = true }) in
      let e = update_last-append close ks (named type n false) (named type n true) refl in
      ground arith

-- One round of the loop that goes on to the next byte, and one that does not.
pub loop_step :
    (f : ℕ) (t t' : Tokenizer) (before : Bytes) (c c' : ℕ) (cs : Bytes)
    → step t c ≡ ok (t', c', true)
    → tokenize_loop (suc f) t before (c ∷ cs) ≡ tokenize_loop f t' (before ++ c' ∷ []) cs
unfolding tokenize_loop
loop_step f t t' before c c' cs e = rw e

loop_stay :
    (f : ℕ) (t t' : Tokenizer) (before : Bytes) (c c' : ℕ) (cs : Bytes)
    → step t c ≡ ok (t', c', false)
    → tokenize_loop (suc f) t before (c ∷ cs) ≡ tokenize_loop f t' before (c' ∷ cs)
unfolding tokenize_loop
loop_stay f t t' before c c' cs e = rw e

-- The loop over the bytes of a name.
pub loop_name :
    (cs n : Bytes) (f : ℕ) (ks : List Token) (size : ℕ) (type : TokenType) (before rest : Bytes)
    → All IsNameByte cs
    → length n + length cs ≤ 19
    → tokenize_loop
        (length cs + f)
        (at tag_name (ks ++ named type n false ∷ []) size)
        before
        (cs ++ rest)
      ≡ tokenize_loop f
          (at tag_name (ks ++ named type (n ++ cs) false ∷ []) size)
          (before ++ cs)
          rest
unfolding tokenize_loop
loop_name [] n f ks size type before rest h fits =
    let e : 0 + f ≡ f = omega arith in rw (e, append-nil, append-nil)
loop_name (c ∷ cs) n f ks size type before rest h fits =
    let one = step_name ks size type n c h.0 (omega arith) in
    let more =
      loop_name cs (n ++ c ∷ []) f ks size type (before ++ c ∷ []) rest h.1
        (omega (arith, length-append n (c ∷ []))) in
    rw (add.suc, one) (more ∙ rw (append_assoc, append_assoc))

-- A name and the end of its tag, from the state in which the name begins.
pub loop_tag :
    (n : Bytes) (f : ℕ) (ks : List Token) (size : ℕ) (type : TokenType) (before rest : Bytes)
    → IsName n
    → tokenize_loop
        (length n + suc f)
        (at tag_name (ks ++ named type [] false ∷ []) size)
        before
        (n ++ b'>' ∷ rest)
      ≡ tokenize_loop f
          (at data_state (ks ++ named type n false ∷ []) size)
          (before ++ n ++ b'>' ∷ [])
          rest
loop_tag n f ks size type before rest h =
    loop_name n [] (suc f) ks size type before (b'>' ∷ rest) h.kept (omega (arith, h.fits))
    ∙ loop_step f _ _ (before ++ n) b'>' b'>' rest (step_end (ks ++ named type n false ∷ []) size)

pub loop_tag_closing :
    (n : Bytes) (f : ℕ) (ks : List Token) (size : ℕ) (type : TokenType) (before rest : Bytes)
    → IsName n
    → tokenize_loop
        (length n + suc (suc f))
        (at tag_name (ks ++ named type [] false ∷ []) size)
        before
        (n ++ b'/' ∷ b'>' ∷ rest)
      ≡ tokenize_loop f
          (at data_state (ks ++ named type n true ∷ []) size)
          (before ++ n ++ b'/' ∷ [] ++ b'>' ∷ [])
          rest
loop_tag_closing n f ks size type before rest h =
    let ks' = ks ++ named type n false ∷ [] in
    loop_name n [] (suc (suc f)) ks size type before (b'/' ∷ b'>' ∷ rest) h.kept
      (omega (arith, h.fits))
    ∙ loop_step (suc f) _ _ (before ++ n) b'/' b'/' (b'>' ∷ rest) (step_slash ks' size)
    ∙ loop_step f _ _ (before ++ n ++ b'/' ∷ []) b'>' b'>' rest (step_closing ks size type n)

-- The first letter of a name, which is read twice.
pub loop_first :
    (n : Bytes) (f : ℕ) (ks : List Token) (size : ℕ) (before rest : Bytes)
    → IsName n
    → size + 52 ≤ 1000000
    → (tokenize_loop (suc f) (at tag_open ks size) before (n ++ rest)
        ≡ tokenize_loop f
            (at tag_name (ks ++ new_token start_tag ∷ []) (size + 52))
            before
            (n ++ rest))
      × (tokenize_loop (suc f) (at end_tag_open ks size) before (n ++ rest)
          ≡ tokenize_loop f
              (at tag_name (ks ++ new_token end_tag ∷ []) (size + 52))
              before
              (n ++ rest))
loop_first n f ks size before rest h room = rw h.whole (
  loop_stay f _ _ before h.first h.first (h.others ++ rest)
      (step_open_tag ks size h.first h.lower room),
  loop_stay f _ _ before h.first h.first (h.others ++ rest)
      (step_close_tag ks size h.first h.lower room),
)
