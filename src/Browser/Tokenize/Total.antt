-- ===== src/Browser/Tokenize/Total.antt =====
-- The tokenizer ends, and follows no null pointer.
use liumos.Prelude.{
  ℕ, zero, suc, ◌+◌, ◌*◌, ◌<◌, ◌≤◌, ◌≡◌, ◌⊎◌, inl, inr, refl, true, false, some, List, [], ◌∷◌,
  ◌++◌, arith, leb, if◌then◌else◌, length, Bool-cases,
}
use liumos.Memory.{Bytes}
use liumos.Browser.Tokenize.{
  State, data_state, tag_open, end_tag_open, tag_name, self_closing_start_tag, Token, start_tag,
  end_tag, Tokenizer, Result, ok, exhausted, null_pointer, overflow, out_of_fuel, ◌>>=◌, new_token,
  add_char, update_current, update_last, Stepped, step_in, step, tokenize_loop, tokenize, normalize,
  initial,
}

-- The last token has a tag name.
abbrev LastNamed : List Token → Type 0
LastNamed [] = ⊥
LastNamed (k ∷ []) = (n : Bytes) × (k.name ≡ some n)
LastNamed (k ∷ j ∷ ks) = LastNamed (j ∷ ks)

abbrev Inv : State → List Token → Type 0
Inv tag_name ks = LastNamed ks
Inv self_closing_start_tag ks = LastNamed ks
Inv _ ks = Unit

LastNamed-append :
    (ks : List Token) (k : Token) (n : Bytes) → k.name ≡ some n → LastNamed (ks ++ k ∷ [])
LastNamed-append [] k n e = (n, e)
LastNamed-append (j ∷ []) k n e = (n, e)
LastNamed-append (j ∷ i ∷ ks) k n e = LastNamed-append (i ∷ ks) k n e

-- A change of the last token that keeps its name is made, and leaves the token named.
abbrev Updated : Result (List Token) → Type 0
Updated (ok ks) = LastNamed ks
Updated overflow = Unit
Updated _ = ⊥

abbrev Named : Result Token → Type 0
Named (ok k) = (n : Bytes) × (k.name ≡ some n)
Named overflow = Unit
Named _ = ⊥

update_last-Updated :
    (f : Token → Result Token) (ks : List Token)
    → LastNamed ks
    → ((k : Token) (n : Bytes) → k.name ≡ some n → Named (f k))
    → Updated (update_last f ks)
unfolding update_last
update_last-Updated f [] l h = absurd l
update_last-Updated f (k ∷ []) l h = ground (arith, h k l.0)
update_last-Updated f (k ∷ j ∷ ks) l h = ground (arith, update_last-Updated f (j ∷ ks) l h)

add_char-Named : (c : ℕ) (k : Token) (n : Bytes) → k.name ≡ some n → Named (add_char c k)
add_char-Named c k n e = elim (Bool-cases (leb 19 (length n))) [
  | inl full ↦ rw (e, full) tt
  | inr room ↦ rw (e, room) (n ++ c ∷ [], refl)
]

abbrev close : Token → Result Token
close k = ok (record k { self_closing = true })

close-Named : (k : Token) (n : Bytes) → k.name ≡ some n → Named (close k)
close-Named k n e = (n, e)

-- Whether the next round may leave the pointer where it is.
abbrev pending : State → ℕ
pending tag_open = 1
pending end_tag_open = 1
pending _ = 0

pending-le : (s : State) → pending s ≤ 1
pending-le tag_open = omega arith
pending-le _ = omega arith

-- What a round does to the fuel and the memory still needed.
abbrev Round : Tokenizer → Result Stepped → Type 0
Round t (ok (t', c, true)) =
    Inv t'.state t'.tokens
    × (t'.malloc_size + 52 * pending t'.state ≤ t.malloc_size + 52 + 52 * pending t.state)
Round t (ok (t', c, false)) =
    Inv t'.state t'.tokens
    × (pending t.state ≡ 1)
    × (pending t'.state ≡ 0)
    × (t'.malloc_size ≤ t.malloc_size + 52)
Round t overflow = Unit
Round t _ = ⊥

tag_name-Round :
    (t : Tokenizer) (c : ℕ)
    → t.state ≡ tag_name
    → LastNamed t.tokens
    → Updated (update_last (add_char (c + 0x20)) t.tokens)
    → Updated (update_last (add_char c) t.tokens)
    → Round t (step_in tag_name t c)
unfolding step_in update_current
tag_name-Round t c e i upper same = ground arith

self_closing-Round :
    (t : Tokenizer) (c : ℕ)
    → t.state ≡ self_closing_start_tag
    → LastNamed t.tokens
    → Updated (update_last close t.tokens)
    → Round t (step_in self_closing_start_tag t c)
unfolding step_in update_current
self_closing-Round t c e i closed = ground arith

step_in-Round :
    (s : State) (t : Tokenizer) (c : ℕ)
    → t.state ≡ s
    → Inv s t.tokens
    → t.malloc_size + 52 ≤ 1000000
    → Round t (step_in s t c)
unfolding step
step_in-Round data_state t c e i room = ground arith
step_in-Round tag_open t c e i room =
    let named = LastNamed-append t.tokens (new_token start_tag) [] refl in ground arith
step_in-Round end_tag_open t c e i room =
    let named = LastNamed-append t.tokens (new_token end_tag) [] refl in ground arith
step_in-Round tag_name t c e i room =
    let upper = update_last-Updated (add_char (c + 0x20)) t.tokens i (add_char-Named (c + 0x20)) in
    let same = update_last-Updated (add_char c) t.tokens i (add_char-Named c) in
    tag_name-Round t c e i upper same
step_in-Round self_closing_start_tag t c e i room =
    let closed = update_last-Updated close t.tokens i close-Named in
    self_closing-Round t c e i closed

-- After a round the same holds of the rest of the text.
step-Round :
    (t : Tokenizer) (c : ℕ)
    → Inv t.state t.tokens
    → t.malloc_size + 52 ≤ 1000000
    → Round t (step t c)
unfolding step
step-Round t c i room = step_in-Round t.state t (normalize c) refl i room

abbrev Ends : Result (List Token × Bytes) → Type 0
Ends (ok r) = Unit
Ends overflow = Unit
Ends _ = ⊥

-- The loop goes on from what a round returns.
abbrev next : ℕ → (before html : Bytes) → Stepped → Result (List Token × Bytes)
next f before cs (t', c', advance) =
    tokenize_loop f t' (if advance then before ++ c' ∷ [] else before)
      (if advance then cs else c' ∷ cs)

next-Ends :
    (f : ℕ) (t : Tokenizer) (before cs : Bytes) (r : Result Stepped)
    → ((t' : Tokenizer) (b h : Bytes)
        → Inv t'.state t'.tokens
        → 2 * length h + pending t'.state < f
        → t'.malloc_size + 52 * length h + 52 * pending t'.state ≤ 1000000
        → Ends (tokenize_loop f t' b h))
    → Round t r
    → 2 * length cs + 1 + pending t.state < f
    → t.malloc_size + 52 * (length cs + 1) + 52 * pending t.state ≤ 1000000
    → Ends (r >>= next f before cs)
next-Ends f t before cs (ok (t', c', true)) ih r fuel room =
    ih t' (before ++ c' ∷ []) cs r.0 (omega (arith, pending-le t'.state)) (omega (arith, r.1))
next-Ends f t before cs (ok (t', c', false)) ih r fuel room =
    ih t' before (c' ∷ cs) r.0 (omega (arith, r.1, r.2)) (omega (arith, r.1, r.2, r.3))
next-Ends f t before cs exhausted ih r fuel room = absurd r
next-Ends f t before cs null_pointer ih r fuel room = absurd r
next-Ends f t before cs overflow ih r fuel room = tt
next-Ends f t before cs out_of_fuel ih r fuel room = absurd r

tokenize_loop-Ends :
    (f : ℕ) (t : Tokenizer) (before html : Bytes)
    → Inv t.state t.tokens
    → 2 * length html + pending t.state < f
    → t.malloc_size + 52 * length html + 52 * pending t.state ≤ 1000000
    → Ends (tokenize_loop f t before html)
unfolding tokenize_loop
tokenize_loop-Ends zero t before html i fuel room = absurd (omega arith)
tokenize_loop-Ends (suc f) t before [] i fuel room = tt
tokenize_loop-Ends (suc f) t before (c ∷ cs) i fuel room =
    next-Ends f t before cs (step t c) (tokenize_loop-Ends f) (step-Round t c i (omega arith))
      (omega arith) (omega arith)

ending :
    (r : Result (List Token × Bytes))
    → Ends r
    → ((x : List Token × Bytes) × (r ≡ ok x)) ⊎ (r ≡ overflow)
ending (ok x) e = inl (x, refl)
ending exhausted e = absurd e
ending null_pointer e = absurd e
ending overflow e = inr refl
ending out_of_fuel e = absurd e

-- With 52 bytes of the heap free for each byte of the text, `Tokenize` comes to its end: `malloc`
-- does not fail and no null pointer is followed. It returns tokens, unless a tag name overflows
-- its buffer.
pub tokenize_total :
    (size : ℕ) (html : Bytes)
    → size + 52 * length html ≤ 1000000
    → ((r : List Token × Bytes) × (tokenize size html ≡ ok r)) ⊎ (tokenize size html ≡ overflow)
unfolding tokenize
tokenize_total size html room =
    ending (tokenize_loop (length html + length html + 1) (initial size) [] html) (
      tokenize_loop-Ends (length html + length html + 1) (initial size) [] html tt (omega arith)
        (omega arith))
