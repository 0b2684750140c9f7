-- ===== src/Browser/Tokenize.antt =====
-- app/browser/tokenize.c and tokenize.h: the HTML tokenizer. The linked list from `first_token`
-- to `current_token` is a list, `current_token` its last element. The text is changed in place,
-- so the loop returns it. A `Token` takes 32 bytes of the heap, its tag name a buffer of 20.
pub mod Total
pub mod Overflow
pub mod Render
pub mod Rounds
pub mod RoundTrip
pub mod Print
use liumos.Prelude.{
  ℕ, zero, suc, ◌+◌, Bool, true, false, ◌&&◌, ◌||◌, Option, none, some, List, [], ◌∷◌, ◌++◌, ltb,
  leb, ◌==◌, if◌then◌else◌, length,
}
use liumos.Memory.{Bytes}

pub data State : Type 0 where
  data_state tag_open end_tag_open tag_name self_closing_start_tag : State

pub data TokenType : Type 0 where
  doctype start_tag end_tag char eof : TokenType

-- `name` is `none` for a null pointer.
pub record Token : Type 0 where
  pub type : TokenType
  pub name : Option Bytes
  pub self_closing : Bool
  pub char_data : ℕ

-- `malloc_size` is the number of bytes in use that `malloc` keeps.
pub record Tokenizer : Type 0 where
  pub state : State
  pub tokens : List Token
  pub malloc_size : ℕ

-- `exhausted`: `malloc` ends the program. `null_pointer` and `overflow`: what C leaves undefined,
-- a null pointer followed, an access outside of a buffer or an array.
pub data Result {ℓ} (A : Type ℓ) : Type ℓ where
  ok : A → Result A
  exhausted null_pointer overflow out_of_fuel : Result A

infixl 5 ◌>>=◌
abbrev pub ◌>>=◌ {ℓ κ} : {A : Type ℓ} {B : Type κ} → Result A → (A → Result B) → Result B
ok a >>= f = f a
exhausted >>= f = exhausted
null_pointer >>= f = null_pointer
overflow >>= f = overflow
out_of_fuel >>= f = out_of_fuel

alloc : ℕ → Tokenizer → Result Tokenizer
alloc n t =
    if ltb 1000000 (t.malloc_size + n)
    then exhausted
    else ok (record t { malloc_size = t.malloc_size + n })

abbrev pub append_token : Token → Tokenizer → Tokenizer
append_token k t = record t { tokens = t.tokens ++ k ∷ [] }

abbrev pub has_name : TokenType → Bool
has_name start_tag = true
has_name end_tag = true
has_name _ = false

-- What `CreateToken` and `CreateCharToken` fill in.
abbrev pub new_token : TokenType → Token
new_token type = record {
  type = type;
  name = if has_name type then some [] else none;
  self_closing = false;
  char_data = 0;
}

abbrev pub new_char : ℕ → Token
new_char c = record { type = char; name = none; self_closing = false; char_data = c }

-- `AppendToken(CreateToken(type))`.
append_tag : TokenType → Tokenizer → Result Tokenizer
append_tag type t = do
  t1 ← alloc 32 t
  t2 ← if has_name type then alloc 20 t1 else ok t1
  ok (append_token (new_token type) t2)

-- `AppendToken(CreateCharToken(c))`.
append_char : ℕ → Tokenizer → Result Tokenizer
append_char c t = do t1 ← alloc 32 t; ok (append_token (new_char c) t1)

-- `strncat(current_token->tag_name, html, 1)` on the token's buffer of 20 bytes.
abbrev pub add_char : ℕ → Token → Result Token
add_char c k = elim k.name [
  | none ↦ null_pointer
  | some n ↦ if leb 19 (length n) then overflow else ok (record k { name = some (n ++ c ∷ []) })
]

-- A change of `*current_token`.
unfoldable pub update_last : (Token → Result Token) → List Token → Result (List Token)
update_last f [] = null_pointer
update_last f (k ∷ []) = do k' ← f k; ok (k' ∷ [])
update_last f (k ∷ j ∷ ks) = do ks' ← update_last f (j ∷ ks); ok (k ∷ ks')

update_current : (Token → Result Token) → Tokenizer → Result Tokenizer
update_current f t = do ks ← update_last f t.tokens; ok (record t { tokens = ks })

abbrev pub is_upper : ℕ → Bool
is_upper c = leb b'A' c && leb c b'Z'

abbrev pub is_alpha : ℕ → Bool
is_alpha c = (leb b'a' c && leb c b'z') || is_upper c

-- The new state, the character as it stands in the text now, and whether `html++` was reached.
abbrev pub Stepped : Type 0
Stepped = Tokenizer × ℕ × Bool

abbrev enter : State → Tokenizer → Tokenizer
enter s t = record t { state = s }

-- One round of the `switch`. The case of the end tag open state is labelled `END_TAG` in C, a
-- constant of another `enum` with the same value.
step_in : State → Tokenizer → ℕ → Result Stepped
step_in data_state t c =
    if c == b'<' then ok (enter tag_open t, c, true) else do t' ← append_char c t; ok (t', c, true)
step_in tag_open t c =
    if c == b'/'
    then ok (enter end_tag_open t, c, true)
    else if is_alpha c
    then (do t' ← append_tag start_tag t; ok (enter tag_name t', c, false))
    else do t' ← append_char b'<' t; ok (enter data_state t', c, false)
step_in end_tag_open t c =
    if is_alpha c
    then (do t' ← append_tag end_tag t; ok (enter tag_name t', c, false))
    else ok (t, c, true)
step_in tag_name t c =
    if c == b'/'
    then ok (enter self_closing_start_tag t, c, true)
    else if c == b'>'
    then ok (enter data_state t, c, true)
    else if is_upper c
    then (do t' ← update_current (add_char (c + 0x20)) t; ok (t', c + 0x20, true))
    else do t' ← update_current (add_char c) t; ok (t', c, true)
step_in self_closing_start_tag t c =
    if c == b'>'
    then (do
      t' ← update_current (λ k. ok (record k { self_closing = true })) t
      ok (enter data_state t', c, true))
    else ok (t, c, true)

-- A carriage return is first replaced by a line feed.
abbrev pub normalize : ℕ → ℕ
normalize c = if c == 0x0d then 0x0a else c

unfoldable pub step : Tokenizer → ℕ → Result Stepped
unfolding step_in alloc append_tag append_char update_current
step t c = step_in t.state t (normalize c)

-- `before` is the text that has been passed, `html` the text from the pointer on.
pub tokenize_loop : ℕ → Tokenizer → (before html : Bytes) → Result (List Token × Bytes)
tokenize_loop zero t before html = out_of_fuel
tokenize_loop (suc f) t before [] = ok (t.tokens, before)
tokenize_loop (suc f) t before (c ∷ cs) = do
  (t', c', advance) ← step t c
  tokenize_loop f t' (if advance then before ++ c' ∷ [] else before)
      (if advance then cs else c' ∷ cs)

abbrev initial : (malloc_size : ℕ) → Tokenizer
initial size = record { state = data_state; tokens = []; malloc_size = size }

-- The tokens, and the text as it is left. Twice the length and one more are enough fuel.
unfoldable pub tokenize : (malloc_size : ℕ) → Bytes → Result (List Token × Bytes)
unfolding tokenize_loop step update_last
tokenize size html = tokenize_loop (length html + length html + 1) (initial size) [] html
