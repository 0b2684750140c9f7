-- ===== src/Browser/Tree/Modes.antt =====
-- app/browser/parse.c: `ConstructTree`, one function for each insertion mode and the loop over the
-- tokens. A round takes the token, the tokens behind it and the tree.
pub mod Rounds
pub mod Passes
pub mod Ends
pub mod Hangs
pub mod Stuck
pub mod Skips
use liumos.Prelude.{
  ℕ, zero, suc, ◌+◌, ◌*◌, Bool, true, false, not, ◌&&◌, ◌||◌, Option, none, some, List, [], ◌∷◌,
  ◌==◌, if◌then◌else◌, length, replicate, codes,
}
use liumos.Memory.{Bytes}
use liumos.Browser.Tokenize.{
  Token, TokenType, doctype, start_tag, end_tag, char, eof, Result, ok, exhausted, null_pointer,
  overflow, out_of_fuel, ◌>>=◌,
}
use liumos.Browser.Tree.{
  Tree, ElementType, html, head, body, heading, div, paragraph, ul, li, insert_token,
  insert_implied, insert_char_from_token, pop_stack, pop_stack_until, create_document, push_stack,
}

pub data Mode : Type 0 where
  initial before_html before_head in_head after_head in_body after_body after_after_body : Mode

-- A round ends with `break`, at the mode and the tokens that it leaves, or with `return`.
pub data Next : Type 0 where
  go : Mode → List Token → Tree → Next
  stop : Tree → Next

abbrev pub is_type : TokenType → Token → Bool
is_type doctype k = elim k.type [ doctype ↦ true | _ ↦ false ]
is_type start_tag k = elim k.type [ start_tag ↦ true | _ ↦ false ]
is_type end_tag k = elim k.type [ end_tag ↦ true | _ ↦ false ]
is_type char k = elim k.type [ char ↦ true | _ ↦ false ]
is_type eof k = elim k.type [ eof ↦ true | _ ↦ false ]

-- `strcmp` of two strings is 0.
abbrev pub same_bytes : Bytes → Bytes → Bool
same_bytes [] [] = true
same_bytes (x ∷ xs) (y ∷ ys) = x == y && same_bytes xs ys
same_bytes _ _ = false

-- The null name, which no tag of the tokenizer has, is caught by `reads_name`.
abbrev pub is_named : Bytes → Token → Bool
is_named w k = elim k.name [ none ↦ false | some n ↦ same_bytes n w ]

abbrev pub is_start : Bytes → Token → Bool
is_start w k = is_type start_tag k && is_named w k

abbrev pub is_end : Bytes → Token → Bool
is_end w k = is_type end_tag k && is_named w k

abbrev pub is_space : Token → Bool
is_space k =
    is_type char k
    && (k.char_data == 0x09
        || k.char_data == 0x0a
        || k.char_data == 0x0c
        || k.char_data == 0x0d
        || k.char_data == 0x20)

abbrev pub is_heading_name : Token → Bool
is_heading_name k =
    is_named (codes "h1") k
    || is_named (codes "h2") k
    || is_named (codes "h3") k
    || is_named (codes "h4") k
    || is_named (codes "h5") k
    || is_named (codes "h6") k

-- A new element for the token, in the tree with which the round goes on behind it.
abbrev pub insert_and_go : ElementType → Mode → Token → List Token → Tree → Result Next
insert_and_go kind mode k ks t = do t' ← insert_token kind k t; ok (go mode ks t')

abbrev pub pop_and_go : ElementType → Mode → List Token → Tree → Result Next
pop_and_go kind mode ks t = do t' ← pop_stack_until kind t; ok (go mode ks t')

-- The tests for "any other end tag" in the two modes before the head.
abbrev pub other_end_before : Token → Bool
other_end_before k =
    is_type end_tag k
    && (not (is_named (codes "head") k)
        || not (is_named (codes "body") k)
        || not (is_named (codes "html") k)
        || not (is_named (codes "br") k))

-- The same in and after the head.
abbrev pub other_end_after : Token → Bool
other_end_after k =
    is_type end_tag k
    && (not (is_named (codes "body") k)
        || not (is_named (codes "html") k)
        || not (is_named (codes "br") k))

unfoldable pub step_before_html : Token → List Token → Tree → Result Next
step_before_html k ks t =
    if is_type doctype k
    then ok (go before_html ks t)
    else if is_space k
    then ok (go before_html ks t)
    else if is_start (codes "html") k
    then insert_and_go html before_head k ks t
    else if other_end_before k
    then ok (go before_html ks t)
    else do t' ← insert_implied html (codes "html") t; ok (go before_head (k ∷ ks) t')

unfoldable pub step_before_head : Token → List Token → Tree → Result Next
step_before_head k ks t =
    if is_space k
    then ok (go before_head ks t)
    else if is_type doctype k
    then ok (go before_head ks t)
    else if is_start (codes "head") k
    then insert_and_go head in_head k ks t
    else if other_end_before k
    then ok (go before_head ks t)
    else do t' ← insert_implied head (codes "head") t; ok (go in_head (k ∷ ks) t')

unfoldable pub step_in_head : Token → List Token → Tree → Result Next
step_in_head k ks t =
    if is_type doctype k
    then ok (go in_head ks t)
    else if is_start (codes "html") k
    then ok (go in_body ks t)
    else if is_start (codes "head") k
    then ok (go in_head ks t)
    else if is_end (codes "head") k
    then pop_and_go head after_head ks t
    else if other_end_after k
    then ok (go in_head ks t)
    else pop_and_go head after_head (k ∷ ks) t

unfoldable pub step_after_head : Token → List Token → Tree → Result Next
step_after_head k ks t =
    if is_type doctype k
    then ok (go after_head ks t)
    else if is_start (codes "html") k
    then ok (go in_body ks t)
    else if is_start (codes "body") k
    then insert_and_go body in_body k ks t
    else if is_start (codes "head") k
    then ok (go after_head ks t)
    else if other_end_after k
    then ok (go after_head ks t)
    else do t' ← insert_implied body (codes "body") t; ok (go in_body (k ∷ ks) t')

-- The last part of the "in body" mode, on the token at which `token` stands then.
unfoldable pub end_in_body : Token → List Token → Tree → Result Next
end_in_body k ks t =
    if is_end (codes "div") k
    then pop_and_go div in_body ks t
    else if is_end (codes "ul") k
    then pop_and_go ul in_body ks t
    else if is_end (codes "p") k
    then pop_and_go paragraph in_body ks t
    else if is_end (codes "li") k
    then pop_and_go li in_body ks t
    else if is_type end_tag k && is_heading_name k
    then pop_and_go heading in_body ks t
    else if is_type end_tag k
    then ok (go in_body ks (pop_stack t))
    else ok (go in_body (k ∷ ks) t)

-- After a start tag `li` the C code has no `break`: it goes on with the token behind.
abbrev pub li_in_body : Token → List Token → Tree → Result Next
li_in_body k ks t = do
  t' ← insert_token li k t
  elim ks [ [] ↦ null_pointer | j ∷ js ↦ end_in_body j js t' ]

unfoldable pub step_in_body : Token → List Token → Tree → Result Next
step_in_body k ks t =
    if is_type char k
    then (do t' ← insert_char_from_token k t; ok (go in_body ks t'))
    else if is_type doctype k
    then ok (go in_body ks t)
    else if is_type start_tag k && (is_named (codes "body") k || is_named (codes "html") k)
    then ok (go in_body ks t)
    else if is_type eof k
    then ok (stop t)
    else if is_end (codes "body") k
    then pop_and_go body after_body ks t
    else if is_end (codes "html") k
    then pop_and_go html after_body (k ∷ ks) t
    else if is_start (codes "ul") k
    then insert_and_go ul in_body k ks t
    else if is_start (codes "p") k
    then insert_and_go paragraph in_body k ks t
    else if is_start (codes "div") k
    then insert_and_go div in_body k ks t
    else if is_type start_tag k && is_heading_name k
    then insert_and_go heading in_body k ks t
    else if is_start (codes "li") k
    then li_in_body k ks t
    else end_in_body k ks t

unfoldable pub step_after_body : Token → List Token → Tree → Result Next
step_after_body k ks t =
    if is_type doctype k
    then ok (go after_body ks t)
    else if is_end (codes "html") k
    then ok (go after_after_body ks t)
    else if is_type eof k
    then ok (stop t)
    else ok (go in_body (k ∷ ks) t)

unfoldable pub step_after_after_body : Token → List Token → Tree → Result Next
step_after_after_body k ks t = if is_type eof k then ok (stop t) else ok (go in_body (k ∷ ks) t)

-- One round of the `switch`.
unfoldable pub step_mode : Mode → Token → List Token → Tree → Result Next
unfolding step_before_html step_before_head step_in_head step_after_head step_in_body
    step_after_body step_after_after_body end_in_body insert_token insert_implied
    insert_char_from_token pop_stack_until
step_mode initial k ks t = ok (go before_html (k ∷ ks) t)
step_mode before_html k ks t = step_before_html k ks t
step_mode before_head k ks t = step_before_head k ks t
step_mode in_head k ks t = step_in_head k ks t
step_mode after_head k ks t = step_after_head k ks t
step_mode in_body k ks t = step_in_body k ks t
step_mode after_body k ks t = step_after_body k ks t
step_mode after_after_body k ks t = step_after_after_body k ks t

-- The modes that compare the token's name read through its pointer.
abbrev pub reads_name : Mode → Token → Bool
reads_name initial k = false
reads_name after_after_body k = false
reads_name after_body k = is_type end_tag k
reads_name _ k = is_type start_tag k || is_type end_tag k

unfoldable pub step : Mode → Token → List Token → Tree → Result Next
unfolding step_mode
step mode k ks t = elim k.name [
  | none ↦ if reads_name mode k then null_pointer else step_mode mode k ks t
  | some n ↦ step_mode mode k ks t
]

unfoldable pub construct_loop : ℕ → Mode → List Token → Tree → Result Tree
construct_loop n mode [] t = ok t
construct_loop zero mode (k ∷ ks) t = out_of_fuel
construct_loop (suc n) mode (k ∷ ks) t = do
  next ← step mode k ks t
  elim next [ go mode' ks' t' ↦ construct_loop n mode' ks' t' | stop t' ↦ ok t' ]

-- `stack` is what the array held before; `malloc_size` what the tokenizer left in use.
abbrev pub empty_tree : (malloc_size : ℕ) → Tree
empty_tree size = record {
  nodes = [];
  stack = replicate 100 none;
  stack_index = 0;
  malloc_size = size;
}

-- The first argument is the fuel; `root_node` is node 0.
unfoldable pub construct_tree : ℕ → (malloc_size : ℕ) → List Token → Result Tree
unfolding create_document push_stack construct_loop step step_mode
construct_tree n size ks = do
  (t, document) ← create_document (empty_tree size)
  t' ← push_stack document t
  construct_loop n initial ks t'
