-- ===== src/Browser/Tree.antt =====
-- app/browser/parse.c and parse.h: nodes, the stack of open elements and what is done with them.
-- A `Node *` is an index into the list of the nodes that `malloc` has given out, `none` a null
-- pointer. `malloc` clears its blocks, so a field that is not set is null.
pub mod Modes
pub mod Links
pub mod Kept
pub mod Outcome
pub mod Print
pub mod Stack
use liumos.Prelude.{
  ℕ, zero, suc, ◌+◌, ◌-◌, Bool, true, false, ◌&&◌, ◌||◌, Option, none, some, List, [], ◌∷◌, ◌++◌,
  ltb, leb, ◌==◌, if◌then◌else◌, length, set, get_or, replicate,
}
use liumos.Memory.{Bytes}
use liumos.Browser.Tokenize.{Token, Result, ok, exhausted, null_pointer, overflow, ◌>>=◌}

pub data NodeType : Type 0 where
  document element text : NodeType

-- `no_element` is `NONE`.
pub data ElementType : Type 0 where
  html head body heading div paragraph ul li no_element : ElementType

pub record Node : Type 0 where
  pub node_type : NodeType
  pub element_type : ElementType
  pub tag_name : Option Bytes
  pub text_data : Option Bytes
  pub parent : Option ℕ
  pub first_child : Option ℕ
  pub last_child : Option ℕ
  pub previous_sibling : Option ℕ
  pub next_sibling : Option ℕ

-- `stack` is the array of 100 pointers.
pub record Tree : Type 0 where
  pub nodes : List Node
  pub stack : List (Option ℕ)
  pub stack_index : ℕ
  pub malloc_size : ℕ

unfoldable pub alloc : ℕ → Tree → Result Tree
alloc n t =
    if ltb 1000000 (t.malloc_size + n)
    then exhausted
    else ok (record t { malloc_size = t.malloc_size + n })

abbrev pub bare_node : NodeType → ElementType → (tag_name text_data : Option Bytes) → Node
bare_node type kind name content = record {
  node_type = type;
  element_type = kind;
  tag_name = name;
  text_data = content;
  parent = none;
  first_child = none;
  last_child = none;
  previous_sibling = none;
  next_sibling = none;
}

-- A new node, of 64 bytes, and its address.
abbrev pub add_node : Node → Tree → Tree × ℕ
add_node n t = (record t { nodes = t.nodes ++ n ∷ [] }, length t.nodes)

unfoldable pub create_document : Tree → Result (Tree × ℕ)
unfolding alloc
create_document t = do t1 ← alloc 64 t; ok (add_node (bare_node document no_element none none) t1)

create_element : ElementType → Option Bytes → Tree → Result (Tree × ℕ)
create_element kind name t = do t1 ← alloc 64 t; ok (add_node (bare_node element kind name none) t1)

create_element_from_token : ElementType → Token → Tree → Result (Tree × ℕ)
unfolding create_element
create_element_from_token kind k t = create_element kind k.name t

-- The data are one byte and a NUL in a buffer of 100 bytes.
unfoldable pub create_text : Token → Tree → Result (Tree × ℕ)
create_text k t = do
  t1 ← alloc 64 t
  t2 ← alloc 100 t1
  ok (add_node (bare_node text no_element none (some (k.char_data ∷ []))) t2)

abbrev pub modify : ℕ → (Node → Node) → List Node → List Node
modify i f [] = []
modify zero f (n ∷ ns) = f n ∷ ns
modify (suc i) f (n ∷ ns) = n ∷ modify i f ns

unfoldable pub push_stack : ℕ → Tree → Result Tree
push_stack p t =
    if ltb t.stack_index 100
    then ok
        (record t { stack = set t.stack t.stack_index (some p); stack_index = t.stack_index + 1 })
    else overflow

-- The pointer that these functions return is used by no caller.
unfoldable pub pop_stack : Tree → Tree
pop_stack t = record t {
  stack_index = if ltb 0 t.stack_index then t.stack_index - 1 else t.stack_index;
}

abbrev pub get_node : ℕ → List Node → Result Node
get_node i [] = null_pointer
get_node zero (n ∷ ns) = ok n
get_node (suc i) (n ∷ ns) = get_node i ns

abbrev pub node_at : Option ℕ → List Node → Result Node
node_at none ns = null_pointer
node_at (some p) ns = get_node p ns

abbrev pub same_element : ElementType → ElementType → Bool
same_element html html = true
same_element head head = true
same_element body body = true
same_element heading heading = true
same_element div div = true
same_element paragraph paragraph = true
same_element ul ul = true
same_element li li = true
same_element no_element no_element = true
same_element _ _ = false

-- The loop of `PopStackUntil`; the first argument is `stack_index`.
pub pop_until : ℕ → ElementType → Tree → Result Tree
pop_until zero kind t = ok (record t { stack_index = 0 })
pop_until (suc i) kind t =
    let rest = pop_until i kind t in
    do
      n ← node_at (get_or t.stack i none) t.nodes
      if same_element kind n.element_type then ok (record t { stack_index = i }) else rest

unfoldable pub pop_stack_until : ElementType → Tree → Result Tree
unfolding pop_until
pop_stack_until kind t = pop_until t.stack_index kind t

abbrev pub from_stack : Option ℕ → Result ℕ
from_stack none = null_pointer
from_stack (some p) = ok p

-- At `stack_index = 0` this reads before the array.
unfoldable pub current_node : Tree → Result ℕ
current_node t =
    if t.stack_index == 0 then overflow else from_stack (get_or t.stack (t.stack_index - 1) none)

abbrev pub only_child : ℕ → Node → Node
only_child e n = record n { first_child = some e; last_child = some e }

abbrev pub new_last_child : ℕ → Node → Node
new_last_child e n = record n { last_child = some e }

abbrev pub new_next_sibling : ℕ → Node → Node
new_next_sibling e n = record n { next_sibling = some e }

abbrev pub new_previous_sibling : ℕ → Node → Node
new_previous_sibling e n = record n { previous_sibling = some e }

abbrev pub new_parent : ℕ → Node → Node
new_parent p n = record n { parent = some p }

-- The element `e` as the last child of `target`, whose last child was `ex_last_child`.
abbrev pub link : (e target : ℕ) → (ex_last_child : Option ℕ) → List Node → List Node
link e target none ns = modify target (only_child e) ns
link e target (some ex) ns =
    modify e (new_previous_sibling ex)
      (modify ex (new_next_sibling e) (modify target (new_last_child e) ns))

unfoldable pub insert_element : ℕ → Tree → Result Tree
unfolding current_node push_stack
insert_element e t = do
  target ← current_node t
  n ← get_node target t.nodes
  push_stack e
      (record t { nodes = link e target n.last_child (modify e (new_parent target) t.nodes) })

-- `strcat(CurrentNode()->data, &token->data)`: the byte of the token and the padding behind it.
abbrev pub add_text : ℕ → Node → Result Node
add_text c n = elim n.text_data [
  | none ↦ null_pointer
  | some s ↦
      if leb 99 (length s) then overflow else ok (record n { text_data = some (s ++ c ∷ []) })
]

abbrev insert_char_at : (target : ℕ) → Node → Token → Tree → Result Tree
insert_char_at target n k t = elim n.node_type [
  | document ↦ ok t
  | text ↦ (do
    n' ← add_text k.char_data n
    ok (record t { nodes = modify target (λ _. n') t.nodes }))
  | element ↦ (do (t', e) ← create_text k t; insert_element e t')
]

unfoldable pub insert_char_from_token : Token → Tree → Result Tree
unfolding create_text insert_element current_node push_stack alloc
insert_char_from_token k t = do
  target ← current_node t
  n ← get_node target t.nodes
  insert_char_at target n k t

-- A new element for the token, or one that the document leaves out, put into the tree.
unfoldable pub insert_token : ElementType → Token → Tree → Result Tree
unfolding create_element_from_token insert_element current_node push_stack alloc
insert_token kind k t = do (t', e) ← create_element_from_token kind k t; insert_element e t'

unfoldable pub insert_implied : ElementType → Bytes → Tree → Result Tree
unfolding create_element insert_element current_node push_stack alloc
insert_implied kind name t = do (t', e) ← create_element kind (some name) t; insert_element e t'
