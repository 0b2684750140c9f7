-- ===== src/Browser/Rendering.antt =====
-- app/browser/rendering.c: the text that is printed for a page, and `Render`, which joins the
-- tokenizer, the tree construction and the walk that prints. The state is `first_line`.
pub mod Ends
use liumos.Prelude.{
  ℕ, zero, suc, ◌+◌, ◌*◌, Bool, true, false, not, ◌&&◌, Option, none, some, List, [], ◌∷◌, ◌++◌,
  ◌==◌, if◌then◌else◌, length, codes,
}
use liumos.Memory.{Bytes}
use liumos.Browser.Tokenize.{
  Token, Result, ok, null_pointer, out_of_fuel, ◌>>=◌, has_name, tokenize,
}
use liumos.Browser.Tree.{
  Tree, Node, document, element, text, ElementType, heading, div, paragraph, ul, li, get_node,
}
use liumos.Browser.Tree.Modes.{same_bytes, construct_tree}

-- What is printed and the new `first_line`.
abbrev pub Printed : Type 0
Printed = Bytes × Bool

abbrev pub printable : Bytes → Bool
printable [] = false
printable (c ∷ cs) =
    if not (c == 0x09) && not (c == 0x0a) && not (c == 0x0c) && not (c == 0x0d) && not (c == 0x20)
    then true
    else printable cs

abbrev heading_mark : Bytes → Bytes
heading_mark name =
    if same_bytes name (codes "h1")
    then codes "# "
    else if same_bytes name (codes "h2")
    then codes "## "
    else if same_bytes name (codes "h3")
    then codes "### "
    else if same_bytes name (codes "h4")
    then codes "#### "
    else if same_bytes name (codes "h5")
    then codes "##### "
    else if same_bytes name (codes "h6")
    then codes "###### "
    else []

-- The new line before an element that is not on the first line.
abbrev new_line : (first_line : Bool) → Bytes
new_line first_line = if not first_line then codes "\n" else []

abbrev pub mark_text : Option Bytes → (first_line : Bool) → Result Printed
mark_text none first_line = null_pointer
mark_text (some s) first_line = ok (if printable s then (s, false) else ([], first_line))

abbrev pub mark_heading : Option Bytes → Result Printed
mark_heading none = null_pointer
mark_heading (some name) = ok (heading_mark name, false)

abbrev pub mark_element : ElementType → Node → (first_line : Bool) → Result Printed
mark_element heading n first_line = mark_heading n.tag_name
mark_element ul n first_line = ok (new_line first_line, first_line)
mark_element li n first_line = ok (new_line first_line ++ codes "- ", false)
mark_element div n first_line = ok (new_line first_line, first_line)
mark_element paragraph n first_line = ok (new_line first_line, first_line)
mark_element _ n first_line = ok ([], first_line)

unfoldable pub markdown : Node → (first_line : Bool) → Result Printed
markdown n first_line = elim n.node_type [
  | text ↦ mark_text n.text_data first_line
  | document ↦ mark_element n.element_type n first_line
  | element ↦ mark_element n.element_type n first_line
]

-- The loop of `Dfs` from the node `cur` on: its `Dfs`, then its next sibling.
unfoldable pub mark_loop : ℕ → (cur : Option ℕ) → (first_line : Bool) → List Node → Result Printed
mark_loop f none first_line ns = ok ([], first_line)
mark_loop zero (some p) first_line ns = out_of_fuel
mark_loop (suc f) (some p) first_line ns = do
  n ← get_node p ns
  (here, first1) ← markdown n first_line
  (below, first2) ← mark_loop f n.first_child first1 ns
  (after, first3) ← mark_loop f n.next_sibling first2 ns
  ok (here ++ below ++ after, first3)

-- `Dfs(root_node)`.
unfoldable pub mark_root : ℕ → List Node → Result Printed
mark_root f ns = do
  n ← get_node 0 ns
  (here, first1) ← markdown n true
  (below, first2) ← mark_loop f n.first_child first1 ns
  ok (here ++ below, first2)

unfoldable pub generate : Tree → Result Bytes
unfolding mark_root mark_loop markdown
generate t = do (s, first_line) ← mark_root (length t.nodes) t.nodes; ok (s ++ codes "\n")

-- The bytes that `Tokenize` has allocated: a block for each token and one for each tag name.
abbrev pub tokens_size : List Token → ℕ
tokens_size [] = 0
tokens_size (k ∷ ks) = 32 + (if has_name k.type then 20 else 0) + tokens_size ks

-- The first argument is the fuel of the tree construction, which the length of the page does not bound.
unfoldable pub render : ℕ → (malloc_size : ℕ) → Bytes → Result Bytes
unfolding tokenize construct_tree generate
render f size html = do
  (ks, html') ← tokenize size html
  t ← construct_tree f (size + tokens_size ks) ks
  generate t
