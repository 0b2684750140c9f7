-- ===== src/Tests/Tree.antt =====
-- The tree construction of app/browser/parse.c on short rows of tokens.
use liumos.Prelude.{
  ◌≡◌, ◌≢◌, refl, false, some, [], ◌∷◌, List, All, arith, codes, length, if◌then◌else◌,
}
use liumos.Browser.Tokenize.{
  Token, TokenType, start_tag, end_tag, new_char, ok, out_of_fuel, null_pointer, overflow, Result,
}
use liumos.Memory.{Bytes}
use liumos.Browser.Tree.{Tree, head, body, pop_stack, pop_stack_until}
use liumos.Browser.Tree.Links.{IsTree}
use liumos.Browser.Tree.Print.{print_nodes}
use liumos.Browser.Tree.Modes.{
  before_html, before_head, in_head, after_head, go, step, is_named, pop_and_go, construct_tree,
  empty_tree,
}
use liumos.Browser.Tree.Modes.Rounds.{IsKnown}
use liumos.Browser.Tree.Modes.Ends.{construct_tree_ends, construct_tree-IsTree}
use liumos.Browser.Tree.Modes.Hangs.{IsUnknown, construct_tree_hangs}
use liumos.Browser.Tree.Modes.Skips.{end_tags_ignored}

abbrev tag : TokenType → Bytes → Token
tag type name = record { type = type; name = some name; self_closing = false; char_data = 0 }

-- "<p>a</p>"
abbrev paragraph_tokens : List Token
paragraph_tokens = tag start_tag (codes "p") ∷ new_char b'a' ∷ tag end_tag (codes "p") ∷ []

paragraph-IsKnown : All IsKnown paragraph_tokens
paragraph-IsKnown = ((λ _. refl), ((λ e. absurd (cc e)), ((λ e. absurd (cc e)), tt)))

walk : Result Tree → Result Bytes
walk (ok t) = print_nodes 10 t
walk _ = null_pointer

-- The end tag has removed the text node from the stack with its paragraph.
print_paragraph :
    walk (construct_tree 21 0 paragraph_tokens)
    ≡ ok (
        codes
          "--------------\n0::DOCUMENT\n1: :ELEMENT: html\n2:  :ELEMENT: head\n2:  :ELEMENT: body\n3:   :ELEMENT: p\n4:    :TEXT: a\n--------------\n")
unfolding construct_tree print_nodes walk
print_paragraph = refl

construct_tree_ends_example : construct_tree 21 0 paragraph_tokens ≢ out_of_fuel
construct_tree_ends_example =
    construct_tree_ends 21 0 paragraph_tokens (omega arith) paragraph-IsKnown

abbrev made : Result Tree → Tree
made (ok t) = t
made _ = empty_tree 0

abbrev paragraph_tree : Tree
unfolding construct_tree
paragraph_tree = made (construct_tree 21 0 paragraph_tokens)

paragraph_constructed : construct_tree 21 0 paragraph_tokens ≡ ok paragraph_tree
unfolding construct_tree paragraph_tree
paragraph_constructed = refl

construct_tree-IsTree_example : IsTree paragraph_tree
construct_tree-IsTree_example =
    construct_tree-IsTree 21 0 paragraph_tokens paragraph_tree (omega arith) paragraph-IsKnown
      paragraph_constructed

paragraph_size : length paragraph_tree.nodes ≡ 6
unfolding paragraph_tree
paragraph_size = refl

abbrev bold : Token
bold = tag start_tag (codes "b")

bold-IsUnknown : IsUnknown bold
bold-IsUnknown = record {
  name = codes "b";
  named = refl;
  starts = refl;
  unknown = refl;
  not_head = refl;
}

construct_tree_hangs_example : construct_tree 1000 0 (bold ∷ paragraph_tokens) ≢ ok (empty_tree 0)
construct_tree_hangs_example =
    construct_tree_hangs bold paragraph_tokens bold-IsUnknown 1000 0 (empty_tree 0)

abbrev end_head : Token
end_head = tag end_tag (codes "head")

end_tags_ignored_example :
    (step before_html end_head [] (empty_tree 0) ≡ ok (go before_html [] (empty_tree 0)))
    × (step before_head end_head [] (empty_tree 0) ≡ ok (go before_head [] (empty_tree 0)))
    × (step in_head end_head [] (empty_tree 0) ≡ (
        if is_named (codes "head") end_head
        then pop_and_go head after_head [] (empty_tree 0)
        else ok (go in_head [] (empty_tree 0))))
    × (step after_head end_head [] (empty_tree 0) ≡ ok (go after_head [] (empty_tree 0)))
end_tags_ignored_example = end_tags_ignored end_head (codes "head") [] (empty_tree 0) refl refl

abbrev item : Token
item = tag start_tag (codes "li")

-- "<ul><li>"
list_item : walk (construct_tree 30 0 (tag start_tag (codes "ul") ∷ item ∷ [])) ≡ null_pointer
unfolding construct_tree walk
list_item = refl

-- A text node stays open, so that an element behind text becomes its child.
element_in_text :
    walk (
      construct_tree 30 0
        (tag start_tag (codes "p") ∷ new_char b'a' ∷ tag start_tag (codes "ul") ∷ []))
    ≡ ok (
        codes
          "--------------\n0::DOCUMENT\n1: :ELEMENT: html\n2:  :ELEMENT: head\n2:  :ELEMENT: body\n3:   :ELEMENT: p\n4:    :TEXT: a\n5:     :ELEMENT: ul\n--------------\n")
unfolding construct_tree print_nodes walk
element_in_text = refl

-- Four end tags without a start tag empty the stack; the next character is read before it.
stack_emptied :
    construct_tree 60 0 (
      tag start_tag (codes "p")
      ∷ tag end_tag (codes "b")
      ∷ tag end_tag (codes "b")
      ∷ tag end_tag (codes "b")
      ∷ tag end_tag (codes "b")
      ∷ new_char b'a'
      ∷ [])
    ≡ overflow
unfolding construct_tree pop_stack
stack_emptied = refl

abbrev cut_tree : Tree
unfolding pop_stack_until paragraph_tree
cut_tree = made (pop_stack_until body paragraph_tree)
