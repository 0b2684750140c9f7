-- ===== src/Browser/Rendering/Ends.antt =====
-- app/browser/rendering.c: `Render` as a whole, on pages that it can process and on others.
use liumos.Prelude.{
  ℕ, zero, suc, ◌+◌, ◌*◌, ◌≤◌, ◌≡◌, ◌≢◌, inl, inr, refl, Bool, true, Option, none, some, List, ◌∷◌,
  All, length, arith, map, [],
}
use liumos.Memory.{Bytes}
use liumos.Browser.Tokenize.{Token, ok, out_of_fuel, tokenize}
use liumos.Browser.Tokenize.Total.{tokenize_total}
use liumos.Browser.Tokenize.Render
use liumos.Browser.Tokenize.Render.{
  Piece, open_tag, close_tag, write_all, token_of, IsPiece, heap_use,
}
use liumos.Browser.Tokenize.RoundTrip.{tokenize-write_all}
use liumos.Browser.Tree.{
  Tree, Node, NodeType, document, element, text, ElementType, html, head, body, heading, div,
  paragraph, ul, li, no_element,
}
use liumos.Browser.Tree.Outcome.{Post, Post-ok, Post-null_pointer, Post-bind, Post-ends}
use liumos.Browser.Tree.Links.{IsTree, AllLinked, Between, get_node-Post}
use liumos.Browser.Tree.Modes.Rounds.{IsKnown}
use liumos.Browser.Tree.Modes.Ends.{construct_tree-Post}
use liumos.Browser.Tree.Modes.Hangs.{IsUnknown}
use liumos.Browser.Tree.Modes.Stuck.{construct_tree_stuck}
use liumos.Browser.Rendering.{
  mark_text, mark_heading, mark_element, markdown, mark_loop, mark_root, generate, tokens_size,
  render,
}

mark_element-Post :
    (kind : ElementType) (n : Node) (first_line : Bool)
    → Post (λ _. Unit) (mark_element kind n first_line)
mark_element-Post heading n first_line = by_name n.tag_name
  where
    by_name : (o : Option Bytes) → Post (λ _. Unit) (mark_heading o)
    by_name none = Post-null_pointer
    by_name (some s) = Post-ok tt
mark_element-Post html n first_line = Post-ok tt
mark_element-Post head n first_line = Post-ok tt
mark_element-Post body n first_line = Post-ok tt
mark_element-Post div n first_line = Post-ok tt
mark_element-Post paragraph n first_line = Post-ok tt
mark_element-Post ul n first_line = Post-ok tt
mark_element-Post li n first_line = Post-ok tt
mark_element-Post no_element n first_line = Post-ok tt

mark_text-Post : (o : Option Bytes) (first_line : Bool) → Post (λ _. Unit) (mark_text o first_line)
mark_text-Post none first_line = Post-null_pointer
mark_text-Post (some s) first_line = Post-ok tt

markdown-Post : (n : Node) (first_line : Bool) → Post (λ _. Unit) (markdown n first_line)
unfolding markdown
markdown-Post n first_line = by_type n.node_type
  where
    by_type :
        (type : NodeType)
        → Post
            (λ _. Unit)
            (elim type [
              | text ↦ mark_text n.text_data first_line
              | document ↦ mark_element n.element_type n first_line
              | element ↦ mark_element n.element_type n first_line
            ])
    by_type text = mark_text-Post n.text_data first_line
    by_type document = mark_element-Post n.element_type n first_line
    by_type element = mark_element-Post n.element_type n first_line

mark_loop-Post :
    (f i n : ℕ) (cur : Option ℕ) (first_line : Bool) (ns : List Node)
    → AllLinked n 0 ns
    → Between i n cur
    → n ≤ suc (f + i)
    → Post (λ _. Unit) (mark_loop f cur first_line ns)
unfolding mark_loop
mark_loop-Post zero i n none first_line ns h b le = Post-ok tt
mark_loop-Post (suc f) i n none first_line ns h b le = Post-ok tt
mark_loop-Post zero i n (some p) first_line ns h b le = absurd (omega (arith, b.0, b.1))
mark_loop-Post (suc f) i n (some p) first_line ns h b le =
    Post-bind (get_node-Post n 0 p p ns (omega arith) h) (λ x l.
      Post-bind (markdown-Post x first_line) (λ r _.
        Post-bind (mark_loop-Post f p n x.first_child r.1 ns h l.first (omega (arith, b.0)))
          (λ r' _.
            Post-bind (mark_loop-Post f p n x.next_sibling r'.1 ns h l.next (omega (arith, b.0)))
              (λ _ _. Post-ok tt))))

mark_root-Post : (t : Tree) → IsTree t → Post (λ _. Unit) (mark_root (length t.nodes) t.nodes)
unfolding mark_root
mark_root-Post t h =
    Post-bind (get_node-Post (length t.nodes) 0 0 0 t.nodes (omega arith) h.links) (λ x l.
      Post-bind (markdown-Post x true) (λ r _.
        Post-bind
          (mark_loop-Post (length t.nodes) 0 (length t.nodes) x.first_child r.1 t.nodes h.links
            l.first (omega arith))
          (λ _ _. Post-ok tt)))

generate-Post : (t : Tree) → IsTree t → Post (λ _. Unit) (generate t)
unfolding generate
generate-Post t h = Post-bind (mark_root-Post t h) (λ _ _. Post-ok tt)

-- With 52 bytes of the heap free for each byte of a page, of which no token is a start tag that
-- the "in body" mode does not know, and seven rounds of the tree construction for each token or more,
-- `Render` ends: none of its three loops runs out of fuel.
pub render_ends :
    (f size : ℕ) (page : Bytes)
    → size + 52 * length page ≤ 1000000
    → ((ks : List Token) (page' : Bytes) → tokenize size page ≡ ok (ks, page') → All IsKnown ks)
    → ((ks : List Token) (page' : Bytes) → tokenize size page ≡ ok (ks, page') → 7 * length ks ≤ f)
    → render f size page ≢ out_of_fuel
unfolding render
render_ends f size page room known enough = elim (tokenize_total size page room) [
  | inl (r, e) ↦ rw e (
      Post-ends (
        Post-bind
          (construct_tree-Post f (size + tokens_size r.0) r.0 (enough r.0 r.1 e) (known r.0 r.1 e))
          generate-Post))
  | inr e ↦ rw e (λ q. absurd (cc q))
]

tokens_size-map : (ps : List Piece) → tokens_size (map token_of ps) ≡ heap_use ps
unfolding token_of heap_use
tokens_size-map [] = refl
tokens_size-map (Render.text c ∷ ps) = omega (arith, tokens_size-map ps)
tokens_size-map (open_tag n closing ∷ ps) = omega (arith, tokens_size-map ps)
tokens_size-map (close_tag n ∷ ps) = omega (arith, tokens_size-map ps)

-- For written markup that begins with a start tag that no mode knows, and a heap with room for the
-- tokens and the four nodes that every document has, `Render` does not return and does not end the
-- program: its loop over the tokens uses up any number of rounds.
pub render_hangs :
    (f size : ℕ) (name : Bytes) (closing : Bool) (ps : List Piece)
    → All IsPiece (open_tag name closing ∷ ps)
    → size + heap_use (open_tag name closing ∷ ps) + 256 ≤ 1000000
    → IsUnknown (token_of (open_tag name closing))
    → render f size (write_all (open_tag name closing ∷ ps)) ≡ out_of_fuel
unfolding render
render_hangs f size name closing ps pieces room unknown =
    let all = open_tag name closing ∷ ps in
    let used = size + tokens_size (map token_of all) in
    let hangs =
      construct_tree_stuck used (omega (arith, tokens_size-map all))
        (token_of (open_tag name closing)) (map token_of ps) unknown f in
    rw (tokenize-write_all size all pieces (omega arith), hangs) refl
