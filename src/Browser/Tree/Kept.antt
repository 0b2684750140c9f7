-- ===== src/Browser/Tree/Kept.antt =====
-- app/browser/parse.c: the functions that make nodes and put them into the tree keep its links in
-- order.
use liumos.Prelude.{
  ℕ, zero, suc, ◌+◌, ◌-◌, ◌<◌, ◌≡◌, refl, sym, ◌∙◌, Option, none, some, [], ◌∷◌, ◌++◌, length,
  get_or, length-append, arith, ltb, leb, ◌==◌, if◌then◌else◌,
}
use mathlib.Core.Path.{subst}
use liumos.Memory.{Bytes}
use liumos.Browser.Tokenize.{Token, Result, ok, null_pointer, overflow, ◌>>=◌}
use liumos.Browser.Tree.{
  Node, NodeType, document, element, text, ElementType, new_parent, Tree, alloc, bare_node, modify,
  link, current_node, from_stack, insert_element, insert_token, insert_implied,
  insert_char_from_token, pop_stack, pop_stack_until, pop_until, create_document, push_stack,
  add_text, add_node, create_text, no_element, same_element,
}
use liumos.Browser.Tree.Outcome.{
  Post, Post-ok, Post-exhausted, Post-null_pointer, Post-overflow, Post-if, Post-bind, Post-mono,
}
use liumos.Browser.Tree.Links.{
  All-Below-mono, All-set, AllLinked-mono, Below, HasLinks, IsLinked, IsTree, append-AllLinked,
  get_node-Post, get_or-Below, length-link, length-modify, link-AllLinked, modify-AllLinked,
  new_parent-IsLinked, node_at-Post,
}

current_node-Post : (n : ℕ) (t : Tree) → HasLinks n t → Post (λ p. p < n) (current_node t)
unfolding current_node
current_node-Post n t h =
    Post-if (t.stack_index == 0) (λ _. Post-overflow)
      (λ _. named _ (get_or-Below n t.stack (t.stack_index - 1) h.open_elements))
  where
    named : (o : Option ℕ) → Below n o → Post (λ p. p < n) (from_stack o)
    named none b = Post-null_pointer
    named (some p) b = Post-ok b

pub push_stack-Post :
    (n p : ℕ) (t : Tree)
    → p < n
    → HasLinks n t
    → Post (λ t'. HasLinks n t' × (length t'.nodes ≡ length t.nodes)) (push_stack p t)
unfolding push_stack
push_stack-Post n p t lt h =
    Post-if (ltb t.stack_index 100)
      (λ _. Post-ok (
        record {
          links = h.links;
          open_elements = All-set n t.stack t.stack_index (some p) lt h.open_elements;
        },
        refl,
      ))
      (λ _. Post-overflow)

-- The newest node, `e`, has been made, and no other node nor the stack names it.
insert_element-Post :
    (e : ℕ) (t : Tree) → HasLinks e t → length t.nodes ≡ suc e → Post IsTree (insert_element e t)
unfolding insert_element
insert_element-Post e t h len = Post-bind (current_node-Post e t h) (λ target lt.
    Post-bind (get_node-Post e 0 target target t.nodes (omega arith) h.links) (λ n l.
      let linked = link e target n.last_child (modify e (new_parent target) t.nodes) in
      let size =
        length-link e target n.last_child (modify e (new_parent target) t.nodes)
        ∙ length-modify e (new_parent target) t.nodes
        ∙ len in
      Post-mono
        (push_stack-Post (suc e) e (record t { nodes = linked }) (omega arith)
          (record {
            links = link-AllLinked e target n.last_child _ lt l.last (
                modify-AllLinked (suc e) 0 e (new_parent target) t.nodes
                  (λ j y q k. new_parent-IsLinked (omega (arith, q, lt)) k)
                  (AllLinked-mono (omega arith) 0 t.nodes h.links));
            open_elements = All-Below-mono (omega arith) t.stack h.open_elements;
          }))
        (λ t' k. subst (λ m. HasLinks m t') (sym (k.1 ∙ size)) k.0)))

-- A new node without links, for which `n` bytes have been allocated.
alloc-Post : (n : ℕ) (t : Tree) → IsTree t → Post IsTree (alloc n t)
unfolding alloc
alloc-Post n t h =
    Post-if (ltb 1000000 (t.malloc_size + n)) (λ _. Post-exhausted)
      (λ _. Post-ok (record { links = h.links; open_elements = h.open_elements }))

-- A tree and its newest node, which nothing names.
abbrev pub IsNew : Tree × ℕ → Type 0
IsNew (t, e) = HasLinks e t × (length t.nodes ≡ suc e)

create-Post :
    (type : NodeType) (kind : ElementType) (name content : Option Bytes) (t : Tree)
    → IsTree t
    → Post IsNew (ok (add_node (bare_node type kind name content) t))
create-Post type kind name content t h = Post-ok (
  record {
    links = append-AllLinked (length t.nodes) 0 t.nodes type kind name content h.links;
    open_elements = h.open_elements;
  },
  length-append t.nodes _ ∙ omega arith,
)

insert_new-Post :
    {r : Result (Tree × ℕ)} → Post IsNew r → Post IsTree (r >>= (λ x. insert_element (x.1) (x.0)))
insert_new-Post p = Post-bind p (λ x k. insert_element-Post x.1 x.0 k.0 k.1)

pub create_document-Post : (t : Tree) → IsTree t → Post IsNew (create_document t)
unfolding create_document
create_document-Post t h = Post-bind (alloc-Post 64 t h) (create-Post document no_element none none)

create_text-Post : (k : Token) (t : Tree) → IsTree t → Post IsNew (create_text k t)
unfolding create_text
create_text-Post k t h = Post-bind (alloc-Post 64 t h) (λ t1 h1.
    Post-bind (alloc-Post 100 t1 h1) (create-Post text no_element none (some (k.char_data ∷ []))))

pub insert_token-Post :
    (kind : ElementType) (k : Token) (t : Tree) → IsTree t → Post IsTree (insert_token kind k t)
unfolding insert_token
insert_token-Post kind k t h =
    insert_new-Post (Post-bind (alloc-Post 64 t h) (create-Post element kind k.name none))

pub insert_implied-Post :
    (kind : ElementType) (name : Bytes) (t : Tree)
    → IsTree t
    → Post IsTree (insert_implied kind name t)
unfolding insert_implied
insert_implied-Post kind name t h =
    insert_new-Post (Post-bind (alloc-Post 64 t h) (create-Post element kind (some name) none))

add_text-Post : (n j c : ℕ) (x : Node) → IsLinked n j x → Post (IsLinked n j) (add_text c x)
add_text-Post n j c x l = by_data x.text_data
  where
    by_data :
        (o : Option Bytes)
        → Post (IsLinked n j) (elim o [
          | none ↦ null_pointer
          | some s ↦
              if leb 99 (length s)
              then overflow
              else ok (record x { text_data = some (s ++ c ∷ []) })
        ])
    by_data none = Post-null_pointer
    by_data (some s) =
        Post-if (leb 99 (length s)) (λ _. Post-overflow)
          (λ _.
            Post-ok
              (record { up = l.up; back = l.back; first = l.first; last = l.last; next = l.next }))

pub insert_char_from_token-Post :
    (k : Token) (t : Tree) → IsTree t → Post IsTree (insert_char_from_token k t)
unfolding insert_char_from_token
insert_char_from_token-Post k t h = Post-bind (current_node-Post (length t.nodes) t h) (λ target lt.
    Post-bind (get_node-Post (length t.nodes) 0 target target t.nodes (omega arith) h.links)
      (λ n l. at target n l n.node_type))
  where
    at :
        (target : ℕ) (n : Node)
        → IsLinked (length t.nodes) target n
        → (type : NodeType)
        → Post IsTree (elim type [
          | document ↦ ok t
          | text ↦ (do
            n' ← add_text k.char_data n
            ok (record t { nodes = modify target (λ _. n') t.nodes }))
          | element ↦ (do (t', e) ← create_text k t; insert_element e t')
        ])
    at target n l document = Post-ok h
    at target n l element = insert_new-Post (create_text-Post k t h)
    at target n l text = Post-bind (add_text-Post _ target k.char_data n l) (λ n' l'. Post-ok (
        subst (λ m. HasLinks m (record t { nodes = modify target (λ _. n') t.nodes }))
          (sym (length-modify target (λ _. n') t.nodes))
          (record {
            links =
                modify-AllLinked (length t.nodes) 0 target (λ _. n') t.nodes
                  (λ j y q _. subst (λ a. IsLinked (length t.nodes) a n') (omega (arith, q)) l')
                  h.links;
            open_elements = h.open_elements;
          })))

pub pop_stack_lem : (t : Tree) → IsTree t → IsTree (pop_stack t)
unfolding pop_stack
pop_stack_lem t h = record { links = h.links; open_elements = h.open_elements }

pop_until-Post :
    (i : ℕ) (kind : ElementType) (t : Tree) → IsTree t → Post IsTree (pop_until i kind t)
unfolding pop_until
pop_until-Post zero kind t h = Post-ok (record { links = h.links; open_elements = h.open_elements })
pop_until-Post (suc i) kind t h = Post-bind (node_at-Post (get_or t.stack i none) t.nodes) (λ n _.
    Post-if (same_element kind n.element_type)
      (λ _. Post-ok (record { links = h.links; open_elements = h.open_elements }))
      (λ _. pop_until-Post i kind t h))

pub pop_stack_until-Post :
    (kind : ElementType) (t : Tree) → IsTree t → Post IsTree (pop_stack_until kind t)
unfolding pop_stack_until
pop_stack_until-Post kind t h = pop_until-Post t.stack_index kind t h
