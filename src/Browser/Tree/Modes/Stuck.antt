-- ===== src/Browser/Tree/Modes/Stuck.antt =====
-- `ConstructTree` of app/browser/parse.c on a document that begins with a start tag that the "in body"
-- mode has no case for: the rounds up to that mode, with the nodes that they make.
use liumos.Prelude.{
  ℕ, zero, suc, ◌+◌, ◌≤◌, ◌≡◌, refl, ap, ◌∙◌, none, some, List, [], ◌∷◌, codes, arith, replicate,
  ltb, set, false, length, Option, ◌++◌,
}
use liumos.Memory.{Bytes}
use liumos.Browser.Tokenize.{Token, ok, out_of_fuel, ◌>>=◌}
use liumos.Browser.Tree.{
  Tree, document, element, html, head, body, no_element, bare_node, insert_implied, create_document,
  push_stack, pop_stack_until, ElementType, link, modify, new_parent,
}
use liumos.Browser.Tree.Modes.{
  initial, before_html, before_head, in_head, after_head, in_body, go, step, step_mode,
  construct_loop, construct_tree,
}
use liumos.Browser.Tree.Modes.Hangs.{
  IsUnknown, step_lem, before_html_stays, before_head_stays, in_head_stays, after_head_stays,
  construct_loop_hangs,
}

-- The test of `malloc` for a node.
room_test : (size n : ℕ) → size + n ≤ 1000000 → ltb 1000000 (size + n) ≡ false
room_test size n h = ground arith

-- A tree with a new element as the last child of a node, and open.
abbrev grown :
    (kind : ElementType) (name : Bytes) (target : ℕ) (last_child : Option ℕ) → Tree → Tree
grown kind name target last_child t =
    let e = length t.nodes in
    record t {
      nodes =
          link e target last_child (
            modify e (new_parent target) (t.nodes ++ bare_node element kind (some name) none ∷ []));
      stack = set t.stack t.stack_index (some e);
      stack_index = t.stack_index + 1;
      malloc_size = t.malloc_size + 64;
    }

-- The trees after the document, the elements `html` and `head`, the end of `head`, and `body`.
module _ (size : ℕ) where
  abbrev with_document : Tree
  with_document = record {
    nodes = bare_node document no_element none none ∷ [];
    stack = some 0 ∷ replicate 99 none;
    stack_index = 1;
    malloc_size = size + 64;
  }

  abbrev with_html : Tree
  with_html = grown html (codes "html") 0 none with_document

  abbrev with_head : Tree
  with_head = grown head (codes "head") 1 none with_html

  abbrev head_closed : Tree
  head_closed = record with_head { stack_index = 2 }

  abbrev with_body : Tree
  with_body = grown body (codes "body") 1 (some 2) head_closed

module _ (size : ℕ) (room : size + 256 ≤ 1000000) where
  html_inserted : insert_implied html (codes "html") (with_document size) ≡ ok (with_html size)
  unfolding insert_implied
  html_inserted = rw (room_test (size + 64) 64 (omega arith)) refl

  head_inserted : insert_implied head (codes "head") (with_html size) ≡ ok (with_head size)
  unfolding insert_implied
  head_inserted = rw (room_test (size + 64 + 64) 64 (omega arith)) refl

  head_popped : pop_stack_until head (with_head size) ≡ ok (head_closed size)
  unfolding pop_stack_until
  head_popped = refl

  body_inserted : insert_implied body (codes "body") (head_closed size) ≡ ok (with_body size)
  unfolding insert_implied
  body_inserted = rw (room_test (size + 64 + 64 + 64) 64 (omega arith)) refl

  module _ (k : Token) (ks : List Token) (u : IsUnknown k) where
    after_initial :
        step initial k ks (with_document size) ≡ ok (go before_html (k ∷ ks) (with_document size))
    unfolding step_mode
    after_initial = step_lem k ks u initial (with_document size)

    after_html :
        step before_html k ks (with_document size) ≡ ok (go before_head (k ∷ ks) (with_html size))
    unfolding step_mode
    after_html =
        step_lem k ks u before_html (with_document size)
        ∙ before_html_stays k ks u (with_document size)
        ∙ rw html_inserted refl

    after_head_start :
        step before_head k ks (with_html size) ≡ ok (go in_head (k ∷ ks) (with_head size))
    unfolding step_mode
    after_head_start =
        step_lem k ks u before_head (with_html size)
        ∙ before_head_stays k ks u (with_html size)
        ∙ rw head_inserted refl

    after_head_end :
        step in_head k ks (with_head size) ≡ ok (go after_head (k ∷ ks) (head_closed size))
    unfolding step_mode
    after_head_end =
        step_lem k ks u in_head (with_head size)
        ∙ in_head_stays k ks u (with_head size)
        ∙ ap (λ r. r >>= (λ t. ok (go after_head (k ∷ ks) t))) head_popped

    after_body_start :
        step after_head k ks (head_closed size) ≡ ok (go in_body (k ∷ ks) (with_body size))
    unfolding step_mode
    after_body_start =
        step_lem k ks u after_head (head_closed size)
        ∙ after_head_stays k ks u (head_closed size)
        ∙ rw body_inserted refl

    -- However many rounds the loop is given, it uses them up.
    loop_uses_up : (n : ℕ) → construct_loop n initial (k ∷ ks) (with_document size) ≡ out_of_fuel
    unfolding construct_loop
    loop_uses_up zero = refl
    loop_uses_up (suc zero) = rw after_initial refl
    loop_uses_up (suc (suc zero)) = rw (after_initial, after_html) refl
    loop_uses_up (suc (suc (suc zero))) = rw (after_initial, after_html, after_head_start) refl
    loop_uses_up (suc (suc (suc (suc zero)))) =
        rw (after_initial, after_html, after_head_start, after_head_end) refl
    loop_uses_up (suc (suc (suc (suc (suc n))))) =
        rw (after_initial, after_html, after_head_start, after_head_end, after_body_start)
          (construct_loop_hangs k ks u n (with_body size))

    -- With room for the four nodes of the document, its head and its body, `ConstructTree` on a
    -- document that begins with a start tag that no mode knows uses up any number of rounds.
    pub construct_tree_stuck : (n : ℕ) → construct_tree n size (k ∷ ks) ≡ out_of_fuel
    unfolding construct_tree create_document push_stack
    construct_tree_stuck n = rw (room_test size 64 (omega arith)) (loop_uses_up n)
