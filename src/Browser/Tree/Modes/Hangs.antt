-- ===== src/Browser/Tree/Modes/Hangs.antt =====
-- `ConstructTree` of app/browser/parse.c on a start tag that the "in body" mode has no case for.
use liumos.Prelude.{ℕ, zero, suc, ◌≡◌, ◌≢◌, refl, sym, ◌∙◌, false, some, List, ◌∷◌, codes, arith}
use mathlib.Core.Path.{subst}
use liumos.Memory.{Bytes}
use liumos.Browser.Tokenize.{
  Token, doctype, start_tag, end_tag, char, eof, Result, ok, out_of_fuel, null_pointer, exhausted,
  overflow, ◌>>=◌,
}
use liumos.Browser.Tree.{Tree, html, head, body, insert_implied, create_document, push_stack}
use liumos.Browser.Tree.Modes.{
  Mode, initial, before_html, before_head, in_head, after_head, in_body, after_body,
  after_after_body, Next, go, stop, is_type, is_named, step_before_html, step_before_head,
  step_in_head, step_after_head, step_after_body, step_after_after_body, pop_and_go, end_in_body,
  step_in_body, step_mode, step, construct_loop, empty_tree, construct_tree,
}
use liumos.Browser.Tree.Modes.Rounds.{has_known_name}

-- A start tag whose name neither the "in body" mode nor the modes before it know.
pub record IsUnknown (k : Token) : Type 0 where
  pub name : Bytes
  pub named : k.name ≡ some name
  pub starts : k.type ≡ start_tag
  pub unknown : has_known_name k ≡ false
  pub not_head : is_named (codes "head") k ≡ false

-- The results of the tests of the token's type.
record IsStart (k : Token) : Type 0 where
  no_char : is_type char k ≡ false
  no_doctype : is_type doctype k ≡ false
  no_eof : is_type eof k ≡ false
  no_end : is_type end_tag k ≡ false

type-IsStart : (k : Token) → k.type ≡ start_tag → IsStart k
type-IsStart k e = record {
  no_char = rw e refl;
  no_doctype = rw e refl;
  no_eof = rw e refl;
  no_end = rw e refl;
}

bind-never :
    {A : Type 0} (r : Result A) (f : A → Result Tree) (t : Tree)
    → ((a : A) → f a ≢ ok t)
    → (r >>= f) ≢ ok t
bind-never (ok a) f t h e = h a e
bind-never exhausted f t h e = absurd (cc e)
bind-never null_pointer f t h e = absurd (cc e)
bind-never overflow f t h e = absurd (cc e)
bind-never out_of_fuel f t h e = absurd (cc e)

module _ (k : Token) (ks : List Token) (u : IsUnknown k) where
  tests : IsStart k
  tests = type-IsStart k u.starts

  -- Nothing of the state changes in the round.
  in_body_stays : (t : Tree) → step_in_body k ks t ≡ ok (go in_body (k ∷ ks) t)
  unfolding step_in_body end_in_body
  in_body_stays t =
      ground
        (arith, tests.no_char, tests.no_doctype, tests.no_eof, tests.no_end, u.unknown, u.not_head)

  pub before_html_stays :
      (t : Tree)
      → step_before_html k ks t
        ≡ insert_implied html (codes "html") t >>= (λ t'. ok (go before_head (k ∷ ks) t'))
  unfolding step_before_html
  before_html_stays t =
      ground
        (arith, tests.no_char, tests.no_doctype, tests.no_eof, tests.no_end, u.unknown, u.not_head)

  pub before_head_stays :
      (t : Tree)
      → step_before_head k ks t
        ≡ insert_implied head (codes "head") t >>= (λ t'. ok (go in_head (k ∷ ks) t'))
  unfolding step_before_head
  before_head_stays t =
      ground
        (arith, tests.no_char, tests.no_doctype, tests.no_eof, tests.no_end, u.unknown, u.not_head)

  pub in_head_stays : (t : Tree) → step_in_head k ks t ≡ pop_and_go head after_head (k ∷ ks) t
  unfolding step_in_head
  in_head_stays t =
      ground
        (arith, tests.no_char, tests.no_doctype, tests.no_eof, tests.no_end, u.unknown, u.not_head)

  pub after_head_stays :
      (t : Tree)
      → step_after_head k ks t
        ≡ insert_implied body (codes "body") t >>= (λ t'. ok (go in_body (k ∷ ks) t'))
  unfolding step_after_head
  after_head_stays t =
      ground
        (arith, tests.no_char, tests.no_doctype, tests.no_eof, tests.no_end, u.unknown, u.not_head)

  after_body_stays : (t : Tree) → step_after_body k ks t ≡ ok (go in_body (k ∷ ks) t)
  unfolding step_after_body
  after_body_stays t =
      ground
        (arith, tests.no_char, tests.no_doctype, tests.no_eof, tests.no_end, u.unknown, u.not_head)

  after_after_body_stays : (t : Tree) → step_after_after_body k ks t ≡ ok (go in_body (k ∷ ks) t)
  unfolding step_after_after_body
  after_after_body_stays t =
      ground
        (arith, tests.no_char, tests.no_doctype, tests.no_eof, tests.no_end, u.unknown, u.not_head)

  -- A round that ends goes on at the same token.
  Stays : Result Next → Type 0
  Stays (ok (go m ks' t)) = ks' ≡ k ∷ ks
  Stays (ok (stop t)) = ⊥
  Stays _ = Unit

  bind-Stays : (r : Result Tree) (m : Mode) → Stays (r >>= (λ t. ok (go m (k ∷ ks) t)))
  unfolding Stays
  bind-Stays (ok t) m = refl
  bind-Stays exhausted m = tt
  bind-Stays null_pointer m = tt
  bind-Stays overflow m = tt
  bind-Stays out_of_fuel m = tt

  step_mode-Stays : (m : Mode) (t : Tree) → Stays (step_mode m k ks t)
  unfolding step_mode Stays
  step_mode-Stays initial t = refl
  step_mode-Stays before_html t = subst Stays (sym (before_html_stays t)) (bind-Stays _ before_head)
  step_mode-Stays before_head t = subst Stays (sym (before_head_stays t)) (bind-Stays _ in_head)
  step_mode-Stays in_head t = subst Stays (sym (in_head_stays t)) (bind-Stays _ after_head)
  step_mode-Stays after_head t = subst Stays (sym (after_head_stays t)) (bind-Stays _ in_body)
  step_mode-Stays in_body t = subst Stays (sym (in_body_stays t)) refl
  step_mode-Stays after_body t = subst Stays (sym (after_body_stays t)) refl
  step_mode-Stays after_after_body t = subst Stays (sym (after_after_body_stays t)) refl

  pub step_lem : (m : Mode) (t : Tree) → step m k ks t ≡ step_mode m k ks t
  unfolding step
  step_lem m t = rw u.named refl

  step-in_body : (t : Tree) → step in_body k ks t ≡ ok (go in_body (k ∷ ks) t)
  unfolding step_mode
  step-in_body t = step_lem in_body t ∙ in_body_stays t

  -- Once the "in body" mode meets such a start tag, `ConstructTree` does not end: the loop uses up
  -- any number of rounds.
  pub construct_loop_hangs : (n : ℕ) (t : Tree) → construct_loop n in_body (k ∷ ks) t ≡ out_of_fuel
  unfolding construct_loop
  construct_loop_hangs zero t = refl
  construct_loop_hangs (suc n) t = rw (step-in_body t) (construct_loop_hangs n t)

  loop_never_ok : (n : ℕ) (m : Mode) (t t' : Tree) → construct_loop n m (k ∷ ks) t ≢ ok t'
  unfolding construct_loop Stays
  loop_never_ok zero m t t' e = absurd (cc e)
  loop_never_ok (suc n) m t t' e =
      by_round (loop_never_ok n) (step m k ks t)
        (subst Stays (sym (step_lem m t)) (step_mode-Stays m t)) e
    where
      by_round :
          ((m : Mode) (t t' : Tree) → construct_loop n m (k ∷ ks) t ≢ ok t')
          → (r : Result Next) → Stays r
          → (r >>= (λ next. elim next [
            | go mode' ks' t1 ↦ construct_loop n mode' ks' t1
            | stop t1 ↦ ok t1
          ]))
            ≢ ok t'
      by_round ih (ok (go m1 ks1 t1)) q e1 =
          ih m1 t1 t' (subst (λ x. construct_loop n m1 x t1 ≡ ok t') q e1)
      by_round ih (ok (stop t1)) q e1 = q
      by_round ih exhausted q e1 = absurd (cc e1)
      by_round ih null_pointer q e1 = absurd (cc e1)
      by_round ih overflow q e1 = absurd (cc e1)
      by_round ih out_of_fuel q e1 = absurd (cc e1)

  -- A document that begins with such a start tag is never constructed, however many rounds the
  -- loop is given.
  pub construct_tree_hangs : (n size : ℕ) (t : Tree) → construct_tree n size (k ∷ ks) ≢ ok t
  unfolding construct_tree
  construct_tree_hangs n size t e =
      bind-never (create_document (empty_tree size)) _ t
        (λ x. bind-never (push_stack x.1 x.0) _ t (λ t1. loop_never_ok n initial t1 t)) e
