-- ===== src/Browser/Tree/Modes/Ends.antt =====
-- `ConstructTree` of app/browser/parse.c on tokens that it can process: the loop ends, and the
-- links of the nodes are in order.
use liumos.Prelude.{
  ℕ, zero, suc, ◌*◌, ◌≤◌, ◌≡◌, ◌≢◌, sym, none, List, [], ◌∷◌, All, length, replicate, arith,
}
use mathlib.Core.Path.{subst}
use liumos.Browser.Tokenize.{Token, ok, out_of_fuel}
use liumos.Browser.Tree.{Tree}
use liumos.Browser.Tree.Outcome.{Post, Post-ok, Post-bind, Post-ends, Post-result}
use liumos.Browser.Tree.Links.{IsTree, HasLinks, Below, HasLinks-mono}
use liumos.Browser.Tree.Kept.{push_stack-Post, create_document-Post}
use liumos.Browser.Tree.Modes.{
  Mode, initial, Next, go, stop, construct_loop, empty_tree, construct_tree,
}
use liumos.Browser.Tree.Modes.Rounds.{IsKnown, measure, measure_le, measure_passed, Round}
use liumos.Browser.Tree.Modes.Passes.{step-Post}

construct_loop-Post :
    (n : ℕ) (m : Mode) (ks : List Token) (t : Tree)
    → measure m ks ≤ n
    → All IsKnown ks
    → IsTree t
    → Post IsTree (construct_loop n m ks t)
unfolding construct_loop
construct_loop-Post zero m [] t le known h = Post-ok h
construct_loop-Post (suc n) m [] t le known h = Post-ok h
construct_loop-Post zero m (k ∷ ks) t le known h = absurd (omega (arith, measure_passed m m k ks))
construct_loop-Post (suc n) m (k ∷ ks) t le known h =
    Post-bind (step-Post k ks t known h m) (λ next r. by_next (construct_loop-Post n) next r)
  where
    by_next :
        ((m' : Mode) (ks' : List Token) (t' : Tree)
          → measure m' ks' ≤ n
          → All IsKnown ks'
          → IsTree t'
          → Post IsTree (construct_loop n m' ks' t'))
        → (next : Next) → Round (measure m (k ∷ ks)) next
        → Post IsTree
            (elim next [ go mode' ks' t' ↦ construct_loop n mode' ks' t' | stop t' ↦ ok t' ])
    by_next loop (go m' ks' t') r = loop m' ks' t' (omega (arith, r.0)) r.1 r.2
    by_next loop (stop t') r = Post-ok r

replicate-Below : (n m : ℕ) → All (Below m) (replicate n none)
replicate-Below zero m = tt
replicate-Below (suc n) m = (tt, replicate-Below n m)

pub construct_tree-Post :
    (n size : ℕ) (ks : List Token)
    → 7 * length ks ≤ n
    → All IsKnown ks
    → Post IsTree (construct_tree n size ks)
unfolding construct_tree
construct_tree-Post n size ks le known =
    Post-bind
      (create_document-Post (empty_tree size)
        (record { links = tt; open_elements = replicate-Below 100 0 }))
      (λ x new.
        Post-bind
          (push_stack-Post (length x.0.nodes) x.1 x.0 (omega (arith, new.1))
            (HasLinks-mono (omega (arith, new.1)) x.0 new.0))
          (λ t' h.
            construct_loop-Post n initial ks t' (omega (arith, measure_le initial ks)) known
              (subst (λ m. HasLinks m t') (sym h.1) h.0)))

-- If no token is a start tag that the "in body" mode does not know, seven rounds for each token
-- are enough: the construction does not run out of fuel.
pub construct_tree_ends :
    (n size : ℕ) (ks : List Token)
    → 7 * length ks ≤ n
    → All IsKnown ks
    → construct_tree n size ks ≢ out_of_fuel
construct_tree_ends n size ks le known = Post-ends (construct_tree-Post n size ks le known)

-- In the tree that is then constructed, the parent and the previous sibling of a node are older
-- than it, its children and its next sibling newer, and the stack names nodes of the tree.
pub construct_tree-IsTree :
    (n size : ℕ) (ks : List Token) (t : Tree)
    → 7 * length ks ≤ n
    → All IsKnown ks
    → construct_tree n size ks ≡ ok t
    → IsTree t
construct_tree-IsTree n size ks t le known e =
    Post-result (construct_tree-Post n size ks le known) e
