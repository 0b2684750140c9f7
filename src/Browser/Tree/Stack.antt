-- ===== src/Browser/Tree/Stack.antt =====
-- app/browser/parse.c: what `PopStackUntil` leaves on the stack of open elements.
use liumos.Prelude.{ℕ, ◌≤◌, ◌<◌, ◌≡◌, Bool, true, false, ◌⊎◌, none, get_or}
use liumos.Browser.Tokenize.{ok}
use liumos.Browser.Tree.{Tree, ElementType, node_at, same_element}

-- The entry of the stack is an element of the kind.
abbrev pub holds_kind : ElementType → Tree → ℕ → Bool
holds_kind kind t i = elim (node_at (get_or t.stack i none) t.nodes) [
  | ok n ↦ same_element kind n.element_type
  | _ ↦ false
]

-- The stack is cut at the topmost element of the kind below `i`, or emptied if there is none.
pub record IsCut (kind : ElementType) (t : Tree) (i : ℕ) (t' : Tree) : Type 0 where
  pub only_index : t' ≡ record t { stack_index = t'.stack_index }
  pub below : t'.stack_index ≤ i
  pub above : (j : ℕ) → t'.stack_index < j → j < i → holds_kind kind t j ≡ false
  pub at : (t'.stack_index ≡ 0) ⊎ (holds_kind kind t t'.stack_index ≡ true)
