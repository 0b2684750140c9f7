-- ===== src/Browser/Tree/Links.antt =====
-- The links between nodes that app/browser/parse.c builds: a node's parent and previous sibling
-- are older than it, its children and its next sibling newer.
use liumos.Prelude.{
  ℕ, zero, suc, ◌+◌, ◌≤◌, ◌<◌, ◌≡◌, refl, ◌∙◌, ap, Option, none, some, List, [], ◌∷◌, ◌++◌, length,
  All, set, get_or, arith,
}
use mathlib.Core.Path.{subst}
use liumos.Memory.{Bytes}
use liumos.Browser.Tree.{
  Node, NodeType, ElementType, only_child, new_last_child, new_next_sibling, new_previous_sibling,
  new_parent, Tree, bare_node, modify, get_node, node_at, link,
}
use liumos.Browser.Tree.Outcome.{Post, Post-ok, Post-null_pointer}

-- A null pointer, or a node older than `n`.
abbrev pub Below : ℕ → Option ℕ → Type 0
Below n none = Unit
Below n (some p) = p < n

abbrev pub Between : ℕ → ℕ → Option ℕ → Type 0
Between i n none = Unit
Between i n (some p) = i < p × p < n

-- The links of node `i` among nodes older than `n`.
pub record IsLinked (n i : ℕ) (x : Node) : Type 0 where
  pub up : Below i x.parent
  pub back : Below i x.previous_sibling
  pub first : Between i n x.first_child
  pub last : Between i n x.last_child
  pub next : Between i n x.next_sibling

abbrev pub AllLinked : ℕ → ℕ → List Node → Type 0
AllLinked n i [] = Unit
AllLinked n i (x ∷ xs) = IsLinked n i x × AllLinked n (suc i) xs

-- The links and the stack name nodes older than `n`.
pub record HasLinks (n : ℕ) (t : Tree) : Type 0 where
  pub links : AllLinked n 0 t.nodes
  pub open_elements : All (Below n) t.stack

abbrev pub IsTree : Tree → Type 0
IsTree t = HasLinks (length t.nodes) t

Below-mono : {n m : ℕ} → n ≤ m → (o : Option ℕ) → Below n o → Below m o
Below-mono le none h = tt
Below-mono le (some p) h = omega arith

Between-mono : {n m : ℕ} → n ≤ m → (i : ℕ) (o : Option ℕ) → Between i n o → Between i m o
Between-mono le i none h = tt
Between-mono le i (some p) h = (h.0, omega (arith, h.1))

IsLinked-mono : {n m : ℕ} → n ≤ m → {i : ℕ} {x : Node} → IsLinked n i x → IsLinked m i x
IsLinked-mono le {x = x} h = record {
  up = h.up;
  back = h.back;
  first = Between-mono le _ x.first_child h.first;
  last = Between-mono le _ x.last_child h.last;
  next = Between-mono le _ x.next_sibling h.next;
}

pub AllLinked-mono :
    {n m : ℕ} → n ≤ m → (i : ℕ) (xs : List Node) → AllLinked n i xs → AllLinked m i xs
AllLinked-mono le i [] h = tt
AllLinked-mono le i (x ∷ xs) h = (IsLinked-mono le h.0, AllLinked-mono le (suc i) xs h.1)

pub All-Below-mono :
    {n m : ℕ} → n ≤ m → (os : List (Option ℕ)) → All (Below n) os → All (Below m) os
All-Below-mono le [] h = tt
All-Below-mono le (o ∷ os) h = (Below-mono le o h.0, All-Below-mono le os h.1)

pub HasLinks-mono : {n m : ℕ} → n ≤ m → (t : Tree) → HasLinks n t → HasLinks m t
HasLinks-mono le t h = record {
  links = AllLinked-mono le 0 t.nodes h.links;
  open_elements = All-Below-mono le t.stack h.open_elements;
}

pub All-set :
    (n : ℕ) (os : List (Option ℕ)) (i : ℕ) (o : Option ℕ)
    → Below n o
    → All (Below n) os
    → All (Below n) (set os i o)
All-set n [] i o b h = tt
All-set n (x ∷ xs) zero o b h = (b, h.1)
All-set n (x ∷ xs) (suc i) o b h = (h.0, All-set n xs i o b h.1)

pub get_or-Below :
    (n : ℕ) (os : List (Option ℕ)) (i : ℕ) → All (Below n) os → Below n (get_or os i none)
get_or-Below n [] i h = tt
get_or-Below n (x ∷ xs) zero h = h.0
get_or-Below n (x ∷ xs) (suc i) h = get_or-Below n xs i h.1

pub length-modify : (i : ℕ) (f : Node → Node) (xs : List Node) → length (modify i f xs) ≡ length xs
length-modify i f [] = refl
length-modify zero f (x ∷ xs) = refl
length-modify (suc i) f (x ∷ xs) = ap suc (length-modify i f xs)

pub modify-AllLinked :
    (n b i : ℕ) (f : Node → Node) (xs : List Node)
    → ((j : ℕ) (x : Node) → j ≡ b + i → IsLinked n j x → IsLinked n j (f x))
    → AllLinked n b xs
    → AllLinked n b (modify i f xs)
modify-AllLinked n b i f [] k h = tt
modify-AllLinked n b zero f (x ∷ xs) k h = (k b x (omega arith) h.0, h.1)
modify-AllLinked n b (suc i) f (x ∷ xs) k h =
    (h.0, modify-AllLinked n (suc b) i f xs (λ j y e. k j y (omega (arith, e))) h.1)

pub append-AllLinked :
    (n b : ℕ) (xs : List Node) (type : NodeType) (kind : ElementType) (name content : Option Bytes)
    → AllLinked n b xs
    → AllLinked n b (xs ++ bare_node type kind name content ∷ [])
append-AllLinked n b [] type kind name content h =
    (record { up = tt; back = tt; first = tt; last = tt; next = tt }, tt)
append-AllLinked n b (x ∷ xs) type kind name content h =
    (h.0, append-AllLinked n (suc b) xs type kind name content h.1)

pub get_node-Post :
    (n b i j : ℕ) (xs : List Node)
    → b + i ≡ j
    → AllLinked n b xs
    → Post (IsLinked n j) (get_node i xs)
get_node-Post n b i j [] e h = Post-null_pointer
get_node-Post n b zero j (x ∷ xs) e h = Post-ok (subst (λ a. IsLinked n a x) (omega (arith, e)) h.0)
get_node-Post n b (suc i) j (x ∷ xs) e h = get_node-Post n (suc b) i j xs (omega (arith, e)) h.1

get_node-ends : (i : ℕ) (xs : List Node) → Post (λ _. Unit) (get_node i xs)
get_node-ends i [] = Post-null_pointer
get_node-ends zero (x ∷ xs) = Post-ok tt
get_node-ends (suc i) (x ∷ xs) = get_node-ends i xs

pub node_at-Post : (o : Option ℕ) (xs : List Node) → Post (λ _. Unit) (node_at o xs)
node_at-Post none xs = Post-null_pointer
node_at-Post (some p) xs = get_node-ends p xs

-- Element `e`, the newest, becomes the last child of an older node.
only_child-IsLinked :
    {n j e : ℕ} {x : Node} → j < e → e < n → IsLinked n j x → IsLinked n j (only_child e x)
only_child-IsLinked lt le k = record {
  up = k.up;
  back = k.back;
  first = (lt, le);
  last = (lt, le);
  next = k.next;
}

new_last_child-IsLinked :
    {n j e : ℕ} {x : Node} → j < e → e < n → IsLinked n j x → IsLinked n j (new_last_child e x)
new_last_child-IsLinked lt le k = record {
  up = k.up;
  back = k.back;
  first = k.first;
  last = (lt, le);
  next = k.next;
}

new_next_sibling-IsLinked :
    {n j e : ℕ} {x : Node} → j < e → e < n → IsLinked n j x → IsLinked n j (new_next_sibling e x)
new_next_sibling-IsLinked lt le k = record {
  up = k.up;
  back = k.back;
  first = k.first;
  last = k.last;
  next = (lt, le);
}

new_previous_sibling-IsLinked :
    {n j e : ℕ} {x : Node} → e < j → IsLinked n j x → IsLinked n j (new_previous_sibling e x)
new_previous_sibling-IsLinked lt k = record {
  up = k.up;
  back = lt;
  first = k.first;
  last = k.last;
  next = k.next;
}

pub new_parent-IsLinked :
    {n j e : ℕ} {x : Node} → e < j → IsLinked n j x → IsLinked n j (new_parent e x)
new_parent-IsLinked lt k = record {
  up = lt;
  back = k.back;
  first = k.first;
  last = k.last;
  next = k.next;
}

pub link-AllLinked :
    (e target : ℕ) (last : Option ℕ) (xs : List Node)
    → target < e
    → Between target e last
    → AllLinked (suc e) 0 xs
    → AllLinked (suc e) 0 (link e target last xs)
link-AllLinked e target none xs lt l h =
    modify-AllLinked (suc e) 0 target (only_child e) xs
      (λ j y q k. only_child-IsLinked (omega (arith, q)) (omega arith) k) h
link-AllLinked e target (some ex) xs lt l h =
    modify-AllLinked (suc e) 0 e (new_previous_sibling ex) _
      (λ j y q k. new_previous_sibling-IsLinked (omega (arith, q, l.1)) k)
      (modify-AllLinked (suc e) 0 ex (new_next_sibling e) _
        (λ j y q k. new_next_sibling-IsLinked (omega (arith, q, l.1)) (omega arith) k)
        (modify-AllLinked (suc e) 0 target (new_last_child e) xs
          (λ j y q k. new_last_child-IsLinked (omega (arith, q)) (omega arith) k) h))

pub length-link :
    (e target : ℕ) (last : Option ℕ) (xs : List Node) → length (link e target last xs) ≡ length xs
length-link e target none xs = length-modify target (only_child e) xs
length-link e target (some ex) xs =
    length-modify e (new_previous_sibling ex) _
    ∙ length-modify ex (new_next_sibling e) _
    ∙ length-modify target (new_last_child e) xs
