-- ===== src/Browser/Tree/Print.antt =====
-- app/browser/parse.c: `PrintNodes`, the walk over the nodes, as the bytes that it prints.
use liumos.Prelude.{
  ℕ, zero, suc, ◌+◌, ◌*◌, ◌≤◌, ◌≡◌, ◌≢◌, Option, none, some, List, [], ◌++◌, All, length, replicate,
  codes, arith,
}
use liumos.Prelude.Int.{pos}
use liumos.Memory.{Bytes}
use liumos.Liumlib.Output.{print_num}
use liumos.Browser.Tokenize.{Token, Result, ok, null_pointer, overflow, out_of_fuel, ◌>>=◌}
use liumos.Browser.Tree.{Tree, Node, NodeType, document, element, text, get_node}
use liumos.Browser.Tree.Outcome.{
  Post, Post-ok, Post-null_pointer, Post-overflow, Post-bind, Post-ends,
}
use liumos.Browser.Tree.Links.{IsTree, AllLinked, Between, get_node-Post}
use liumos.Browser.Tree.Modes.{construct_tree}
use liumos.Browser.Tree.Modes.Rounds.{IsKnown}
use liumos.Browser.Tree.Modes.Ends.{construct_tree-IsTree}

-- `PrintNum`, which leaves nothing undefined at a depth.
print_depth : ℕ → Result Bytes
print_depth depth = elim (print_num (pos depth)) [ none ↦ overflow | some s ↦ ok s ]

-- `Println` of a field of the node.
abbrev line : Bytes → Option Bytes → Result Bytes
line label none = null_pointer
line label (some s) = ok (label ++ s ++ codes "\n")

abbrev print_kind : Node → Result Bytes
print_kind n = elim n.node_type [
  | document ↦ ok (codes "DOCUMENT\n")
  | text ↦ line (codes "TEXT: ") n.text_data
  | element ↦ line (codes "ELEMENT: ") n.tag_name
]

print_node : Node → (depth : ℕ) → Result Bytes
unfolding print_depth
print_node n depth = do
  number ← print_depth depth
  kind ← print_kind n
  ok (number ++ codes ":" ++ replicate depth b' ' ++ codes ":" ++ kind)

-- The loop of `DfsWithDepth` from the node `cur` on: its `DfsWithDepth`, then its next sibling.
dfs_loop : ℕ → (cur : Option ℕ) → (depth : ℕ) → List Node → Result Bytes
dfs_loop f none depth ns = ok []
dfs_loop zero (some p) depth ns = out_of_fuel
dfs_loop (suc f) (some p) depth ns = do
  n ← get_node p ns
  here ← print_node n depth
  below ← dfs_loop f n.first_child (depth + 1) ns
  after ← dfs_loop f n.next_sibling depth ns
  ok (here ++ below ++ after)

dfs_with_depth : ℕ → (node depth : ℕ) → List Node → Result Bytes
dfs_with_depth f p depth ns = do
  n ← get_node p ns
  here ← print_node n depth
  below ← dfs_loop f n.first_child (depth + 1) ns
  ok (here ++ below)

unfoldable pub print_nodes : ℕ → Tree → Result Bytes
unfolding dfs_with_depth dfs_loop print_node print_num
print_nodes f t = do
  nodes ← dfs_with_depth f 0 0 t.nodes
  ok (codes "--------------\n" ++ nodes ++ codes "--------------\n")

line-Post : (label : Bytes) (o : Option Bytes) → Post (λ _. Unit) (line label o)
line-Post label none = Post-null_pointer
line-Post label (some s) = Post-ok tt

print_kind-Post : (n : Node) → Post (λ _. Unit) (print_kind n)
print_kind-Post n = by_type n.node_type
  where
    by_type :
        (type : NodeType)
        → Post
            (λ _. Unit)
            (elim type [
              | document ↦ ok (codes "DOCUMENT\n")
              | text ↦ line (codes "TEXT: ") n.text_data
              | element ↦ line (codes "ELEMENT: ") n.tag_name
            ])
    by_type document = Post-ok tt
    by_type text = line-Post (codes "TEXT: ") n.text_data
    by_type element = line-Post (codes "ELEMENT: ") n.tag_name

print_node-Post : (n : Node) (depth : ℕ) → Post (λ _. Unit) (print_node n depth)
unfolding print_node
print_node-Post n depth =
    Post-bind (by_number (print_num (pos depth)))
      (λ _ _. Post-bind (print_kind-Post n) (λ _ _. Post-ok tt))
  where
    by_number : (o : Option Bytes) → Post (λ _. Unit) (elim o [ none ↦ overflow | some s ↦ ok s ])
    by_number none = Post-overflow
    by_number (some s) = Post-ok tt

-- The links go up, so that no path is longer than the list of the nodes.
dfs_loop-Post :
    (f i n : ℕ) (cur : Option ℕ) (depth : ℕ) (ns : List Node)
    → AllLinked n 0 ns
    → Between i n cur
    → n ≤ suc (f + i)
    → Post (λ _. Unit) (dfs_loop f cur depth ns)
unfolding dfs_loop
dfs_loop-Post zero i n none depth ns h b le = Post-ok tt
dfs_loop-Post (suc f) i n none depth ns h b le = Post-ok tt
dfs_loop-Post zero i n (some p) depth ns h b le = absurd (omega (arith, b.0, b.1))
dfs_loop-Post (suc f) i n (some p) depth ns h b le =
    Post-bind (get_node-Post n 0 p p ns (omega arith) h) (λ x l.
      Post-bind (print_node-Post x depth) (λ _ _.
        Post-bind (dfs_loop-Post f p n x.first_child (depth + 1) ns h l.first (omega (arith, b.0)))
          (λ _ _.
            Post-bind (dfs_loop-Post f p n x.next_sibling depth ns h l.next (omega (arith, b.0)))
              (λ _ _. Post-ok tt))))

dfs_with_depth-Post :
    (f : ℕ) (t : Tree)
    → IsTree t
    → length t.nodes ≤ f
    → Post (λ _. Unit) (dfs_with_depth f 0 0 t.nodes)
unfolding dfs_with_depth
dfs_with_depth-Post f t h le =
    Post-bind (get_node-Post (length t.nodes) 0 0 0 t.nodes (omega arith) h.links) (λ x l.
      Post-bind (print_node-Post x 0) (λ _ _.
        Post-bind
          (dfs_loop-Post f 0 (length t.nodes) x.first_child 1 t.nodes h.links l.first (omega arith))
          (λ _ _. Post-ok tt)))

print_nodes-Post :
    (f : ℕ) (t : Tree) → IsTree t → length t.nodes ≤ f → Post (λ _. Unit) (print_nodes f t)
unfolding print_nodes
print_nodes-Post f t h le = Post-bind (dfs_with_depth-Post f t h le) (λ _ _. Post-ok tt)

-- The walk over a constructed tree ends: with as much fuel as there are nodes it is not out of
-- fuel.
pub print_nodes_ends :
    (n size : ℕ) (ks : List Token) (t : Tree) (f : ℕ)
    → 7 * length ks ≤ n
    → All IsKnown ks
    → construct_tree n size ks ≡ ok t
    → length t.nodes ≤ f
    → print_nodes f t ≢ out_of_fuel
print_nodes_ends n size ks t f le known e fuel =
    Post-ends (print_nodes-Post f t (construct_tree-IsTree n size ks t le known e) fuel)
