-- ===== src/Browser/Tree/Modes/Rounds.antt =====
-- `ConstructTree` of app/browser/parse.c: how many rounds a token needs in each insertion mode.
use liumos.Prelude.{
  ℕ, ◌+◌, ◌*◌, ◌<◌, ◌≤◌, ◌≡◌, Bool, true, false, ◌||◌, List, [], ◌∷◌, All, length, codes, arith,
  if◌then◌else◌,
}
use liumos.Memory.{Bytes}
use liumos.Browser.Tokenize.{Token, start_tag, ok, ◌>>=◌}
use liumos.Browser.Tree.{Tree, ElementType, insert_implied}
use liumos.Browser.Tree.Outcome.{Post, Post-ok, Post-bind}
use liumos.Browser.Tree.Links.{IsTree}
use liumos.Browser.Tree.Kept.{insert_token-Post, insert_implied-Post, pop_stack_until-Post}
use liumos.Browser.Tree.Modes.{
  Mode, initial, before_html, before_head, in_head, after_head, in_body, after_body,
  after_after_body, Next, go, stop, is_type, is_named, is_end, is_heading_name, insert_and_go,
  pop_and_go,
}

-- The names of the start tags that the "in body" mode knows.
abbrev pub has_known_name : Token → Bool
has_known_name k =
    is_named (codes "body") k
    || is_named (codes "html") k
    || is_named (codes "ul") k
    || is_named (codes "p") k
    || is_named (codes "div") k
    || is_heading_name k
    || is_named (codes "li") k

-- A token that is no start tag, or one with a known name.
abbrev pub IsKnown : Token → Type 0
IsKnown k = is_type start_tag k ≡ true → has_known_name k ≡ true

-- The rounds until the token has been passed.
unfoldable pub rank : Mode → (is_html_end : Bool) → ℕ
rank initial e = 7
rank before_html e = 6
rank before_head e = 5
rank in_head e = 4
rank after_head e = 3
rank in_body e = 2
rank after_body e = if e then 1 else 3
rank after_after_body e = 3

unfoldable pub measure : Mode → List Token → ℕ
unfolding rank
measure m [] = 0
measure m (k ∷ ks) = rank m (is_end (codes "html") k) + 7 * length ks

rank_le : (m : Mode) (e : Bool) → rank m e ≤ 7
unfolding rank
rank_le initial e = omega arith
rank_le before_html e = omega arith
rank_le before_head e = omega arith
rank_le in_head e = omega arith
rank_le after_head e = omega arith
rank_le in_body e = omega arith
rank_le after_body true = omega arith
rank_le after_body false = omega arith
rank_le after_after_body e = omega arith

pub measure_le : (m : Mode) (ks : List Token) → measure m ks ≤ 7 * length ks
unfolding measure
measure_le m [] = omega arith
measure_le m (k ∷ ks) = omega (arith, rank_le m (is_end (codes "html") k))

rank_pos : (m : Mode) (e : Bool) → 0 < rank m e
unfolding rank
rank_pos initial e = omega arith
rank_pos before_html e = omega arith
rank_pos before_head e = omega arith
rank_pos in_head e = omega arith
rank_pos after_head e = omega arith
rank_pos in_body e = omega arith
rank_pos after_body true = omega arith
rank_pos after_body false = omega arith
rank_pos after_after_body e = omega arith

-- Passing a token makes the measure smaller, whatever the modes are.
pub measure_passed :
    (m m' : Mode) (k : Token) (ks : List Token) → measure m' ks < measure m (k ∷ ks)
unfolding measure
measure_passed m m' k ks = omega (arith, measure_le m' ks, rank_pos m (is_end (codes "html") k))

-- What a round leaves: fewer rounds to come, known tokens and a tree.
abbrev pub Round : ℕ → Next → Type 0
Round bound (go m ks t) = (measure m ks < bound) × All IsKnown ks × IsTree t
Round bound (stop t) = IsTree t

pub insert_and_go-Post :
    (bound : ℕ) (kind : ElementType) (m : Mode) (k : Token) (ks : List Token) (t : Tree)
    → measure m ks < bound
    → All IsKnown ks
    → IsTree t
    → Post (Round bound) (insert_and_go kind m k ks t)
insert_and_go-Post bound kind m k ks t lt known h =
    Post-bind (insert_token-Post kind k t h) (λ t' h'. Post-ok (lt, known, h'))

pub pop_and_go-Post :
    (bound : ℕ) (kind : ElementType) (m : Mode) (ks : List Token) (t : Tree)
    → measure m ks < bound
    → All IsKnown ks
    → IsTree t
    → Post (Round bound) (pop_and_go kind m ks t)
pop_and_go-Post bound kind m ks t lt known h =
    Post-bind (pop_stack_until-Post kind t h) (λ t' h'. Post-ok (lt, known, h'))

pub implied-Post :
    (bound : ℕ) (kind : ElementType) (name : Bytes) (m : Mode) (ks : List Token) (t : Tree)
    → measure m ks < bound
    → All IsKnown ks
    → IsTree t
    → Post (Round bound) (insert_implied kind name t >>= (λ t'. ok (go m ks t')))
implied-Post bound kind name m ks t lt known h =
    Post-bind (insert_implied-Post kind name t h) (λ t' h'. Post-ok (lt, known, h'))
