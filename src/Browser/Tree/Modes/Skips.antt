-- ===== src/Browser/Tree/Modes/Skips.antt =====
-- `ConstructTree` of app/browser/parse.c: the end tags that the modes before the body ignore.
use liumos.Prelude.{
  ◌≡◌, refl, ◌∙◌, true, false, not, ◌||◌, some, List, [], ◌∷◌, codes, arith, if◌then◌else◌,
}
use liumos.Memory.{Bytes}
use liumos.Browser.Tokenize.{Token, doctype, start_tag, end_tag, char, ok}
use liumos.Browser.Tree.{Tree, head}
use liumos.Browser.Tree.Modes.{
  Mode, before_html, before_head, in_head, after_head, go, is_type, same_bytes, is_named,
  other_end_before, other_end_after, step_before_html, step_before_head, step_in_head,
  step_after_head, pop_and_go, step_mode, step,
}

-- No name is both of two names that begin differently.
head_or_body :
    (w : Bytes) → same_bytes w (codes "head") ≡ true → same_bytes w (codes "body") ≡ false
head_or_body [] e = refl
head_or_body (c ∷ cs) e = ground arith

body_or_html :
    (w : Bytes) → same_bytes w (codes "body") ≡ true → same_bytes w (codes "html") ≡ false
body_or_html [] e = refl
body_or_html (c ∷ cs) e = ground arith

named_step :
    (m : Mode) (k : Token) (w : Bytes) (ks : List Token) (t : Tree)
    → k.name ≡ some w
    → step m k ks t ≡ step_mode m k ks t
unfolding step
named_step m k w ks t n = rw n refl

record IsEnd (k : Token) : Type 0 where
  no_char : is_type char k ≡ false
  no_doctype : is_type doctype k ≡ false
  no_start : is_type start_tag k ≡ false
  ends : is_type end_tag k ≡ true
  before : other_end_before k ≡ true
  after : other_end_after k ≡ true

type-IsEnd : (k : Token) (w : Bytes) → k.type ≡ end_tag → k.name ≡ some w → IsEnd k
type-IsEnd k w e n = record {
  no_char = rw e refl;
  no_doctype = rw e refl;
  no_start = rw e refl;
  ends = rw e refl;
  before = rw (e, n) (any_before w);
  after = rw (e, n) (any_after w);
}
  where
    any_before :
        (w : Bytes)
        → (not (same_bytes w (codes "head"))
            || not (same_bytes w (codes "body"))
            || not (same_bytes w (codes "html"))
            || not (same_bytes w (codes "br")))
          ≡ true
    any_before w = ground (arith, head_or_body w)

    any_after :
        (w : Bytes)
        → (not (same_bytes w (codes "body"))
            || not (same_bytes w (codes "html"))
            || not (same_bytes w (codes "br")))
          ≡ true
    any_after w = ground (arith, body_or_html w)

-- The modes before and around the head ignore every end tag, also `</body>`, `</html>` and
-- `</br>`, except that `</head>` ends the "in head" mode.
pub end_tags_ignored :
    (k : Token) (w : Bytes) (ks : List Token) (t : Tree)
    → k.type ≡ end_tag
    → k.name ≡ some w
    → (step before_html k ks t ≡ ok (go before_html ks t))
      × (step before_head k ks t ≡ ok (go before_head ks t))
      × (step in_head k ks t ≡ (
          if is_named (codes "head") k
          then pop_and_go head after_head ks t
          else ok (go in_head ks t)))
      × (step after_head k ks t ≡ ok (go after_head ks t))
unfolding step_mode step_before_html step_before_head step_in_head step_after_head
end_tags_ignored k w ks t e n = tested (type-IsEnd k w e n)
  where
    tested :
        IsEnd k
        → (step before_html k ks t ≡ ok (go before_html ks t))
          × (step before_head k ks t ≡ ok (go before_head ks t))
          × (step in_head k ks t ≡ (
              if is_named (codes "head") k
              then pop_and_go head after_head ks t
              else ok (go in_head ks t)))
          × (step after_head k ks t ≡ ok (go after_head ks t))
    tested h = (
      named_step before_html k w ks t n
          ∙ ground (arith, h.no_char, h.no_doctype, h.no_start, h.before),
      named_step before_head k w ks t n
          ∙ ground (arith, h.no_char, h.no_doctype, h.no_start, h.before),
      named_step in_head k w ks t n ∙ ground (arith, h.no_doctype, h.no_start, h.ends, h.after),
      named_step after_head k w ks t n ∙ ground (arith, h.no_doctype, h.no_start, h.after),
    )
