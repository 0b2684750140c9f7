-- ===== src/Browser/Tree/Modes/Passes.antt =====
-- `ConstructTree` of app/browser/parse.c: what a round leaves in each insertion mode.
use liumos.Prelude.{
  ℕ, ◌<◌, ◌≡◌, refl, Bool, true, false, ◌&&◌, ◌||◌, Option, none, some, List, [], ◌∷◌, All, codes,
  arith, if◌then◌else◌,
}
use liumos.Memory.{Bytes}
use liumos.Browser.Tokenize.{
  Token, TokenType, doctype, start_tag, end_tag, char, eof, ok, null_pointer,
}
use liumos.Browser.Tree.{Tree, ElementType, html, head, body, heading, div, paragraph, ul, li}
use liumos.Browser.Tree.Outcome.{Post, Post-ok, Post-null_pointer, Post-if, Post-bind}
use liumos.Browser.Tree.Links.{IsTree}
use liumos.Browser.Tree.Kept.{insert_token-Post, insert_char_from_token-Post, pop_stack_lem}
use liumos.Browser.Tree.Modes.{
  Mode, initial, before_html, before_head, in_head, after_head, in_body, after_body,
  after_after_body, go, is_type, is_named, is_start, is_end, is_space, is_heading_name,
  other_end_before, other_end_after, insert_and_go, pop_and_go, step_before_html, step_before_head,
  step_in_head, step_after_head, end_in_body, li_in_body, step_in_body, step_after_body,
  step_after_after_body, step_mode, reads_name, step,
}
use liumos.Browser.Tree.Modes.Rounds.{
  IsKnown, measure, measure_passed, Round, insert_and_go-Post, pop_and_go-Post, implied-Post,
}

no_start :
    (k : Token)
    → is_type char k ≡ false
    → is_type doctype k ≡ false
    → is_type eof k ≡ false
    → is_type end_tag k ≡ false
    → is_type start_tag k ≡ true
no_start k a b c d = by_type k.type a b c d
  where
    by_type :
        (type : TokenType)
        → (elim type [ char ↦ true | _ ↦ false ]) ≡ false
        → (elim type [ doctype ↦ true | _ ↦ false ]) ≡ false
        → (elim type [ eof ↦ true | _ ↦ false ]) ≡ false
        → (elim type [ end_tag ↦ true | _ ↦ false ]) ≡ false
        → (elim type [ start_tag ↦ true | _ ↦ false ]) ≡ true
    by_type char a b c d = absurd (cc a)
    by_type doctype a b c d = absurd (cc b)
    by_type eof a b c d = absurd (cc c)
    by_type end_tag a b c d = absurd (cc d)
    by_type start_tag a b c d = refl

-- A start tag that none of the tests finds has no known name.
no_known_name :
    (s b h u p d x l : Bool)
    → s ≡ true
    → (s && (b || h)) ≡ false
    → (s && u) ≡ false
    → (s && p) ≡ false
    → (s && d) ≡ false
    → (s && x) ≡ false
    → (s && l) ≡ false
    → (b || h || u || p || d || x || l) ≡ true
    → ⊥
no_known_name s b h u p d x l = ground arith

module _ (k : Token) (ks : List Token) (t : Tree) (known : All IsKnown (k ∷ ks))
    (h : IsTree t) where
  passed : (m m' : Mode) → Post (Round (measure m (k ∷ ks))) (ok (go m' ks t))
  passed m m' = Post-ok (measure_passed m m' k ks, known.1, h)

  inserted :
      (kind : ElementType) (m m' : Mode)
      → Post (Round (measure m (k ∷ ks))) (insert_and_go kind m' k ks t)
  inserted kind m m' = insert_and_go-Post _ kind m' k ks t (measure_passed m m' k ks) known.1 h

  popped :
      (kind : ElementType) (m m' : Mode)
      → Post (Round (measure m (k ∷ ks))) (pop_and_go kind m' ks t)
  popped kind m m' = pop_and_go-Post _ kind m' ks t (measure_passed m m' k ks) known.1 h

  step_before_html-Post : Post (Round (measure before_html (k ∷ ks))) (step_before_html k ks t)
  unfolding step_before_html measure
  step_before_html-Post =
      Post-if (is_type doctype k) (λ _. passed before_html before_html)
        (λ _.
          Post-if (is_space k) (λ _. passed before_html before_html)
            (λ _.
              Post-if (is_start (codes "html") k) (λ _. inserted html before_html before_head)
                (λ _.
                  Post-if (other_end_before k) (λ _. passed before_html before_html)
                    (λ _.
                      implied-Post _ html (codes "html") before_head (k ∷ ks) t (omega arith) known
                        h))))

  step_before_head-Post : Post (Round (measure before_head (k ∷ ks))) (step_before_head k ks t)
  unfolding step_before_head measure
  step_before_head-Post =
      Post-if (is_space k) (λ _. passed before_head before_head)
        (λ _.
          Post-if (is_type doctype k) (λ _. passed before_head before_head)
            (λ _.
              Post-if (is_start (codes "head") k) (λ _. inserted head before_head in_head)
                (λ _.
                  Post-if (other_end_before k) (λ _. passed before_head before_head)
                    (λ _.
                      implied-Post _ head (codes "head") in_head (k ∷ ks) t (omega arith) known
                        h))))

  step_in_head-Post : Post (Round (measure in_head (k ∷ ks))) (step_in_head k ks t)
  unfolding step_in_head measure
  step_in_head-Post =
      Post-if (is_type doctype k) (λ _. passed in_head in_head)
        (λ _.
          Post-if (is_start (codes "html") k) (λ _. passed in_head in_body)
            (λ _.
              Post-if (is_start (codes "head") k) (λ _. passed in_head in_head)
                (λ _.
                  Post-if (is_end (codes "head") k) (λ _. popped head in_head after_head)
                    (λ _.
                      Post-if (other_end_after k) (λ _. passed in_head in_head)
                        (λ _.
                          pop_and_go-Post _ head after_head (k ∷ ks) t (omega arith) known h)))))

  step_after_head-Post : Post (Round (measure after_head (k ∷ ks))) (step_after_head k ks t)
  unfolding step_after_head measure
  step_after_head-Post =
      Post-if (is_type doctype k) (λ _. passed after_head after_head)
        (λ _.
          Post-if (is_start (codes "html") k) (λ _. passed after_head in_body)
            (λ _.
              Post-if (is_start (codes "body") k) (λ _. inserted body after_head in_body)
                (λ _.
                  Post-if (is_start (codes "head") k) (λ _. passed after_head after_head)
                    (λ _.
                      Post-if (other_end_after k) (λ _. passed after_head after_head)
                        (λ _.
                          implied-Post _ body (codes "body") in_body (k ∷ ks) t (omega arith) known
                            h)))))

  -- The last part of the "in body" mode passes every end tag.
  end_in_body-Post :
      (bound : ℕ)
      → measure in_body ks < bound
      → (is_type end_tag k ≡ false → measure in_body (k ∷ ks) < bound)
      → Post (Round bound) (end_in_body k ks t)
  unfolding end_in_body
  end_in_body-Post bound lt same =
      Post-if (is_end (codes "div") k) (λ _. pop_and_go-Post bound div in_body ks t lt known.1 h)
        (λ _.
          Post-if (is_end (codes "ul") k) (λ _. pop_and_go-Post bound ul in_body ks t lt known.1 h)
            (λ _.
              Post-if (is_end (codes "p") k)
                (λ _. pop_and_go-Post bound paragraph in_body ks t lt known.1 h)
                (λ _.
                  Post-if (is_end (codes "li") k)
                    (λ _. pop_and_go-Post bound li in_body ks t lt known.1 h)
                    (λ _.
                      Post-if (is_type end_tag k && is_heading_name k)
                        (λ _. pop_and_go-Post bound heading in_body ks t lt known.1 h)
                        (λ _.
                          Post-if (is_type end_tag k)
                            (λ _. Post-ok (lt, known.1, pop_stack_lem t h))
                            (λ e. Post-ok (same e, known, h)))))))

  step_after_body-Post : Post (Round (measure after_body (k ∷ ks))) (step_after_body k ks t)
  unfolding step_after_body measure
  step_after_body-Post =
      Post-if (is_type doctype k) (λ _. passed after_body after_body)
        (λ _.
          Post-if (is_end (codes "html") k) (λ _. passed after_body after_after_body)
            (λ e. Post-if (is_type eof k) (λ _. Post-ok h) (λ _. Post-ok (ground arith, known, h))))

  step_after_after_body-Post :
      Post (Round (measure after_after_body (k ∷ ks))) (step_after_after_body k ks t)
  unfolding step_after_after_body measure
  step_after_after_body-Post =
      Post-if (is_type eof k) (λ _. Post-ok h) (λ _. Post-ok (omega arith, known, h))

initial_lower :
    (k : Token) (ks : List Token) → measure before_html (k ∷ ks) < measure initial (k ∷ ks)
unfolding measure
initial_lower k ks = omega arith

li_in_body-Post :
    (k : Token) (ks : List Token) (t : Tree)
    → All IsKnown (k ∷ ks)
    → IsTree t
    → Post (Round (measure in_body (k ∷ ks))) (li_in_body k ks t)
li_in_body-Post k [] t known h = Post-bind (insert_token-Post li k t h) (λ t' h'. Post-null_pointer)
li_in_body-Post k (j ∷ js) t known h = Post-bind (insert_token-Post li k t h) (λ t' h'.
    end_in_body-Post j js t' known.1 h' _ (twice) (λ _. measure_passed in_body in_body k (j ∷ js)))
  where
    twice : measure in_body js < measure in_body (k ∷ j ∷ js)
    twice =
        omega
          (arith, measure_passed in_body in_body j js, measure_passed in_body in_body k (j ∷ js))

module _ (k : Token) (ks : List Token) (t : Tree) (known : All IsKnown (k ∷ ks))
    (h : IsTree t) where
  step_in_body-Post : Post (Round (measure in_body (k ∷ ks))) (step_in_body k ks t)
  unfolding step_in_body measure
  step_in_body-Post =
      Post-if (is_type char k)
        (λ _.
          Post-bind (insert_char_from_token-Post k t h)
            (λ t' h'. Post-ok (measure_passed in_body in_body k ks, known.1, h')))
        (λ not_char.
          Post-if (is_type doctype k) (λ _. passed k ks t known h in_body in_body)
            (λ not_doctype.
              Post-if
                (is_type start_tag k && (is_named (codes "body") k || is_named (codes "html") k))
                (λ _. passed k ks t known h in_body in_body)
                (λ not_body.
                  Post-if (is_type eof k) (λ _. Post-ok h)
                    (λ not_eof.
                      Post-if (is_end (codes "body") k)
                        (λ _. popped k ks t known h body in_body after_body)
                        (λ _.
                          Post-if (is_end (codes "html") k)
                            (λ e.
                              pop_and_go-Post _ html after_body (k ∷ ks) t (ground arith) known h)
                            (λ _.
                              Post-if (is_start (codes "ul") k)
                                (λ _. inserted k ks t known h ul in_body in_body)
                                (λ not_ul.
                                  Post-if (is_start (codes "p") k)
                                    (λ _. inserted k ks t known h paragraph in_body in_body)
                                    (λ not_p.
                                      Post-if (is_start (codes "div") k)
                                        (λ _. inserted k ks t known h div in_body in_body)
                                        (λ not_div.
                                          Post-if (is_type start_tag k && is_heading_name k)
                                            (λ _. inserted k ks t known h heading in_body in_body)
                                            (λ not_heading.
                                              Post-if (is_start (codes "li") k)
                                                (λ _. li_in_body-Post k ks t known h)
                                                (λ not_li.
                                                  end_in_body-Post k ks t known h _
                                                    (measure_passed in_body in_body k ks)
                                                    (λ not_end.
                                                      let starts =
                                                        no_start k not_char not_doctype not_eof
                                                          not_end in
                                                      absurd (
                                                        no_known_name (is_type start_tag k)
                                                          (is_named (codes "body") k)
                                                          (is_named (codes "html") k)
                                                          (is_named (codes "ul") k)
                                                          (is_named (codes "p") k)
                                                          (is_named (codes "div") k)
                                                          (is_heading_name k)
                                                          (is_named (codes "li") k) starts not_body
                                                          not_ul not_p not_div not_heading not_li
                                                          (known.0 starts))))))))))))))

  step_mode-Post : (m : Mode) → Post (Round (measure m (k ∷ ks))) (step_mode m k ks t)
  unfolding step_mode
  step_mode-Post initial = Post-ok (initial_lower k ks, known, h)
  step_mode-Post before_html = step_before_html-Post k ks t known h
  step_mode-Post before_head = step_before_head-Post k ks t known h
  step_mode-Post in_head = step_in_head-Post k ks t known h
  step_mode-Post after_head = step_after_head-Post k ks t known h
  step_mode-Post in_body = step_in_body-Post
  step_mode-Post after_body = step_after_body-Post k ks t known h
  step_mode-Post after_after_body = step_after_after_body-Post k ks t known h

  pub step-Post : (m : Mode) → Post (Round (measure m (k ∷ ks))) (step m k ks t)
  unfolding step
  step-Post m = by_name k.name
    where
      by_name :
          (o : Option Bytes)
          → Post (Round (measure m (k ∷ ks))) (elim o [
            | none ↦ if reads_name m k then null_pointer else step_mode m k ks t
            | some n ↦ step_mode m k ks t
          ])
      by_name none = Post-if (reads_name m k) (λ _. Post-null_pointer) (λ _. step_mode-Post m)
      by_name (some n) = step_mode-Post m
