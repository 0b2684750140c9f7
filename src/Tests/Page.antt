-- ===== src/Tests/Page.antt =====
-- `Render` of app/browser/rendering.c on short pages.
use liumos.Prelude.{
  ◌≡◌, ◌≢◌, refl, false, some, [], ◌∷◌, List, All, arith, length, ◌*◌, ◌≤◌, codes, sym, ◌∙◌,
}
use mathlib.Core.Path.{subst}
use liumos.Tests.Html.{name_byte}
use liumos.Memory.{Bytes}
use liumos.Browser.Tokenize.{Token, start_tag, new_char, ok, out_of_fuel, tokenize}
use liumos.Browser.Tokenize.Render.{text, open_tag, IsName, write_all, token_of, heap_use}
use liumos.Browser.Tree.Modes.Rounds.{IsKnown}
use liumos.Browser.Tree.Modes.Hangs.{IsUnknown}
use liumos.Browser.Rendering.{render}
use liumos.Browser.Rendering.Ends.{render_ends, render_hangs}

render_page : render 200 0 (codes "<h1>ab</h1><ul><li>c</li> </ul>") ≡ ok (codes "# ab\n\n- c\n")
unfolding render
render_page = refl

abbrev page_tokens : List Token
page_tokens =
    new_char b'a'
    ∷ record { type = start_tag; name = some (codes "p"); self_closing = false; char_data = 0 }
    ∷ []

page-tokenize : tokenize 0 (codes "a<p>") ≡ ok (page_tokens, codes "a<p>")
unfolding tokenize
page-tokenize = refl

tokens_of : (r s : List Token × Bytes) → ok r ≡ ok s → r.0 ≡ s.0
tokens_of r s e = cc e

page-IsKnown :
    (ks : List Token) (page' : Bytes) → tokenize 0 (codes "a<p>") ≡ ok (ks, page') → All IsKnown ks
page-IsKnown ks page' e =
    subst (All IsKnown) (tokens_of (page_tokens, codes "a<p>") (ks, page') (sym page-tokenize ∙ e))
      ((λ q. absurd (cc q)), ((λ _. refl), tt))

page_length :
    (ks : List Token) (page' : Bytes)
    → tokenize 0 (codes "a<p>") ≡ ok (ks, page')
    → 7 * length ks ≤ 14
page_length ks page' e =
    subst (λ ks. 7 * length ks ≤ 14)
      (tokens_of (page_tokens, codes "a<p>") (ks, page') (sym page-tokenize ∙ e)) (omega arith)

render_ends_example : render 14 0 (codes "a<p>") ≢ out_of_fuel
render_ends_example = render_ends 14 0 (codes "a<p>") (omega arith) page-IsKnown page_length

b-IsName : IsName (codes "b")
b-IsName = record {
  first = b'b';
  others = [];
  whole = refl;
  lower = omega arith;
  kept = (name_byte b'b' (omega arith) (omega arith), tt);
  fits = omega arith;
}

b-IsUnknown : IsUnknown (token_of (open_tag (codes "b") false))
unfolding token_of
b-IsUnknown = record {
  name = codes "b";
  named = refl;
  starts = refl;
  unknown = refl;
  not_head = refl;
}

render_hangs_example :
    render 1000 0 (write_all (open_tag (codes "b") false ∷ text b'a' ∷ [])) ≡ out_of_fuel
unfolding heap_use
render_hangs_example =
    render_hangs 1000 0 (codes "b") false (text b'a' ∷ [])
      (b-IsName, (((λ e. absurd (omega (arith, e))), (λ e. absurd (omega (arith, e)))), tt))
      (omega arith) b-IsUnknown
