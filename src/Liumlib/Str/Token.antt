-- ===== src/Liumlib/Str/Token.antt =====
-- `strtok`: one token, and what is left of the string behind it.
use liumos.Prelude.{
  ℕ, zero, suc, ◌+◌, ◌^◌, ◌<◌, ◌≡◌, ◌≢◌, ◌⊎◌, inl, inr, [], ◌∷◌, ◌++◌, Bool, true, false, ◌||◌,
  Option, some, arith, length, ap, ◌∙◌, refl, ◌==◌, if◌then◌else◌, Bool-cases, All,
}
use mathlib.Core.Path.{subst}
use liumos.Memory.{Mem, Ptr, Bytes, CString, write}
use liumos.Memory.Store.{CString-frame, write_ne, write_self}
use liumos.Liumlib.Str.{is_delim, strtok_loop, strtok}
use liumos.Liumlib.Str.Length.{strlen-length}

unfoldable pub contains : Bytes → ℕ → Bool
contains [] c = false
contains (d ∷ ds) c = c == d || contains ds c

is_delim-contains :
    (d : Bytes) (m : Mem) (q : Ptr) (c : ℕ)
    → CString m q d
    → is_delim (length d) m q c ≡ contains d c
unfolding is_delim contains
is_delim-contains [] m q c h = refl
is_delim-contains (d ∷ ds) m q c h = rw (h.0, is_delim-contains ds m (q + 1) c h.2)

-- `s` is `token`, a delimiter of `d`, and `rest`; no byte of `token` is a delimiter.
pub record Splits (d s token rest : Bytes) : Type 0 where
  pub delimiter : ℕ
  pub whole : s ≡ token ++ delimiter ∷ rest
  pub clean : All (λ c. contains d c ≡ false) token
  pub stops : contains d delimiter ≡ true

-- The memory with a NUL behind the token, the pointer behind that, and the start.
pub record Cut (m : Mem) (d s : Bytes) (p : Ptr) (token rest : Bytes) : Type 0 where
  pub splits : Splits d s token rest
  pub token_at : CString (write m (p + length token) 0) p token
  pub rest_at : CString (write m (p + length token) 0) (p + length token + 1) rest

Cut-cons :
    (m : Mem) (d : Bytes) (c : ℕ) (s : Bytes) (p : Ptr) (token rest : Bytes)
    → m p ≡ c
    → c ≢ 0
    → contains d c ≡ false
    → Cut m d s (p + 1) token rest
    → Cut m d (c ∷ s) p (c ∷ token) rest
Cut-cons m d c s p token rest at ne clean k =
    let e : p + 1 + length token ≡ p + suc (length token) = omega arith in
    record {
      splits = record {
        delimiter = k.splits.delimiter;
        whole = ap (◌∷◌ c) k.splits.whole;
        clean = (clean, k.splits.clean);
        stops = k.splits.stops;
      };
      token_at = (
        write_ne m (p + suc (length token)) 0 p (omega arith) ∙ at,
        ne,
        subst (λ a. CString (write m a 0) (p + 1) token) e k.token_at,
      );
      rest_at = subst (λ a. CString (write m a 0) (a + 1) rest) e k.rest_at;
    }

-- The outcome of a run of the loop from `p` on, with the start given.
abbrev pub Token : (m : Mem) (d s : Bytes) (p start : Ptr) → Option (Mem × Ptr × Ptr) → Type 0
Token m d s p start r =
    ((token : Bytes) × (rest : Bytes) × Cut m d s p token rest
      × (r ≡ some (write m (p + length token) 0, p + length token + 1, start)))
    ⊎ (All (λ c. contains d c ≡ false) s × (r ≡ some (m, p + length s, start)))

Token-cons :
    (m : Mem) (d : Bytes) (c : ℕ) (s : Bytes) (p start : Ptr) (r : Option (Mem × Ptr × Ptr))
    → m p ≡ c
    → c ≢ 0
    → contains d c ≡ false
    → Token m d s (p + 1) start r
    → Token m d (c ∷ s) p start r
Token-cons m d c s p start r at ne clean (inl (token, rest, k, e)) =
    let same : p + 1 + length token ≡ p + suc (length token) = omega arith in
    inl (
      c ∷ token,
      rest,
      Cut-cons m d c s p token rest at ne clean k,
      e ∙ ap (λ (a : ℕ). some (write m a 0, a + 1, start)) same,
    )
Token-cons m d c s p start r at ne clean (inr (k, e)) =
    let same : p + 1 + length s ≡ p + suc (length s) = omega arith in
    inr ((clean, k), e ∙ ap (λ (a : ℕ). some (m, a, start)) same)

Cut-here :
    (m : Mem) (d : Bytes) (c : ℕ) (s : Bytes) (p : Ptr)
    → CString m (p + 1) s
    → contains d c ≡ true
    → Cut m d (c ∷ s) p [] s
Cut-here m d c s p h stops = record {
  splits = record { delimiter = c; whole = refl; clean = tt; stops = stops };
  token_at = let e : p + 0 ≡ p = omega arith in rw e (write_self m p 0);
  rest_at =
      let e : p + 0 ≡ p = omega arith in
      rw e (CString-frame s (write m p 0) (p + 1) h (λ a lo hi. write_ne m p 0 a (omega arith)));
}

strtok_loop-Token :
    (g f : ℕ) (d s : Bytes) (m : Mem) (delim start p : Ptr)
    → CString m delim d
    → CString m p s
    → length d < g
    → length d < 2 ^ 64
    → length s < f
    → Token m d s p start (strtok_loop g f m delim start p)
strtok_loop-Token g zero d s m delim start p hd hs fd small fuel = absurd (omega arith)
strtok_loop-Token g (suc f) d [] m delim start p hd hs fd small fuel =
    inr (tt, unfold strtok_loop in ground arith)
strtok_loop-Token g (suc f) d (c ∷ cs) m delim start p hd hs fd small fuel =
    let len = strlen-length g d m delim hd fd small in
    let test = is_delim-contains d m delim c hd in
    let rest = strtok_loop-Token g f d cs m delim start (p + 1) hd hs.2 fd small (omega arith) in
    elim (Bool-cases (contains d c)) [
      | inl stop ↦
          let e : p + 0 ≡ p = omega arith in
          inl ([], cs, Cut-here m d c cs p hs.2 stop, unfold strtok_loop in rw e (ground arith))
      | inr go ↦
          let step : strtok_loop g f m delim start (p + 1) ≡ strtok_loop g (suc f) m delim start p =
            unfold strtok_loop in ground arith in
          Token-cons m d c cs p start _ hs.0 hs.1 go
            (subst (λ r. Token m d cs (p + 1) start r) step rest)
    ]

-- Called with the string `s` at `p`, by its address or by NULL and a saved pointer, and with the
-- delimiters `d`, `strtok` returns `p`. If `s` holds a delimiter, it writes a NUL over the first
-- one, so that `p` holds the bytes before it, and saves the address of what follows; otherwise it
-- changes nothing and saves the address of the end.
pub strtok-Token :
    (f : ℕ) (d s : Bytes) (m : Mem) (save_ptr str delim p : Ptr)
    → CString m delim d
    → CString m p s
    → ((str ≡ p) × (p ≢ 0)) ⊎ ((str ≡ 0) × (save_ptr ≡ p))
    → length d < f
    → length d < 2 ^ 64
    → length s < f
    → Token m d s p p (strtok f m save_ptr str delim)
unfolding strtok
strtok-Token f d s m save_ptr str delim p hd hs which fd small fuel =
    let e : (if str == 0 then save_ptr else str) ≡ p = ground arith in
    rw e (strtok_loop-Token f f d s m delim p p hd hs fd small fuel)
