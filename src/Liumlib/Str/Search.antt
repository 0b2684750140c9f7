-- ===== src/Liumlib/Str/Search.antt =====
-- `strstr`: the first place of the haystack at which `strncmp` finds no difference.
use liumos.Prelude.{
  ℕ, zero, suc, ◌+◌, ◌^◌, ◌<◌, ◌≡◌, ◌⊎◌, inl, inr, [], ◌∷◌, some, arith, length, ap, sym, ◌∙◌, refl,
  ◌==◌, Bool-cases, take, drop,
}
use liumos.Memory.{Mem, Ptr, Bytes, CString}
use liumos.Liumlib.Str.{strncmp, strstr_loop, strstr, through_int}
use liumos.Liumlib.Str.Length.{strlen-length}
use liumos.Liumlib.Str.Compare.{Agree, strncmp-Agree}

-- `u` begins with the needle `t`, or it is shorter and `t` begins with `u`.
abbrev pub Match : (t u : Bytes) → Type 0
Match t u = (take (length t) u ≡ t) ⊎ ((length u < length t) × (u ≡ take (length u) t))

take-length : (t : Bytes) → take (length t) t ≡ t
take-length [] = refl
take-length (c ∷ cs) = ap (◌∷◌ c) (take-length cs)

Agree-Match : (t u : Bytes) → Agree (length t) u t → Match t u
Agree-Match t u (inl e) = inl (e ∙ take-length t)
Agree-Match t u (inr (inl h)) = inr h
Agree-Match t u (inr (inr h)) = absurd (omega (arith, h.0))

Match-Agree : (t u : Bytes) → Match t u → Agree (length t) u t
Match-Agree t u (inl e) = inl (e ∙ sym (take-length t))
Match-Agree t u (inr h) = inr (inl h)

pub record FirstMatch (t h : Bytes) (i : ℕ) : Type 0 where
  pub within : i < length h
  pub matches : Match t (drop i h)
  pub first : (j : ℕ) → j < i → ¬ Match t (drop j h)

abbrev pub NoMatch : (t h : Bytes) → Type 0
NoMatch t h = (i : ℕ) → i < length h → ¬ Match t (drop i h)

FirstMatch-cons :
    (t : Bytes) (c : ℕ) (h : Bytes) (i : ℕ)
    → ¬ Match t (c ∷ h)
    → FirstMatch t h i
    → FirstMatch t (c ∷ h) (suc i)
FirstMatch-cons t c h i not_here found = record {
  within = omega (arith, found.within);
  matches = found.matches;
  first = elim [ zero ↦ λ _. not_here | suc j ↦ λ lt. found.first j (omega arith) ];
}

NoMatch-cons : (t : Bytes) (c : ℕ) (h : Bytes) → ¬ Match t (c ∷ h) → NoMatch t h → NoMatch t (c ∷ h)
NoMatch-cons t c h not_here none zero lt = not_here
NoMatch-cons t c h not_here none (suc i) lt = none i (omega arith)

-- What `strstr` returns for a haystack `h` at `p`.
abbrev pub Finds : (t h : Bytes) (p r : Ptr) → Type 0
Finds t h p r = ((i : ℕ) × (r ≡ p + i) × FirstMatch t h i) ⊎ ((r ≡ 0) × NoMatch t h)

Finds-cons :
    (t : Bytes) (c : ℕ) (h : Bytes) (p r : Ptr)
    → ¬ Match t (c ∷ h)
    → Finds t h (p + 1) r
    → Finds t (c ∷ h) p r
Finds-cons t c h p r not_here (inl (i, e, found)) =
    inl (suc i, omega arith, FirstMatch-cons t c h i not_here found)
Finds-cons t c h p r not_here (inr (e, none)) = inr (e, NoMatch-cons t c h not_here none)

strstr_loop-Finds :
    (f : ℕ) (h t : Bytes) (m : Mem) (p q : Ptr)
    → CString m p h
    → CString m q t
    → length h < f
    → (r : Ptr) × (strstr_loop f m p q (length t) ≡ some r) × Finds t h p r
unfolding strstr_loop
strstr_loop-Finds zero h t m p q hp hq fuel = absurd (omega arith)
strstr_loop-Finds (suc f) [] t m p q hp hq fuel =
    (0, ground arith, inr (refl, λ i lt. absurd (omega arith)))
strstr_loop-Finds (suc f) (c ∷ cs) t m p q hp hq fuel =
    let (r, e, found) = strstr_loop-Finds f cs t m (p + 1) q hp.2 hq (omega arith) in
    let exact = strncmp-Agree (length t) (c ∷ cs) t m p q hp hq in
    elim (Bool-cases (strncmp (length t) m p q == 0)) [
      | inl same ↦ (
        p,
        ground arith,
        inl (
          0,
          omega arith,
          record {
            within = omega arith;
            matches = Agree-Match t (c ∷ cs) (exact.0 (ground arith));
            first = λ j lt. absurd (omega arith);
          },
        ),
      )
      | inr other ↦ (
        r,
        ground arith,
        Finds-cons t c cs p r
            (λ here.
              let z : strncmp (length t) m p q ≡ 0 = exact.1 (Match-Agree t (c ∷ cs) here) in
              ground arith)
            found,
      )
    ]

-- With enough fuel and a needle whose length an `int` holds, `strstr` returns the address of the
-- first place of the haystack at which the rest of it begins with the needle, or is a proper
-- beginning of the needle; it returns NULL if there is no such place.
pub strstr-Finds :
    (f : ℕ) (h t : Bytes) (m : Mem) (p q : Ptr)
    → CString m p h
    → CString m q t
    → length h < f
    → length t < f
    → length t < 2 ^ 31
    → (r : Ptr) × (strstr f m p q ≡ some r) × Finds t h p r
unfolding strstr
strstr-Finds f h t m p q hp hq fh ft small =
    let (r, e, found) = strstr_loop-Finds f h t m p q hp hq fh in
    let len = strlen-length f t m q hq ft (omega arith) in
    let same : through_int (length t) ≡ length t = ground arith in (r, rw (len, same) e, found)
