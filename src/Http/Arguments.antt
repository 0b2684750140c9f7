-- ===== src/Http/Arguments.antt =====
-- Comparisons of the arguments of app/httpserver and app/httpclient, and numbers among them.
use liumos.Prelude.{
  ℕ, zero, suc, ◌%◌, ◌^◌, ◌<◌, ◌≡◌, ◌≢◌, ◌⊎◌, inl, inr, refl, ap, Bool, true, false, Option, some,
  List, [], ◌∷◌, ◌++◌, length, length-append, arith, if◌then◌else◌, ◌==◌, ◌>>=◌, All, Bool-cases,
}
use mathlib.Core.Path.{subst}
use liumos.Prelude.Int.{ℤ, pos, negsuc}
use liumos.Memory.{Mem, Ptr, Bytes, CString}
use liumos.Liumlib.Str.{strcmp}
use liumos.Liumlib.Str.Compare.{strcmp-Orders}
use liumos.Liumlib.Output.Decimal.{IsDigit, value}
use liumos.Liumlib.Number.{is_digit, str_to_num16}
use liumos.Liumlib.Number.Digits.{Stops, str_to_num-value}

abbrev pub is_zero : ℤ → Bool
is_zero (pos n) = n == 0
is_zero (negsuc n) = false

-- `f` is the fuel of the string functions.
module _ (f : ℕ) where
  -- `strcmp(s, t) == 0`.
  unfoldable pub equal : Mem → (s t : Ptr) → Option Bool
  equal m s t = do z ← strcmp f m s t; some (is_zero z)

  -- `strcmp(s, u) == 0 || strcmp(t, u) == 0`, and so in the other order of the arguments.
  unfoldable pub either_equal : Mem → (s s' t t' : Ptr) → Option Bool
  unfolding equal
  either_equal m s s' t t' = do first ← equal m s s'; if first then some true else equal m t t'

module _ (f : ℕ) (m : Mem) where
  -- `strcmp` tells whether two strings are equal.
  pub equal-decides :
      (p q : Ptr) (s t : Bytes)
      → CString m p s
      → CString m q t
      → length s < f
      → (equal f m p q ≡ some true) × (s ≡ t) ⊎ (equal f m p q ≡ some false) × (s ≢ t)
  unfolding equal
  equal-decides p q s t hs ht fuel =
      let (z, e, o) = strcmp-Orders f s t m p q hs ht fuel in rw e (split z o.zero_eq o.eq_zero)
    where
      split :
          (z : ℤ)
          → (z ≡ pos 0 → s ≡ t)
          → (s ≡ t → z ≡ pos 0)
          → (some (is_zero z) ≡ some true) × (s ≡ t) ⊎ (some (is_zero z) ≡ some false) × (s ≢ t)
      split (pos zero) a b = inl (refl, a refl)
      split (pos (suc n)) a b = inr (ground arith, λ e. absurd (cc (b e)))
      split (negsuc n) a b = inr (refl, λ e. absurd (cc (b e)))

  pub either_equal-decides :
      (p p' q q' : Ptr) (s s' t t' : Bytes)
      → CString m p s
      → CString m p' s'
      → CString m q t
      → CString m q' t'
      → length s < f
      → length t < f
      → (either_equal f m p p' q q' ≡ some true) × ((s ≡ s') ⊎ (t ≡ t'))
        ⊎ (either_equal f m p p' q q' ≡ some false) × (s ≢ s') × (t ≢ t')
  unfolding either_equal
  either_equal-decides p p' q q' s s' t t' hs hs' ht ht' fs ft =
      elim (equal-decides p p' s s' hs hs' fs) [
        | inl (e, same) ↦ inl (rw e refl, inl same)
        | inr (e, other) ↦ elim (equal-decides q q' t t' ht ht' ft) [
          | inl (e', same) ↦ inl (rw e e', inr same)
          | inr (e', other') ↦ inr (rw e e', other, other')
        ]
      ]

-- The digits with which a text begins, and the rest.
abbrev pub digits : Bytes → Bytes × Bytes
digits [] = ([], [])
digits (c ∷ cs) = if is_digit c then (c ∷ (digits cs).0, (digits cs).1) else ([], c ∷ cs)

abbrev pub number : Bytes → ℕ
number s = value 0 (digits s).0 % 2 ^ 16

digits_split :
    (s : Bytes) → (s ≡ (digits s).0 ++ (digits s).1) × All IsDigit (digits s).0 × Stops (digits s).1
digits_split [] = (refl, tt, tt)
digits_split (c ∷ cs) = elim (Bool-cases (is_digit c)) [
  | inl e ↦ rw e (
      let (same, all, stops) = digits_split cs in
      (ap (λ t. c ∷ t) same, (ground arith, all), stops))
  | inr e ↦ rw e (refl, tt, e)
]

pub str_to_num16-number :
    (f : ℕ) (s : Bytes) (m : Mem) (p : Ptr)
    → CString m p s
    → length s < f
    → (next : Ptr) × (str_to_num16 f m p ≡ some (number s, next))
str_to_num16-number f s m p h fuel =
    let (same, all, stops) = digits_split s in
    let fits : length (digits s).0 < f =
      omega (arith, fuel, ap length same, length-append (digits s).0 (digits s).1) in
    (
      _,
      (str_to_num-value f (digits s).0 (digits s).1 m p (subst (CString m p) same h) all stops
          fits).1,
    )

-- Strings at a row of addresses, each with fuel.
abbrev pub Texts : ℕ → Mem → List Ptr → List Bytes → Type 0
Texts f m [] [] = Unit
Texts f m (p ∷ ps) (s ∷ ss) = CString m p s × (length s < f) × Texts f m ps ss
Texts f m _ _ = ⊥
