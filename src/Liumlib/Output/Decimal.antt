-- ===== src/Liumlib/Output/Decimal.antt =====
-- Decimal numbers: what a row of digits stands for, and what `PrintNum` prints.
use liumos.Prelude.{
  ℕ, zero, suc, ◌+◌, ◌-◌, ◌/◌, ◌%◌, ◌^◌, ◌*◌, ◌<◌, ◌≤◌, ◌≡◌, ◌≢◌, inl, inr, refl, sym, ap, ◌∙◌,
  none, some, [], ◌∷◌, ◌++◌, arith, ◌==◌, if◌then◌else◌, Bool-cases, All, All-append, append_assoc,
  append-nil, length,
}
use mathlib.Core.Path.{subst}
use native.Mathlib.Nat.{pow-suc}
use liumos.Prelude.Int.{pos, negsuc}
use liumos.Memory.{Bytes}
use liumos.Liumlib.Output.{print_digits, print_num}

abbrev pub IsDigit : ℕ → Type 0
IsDigit c = (b'0' ≤ c) × (c ≤ b'9')

-- The number that digits stand for, read behind `acc`.
unfoldable pub value : ℕ → Bytes → ℕ
value acc [] = acc
value acc (c ∷ cs) = value (acc * 10 + (c - b'0')) cs

pub value-append : (acc : ℕ) (cs ds : Bytes) → value acc (cs ++ ds) ≡ value (value acc cs) ds
unfolding value
value-append acc [] ds = refl
value-append acc (c ∷ cs) ds = value-append (acc * 10 + (c - b'0')) cs ds

-- `ds` is the decimal text of `v`: digits of that value, at least one, and no leading zero but
-- for 0 itself.
pub record IsDecimal (v : ℕ) (ds : Bytes) : Type 0 where
  pub digits : All IsDigit ds
  pub value_is : value 0 ds ≡ v
  pub some_digit : 0 < length ds
  pub no_zero : (rest : Bytes) → ds ≡ b'0' ∷ rest → rest ≡ []

pub IsDecimal-digit : (v : ℕ) → v < 10 → IsDecimal v ((v + b'0') ∷ [])
unfolding value
IsDecimal-digit v h = record {
  digits = (omega arith, tt);
  value_is = omega arith;
  some_digit = omega arith;
  no_zero = λ rest e. cc;
}

leading_zero : (v c : ℕ) (cs : Bytes) → IsDecimal v (c ∷ cs) → c ≡ b'0' → v ≡ 0
unfolding value
leading_zero v c cs k e =
    let none_left : cs ≡ [] = k.no_zero cs (cc) in
    let only : value 0 (c ∷ cs) ≡ value 0 (b'0' ∷ []) = cc in sym k.value_is ∙ only

pub IsDecimal-concat :
    (v d : ℕ) (ds : Bytes)
    → IsDecimal v ds
    → v ≢ 0
    → d < 10
    → IsDecimal (v * 10 + d) (ds ++ (d + b'0') ∷ [])
unfolding value
IsDecimal-concat v d [] k ne lt = absurd (omega (arith, k.some_digit))
IsDecimal-concat v d (c ∷ cs) k ne lt = record {
  digits = All-append IsDigit (c ∷ cs) ((d + b'0') ∷ []) k.digits (omega arith);
  value_is = value-append 0 (c ∷ cs) ((d + b'0') ∷ []) ∙ omega (arith, k.value_is);
  some_digit = omega arith;
  no_zero = λ rest e. absurd (ne (leading_zero v c cs k (cc)));
}

pub exponent_pos : (i w : ℕ) → w < 10 ^ i → 0 < w → 0 < i
exponent_pos zero w h p = absurd (omega arith)
exponent_pos (suc i) w h p = omega arith

print_digits-IsDecimal :
    (i v : ℕ) (s : Bytes)
    → v < 10 ^ i
    → 0 < i
    → (ds : Bytes) × (print_digits i v s ≡ some (ds ++ s)) × IsDecimal v ds
unfolding print_digits
print_digits-IsDecimal zero v s h p = absurd (omega arith)
print_digits-IsDecimal (suc i) v s h p = elim (Bool-cases (v / 10 == 0)) [
  | inl low ↦
      let e : v % 10 ≡ v = ground arith in
      ((v + b'0') ∷ [], rw (low, e), IsDecimal-digit v (ground arith))
  | inr high ↦
      let smaller : v / 10 < 10 ^ i = omega (arith, pow-suc 10 i) in
      let (ds, e, k) =
        print_digits-IsDecimal i (v / 10) ((v % 10 + b'0') ∷ s) smaller
          (exponent_pos i (v / 10) smaller (ground arith)) in
      let whole : v / 10 * 10 + v % 10 ≡ v = omega arith in
      (
        ds ++ (v % 10 + b'0') ∷ [],
        rw high (e ∙ ap some (sym (append_assoc ds ((v % 10 + b'0') ∷ []) s))),
        subst (λ n. IsDecimal n (ds ++ (v % 10 + b'0') ∷ [])) whole
            (IsDecimal-concat (v / 10) (v % 10) ds k (ground arith) (omega arith)),
      )
]

-- `PrintNum` of an `int` that is not the least one prints its decimal text, behind a minus sign if
-- it is negative.
pub print_num-IsDecimal :
    (v : ℕ)
    → v < 2 ^ 31
    → ((ds : Bytes) × (print_num (pos v) ≡ some ds) × IsDecimal v ds)
      × ((ds : Bytes) × (print_num (negsuc v)
            ≡ (if v == 2 ^ 31 - 1 then none else some (b'-' ∷ ds)))
          × IsDecimal (v + 1) ds)
unfolding print_num
print_num-IsDecimal v h =
    let (ds, e, k) = print_digits-IsDecimal 15 v [] (omega arith) (omega arith) in
    let (ds', e', k') = print_digits-IsDecimal 15 (v + 1) [] (omega arith) (omega arith) in
    ((ds, e ∙ ap some (append-nil ds), k), (ds', rw (e', append-nil) (ground arith), k'))
