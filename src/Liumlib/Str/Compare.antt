-- ===== src/Liumlib/Str/Compare.antt =====
-- `strcmp` and `strncmp` against the order of the strings that they compare.
use liumos.Prelude.{
  ℕ, zero, suc, ◌+◌, ◌<◌, ◌≡◌, ◌≢◌, ◌⊎◌, ◌↔◌, inl, inr, [], ◌∷◌, true, some, arith, length, ap,
  refl, ◌==◌, Bool-cases, take,
}
use mathlib.Core.Path.{subst}
use liumos.Prelude.Int.{ℤ, pos, sub_ℕ, ltb_ℤ}
use liumos.Memory.{Mem, Ptr, Bytes, CString}
use liumos.Liumlib.Str.{strcmp, strncmp}

-- `s` stands before `t` in the dictionary order of unsigned bytes.
abbrev pub Before : Bytes → Bytes → Type 0
Before s [] = ⊥
Before [] (d ∷ ds) = Unit
Before (c ∷ cs) (d ∷ ds) = (c < d) ⊎ ((c ≡ d) × Before cs ds)

-- The sign of `z` says how `s` and `t` stand.
pub record Orders (z : ℤ) (s t : Bytes) : Type 0 where
  pub zero_eq : z ≡ pos 0 → s ≡ t
  pub eq_zero : s ≡ t → z ≡ pos 0
  pub neg_before : ltb_ℤ z (pos 0) ≡ true → Before s t
  pub before_neg : Before s t → ltb_ℤ z (pos 0) ≡ true

Orders-cons : (z : ℤ) (c : ℕ) (s t : Bytes) → Orders z s t → Orders z (c ∷ s) (c ∷ t)
Orders-cons z c s t o = record {
  zero_eq = λ e. ap (◌∷◌ c) (o.zero_eq e);
  eq_zero = λ e. o.eq_zero (cc);
  neg_before = λ e. inr (refl, o.neg_before e);
  before_neg = elim [ inl lt ↦ absurd (omega arith) | inr b ↦ o.before_neg b.1 ];
}

Orders-ne : (c d : ℕ) (s t : Bytes) → c ≢ d → Orders (sub_ℕ c d) (c ∷ s) (d ∷ t)
Orders-ne c d s t ne = record {
  zero_eq = λ e. absurd (ne (ground arith));
  eq_zero = λ e. absurd (ne (cc));
  neg_before = λ e. ground arith;
  before_neg = λ b. ground arith;
}

-- With enough fuel, `strcmp` of the strings `s` and `t` returns a number that is 0 exactly when
-- they are equal, and negative exactly when `s` stands before `t`.
pub strcmp-Orders :
    (f : ℕ) (s t : Bytes) (m : Mem) (p q : Ptr)
    → CString m p s
    → CString m q t
    → length s < f
    → (z : ℤ) × (strcmp f m p q ≡ some z) × Orders z s t
unfolding strcmp
strcmp-Orders zero s t m p q h k fuel = absurd (omega arith)
strcmp-Orders (suc f) [] [] m p q h k fuel = (
  pos 0,
  ground arith,
  record {
    zero_eq = λ _. refl;
    eq_zero = λ _. refl;
    neg_before = λ e. cc;
    before_neg = λ b. absurd b;
  },
)
strcmp-Orders (suc f) [] (d ∷ ds) m p q h k fuel = (
  sub_ℕ 0 d,
  ground arith,
  record {
    zero_eq = λ e. absurd (k.1 (ground arith));
    eq_zero = λ e. cc;
    neg_before = λ e. tt;
    before_neg = λ b. ground arith;
  },
)
strcmp-Orders (suc f) (c ∷ cs) [] m p q h k fuel = (
  sub_ℕ c 0,
  ground arith,
  record {
    zero_eq = λ e. absurd (h.1 (ground arith));
    eq_zero = λ e. cc;
    neg_before = λ e. ground arith;
    before_neg = λ b. absurd b;
  },
)
strcmp-Orders (suc f) (c ∷ cs) (d ∷ ds) m p q h k fuel =
    let (z, e, o) = strcmp-Orders f cs ds m (p + 1) (q + 1) h.2 k.2 (omega arith) in
    elim (Bool-cases (c == d)) [
      | inl same ↦
          let eq : c ≡ d = ground arith in
          (z, ground arith, subst (λ x. Orders z (c ∷ cs) (x ∷ ds)) eq (Orders-cons z c cs ds o))
      | inr other ↦ (sub_ℕ c d, ground arith, Orders-ne c d cs ds (ground arith))
    ]

-- The first `n` bytes agree, or one string ends before that and the other goes on from it.
abbrev pub Agree : ℕ → Bytes → Bytes → Type 0
Agree n s t =
    (take n s ≡ take n t)
    ⊎ ((length s < n) × (s ≡ take (length s) t) ⊎ (length t < n) × (t ≡ take (length t) s))

-- `strncmp` of `n` bytes returns 0 exactly when the first `n` bytes of the strings agree, or one
-- string is shorter than `n` and the other begins with it.
pub strncmp-Agree :
    (n : ℕ) (s t : Bytes) (m : Mem) (p q : Ptr)
    → CString m p s
    → CString m q t
    → (strncmp n m p q ≡ 0) ↔ Agree n s t
unfolding strncmp
strncmp-Agree zero s t m p q h k = ground arith
strncmp-Agree (suc n) [] [] m p q h k = ground arith
strncmp-Agree (suc n) [] (d ∷ ds) m p q h k = ground arith
strncmp-Agree (suc n) (c ∷ cs) [] m p q h k = ground arith
strncmp-Agree (suc n) (c ∷ cs) (d ∷ ds) m p q h k =
    ground (arith, strncmp-Agree n cs ds m (p + 1) (q + 1) h.2 k.2)
