-- ===== src/Prelude/Bits.antt =====
-- `bit_or` of a low field and a high field is their sum.
use Prim.Native.Nat.{
  ℕ, zero, suc, ◌+◌, ◌*◌, ◌/◌, ◌%◌, ◌^◌, ◌≤◌, ◌<◌, max, bit_or, digits, bit_or-bitwise,
}
use mathlib.Core.Path.{◌≡◌, refl, ap}
use native.Mathlib.Nat.{pow-suc}
use native.Mathlib.Omega.{arith}

-- The digits of `a | b`, over `n` rounds.
abbrev or_rounds : ℕ → ℕ → ℕ → ℕ
or_rounds n a b = digits (λ b. b) max n a b

or_rounds_irrelevant : (n k a b : ℕ) → a ≤ n → a ≤ k → or_rounds n a b ≡ or_rounds k a b
or_rounds_irrelevant zero zero zero b p q = refl
or_rounds_irrelevant zero (suc k) zero b p q = refl
or_rounds_irrelevant (suc n) zero zero b p q = refl
or_rounds_irrelevant (suc n) (suc k) zero b p q = refl
or_rounds_irrelevant zero k (suc a) b p q = absurd (omega arith)
or_rounds_irrelevant (suc n) zero (suc a) b p q = absurd (omega arith)
or_rounds_irrelevant (suc n) (suc k) (suc a) b p q =
    omega (arith, or_rounds_irrelevant n k (suc a / 2) (b / 2) (omega arith) (omega arith))

zero-bit_or : (b : ℕ) → bit_or 0 b ≡ b
zero-bit_or b = bit_or-bitwise 0 b

bit_or_halves : (a b : ℕ) → bit_or a b ≡ bit_or (a / 2) (b / 2) * 2 + max (a % 2) (b % 2)
bit_or_halves zero b = omega (arith, zero-bit_or b, zero-bit_or (b / 2))
bit_or_halves (suc a) b = omega (
  arith,
  bit_or-bitwise (suc a) b,
  bit_or-bitwise (suc a / 2) (b / 2),
  or_rounds_irrelevant a (suc a / 2) (suc a / 2) (b / 2) (omega arith) (omega arith),
)

bit_or-zero_below : (n a : ℕ) → a < n → bit_or a 0 ≡ a
bit_or-zero_below zero a h = elim h [ ]
bit_or-zero_below (suc n) zero h = refl
bit_or-zero_below (suc n) (suc a) h =
    omega (arith, bit_or_halves (suc a) 0, bit_or-zero_below n (suc a / 2) (omega arith))

double-pow : (q k : ℕ) → q * 2 ^ suc k ≡ q * 2 ^ k * 2
double-pow q k = omega (arith, ap (λ (t : ℕ). q * t) (pow-suc 2 k))

-- A value that fits `k` bits, joined to one that is shifted left by `k`, in either order.
pub bit_or_fields :
    (k q r : ℕ)
    → r < 2 ^ k
    → (bit_or (q * 2 ^ k) r ≡ q * 2 ^ k + r) × (bit_or r (q * 2 ^ k) ≡ q * 2 ^ k + r)
bit_or_fields zero q r h =
    let e : r ≡ 0 = omega arith in
    let e' : q * 1 ≡ q = omega arith in
    rw (e, e')
      (omega (arith, bit_or-zero_below (q + 1) q (omega arith)), omega (arith, zero-bit_or q))
bit_or_fields (suc k) q r h =
    let (low, high) = bit_or_fields k q (r / 2) (omega (arith, pow-suc 2 k)) in
    let e : q * 2 ^ suc k / 2 ≡ q * 2 ^ k = omega (arith, double-pow q k) in
    (
      omega (
        arith,
        bit_or_halves (q * 2 ^ suc k) r,
        double-pow q k,
        low,
        ap (λ (t : ℕ). bit_or t (r / 2)) e,
      ),
      omega (
        arith,
        bit_or_halves r (q * 2 ^ suc k),
        double-pow q k,
        high,
        ap (λ (t : ℕ). bit_or (r / 2) t) e,
      ),
    )
