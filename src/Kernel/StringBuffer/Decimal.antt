-- ===== src/Kernel/StringBuffer/Decimal.antt =====
-- The decimal numbers that src/string_buffer.h writes.
use liumos.Prelude.{
  ℕ, zero, suc, ◌+◌, ◌*◌, ◌/◌, ◌%◌, ◌^◌, ◌<◌, ◌≡◌, refl, sym, ap, ◌∙◌, inl, inr, some, [], ◌∷◌,
  ◌++◌, arith, Bool-cases, ◌==◌,
}
use mathlib.Core.Path.{subst}
use native.Mathlib.Nat.{pow-suc}
use liumos.Memory.{Bytes}
use liumos.Liumlib.Output.Decimal.{IsDecimal, IsDecimal-digit, IsDecimal-concat, exponent_pos}
use liumos.Kernel.StringBuffer.{
  StringBuffer, write_char, decimal_digits, write_digits, write_decimal64,
}
use liumos.Kernel.StringBuffer.Written.{written, written_none, Fits, write_char-more}

-- The digits in `s` from the last on.
abbrev pub decimal_text : Bytes → Bytes
decimal_text [] = []
decimal_text (d ∷ s) = decimal_text s ++ (b'0' + d) ∷ []

decimal_digits-IsDecimal :
    (rounds v : ℕ)
    → v < 10 ^ rounds
    → 0 < rounds
    → (s : Bytes) × (decimal_digits rounds v ≡ some s) × IsDecimal v (decimal_text s)
unfolding decimal_digits
decimal_digits-IsDecimal zero v lt p = absurd (omega arith)
decimal_digits-IsDecimal (suc i) v lt p = elim (Bool-cases (v / 10 == 0)) [
  | inl low ↦
      let e : v % 10 ≡ v = ground arith in
      (
        v ∷ [],
        rw (low, e) refl,
        subst (IsDecimal v) (ap (λ c. c ∷ []) (plus_comm v (b'0')))
            (IsDecimal-digit v (ground arith)),
      )
  | inr high ↦
      let smaller : v / 10 < 10 ^ i = omega (arith, pow-suc 10 i) in
      let (s, e, k) =
        decimal_digits-IsDecimal i (v / 10) smaller
          (exponent_pos i (v / 10) smaller (ground arith)) in
      let whole : v / 10 * 10 + v % 10 ≡ v = omega arith in
      (
        v % 10 ∷ s,
        rw (high, e) refl,
        subst (λ c. IsDecimal v (decimal_text s ++ c ∷ [])) (plus_comm (v % 10) (b'0'))
            (subst (λ n. IsDecimal n (decimal_text s ++ (v % 10 + b'0') ∷ [])) whole
              (IsDecimal-concat (v / 10) (v % 10) (decimal_text s) k (ground arith) (omega arith))),
      )
]
  where
    plus_comm : (a b : ℕ) → a + b ≡ b + a
    plus_comm a b = omega arith

module _ (capacity : ℕ) where
  write_digits-written :
      (s : Bytes) (b : StringBuffer)
      → Fits capacity b
      → write_digits capacity s b ≡ written capacity (decimal_text s) b
  unfolding write_digits
  write_digits-written [] b h = sym (written_none capacity b h)
  write_digits-written (d ∷ s) b h =
      ap (write_char capacity (b'0' + d)) (write_digits-written s b h)
      ∙ write_char-more capacity (b'0' + d) (decimal_text s) b

  -- `WriteDecimal64` of a 64-bit value ends within its array of 20 digits, and writes the decimal
  -- text of the value.
  pub write_decimal64-IsDecimal :
      (v : ℕ) (b : StringBuffer)
      → v < 2 ^ 64
      → Fits capacity b
      → (text : Bytes) × (write_decimal64 capacity v b ≡ some (written capacity text b))
        × IsDecimal v text
  unfolding write_decimal64
  write_decimal64-IsDecimal v b small h =
      let (s, e, k) = decimal_digits-IsDecimal 20 v (omega arith) (omega arith) in
      (decimal_text s, rw e (ap some (write_digits-written s b h)), k)
