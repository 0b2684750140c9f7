-- ===== src/Liumlib/Number/Digits.antt =====
-- `StrToByte` and `StrToNum16` on a row of digits.
use liumos.Prelude.{
  ℕ, zero, suc, ◌+◌, ◌-◌, ◌*◌, ◌%◌, ◌^◌, ◌<◌, ◌≡◌, false, some, [], ◌∷◌, ◌++◌, arith, All, length,
}
use liumos.Memory.{Mem, Ptr, Bytes, CString}
use liumos.Liumlib.Output.Decimal.{IsDigit, value}
use liumos.Liumlib.Number.{is_digit, digits_loop, str_to_byte, str_to_num16}

-- A text that does not go on with a digit.
abbrev pub Stops : Bytes → Type 0
Stops [] = Unit
Stops (c ∷ cs) = is_digit c ≡ false

pub value_mod :
    (ds : Bytes) (a b : ℕ) → a % 2 ^ 32 ≡ b % 2 ^ 32 → value a ds % 2 ^ 32 ≡ value b ds % 2 ^ 32
unfolding value
value_mod [] a b h = h
value_mod (c ∷ cs) a b h = value_mod cs (a * 10 + (c - b'0')) (b * 10 + (c - b'0')) (omega arith)

digits_loop-value :
    (f : ℕ) (ds rest : Bytes) (m : Mem) (p : Ptr) (v : ℕ)
    → CString m p (ds ++ rest)
    → All IsDigit ds
    → Stops rest
    → v < 2 ^ 32
    → length ds < f
    → digits_loop f m p v ≡ some (value v ds % 2 ^ 32, p + length ds)
unfolding digits_loop value
digits_loop-value zero ds rest m p v h d s lt fuel = absurd (omega arith)
digits_loop-value (suc f) [] [] m p v h d s lt fuel = ground arith
digits_loop-value (suc f) [] (c ∷ rest) m p v h d s lt fuel = ground arith
digits_loop-value (suc f) (c ∷ cs) rest m p v h d s lt fuel =
    let v' = (v * 10 + c - b'0') % 2 ^ 32 in
    let later = digits_loop-value f cs rest m (p + 1) v' h.2 d.1 s (omega arith) (omega arith) in
    let same : value v' cs % 2 ^ 32 ≡ value (v * 10 + (c - b'0')) cs % 2 ^ 32 =
      value_mod cs v' (v * 10 + (c - b'0')) (omega arith) in
    ground arith

-- For a row of digits that no digit follows, `StrToByte` returns the low 8 bits of its value,
-- `StrToNum16` the low 16 bits, and both hand back the address behind the digits.
pub str_to_num-value :
    (f : ℕ) (ds rest : Bytes) (m : Mem) (p : Ptr)
    → CString m p (ds ++ rest)
    → All IsDigit ds
    → Stops rest
    → length ds < f
    → (str_to_byte f m p ≡ some (value 0 ds % 2 ^ 8, p + length ds))
      × (str_to_num16 f m p ≡ some (value 0 ds % 2 ^ 16, p + length ds))
unfolding str_to_byte str_to_num16
str_to_num-value f ds rest m p h d s fuel =
    rw (digits_loop-value f ds rest m p 0 h d s (omega arith) fuel) (ground arith)
