-- ===== src/Kernel/StringBuffer/Hex.antt =====
-- The hexadecimal numbers that the operations of src/string_buffer.h write.
use liumos.Prelude.{
  ℕ, zero, suc, ◌+◌, ◌-◌, ◌*◌, ◌/◌, ◌%◌, ◌^◌, ◌<◌, ◌≤◌, ◌≡◌, ◌≢◌, refl, sym, ap, ◌∙◌, inl, inr,
  true, false, [], ◌∷◌, length, ltb, leb, if◌then◌else◌, arith, Bool-cases, ◌==◌, ◌||◌,
}
use mathlib.Core.Path.{subst}
use native.Mathlib.Nat.{
  pow-suc, div-add-mod', div-div-eq-div-mul, div-eq_of_lt, mod-eq_of_lt, mod-lt,
}
use liumos.Memory.{Bytes}
use liumos.Kernel.StringBuffer.{
  StringBuffer, nibble, hex_char, write_char, write_nibbles, write_hex8_zero_filled, first_place,
  write_hex64, write_groups, write_hex64_zero_filled,
}
use liumos.Kernel.StringBuffer.Written.{
  written, written_none, Fits, write_char-Fits, write_char-then,
}

-- The last `n` hexadecimal digits of `v`, the highest first.
abbrev pub nibbles : (n v : ℕ) → Bytes
nibbles zero v = []
nibbles (suc i) v = hex_char (nibble v i) ∷ nibbles i v

-- The value of a digit, and of a row of digits read behind `acc`.
abbrev pub digit_value : ℕ → ℕ
digit_value c = if leb b'A' c then c - b'A' + 10 else c - b'0'

abbrev pub hex_value : ℕ → Bytes → ℕ
hex_value acc [] = acc
hex_value acc (c ∷ cs) = hex_value (acc * 16 + digit_value c) cs

digit_value-hex_char : (d : ℕ) → d < 16 → digit_value (hex_char d) ≡ d
digit_value-hex_char d h = ground arith

-- The remainder one digit further up.
mod_up : (v p : ℕ) → v % (p * 16) ≡ v / p % 16 * p + v % p
mod_up v p =
    let top : v / (p * 16) ≡ v / p / 16 = sym (div-div-eq-div-mul v p 16) in
    let whole : v / (p * 16) * (p * 16) + v % (p * 16) ≡ v = div-add-mod' v (p * 16) in
    let part : v / p * p + v % p ≡ v = div-add-mod' v p in
    let digit : v / p ≡ v / p / 16 * 16 + v / p % 16 = omega arith in
    let scaled : v / p * p ≡ (v / p / 16 * 16 + v / p % 16) * p = ap (λ t. t * p) digit in
    let whole' : v / p / 16 * (p * 16) + v % (p * 16) ≡ v =
      ap (λ t. t * (p * 16) + v % (p * 16)) (sym top) ∙ whole in
    omega (arith, whole', part, scaled)

nibble_step :
    (acc v i : ℕ)
    → (acc * 16 + nibble v i) * 16 ^ i + v % 16 ^ i ≡ acc * 16 ^ suc i + v % 16 ^ suc i
nibble_step acc v i =
    let up : 16 ^ suc i ≡ 16 ^ i * 16 = omega (arith, pow-suc 16 i) in
    rw up (omega (arith, mod_up v (16 ^ i)))

hex_value-nibbles : (n acc v : ℕ) → hex_value acc (nibbles n v) ≡ acc * 16 ^ n + v % 16 ^ n
hex_value-nibbles zero acc v = omega arith
hex_value-nibbles (suc i) acc v =
    ap (λ d. hex_value (acc * 16 + d) (nibbles i v))
      (digit_value-hex_char (nibble v i) (omega arith))
    ∙ hex_value-nibbles i (acc * 16 + nibble v i) v
    ∙ nibble_step acc v i

length-nibbles : (n v : ℕ) → length (nibbles n v) ≡ n
length-nibbles zero v = refl
length-nibbles (suc i) v = ap suc (length-nibbles i v)

-- A value below a power of 16 whose next digit is 0 is below the next smaller power.
below_power : (v i : ℕ) → v < 16 ^ suc i → nibble v i ≡ 0 → v < 16 ^ i
below_power v i lt zero_digit =
    let up : 16 ^ suc i ≡ 16 ^ i * 16 = omega (arith, pow-suc 16 i) in
    let top : v / 16 ^ i / 16 ≡ 0 =
      div-div-eq-div-mul v (16 ^ i) 16 ∙ div-eq_of_lt (omega (arith, lt, up)) in
    let none_there : v / 16 ^ i ≡ 0 = omega (arith, top, zero_digit) in
    let part : v / 16 ^ i * 16 ^ i + v % 16 ^ i ≡ v = div-add-mod' v (16 ^ i) in
    let rest : 0 * 16 ^ i + v % 16 ^ i ≡ v =
      ap (λ q. q * 16 ^ i + v % 16 ^ i) (sym none_there) ∙ part in
    omega (arith, rest, mod-lt v (power_pos i))
  where
    power_pos : (i : ℕ) → 0 < 16 ^ i
    power_pos zero = omega arith
    power_pos (suc i) = omega (arith, power_pos i, pow-suc 16 i)

-- As many digits as the value or the minimum wants.
record IsPlace (p i v min_digits : ℕ) : Type 0 where
  fits : v < 16 ^ p
  most : p ≤ i
  enough : min_digits ≤ p
  tight : (j : ℕ) → p ≡ suc j → min_digits < p → nibble v j ≢ 0

first_place-IsPlace :
    (i v min_digits : ℕ)
    → v < 16 ^ i
    → min_digits ≤ i
    → IsPlace (first_place i v min_digits) i v min_digits
unfolding first_place
first_place-IsPlace zero v min_digits lt few = record {
  fits = lt;
  most = omega arith;
  enough = few;
  tight = λ j e m. absurd (omega arith);
}
first_place-IsPlace (suc i) v min_digits lt few = elim (Bool-cases (ltb i min_digits)) [
  | inl e ↦ rw e (record {
    fits = lt;
    most = omega arith;
    enough = few;
    tight = λ j q m. absurd (reached i min_digits e m);
  })
  | inr e ↦ elim (Bool-cases (nibble v i == 0)) [
    | inl z ↦
        rw (e, z)
          (further
            (first_place-IsPlace i v min_digits (below_power v i lt (ground arith)) (ground arith)))
    | inr z ↦
        rw (e, z)
          (record {
            fits = lt;
            most = omega arith;
            enough = few;
            tight = λ j q m. subst (λ k. nibble v k ≢ 0) (omega arith) (not_zero (nibble v i) z);
          })
  ]
]
  where
    reached : (i m : ℕ) → ltb i m ≡ true → m < suc i → ⊥
    reached i m e lt = ground arith

    not_zero : (d : ℕ) → (d == 0) ≡ false → d ≢ 0
    not_zero d z = ground arith

    further : {p : ℕ} → IsPlace p i v min_digits → IsPlace p (suc i) v min_digits
    further k = record {
      fits = k.fits;
      most = omega (arith, k.most);
      enough = k.enough;
      tight = k.tight;
    }

leads :
    (n v min_digits : ℕ)
    → ((j : ℕ) → n ≡ suc j → min_digits < n → nibble v j ≢ 0)
    → (rest : Bytes) → nibbles n v ≡ b'0' ∷ rest
    → n ≤ min_digits
leads zero v min_digits tight rest e = omega arith
leads (suc i) v min_digits tight rest e = elim (Bool-cases (ltb min_digits (suc i))) [
  | inl more ↦ absurd (tight i refl (ground arith) (digit_zero (nibble v i) (omega arith) (cc)))
  | inr few ↦ ground arith
]
  where
    digit_zero : (d : ℕ) → d < 16 → hex_char d ≡ b'0' → d ≡ 0
    digit_zero d lt e = ground arith

-- The digits with their quotes, and the digits alone.
abbrev pub groups : (n v : ℕ) → Bytes
groups zero v = []
groups (suc i) v =
    let digits = hex_char (nibble v i) ∷ groups i v in
    if i == 11 || i == 7 || i == 3 then 39 ∷ digits else digits

abbrev pub unquoted : Bytes → Bytes
unquoted [] = []
unquoted (c ∷ cs) = if c == 39 then unquoted cs else c ∷ unquoted cs

unquoted-groups : (n v : ℕ) → unquoted (groups n v) ≡ nibbles n v
unquoted-groups zero v = refl
unquoted-groups (suc i) v = elim (Bool-cases (i == 11 || i == 7 || i == 3)) [
  | inl e ↦ rw (e, digit (nibble v i) (omega arith), unquoted-groups i v) refl
  | inr e ↦ rw (e, digit (nibble v i) (omega arith), unquoted-groups i v) refl
]
  where
    digit : (d : ℕ) → d < 16 → (hex_char d == 39) ≡ false
    digit d lt = ground arith

module _ (capacity : ℕ) where
  write_nibbles-written :
      (n v : ℕ) (b : StringBuffer)
      → Fits capacity b
      → write_nibbles capacity n v b ≡ written capacity (nibbles n v) b
  unfolding write_nibbles
  write_nibbles-written zero v b h = sym (written_none capacity b h)
  write_nibbles-written (suc i) v b h =
      write_nibbles-written i v (write_char capacity (hex_char (nibble v i)) b)
        (write_char-Fits capacity (hex_char (nibble v i)) b h)
      ∙ write_char-then capacity (hex_char (nibble v i)) (nibbles i v) b h

  -- `WriteHex8ZeroFilled` writes two digits, whose value is that of the byte.
  pub write_hex8-value :
      (v : ℕ) (b : StringBuffer)
      → v < 256
      → Fits capacity b
      → (text : Bytes) × (write_hex8_zero_filled capacity v b ≡ written capacity text b)
        × (length text ≡ 2)
        × (hex_value 0 text ≡ v)
  unfolding write_hex8_zero_filled
  write_hex8-value v b small h =
      (nibbles 2 v, write_nibbles-written 2 v b h, refl, hex_value-nibbles 2 0 v ∙ omega arith)

  -- `WriteHex64` of a 64-bit value writes at least the digits asked for; the value of the digits
  -- is that of the argument, and beyond the digits asked for there is no leading zero.
  pub write_hex64-value :
      (v min_digits : ℕ) (b : StringBuffer)
      → v < 2 ^ 64
      → min_digits ≤ 16
      → Fits capacity b
      → (text : Bytes) × (write_hex64 capacity v min_digits b ≡ written capacity text b)
        × (hex_value 0 text ≡ v)
        × (min_digits ≤ length text)
        × (length text ≤ 16)
        × ((rest : Bytes) → text ≡ b'0' ∷ rest → length text ≤ min_digits)
  unfolding write_hex64
  write_hex64-value v min_digits b small few h =
      let k = first_place-IsPlace 16 v min_digits (omega arith) few in
      let n = first_place 16 v min_digits in
      (
        nibbles n v,
        write_nibbles-written n v b h,
        hex_value-nibbles n 0 v ∙ omega (arith, mod-eq_of_lt k.fits),
        omega (arith, k.enough, length-nibbles n v),
        omega (arith, k.most, length-nibbles n v),
        λ rest e. omega (arith, length-nibbles n v, leads n v min_digits k.tight rest e),
      )

  digit_then :
      (i v : ℕ)
      → ((b : StringBuffer)
          → Fits capacity b
          → write_groups capacity i v b ≡ written capacity (groups i v) b)
      → (b : StringBuffer) → Fits capacity b
      → write_groups capacity i v (write_char capacity (hex_char (nibble v i)) b)
        ≡ written capacity (hex_char (nibble v i) ∷ groups i v) b
  digit_then i v later b h =
      later (write_char capacity (hex_char (nibble v i)) b)
        (write_char-Fits capacity (hex_char (nibble v i)) b h)
      ∙ write_char-then capacity (hex_char (nibble v i)) (groups i v) b h

  write_groups-written :
      (n v : ℕ) (b : StringBuffer)
      → Fits capacity b
      → write_groups capacity n v b ≡ written capacity (groups n v) b
  unfolding write_groups
  write_groups-written zero v b h = sym (written_none capacity b h)
  write_groups-written (suc i) v b h = elim (Bool-cases (i == 11 || i == 7 || i == 3)) [
    | inl e ↦ rw e (
        digit_then i v (write_groups-written i v) (write_char capacity 39 b)
          (write_char-Fits capacity 39 b h)
        ∙ write_char-then capacity 39 (hex_char (nibble v i) ∷ groups i v) b h)
    | inr e ↦ rw e (digit_then i v (write_groups-written i v) b h)
  ]

  -- `WriteHex64ZeroFilled` writes 19 bytes, the sixteen digits of its argument with quotes between
  -- them.
  pub write_hex64_zero_filled-value :
      (v : ℕ) (b : StringBuffer)
      → v < 2 ^ 64
      → Fits capacity b
      → (text : Bytes) × (write_hex64_zero_filled capacity v b ≡ written capacity text b)
        × (length text ≡ 19)
        × (hex_value 0 (unquoted text) ≡ v)
  unfolding write_hex64_zero_filled
  write_hex64_zero_filled-value v b small h = (
    groups 16 v,
    write_groups-written 16 v b h,
    refl,
    ap (hex_value 0) (unquoted-groups 16 v) ∙ hex_value-nibbles 16 0 v ∙ omega (arith, small),
  )
