-- ===== src/Liumlib/Output/Hex.antt =====
-- `PrintHex8ZeroFilled`: two hexadecimal digits.
use liumos.Prelude.{
  ℕ, ◌+◌, ◌-◌, ◌*◌, ◌/◌, ◌%◌, ap, ◌<◌, ◌≡◌, Option, none, some, [], ◌∷◌, arith, leb, ◌&&◌,
  if◌then◌else◌, ◌>>=◌,
}
use liumos.Memory.{Bytes}
use liumos.Liumlib.Output.{num_to_hex_char, print_hex8_zero_filled}

-- A reader of upper-case hexadecimal digits.
unfoldable pub hex_digit : ℕ → Option ℕ
hex_digit c =
    if leb b'0' c && leb c b'9'
    then some (c - b'0')
    else if leb b'A' c && leb c b'F'
    then some (c - b'A' + 10)
    else none

unfoldable pub read_hex8 : Bytes → Option ℕ
unfolding hex_digit
read_hex8 (h ∷ l ∷ []) = do hi ← hex_digit h; lo ← hex_digit l; some (hi * 16 + lo)
read_hex8 _ = none

hex_digit-num_to_hex_char : (v : ℕ) → v < 16 → hex_digit (num_to_hex_char v) ≡ some v
unfolding hex_digit num_to_hex_char
hex_digit-num_to_hex_char v h = ground arith

-- The two digits that `PrintHex8ZeroFilled` prints for a byte read back as that byte.
pub read_hex8-print_hex8 : (v : ℕ) → v < 256 → read_hex8 (print_hex8_zero_filled v) ≡ some v
unfolding read_hex8 print_hex8_zero_filled
read_hex8-print_hex8 v h =
    rw
      (
        hex_digit-num_to_hex_char (v / 16 % 16) (omega arith),
        hex_digit-num_to_hex_char (v % 16) (omega arith),
      )
      (ap some (omega arith))
