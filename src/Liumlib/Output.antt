-- ===== src/Liumlib/Output.antt =====
-- The output functions of app/liumlib/liumlib.c: the bytes that they hand to `write(1, ...)`.
pub mod Decimal
pub mod Hex
use liumos.Prelude.{
  ℕ, zero, suc, ◌+◌, ◌-◌, ◌/◌, ◌%◌, ◌^◌, ◌*◌, Option, none, some, [], ◌∷◌, ◌++◌, ltb, leb, ◌==◌,
  if◌then◌else◌, codes, ◌>>=◌,
}
use liumos.Prelude.Int.{ℤ, pos, negsuc}
use liumos.Memory.{Mem, Ptr, Bytes, read}
use liumos.Liumlib.Str.{strlen}

unfoldable pub print : ℕ → Mem → (s : Ptr) → Option Bytes
print f m s = do len ← strlen f m s; some (read m s len)

unfoldable pub println : ℕ → Mem → (s : Ptr) → Option Bytes
println f m s = do len ← strlen f m s; some (read m s len ++ codes "\n")

-- The loop of `PrintNum`: `i` is the index of the next digit in the buffer of 16 bytes, and `s`
-- what the buffer holds behind it. At `i = 0` the loop would leave the first byte unwritten.
print_digits : (i v : ℕ) → Bytes → Option Bytes
print_digits zero v s = none
print_digits (suc i) v s =
    let s' = (v % 10 + b'0') ∷ s in
    let rest = print_digits i (v / 10) s' in if v / 10 == 0 then some s' else rest

-- `none` is what C leaves undefined, the negation of the least `int`.
unfoldable pub print_num : ℤ → Option Bytes
unfolding print_digits
print_num (pos v) = print_digits 15 v []
print_num (negsuc v) =
    if leb (2 ^ 31 - 1) v
    then none
    else do digits ← print_digits 15 (v + 1) []; some (b'-' ∷ digits)

unfoldable pub num_to_hex_char : ℕ → ℕ
num_to_hex_char v = if ltb v 10 then v + b'0' else if ltb v 16 then v - 10 + b'A' else b'?'

-- `(v >> 4) & 0xF` and `v & 0xF`.
unfoldable pub print_hex8_zero_filled : ℕ → Bytes
unfolding num_to_hex_char
print_hex8_zero_filled v = num_to_hex_char (v / 16 % 16) ∷ num_to_hex_char (v % 16) ∷ []

-- The bytes of a 32-bit word in memory, on a machine that puts the lowest first.
unfoldable pub store32 : ℕ → Bytes
store32 w = w % 256 ∷ w / 256 % 256 ∷ w / 65536 % 256 ∷ w / 16777216 % 256 ∷ []

-- The bytes from the first on, with a dot between two.
print_octets : Bytes → Option Bytes
print_octets [] = some []
print_octets (b ∷ []) = print_num (pos b)
print_octets (b ∷ c ∷ bs) = do
  head ← print_num (pos b)
  rest ← print_octets (c ∷ bs)
  some (head ++ b'.' ∷ rest)

unfoldable pub print_ipv4_addr : ℕ → Option Bytes
unfolding print_octets store32
print_ipv4_addr addr = print_octets (store32 addr)

-- What `__assert` prints before it ends the program.
unfoldable pub assert_message : (expr_str file : Bytes) → (line : ℕ) → Option Bytes
unfolding print_num
assert_message expr_str file line = do
  number ← print_num (pos line)
  some (
      codes "\nAssertion failed: "
      ++ (expr_str ++ (codes " at " ++ (file ++ (codes ":" ++ (number ++ codes "\n"))))))
