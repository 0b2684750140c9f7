-- ===== src/Kernel/StringBuffer.antt =====
-- The class StringBuffer of src/string_buffer.h, with `capacity` for its parameter N. `buf` is the
-- part of `buf_` below `write_index_`, whose length is that index.
pub mod Written
pub mod Hex
pub mod Decimal
use liumos.Prelude.{
  ℕ, zero, suc, ◌+◌, ◌-◌, ◌*◌, ◌/◌, ◌%◌, ◌^◌, Bool, true, false, ◌||◌, Option, none, some, List, [],
  ◌∷◌, ◌++◌, length, ltb, leb, ◌==◌, if◌then◌else◌, ◌>>=◌,
}
use liumos.Memory.{Mem, Ptr, Bytes}

pub record StringBuffer : Type 0 where
  pub buf : Bytes

-- `(v >> (4 * i)) & 0xF`, and its digit.
abbrev pub nibble : ℕ → ℕ → ℕ
nibble v i = v / 16 ^ i % 16

abbrev pub hex_char : ℕ → ℕ
hex_char c = if ltb c 10 then c + b'0' else c + (b'A' - 10)

-- The first loop of `WriteHex64`: one more than the place of the first digit that is written.
-- The first argument is `i + 1`.
pub first_place : (i v : ℕ) → (min_digits : ℕ) → ℕ
first_place zero v min_digits = 0
first_place (suc i) v min_digits =
    let rest = first_place i v min_digits in
    if ltb i min_digits then suc i else if nibble v i == 0 then rest else suc i

-- The first loop of `WriteDecimal64`: the digits in `s`, the last of the number first. `none`
-- would be a read of `s[20]`.
pub decimal_digits : (rounds value : ℕ) → Option Bytes
decimal_digits zero value = none
decimal_digits (suc rounds) value =
    let rest = decimal_digits rounds (value / 10) in
    if value / 10 == 0 then some (value % 10 ∷ []) else do s ← rest; some (value % 10 ∷ s)

module _ (capacity : ℕ) where
  unfoldable pub write_char : ℕ → StringBuffer → StringBuffer
  write_char c b = if leb capacity (length b.buf) then b else record { buf = b.buf ++ c ∷ [] }

  -- `none` is a string that the fuel does not suffice for.
  unfoldable pub write_string : ℕ → Mem → (s : Ptr) → StringBuffer → Option StringBuffer
  unfolding write_char
  write_string zero m s b = none
  write_string (suc f) m s b =
      let rest = write_string f m (s + 1) (write_char (m s) b) in if m s == 0 then some b else rest

  -- The loops that write the digits of `v` from the `n`-th down to the last.
  pub write_nibbles : (n v : ℕ) → StringBuffer → StringBuffer
  unfolding write_char
  write_nibbles zero v b = b
  write_nibbles (suc i) v b = write_nibbles i v (write_char (hex_char (nibble v i)) b)

  unfoldable pub write_hex8_zero_filled : ℕ → StringBuffer → StringBuffer
  unfolding write_nibbles
  write_hex8_zero_filled v b = write_nibbles 2 v b

  unfoldable pub write_hex64 : (v min_digits : ℕ) → StringBuffer → StringBuffer
  unfolding write_nibbles first_place
  write_hex64 v min_digits b = write_nibbles (first_place 16 v min_digits) v b

  -- The second loop, from the last entry of `s` on.
  pub write_digits : Bytes → StringBuffer → StringBuffer
  unfolding write_char
  write_digits [] b = b
  write_digits (d ∷ s) b = write_char (b'0' + d) (write_digits s b)

  unfoldable pub write_decimal64 : ℕ → StringBuffer → Option StringBuffer
  unfolding decimal_digits write_digits
  write_decimal64 value b = do s ← decimal_digits 20 value; some (write_digits s b)

  pub write_groups : (n v : ℕ) → StringBuffer → StringBuffer
  unfolding write_char
  write_groups zero v b = b
  write_groups (suc i) v b =
      let quoted = if i == 11 || i == 7 || i == 3 then write_char 39 b else b in
      write_groups i v (write_char (hex_char (nibble v i)) quoted)

  unfoldable pub write_hex64_zero_filled : ℕ → StringBuffer → StringBuffer
  unfolding write_groups
  write_hex64_zero_filled v b = write_groups 16 v b

-- The bytes of the string that is returned, with its NUL.
abbrev pub get_string : StringBuffer → Bytes
get_string b = b.buf ++ 0 ∷ []

abbrev pub clear : StringBuffer → StringBuffer
clear b = record { buf = [] }
