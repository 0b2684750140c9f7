-- ===== src/Liumlib/Number.antt =====
-- Numbers and addresses read from text, and byte order, in app/liumlib/liumlib.c and its header.
pub mod Digits
pub mod Address
pub mod RoundTrip
pub mod Order
use Prim.Native.Nat.{bit_or}
use liumos.Prelude.{
  ℕ, zero, suc, ◌+◌, ◌-◌, ◌/◌, ◌%◌, ◌^◌, ◌*◌, Bool, ◌&&◌, Option, none, some, List, [], ◌∷◌, ◌++◌,
  true, false, ltb, leb, ◌==◌, if◌then◌else◌, codes, ◌>>=◌, get_or, set, replicate,
}
use liumos.Prelude.Int.{ℤ, pos}
use liumos.Memory.{Mem, Ptr, Bytes}
use liumos.Liumlib.Alloc.{Call, returned, exited, overran}
use liumos.Liumlib.Output.{store32, assert_message}

abbrev pub is_digit : ℕ → Bool
is_digit c = leb b'0' c && leb c b'9'

-- The loop of `StrToByte` and `StrToNum16`: `v` is a `uint32_t`.
digits_loop : ℕ → Mem → (s : Ptr) → (v : ℕ) → Option (ℕ × Ptr)
digits_loop zero m s v = none
digits_loop (suc f) m s v =
    let rest = digits_loop f m (s + 1) ((v * 10 + m s - b'0') % 2 ^ 32) in
    if is_digit (m s) then rest else some (v, s)

-- The value, and what is written to `*next`.
unfoldable pub str_to_byte : ℕ → Mem → (s : Ptr) → Option (ℕ × Ptr)
unfolding digits_loop
str_to_byte f m s = do (v, next) ← digits_loop f m s 0; some (v % 2 ^ 8, next)

unfoldable pub str_to_num16 : ℕ → Mem → (s : Ptr) → Option (ℕ × Ptr)
unfolding digits_loop
str_to_num16 f m s = do (v, next) ← digits_loop f m s 0; some (v % 2 ^ 16, next)

-- Four bytes of memory read as a word, the lowest first.
unfoldable pub load32 : Bytes → ℕ
load32 b = get_or b 0 0 + get_or b 1 0 * 2 ^ 8 + get_or b 2 0 * 2 ^ 16 + get_or b 3 0 * 2 ^ 24

unfoldable pub make_ipv4_addr : (a b c d : ℕ) → ℕ
unfolding load32
make_ipv4_addr a b c d = load32 (a ∷ b ∷ c ∷ d ∷ [])

-- The loop of `MakeIPv4AddrFromString`, with what is left of `i` and the bytes that stand in
-- `buf`. A missing dot ends the program in `assert`; `file` is what `__FILE__` stands for.
unfoldable pub octets_loop :
    (file : Bytes) → ℕ → ℕ → Mem → (s : Ptr) → (buf : Bytes) → Option (Call Bytes)
octets_loop file zero f m s buf = do (v, next) ← str_to_byte f m s; some (returned (buf ++ v ∷ []))
octets_loop file (suc i) f m s buf = do
  (v, next) ← str_to_byte f m s
  if m next == b'.'
      then octets_loop file i f m (next + 1) (buf ++ v ∷ [])
      else do message ← assert_message (codes "*s == '.'") file 342; some (exited message 1)

abbrev load_call : Call Bytes → Call ℕ
load_call (returned buf) = returned (load32 buf)
load_call (exited output status) = exited output status
load_call overran = overran

unfoldable pub make_ipv4_addr_from_string : (file : Bytes) → ℕ → Mem → (s : Ptr) → Option (Call ℕ)
make_ipv4_addr_from_string file f m s = do
  result ← octets_loop file 3 f m s []
  some (load_call result)

-- The variables of `inet_addr`. The array starts with no values in C; every entry that is read
-- has been written.
pub record Inet : Type 0 where
  pub dots : ℕ
  pub acc : ℕ
  pub addrs : List ℕ
  pub index : ℕ

abbrev initial : Inet
initial = record { dots = 0; acc = 0; addrs = replicate 4 0; index = 0 }

-- `addrs[index++] = acc; acc = 0;`
abbrev pub next_part : Inet → Inet
next_part st = record st { addrs = set st.addrs st.index st.acc; index = st.index + 1; acc = 0 }

-- The `switch` on one character; `none` is a `return 0` from it.
inet_step : Inet → (c : ℕ) → Option Inet
inet_step st c =
    if is_digit c
    then some (record st { acc = (st.acc * 10 + (c - b'0')) % 2 ^ 32 })
    else if c == b'.'
    then (if ltb 3 (st.dots + 1) then none else some (next_part (record st { dots = st.dots + 1 })))
    else if c == 0
    then (if ltb 255 st.acc then none else some (next_part st))
    else none

abbrev pub shl32 : ℕ → ℕ → ℕ
shl32 w k = w * 2 ^ k % 2 ^ 32

-- What follows the loop.
inet_result : Inet → ℕ
inet_result st =
    let last = next_part st in
    let part = λ (i : ℕ). get_or last.addrs i 0 in
    if st.dots == 3
    then bit_or (bit_or (bit_or (shl32 (part 3) 24) (shl32 (part 2) 16)) (shl32 (part 1) 8))
        (part 0)
    else if st.dots == 2
    then bit_or (bit_or (shl32 (part 2) 24) (shl32 (part 1) 8)) (part 0)
    else if st.dots == 1
    then bit_or (shl32 (part 1) 24) (part 0)
    else shl32 (part 0) 24

inet_loop : ℕ → Mem → (cp : Ptr) → Inet → Option ℕ
inet_loop zero m cp st = none
inet_loop (suc f) m cp st = elim (m cp == 0) [
  | true ↦ some (inet_result st)
  | false ↦ elim (inet_step st (m cp)) [ none ↦ some 0 | some st' ↦ inet_loop f m (cp + 1) st' ]
]

unfoldable pub inet_addr : ℕ → Mem → (cp : Ptr) → Option ℕ
unfolding inet_loop inet_step inet_result
inet_addr f m cp = inet_loop f m cp initial

-- The first byte in memory of a word whose highest byte is 1.
unfoldable pub is_big_endian : Bool
unfolding store32
is_big_endian = get_or (store32 0x01020304) 0 0 == 1

abbrev pub bswap_16 : ℕ → ℕ
bswap_16 x = bit_or (x / 2 ^ 8 % 256) (x % 256 * 2 ^ 8) % 2 ^ 16

-- The masks of the macro, `& 0xff000000` and so on, before the shifts.
abbrev pub bswap_32 : ℕ → ℕ
bswap_32 x =
    bit_or
      (bit_or (bit_or (x / 2 ^ 24 % 256 * 2 ^ 24 / 2 ^ 24) (x / 2 ^ 16 % 256 * 2 ^ 16 / 2 ^ 8))
        (x / 2 ^ 8 % 256 * 2 ^ 8 * 2 ^ 8))
      (x % 256 * 2 ^ 24)

unfoldable pub htons : ℕ → ℕ
unfolding is_big_endian
htons x = if is_big_endian then x else bswap_16 x

unfoldable pub htonl : ℕ → ℕ
unfolding is_big_endian
htonl x = if is_big_endian then x else bswap_32 x
