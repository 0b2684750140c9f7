-- ===== src/Kernel/Checksum.antt =====
-- The Internet checksum: `InternetChecksum::Calc` of src/network.h, and `CalcChecksum` of
-- app/ping/ping.c, which stores the same bytes as a word.
pub mod Verified
use Prim.Native.Nat.{bit_or}
use liumos.Prelude.{
  ℕ, zero, suc, ◌+◌, ◌-◌, ◌*◌, ◌/◌, ◌%◌, ◌^◌, Option, none, some, List, [], ◌∷◌, ◌==◌,
  if◌then◌else◌, ◌>>=◌,
}
use liumos.Memory.{Mem, Ptr, Bytes}

-- `static_cast<uint16_t>(p[i]) << 8 | p[i + 1]`.
abbrev pub word : Mem → Ptr → ℕ
word m p = bit_or (m p * 2 ^ 8) (m (p + 1))

-- The loop over the words, with the rounds that are left; `sum` is a `uint32_t`.
pub sum_loop : (rounds : ℕ) → Mem → Ptr → (sum : ℕ) → ℕ
sum_loop zero m p sum = sum
sum_loop (suc rounds) m p sum = sum_loop rounds m (p + 2) ((sum + word m p) % 2 ^ 32)

-- The loop that adds the carries; `none` is fuel that does not suffice.
fold_loop : ℕ → (sum : ℕ) → Option ℕ
fold_loop zero sum = none
fold_loop (suc f) sum =
    let rest = fold_loop f (sum % 2 ^ 16 + sum / 2 ^ 16) in
    if sum / 2 ^ 16 == 0 then some sum else rest

-- Both loops and the complement, from `start` to before `end`.
unfoldable pub complement_sum : ℕ → Mem → (buf : Ptr) → (start end_ : ℕ) → Option ℕ
unfolding sum_loop fold_loop
complement_sum f m buf start end_ = do
  sum ← fold_loop f (sum_loop ((end_ - start + 1) / 2) m (buf + start) 0)
  some (2 ^ 32 - 1 - sum)

unfoldable pub calc : ℕ → Mem → (buf : Ptr) → (start end_ : ℕ) → Option Bytes
unfolding complement_sum
calc f m buf start end_ = do
  sum ← complement_sum f m buf start end_
  some (sum / 2 ^ 8 % 2 ^ 8 ∷ sum % 2 ^ 8 ∷ [])

unfoldable pub calc_checksum : ℕ → Mem → (buf : Ptr) → (start end_ : ℕ) → Option ℕ
unfolding complement_sum
calc_checksum f m buf start end_ = do
  sum ← complement_sum f m buf start end_
  some (bit_or (sum / 2 ^ 8 % 2 ^ 8) (sum % 2 ^ 8 * 2 ^ 8))
