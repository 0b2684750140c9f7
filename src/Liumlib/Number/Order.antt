-- ===== src/Liumlib/Number/Order.antt =====
-- `htons` and `htonl`: byte order.
use liumos.Prelude.{ℕ, ◌+◌, ◌*◌, ◌/◌, ◌%◌, ◌^◌, ◌<◌, ◌≡◌, [], ◌∷◌, arith}
use liumos.Prelude.Bits.{bit_or_fields}
use liumos.Liumlib.Output.{store32}
use liumos.Liumlib.Number.{htons, htonl}

htons_sum : (x : ℕ) → x < 2 ^ 16 → htons x ≡ x / 2 ^ 8 + x % 2 ^ 8 * 2 ^ 8
unfolding htons
htons_sum x h =
    let e : x / 2 ^ 8 % 256 ≡ x / 2 ^ 8 = omega arith in
    let j = (bit_or_fields 8 (x % 256) (x / 2 ^ 8) (omega arith)).1 in rw (e, j) (omega arith)

htonl_sum :
    (x : ℕ)
    → x < 2 ^ 32
    → htonl x ≡ x / 2 ^ 24 + x / 2 ^ 16 % 256 * 2 ^ 8 + x / 2 ^ 8 % 256 * 2 ^ 16 + x % 256 * 2 ^ 24
unfolding htonl
htonl_sum x h =
    let a = x / 2 ^ 24 in
    let b = x / 2 ^ 16 % 256 in
    let c = x / 2 ^ 8 % 256 in
    let d = x % 256 in
    let ea : x / 2 ^ 24 % 256 * 2 ^ 24 / 2 ^ 24 ≡ a = omega arith in
    let eb : b * 2 ^ 16 / 2 ^ 8 ≡ b * 2 ^ 8 = omega arith in
    let ec : c * 2 ^ 8 * 2 ^ 8 ≡ c * 2 ^ 16 = omega arith in
    let j1 = (bit_or_fields 8 b a (omega arith)).1 in
    let j2 = (bit_or_fields 16 c (b * 2 ^ 8 + a) (omega arith)).1 in
    let j3 = (bit_or_fields 24 d (c * 2 ^ 16 + (b * 2 ^ 8 + a)) (omega arith)).1 in
    rw (ea, eb, ec, j1, j2, j3) (omega arith)

-- The bytes in memory of `htonl x` are those of `x` with the highest first, and the two bytes in
-- memory of `htons x` are the high one and then the low one; either function undoes itself.
pub hton_bytes :
    (x y : ℕ)
    → x < 2 ^ 32
    → y < 2 ^ 16
    → (store32 (htonl x) ≡ x / 2 ^ 24 ∷ x / 2 ^ 16 % 256 ∷ x / 2 ^ 8 % 256 ∷ x % 256 ∷ [])
      × (store32 (htons y) ≡ y / 2 ^ 8 ∷ y % 256 ∷ 0 ∷ 0 ∷ [])
      × (htonl (htonl x) ≡ x)
      × (htons (htons y) ≡ y)
unfolding store32
hton_bytes x y h k = (
  ground (arith, htonl_sum x h),
  ground (arith, htons_sum y k),
  omega (arith, htonl_sum x h, htonl_sum (htonl x)),
  omega (arith, htons_sum y k, htons_sum (htons y)),
)
