-- ===== src/Kernel/Checksum/Verified.antt =====
-- The checksum of a message, and of the message with its checksum in place.
use Prim.Native.Nat.{bit_or}
use liumos.Prelude.{
  ℕ, zero, suc, ◌+◌, ◌-◌, ◌*◌, ◌/◌, ◌%◌, ◌^◌, ◌≤◌, ◌<◌, ◌≡◌, refl, sym, ap, ◌∙◌, inl, inr, true,
  Option, some, [], ◌∷◌, ◌==◌, ◌>>=◌, arith, Bool-cases,
}
use mathlib.Core.Path.{subst}
use liumos.Prelude.Bits.{bit_or_fields}
use liumos.Memory.{Mem, Ptr, store, write}
use liumos.Memory.Store.{store-Outside, write_self, write_ne}
use liumos.Kernel.Checksum.{word, sum_loop, fold_loop, complement_sum, calc, calc_checksum}

-- The sum with the carries added: the remainder by 65535, but never 0 for a positive sum.
record IsFolded (sum r : ℕ) : Type 0 where
  small : r < 2 ^ 16
  times : ℕ
  parts : sum ≡ r + 65535 * times
  positive : 0 < sum → 0 < r

fold_loop-IsFolded :
    (f sum : ℕ) → sum < 2 ^ 32 → 3 ≤ f → (r : ℕ) × (fold_loop f sum ≡ some r) × IsFolded sum r
unfolding fold_loop
fold_loop-IsFolded zero sum small fuel = absurd (omega arith)
fold_loop-IsFolded (suc zero) sum small fuel = absurd (omega arith)
fold_loop-IsFolded (suc (suc zero)) sum small fuel = absurd (omega arith)
fold_loop-IsFolded (suc (suc (suc f))) sum small fuel = elim (Bool-cases (sum / 2 ^ 16 == 0)) [
  | inl e ↦ (
    sum,
    rw e refl,
    record { small = ground arith; times = 0; parts = omega arith; positive = λ p. p },
  )
  | inr e ↦ elim (Bool-cases ((sum % 2 ^ 16 + sum / 2 ^ 16) / 2 ^ 16 == 0)) [
    | inl e' ↦ (
      sum % 2 ^ 16 + sum / 2 ^ 16,
      rw (e, e') refl,
      record {
        small = ground arith;
        times = sum / 2 ^ 16;
        parts = omega arith;
        positive = λ p. omega arith;
      },
    )
    | inr e' ↦
        let carry = (sum % 2 ^ 16 + sum / 2 ^ 16) / 2 ^ 16 in
        let last = (sum % 2 ^ 16 + sum / 2 ^ 16) % 2 ^ 16 + carry in
        let done : (last / 2 ^ 16 == 0) ≡ true = ground arith in
        (
          last,
          rw (e, e', done) refl,
          record {
            small = omega arith;
            times = sum / 2 ^ 16 + carry;
            parts = omega arith;
            positive = λ p. omega arith;
          },
        )
  ]
]

-- The sum of the words without a bound.
total : (n : ℕ) → Mem → Ptr → ℕ
total zero m p = 0
total (suc n) m p = word m p + total n m (p + 2)

-- A memory of bytes.
abbrev pub IsBytes : Mem → Type 0
IsBytes m = (a : ℕ) → m a < 256

word_value : (m : Mem) (p : Ptr) → IsBytes m → word m p ≡ m p * 2 ^ 8 + m (p + 1)
word_value m p h = (bit_or_fields 8 (m p) (m (p + 1)) (h (p + 1))).0

total_bound : (n : ℕ) (m : Mem) (p : Ptr) → IsBytes m → total n m p ≤ 65535 * n
unfolding total
total_bound zero m p h = omega arith
total_bound (suc n) m p h =
    omega (arith, total_bound n m (p + 2) h, word_value m p h, h p, h (p + 1))

sum_loop-total :
    (n : ℕ) (m : Mem) (p : Ptr) (sum : ℕ)
    → IsBytes m
    → sum + total n m p < 2 ^ 32
    → sum_loop n m p sum ≡ sum + total n m p
unfolding sum_loop total
sum_loop-total zero m p sum h lt = omega arith
sum_loop-total (suc n) m p sum h lt =
    let small : (sum + word m p) % 2 ^ 32 ≡ sum + word m p = omega arith in
    rw small (sum_loop-total n m (p + 2) (sum + word m p) h (omega arith) ∙ omega arith)

store_first : (m : Mem) (p : Ptr) (hi lo : ℕ) → store m p (hi ∷ lo ∷ []) p ≡ hi
unfolding store
store_first m p hi lo = write_ne (write m p hi) (p + 1) lo p (omega arith) ∙ write_self m p hi

store_second : (m : Mem) (p : Ptr) (hi lo : ℕ) → store m p (hi ∷ lo ∷ []) (p + 1) ≡ lo
unfolding store
store_second m p hi lo = write_self (write m p hi) (p + 1) lo

IsBytes-store :
    (m : Mem) (p : Ptr) (hi lo : ℕ)
    → IsBytes m
    → hi < 256
    → lo < 256
    → IsBytes (store m p (hi ∷ lo ∷ []))
unfolding store write
IsBytes-store m p hi lo h sh sl a = let k = h a in ground arith

same_word :
    (m : Mem) (p q : Ptr) (hi lo : ℕ) → p + 2 ≤ q → word (store m q (hi ∷ lo ∷ [])) p ≡ word m p
same_word m p q hi lo lt =
    let first = store-Outside (hi ∷ lo ∷ []) m q p (inl (omega arith)) in
    let second = store-Outside (hi ∷ lo ∷ []) m q (p + 1) (inl (omega arith)) in
    rw (first, second) refl

total_same :
    (n : ℕ) (m m' : Mem) (p : Ptr) → ((a : ℕ) → p ≤ a → m a ≡ m' a) → total n m p ≡ total n m' p
unfolding total
total_same zero m m' p same = refl
total_same (suc n) m m' p same =
    let first = same p (omega arith) in
    let second = same (p + 1) (omega arith) in
    let rest = total_same n m m' (p + 2) (λ a ge. same a (omega arith)) in
    rw (first, second, rest) refl

-- A word that was 0 is written.
total-store :
    (n j : ℕ) (m : Mem) (p : Ptr) (hi lo : ℕ)
    → IsBytes m
    → hi < 256
    → lo < 256
    → j < n
    → m (p + 2 * j) ≡ 0
    → m (p + 2 * j + 1) ≡ 0
    → total n (store m (p + 2 * j) (hi ∷ lo ∷ [])) p ≡ total n m p + hi * 256 + lo
unfolding total
total-store zero j m p hi lo h sh sl lt z z' = absurd (omega arith)
total-store (suc n) zero m p hi lo h sh sl lt z z' =
    let at : p + 2 * 0 ≡ p = omega arith in
    rw at (
      sum_up (word_value (store m p (hi ∷ lo ∷ [])) p (IsBytes-store m p hi lo h sh sl))
        (word_value m p h) (store_first m p hi lo) (store_second m p hi lo) (ap m (sym at) ∙ z)
        (ap (λ a. m (a + 1)) (sym at) ∙ z')
        (total_same n (store m p (hi ∷ lo ∷ [])) m (p + 2)
          (λ a ge. store-Outside (hi ∷ lo ∷ []) m p a (inr (omega arith)))))
  where
    sum_up :
        {w w' a b a' b' t t' : ℕ}
        → w' ≡ a' * 2 ^ 8 + b'
        → w ≡ a * 2 ^ 8 + b
        → a' ≡ hi
        → b' ≡ lo
        → a ≡ 0
        → b ≡ 0
        → t' ≡ t
        → w' + t' ≡ w + t + hi * 256 + lo
    sum_up e1 e2 e3 e4 e5 e6 e7 = omega (arith, e1, e2, e3, e4, e5, e6, e7)
total-store (suc n) (suc j) m p hi lo h sh sl lt z z' =
    let at : p + 2 * suc j ≡ p + 2 + 2 * j = omega arith in
    rw at (
      add_front _ _ _ _ (same_word m p (p + 2 + 2 * j) hi lo (omega arith)) (
        total-store n j m (p + 2) hi lo h sh sl (omega arith) (ap m (sym at) ∙ z)
          (ap (λ a. m (a + 1)) (sym at) ∙ z')))
  where
    add_front : (w w' t t' : ℕ) → w' ≡ w → t' ≡ t + hi * 256 + lo → w' + t' ≡ w + t + hi * 256 + lo
    add_front w w' t t' e e' = omega (arith, e, e')

complement_sum-total :
    (f n : ℕ) (m : Mem) (buf start : ℕ)
    → IsBytes m
    → 3 ≤ f
    → n ≤ 65536
    → (r : ℕ) × (complement_sum f m buf start (start + 2 * n) ≡ some (2 ^ 32 - 1 - r))
      × IsFolded (total n m (buf + start)) r
unfolding complement_sum
complement_sum-total f n m buf start h fuel few =
    let bound = total_bound n m (buf + start) h in
    let rounds : (start + 2 * n - start + 1) / 2 ≡ n = omega arith in
    let sum = sum_loop-total n m (buf + start) 0 h (omega (arith, bound)) in
    let (r, e, k) =
      fold_loop-IsFolded f (0 + total n m (buf + start)) (omega (arith, bound)) fuel in
    (
      r,
      ap (λ (k : ℕ). finish (fold_loop f (sum_loop k m (buf + start) 0))) rounds
          ∙ ap (λ (k : ℕ). finish (fold_loop f k)) sum
          ∙ ap finish e,
      subst (λ t. IsFolded t r) (omega arith) k,
    )
  where
    finish : Option ℕ → Option ℕ
    finish o = do sum ← o; some (2 ^ 32 - 1 - sum)

-- `Calc` ends with three rounds of its second loop on up to 65536 words. Where the two bytes for
-- the checksum are 0 in the message, and the result is then stored there, `Calc` of that message
-- is 0, by which a receiver tells that it is intact.
pub calc-verified :
    (f n j : ℕ) (m : Mem) (buf start : ℕ)
    → IsBytes m
    → 3 ≤ f
    → n ≤ 65536
    → j < n
    → m (buf + start + 2 * j) ≡ 0
    → m (buf + start + 2 * j + 1) ≡ 0
    → (hi : ℕ) × (lo : ℕ) × (calc f m buf start (start + 2 * n) ≡ some (hi ∷ lo ∷ []))
      × (calc f (store m (buf + start + 2 * j) (hi ∷ lo ∷ [])) buf start (start + 2 * n)
          ≡ some (0 ∷ 0 ∷ []))
unfolding calc
calc-verified f n j m buf start h fuel few lt z z' =
    let (r, e, k) = complement_sum-total f n m buf start h fuel few in
    let hi = (2 ^ 32 - 1 - r) / 2 ^ 8 % 2 ^ 8 in
    let lo = (2 ^ 32 - 1 - r) % 2 ^ 8 in
    let there = total-store n j m (buf + start) hi lo h (omega arith) (omega arith) lt z z' in
    let (r', e', k') =
      complement_sum-total f n (store m (buf + start + 2 * j) (hi ∷ lo ∷ [])) buf start
        (IsBytes-store m (buf + start + 2 * j) hi lo h (omega arith) (omega arith)) fuel few in
    (hi, lo, rw e refl, rw e' (zeros r' (full r r' k k' there)))
  where
    zeros :
        (r : ℕ)
        → r ≡ 65535
        → some ((2 ^ 32 - 1 - r) / 2 ^ 8 % 2 ^ 8 ∷ (2 ^ 32 - 1 - r) % 2 ^ 8 ∷ [])
          ≡ some (0 ∷ 0 ∷ [])
    zeros r e = rw e refl

    full :
        {t t' : ℕ} (r r' : ℕ)
        → IsFolded t r
        → IsFolded t' r'
        → t' ≡ t + (2 ^ 32 - 1 - r) / 2 ^ 8 % 2 ^ 8 * 256 + (2 ^ 32 - 1 - r) % 2 ^ 8
        → r' ≡ 65535
    full r r' k k' e =
        let low : (2 ^ 32 - 1 - r) / 2 ^ 8 % 2 ^ 8 * 256 + (2 ^ 32 - 1 - r) % 2 ^ 8 ≡ 65535 - r =
          omega (arith, k.small) in
        omega (arith, low, e, k.small, k.parts, k'.small, k'.parts, k'.positive)

-- The word that `CalcChecksum` of app/ping returns has in memory the bytes that `Calc` returns.
pub calc_checksum-calc :
    (f n : ℕ) (m : Mem) (buf start : ℕ)
    → IsBytes m
    → 3 ≤ f
    → n ≤ 65536
    → (w : ℕ) × (calc_checksum f m buf start (start + 2 * n) ≡ some w)
      × (calc f m buf start (start + 2 * n) ≡ some (w % 256 ∷ w / 256 ∷ []))
unfolding calc_checksum calc
calc_checksum-calc f n m buf start h fuel few =
    let (r, e, k) = complement_sum-total f n m buf start h fuel few in
    let hi = (2 ^ 32 - 1 - r) / 2 ^ 8 % 2 ^ 8 in
    let lo = (2 ^ 32 - 1 - r) % 2 ^ 8 in
    let joined = (bit_or_fields 8 lo hi (omega arith)).1 in
    (
      bit_or hi (lo * 2 ^ 8),
      rw e refl,
      rw e (bytes hi lo (bit_or hi (lo * 2 ^ 8)) joined (omega arith)),
    )
  where
    bytes :
        (hi lo w : ℕ)
        → w ≡ lo * 2 ^ 8 + hi
        → hi < 256
        → some (hi ∷ lo ∷ []) ≡ some (w % 256 ∷ w / 256 ∷ [])
    bytes hi lo w e lt =
        let a : hi ≡ w % 256 = omega arith in let b : lo ≡ w / 256 = omega arith in cc
