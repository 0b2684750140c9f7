-- ===== src/Liumlib/Block/Move.antt =====
-- `memcpy` and `memmove`, with and without overlap.
use liumos.Prelude.{
  ℕ, zero, suc, ◌+◌, ◌-◌, ◌%◌, ◌^◌, ◌<◌, ◌≤◌, ◌≡◌, ◌⊎◌, inl, inr, refl, sym, ap, ◌∙◌, some, arith,
  ltb, lt→ltb, ltb→lt, Bool-cases,
}
use native.Mathlib.Nat.{mod-eq_of_lt}
use liumos.Memory.{Mem, Ptr, write, store, read}
use liumos.Memory.Store.{write_ne, write_self, read_frame, Outside}
use liumos.Liumlib.Block.{memcpy_loop, memcpy, memmove_back, memmove, back_rounds}

memcpy_loop-store :
    (n : ℕ) (m : Mem) (dest src : Ptr) (i : ℕ)
    → (dest ≤ src) ⊎ (src + n ≤ dest)
    → memcpy_loop n m dest src i ≡ store m (dest + i) (read m (src + i) n)
unfolding memcpy_loop store read
memcpy_loop-store zero m dest src i h = refl
memcpy_loop-store (suc n) m dest src i h =
    let v = m (src + i) in
    let m' = write m (dest + i) v in
    let kept : read m' (src + i + 1) n ≡ read m (src + i + 1) n =
      read_frame n m m' (src + i + 1) (λ a lo hi. write_ne m (dest + i) v a (omega arith)) in
    let e : dest + (i + 1) ≡ dest + i + 1 = omega arith in
    let e' : src + (i + 1) ≡ src + i + 1 = omega arith in
    memcpy_loop-store n m' dest src (i + 1) (omega arith) ∙ cc

-- Where the destination does not begin inside the source, and the `int` counter holds `n`,
-- `memcpy` returns the destination and puts there the `n` bytes of the source, and nothing else.
pub memcpy-store :
    (m : Mem) (dest src : Ptr) (n : ℕ)
    → (dest ≤ src) ⊎ (src + n ≤ dest)
    → n < 2 ^ 31
    → memcpy m dest src n ≡ some (store m dest (read m src n), dest)
unfolding memcpy
memcpy-store m dest src n h small =
    let e : dest + 0 ≡ dest = omega arith in
    let e' : src + 0 ≡ src = omega arith in
    rw (lt→ltb n (2 ^ 31) small, memcpy_loop-store n m dest src 0 h, e, e')

memcpy_loop-Outside :
    (n : ℕ) (m : Mem) (dest src : Ptr) (i a : ℕ)
    → Outside a (dest + i) n
    → memcpy_loop n m dest src i a ≡ m a
unfolding memcpy_loop
memcpy_loop-Outside zero m dest src i a h = refl
memcpy_loop-Outside (suc n) m dest src i a h =
    memcpy_loop-Outside n (write m (dest + i) (m (src + i))) dest src (i + 1) a (omega arith)
    ∙ write_ne m (dest + i) (m (src + i)) a (omega arith)

-- A forward copy to a higher place ends in a memory whose two blocks are equal.
memcpy_loop_overlap :
    (n : ℕ) (m : Mem) (dest src : Ptr) (i k : ℕ)
    → src < dest
    → k < n
    → memcpy_loop n m dest src i (dest + i + k) ≡ memcpy_loop n m dest src i (src + i + k)
unfolding memcpy_loop
memcpy_loop_overlap zero m dest src i k h lt = absurd (omega arith)
memcpy_loop_overlap (suc n) m dest src i zero h lt =
    let m' = write m (dest + i) (m (src + i)) in
    let here = memcpy_loop-Outside n m' dest src (i + 1) (dest + i + 0) (inl (omega arith)) in
    let there = memcpy_loop-Outside n m' dest src (i + 1) (src + i + 0) (inl (omega arith)) in
    let e : dest + i + 0 ≡ dest + i = omega arith in
    let e' : src + i + 0 ≡ src + i = omega arith in
    here
    ∙ ap m' e
    ∙ write_self m (dest + i) (m (src + i))
    ∙ sym (there ∙ ap m' e' ∙ write_ne m (dest + i) (m (src + i)) (src + i) (omega arith))
memcpy_loop_overlap (suc n) m dest src i (suc k) h lt =
    let m' = write m (dest + i) (m (src + i)) in
    let ih = memcpy_loop_overlap n m' dest src (i + 1) k h (omega arith) in
    let e : dest + (i + 1) + k ≡ dest + i + suc k = omega arith in
    let e' : src + (i + 1) + k ≡ src + i + suc k = omega arith in
    ap (memcpy_loop n m' dest src (i + 1)) (sym e) ∙ ih ∙ ap (memcpy_loop n m' dest src (i + 1)) e'

memmove_back-Outside :
    (n : ℕ) (m : Mem) (dest src : Ptr) (a : ℕ)
    → Outside a dest n
    → memmove_back n m dest src a ≡ m a
unfolding memmove_back
memmove_back-Outside zero m dest src a h = refl
memmove_back-Outside (suc n) m dest src a h =
    memmove_back-Outside n (write m (dest + n) (m (src + n))) dest src a (omega arith)
    ∙ write_ne m (dest + n) (m (src + n)) a (omega arith)

-- Where the two blocks do not overlap, or the destination is the lower one, `memmove` returns the
-- destination and puts there the `n` bytes that the source held, and nothing else.
pub memmove-store :
    (m : Mem) (dest src : Ptr) (n : ℕ)
    → (dest < src) ⊎ (src + n ≤ dest)
    → n < 2 ^ 31
    → memmove m dest src n ≡ some (store m dest (read m src n), dest)
unfolding memmove
memmove-store m dest src n h small =
    let copied = memcpy-store m dest src n (omega arith) small in ground (arith, copied)

-- What `memmove` leaves where the destination begins inside the source.
record Smeared (m m' : Mem) (dest src : Ptr) (n : ℕ) : Type 0 where
  pub spares : (a : ℕ) → Outside a dest n → m' a ≡ m a
  pub equal : (i : ℕ) → i < n → m' (dest + i) ≡ m' (src + i)

memmove-Smeared :
    (m : Mem) (dest src : Ptr) (n : ℕ)
    → src < dest
    → dest < src + n
    → n < 2 ^ 31
    → (m' : Mem) × (memmove m dest src n ≡ some (m', dest)) × Smeared m m' dest src n
unfolding memmove memcpy
memmove-Smeared m dest src n lo hi small =
    let m1 = memmove_back n m dest src in
    let rounds : back_rounds n ≡ n = ground arith in
    (
      memcpy_loop n m1 dest src 0,
      rw rounds (ground arith),
      record {
        spares = λ a o.
            memcpy_loop-Outside n m1 dest src 0 a (omega arith)
            ∙ memmove_back-Outside n m dest src a o;
        equal = λ i lt.
            let e : dest + 0 + i ≡ dest + i = omega arith in
            let e' : src + 0 + i ≡ src + i = omega arith in
            let r = memcpy_loop n m1 dest src 0 in
            ap r (sym e) ∙ memcpy_loop_overlap n m1 dest src 0 i lo lt ∙ ap r e';
      },
    )

Smeared-periodic :
    (f : ℕ) (m m' : Mem) (dest src : Ptr) (n i : ℕ)
    → i < f
    → src < dest
    → Smeared m m' dest src n
    → i < n
    → m' (dest + i) ≡ m (src + i % (dest - src))
Smeared-periodic zero m m' dest src n i fuel lo s lt = absurd (omega arith)
Smeared-periodic (suc f) m m' dest src n i fuel lo s lt = elim (Bool-cases (ltb i (dest - src))) [
  | inl low ↦
      let small : i < dest - src = ltb→lt _ _ low in
      let e : src + i ≡ src + i % (dest - src) =
        ap (λ (k : ℕ). src + k) (sym (mod-eq_of_lt small)) in
      s.equal i lt ∙ s.spares (src + i) (inl (omega arith)) ∙ ap m e
  | inr high ↦
      let big : dest - src ≤ i = ground arith in
      let e : src + i ≡ dest + (i - (dest - src)) = omega arith in
      let e' : src + (i - (dest - src)) % (dest - src) ≡ src + i % (dest - src) = grind arith in
      s.equal i lt
      ∙ ap m' e
      ∙ Smeared-periodic f m m' dest src n (i - (dest - src)) (omega arith) lo s (omega arith)
      ∙ ap m e'
]

-- Where the destination begins inside the source, `memmove` does not move the block: it repeats
-- the first `dest - src` bytes of the source over the whole destination. It writes nothing else.
pub memmove_overlap :
    (m : Mem) (dest src : Ptr) (n : ℕ)
    → src < dest
    → dest < src + n
    → n < 2 ^ 31
    → (m' : Mem) × (memmove m dest src n ≡ some (m', dest))
      × ((i : ℕ) → i < n → m' (dest + i) ≡ m (src + i % (dest - src)))
      × ((a : ℕ) → Outside a dest n → m' a ≡ m a)
memmove_overlap m dest src n lo hi small =
    let (m', e, s) = memmove-Smeared m dest src n lo hi small in
    (m', e, (λ i lt. Smeared-periodic (i + 1) m m' dest src n i (omega arith) lo s lt), s.spares)
