-- ===== src/Liumlib/Block/Fill.antt =====
-- `bzero` and `memset`.
use liumos.Prelude.{ℕ, zero, suc, ◌+◌, ◌%◌, ◌≡◌, refl, sym, ap, ◌∙◌, arith, replicate}
use liumos.Memory.{Mem, Ptr, write, store}
use liumos.Liumlib.Block.{bzero_loop, bzero, memset_loop, memset}

bzero_loop-store :
    (n : ℕ) (m : Mem) (s : Ptr) (i : ℕ) → bzero_loop n m s i ≡ store m (s + i) (replicate n 0)
unfolding bzero_loop store
bzero_loop-store zero m s i = refl
bzero_loop-store (suc n) m s i =
    bzero_loop-store n (write m (s + i) 0) s (i + 1)
    ∙ ap (λ (a : ℕ). store (write m (s + i) 0) a (replicate n 0)) (omega arith)

memset_loop-store :
    (n : ℕ) (m : Mem) (s : Ptr) (c : ℕ) → memset_loop m s c n ≡ store m s (replicate n (c % 256))
unfolding memset_loop store
memset_loop-store zero m s c = refl
memset_loop-store (suc n) m s c = memset_loop-store n (write m s (c % 256)) (s + 1) c

-- `memset` writes the low byte of `c` to the `n` bytes from `s` on, writes nothing else and
-- returns `s`; `bzero` does what `memset` does with 0.
pub memset-store :
    (m : Mem) (s : Ptr) (c n : ℕ)
    → (memset m s c n ≡ (store m s (replicate n (c % 256)), s)) × (bzero m s n ≡ (memset m s 0 n).0)
unfolding memset bzero
memset-store m s c n = (
  ap (λ (k : Mem). (k, s)) (memset_loop-store n m s c),
  bzero_loop-store n m s 0
      ∙ ap (λ (a : ℕ). store m a (replicate n 0)) (omega arith)
      ∙ sym (memset_loop-store n m s 0),
)
