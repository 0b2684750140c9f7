-- ===== src/Liumlib/Block.antt =====
-- The functions of app/liumlib/liumlib.c on blocks of bytes. `none` stands for what C leaves
-- undefined: a counter of type `int` that is counted past its greatest value.
pub mod Fill
pub mod Move
use liumos.Prelude.{
  ℕ, zero, suc, ◌+◌, ◌-◌, ◌%◌, ◌^◌, Bool, ◌&&◌, Option, none, some, ltb, leb, if◌then◌else◌, ◌>>=◌,
}
use liumos.Memory.{Mem, Ptr, write}

-- The counter goes up to `n`; the first argument is what is left of it.
bzero_loop : ℕ → Mem → (s : Ptr) → (i : ℕ) → Mem
bzero_loop zero m s i = m
bzero_loop (suc n) m s i = bzero_loop n (write m (s + i) 0) s (i + 1)

unfoldable pub bzero : Mem → (s : Ptr) → (n : ℕ) → Mem
unfolding bzero_loop
bzero m s n = bzero_loop n m s 0

memset_loop : Mem → (dest : Ptr) → (c : ℕ) → (n : ℕ) → Mem
memset_loop m dest c zero = m
memset_loop m dest c (suc n) = memset_loop (write m dest (c % 256)) (dest + 1) c n

-- `c` is a non-negative `int`.
unfoldable pub memset : Mem → (s : Ptr) → (c : ℕ) → (n : ℕ) → Mem × Ptr
unfolding memset_loop
memset m s c n = (memset_loop m s c n, s)

memcpy_loop : ℕ → Mem → (dest src : Ptr) → (i : ℕ) → Mem
memcpy_loop zero m dest src i = m
memcpy_loop (suc n) m dest src i = memcpy_loop n (write m (dest + i) (m (src + i))) dest src (i + 1)

-- The counter is an `int`, which has to reach `n`.
unfoldable pub memcpy : Mem → (dest src : Ptr) → (n : ℕ) → Option (Mem × Ptr)
unfolding memcpy_loop
memcpy m dest src n = if ltb n (2 ^ 31) then some (memcpy_loop n m dest src 0, dest) else none

-- The loop that counts down; the first argument is `i + 1`.
memmove_back : ℕ → Mem → (dest src : Ptr) → Mem
memmove_back zero m dest src = m
memmove_back (suc i) m dest src = memmove_back i (write m (dest + i) (m (src + i))) dest src

-- How often that loop is run: its `int` starts at `n - 1`, cut to 32 bits.
abbrev back_rounds : ℕ → ℕ
back_rounds n = let low = (n + (2 ^ 64 - 1)) % 2 ^ 32 in if ltb low (2 ^ 31) then low + 1 else 0

unfoldable pub memmove : Mem → (dest src : Ptr) → (n : ℕ) → Option (Mem × Ptr)
unfolding memmove_back memcpy
memmove m dest src n =
    let diff = if ltb dest src then src - dest else dest - src in
    let moved = if ltb diff n && leb src dest then memmove_back (back_rounds n) m dest src else m in
    do (m', _) ← memcpy moved dest src n; some (m', dest)
