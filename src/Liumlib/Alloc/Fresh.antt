-- ===== src/Liumlib/Alloc/Fresh.antt =====
-- One call of `malloc`.
use liumos.Prelude.{ℕ, ◌+◌, ◌^◌, ◌<◌, ◌≤◌, ◌≡◌, arith, replicate, codes}
use liumos.Memory.{Ptr, store}
use liumos.Liumlib.Block.Fill.{memset-store}
use liumos.Liumlib.Alloc.{
  Libc, returned, exited, overran, malloc, IsHeap, malloc_max_size, heap_end,
}

module _ (malloc_array : Ptr) (st : Libc) (n : ℕ) where
  pub heap_end_lem :
      IsHeap malloc_array st → heap_end malloc_array st ≡ malloc_array + st.malloc_size
  heap_end_lem v = ground arith

  -- While the array has room, `malloc` returns the address behind the bytes in use, zeroes the
  -- block and counts it; it writes nothing else.
  pub malloc-store :
      IsHeap malloc_array st
      → st.malloc_size + n ≤ malloc_max_size
      → malloc malloc_array st n
        ≡ returned (
          record {
            mem = store st.mem (malloc_array + st.malloc_size) (replicate n 0);
            malloc_size = st.malloc_size + n;
          },
          malloc_array + st.malloc_size,
        )
  unfolding malloc
  malloc-store v fits =
      ground (arith, heap_end_lem v, (memset-store st.mem (malloc_array + st.malloc_size) 0 n).0)

  -- Where the room does not suffice, and the sum does not wrap around, the program ends.
  pub malloc_full :
      IsHeap malloc_array st
      → malloc_max_size < st.malloc_size + n
      → st.malloc_size + n < 2 ^ 64
      → malloc malloc_array st n ≡ exited (codes "fail: malloc\n") 1
  unfolding malloc
  malloc_full v over small = ground arith

  -- A request so large that the sum wraps around passes the test, and `memset` runs over the end of
  -- the array.
  pub malloc_wrap :
      IsHeap malloc_array st
      → 2 ^ 64 ≤ st.malloc_size + n
      → n < 2 ^ 64
      → malloc malloc_array st n ≡ overran
  unfolding malloc
  malloc_wrap v wraps small = ground (arith, heap_end_lem v)
