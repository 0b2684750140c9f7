-- ===== src/Liumlib/Alloc/Grow.antt =====
-- `realloc`: a new block that begins with the old bytes.
use liumos.Prelude.{
  ℕ, ◌+◌, ◌-◌, ◌≤◌, ◌<◌, ◌≡◌, ◌≢◌, ◌∙◌, inl, inr, refl, arith, replicate, some, length,
  length-replicate, ltb, leb, ◌==◌, ◌||◌, false, if◌then◌else◌,
}
use liumos.Memory.{Mem, Ptr, store, read}
use liumos.Memory.Store.{store-Outside, store_inside, length-read, get_or-read}
use liumos.Liumlib.Block.Move.{memcpy-store}
use liumos.Liumlib.Alloc.{Libc, returned, realloc, copy_size, IsHeap, malloc_max_size}
use liumos.Liumlib.Alloc.Fresh.{malloc-store, heap_end_lem}
use liumos.Liumlib.Alloc.Blocks.{get_or-replicate}

-- What the new block and the rest of the memory hold.
pub record Grown (m m' : Mem) (ptr new_ptr : Ptr) (left size : ℕ) : Type 0 where
  pub kept : (i : ℕ) → i < left → i < size → m' (new_ptr + i) ≡ m (ptr + i)
  pub zeroed : (i : ℕ) → left ≤ i → i < size → m' (new_ptr + i) ≡ 0
  pub old : (a : ℕ) → a < new_ptr → m' a ≡ m a

Grown-store :
    (m : Mem) (ptr new_ptr : Ptr) (left size copied : ℕ)
    → copied ≡ (if ltb left size then left else size)
    → ptr + left ≤ new_ptr
    → Grown m
        (store
          (store m new_ptr (replicate size 0))
          new_ptr
          (read (store m new_ptr (replicate size 0)) ptr copied))
        ptr
        new_ptr
        left
        size
Grown-store m ptr new_ptr left size copied e below =
    let m1 = store m new_ptr (replicate size 0) in
    let bytes = read m1 ptr copied in
    let len : length bytes ≡ copied = length-read copied m1 ptr in
    let small : copied ≤ left = ground arith in
    let small' : copied ≤ size = ground arith in
    let zeros = length-replicate {0} {A = ℕ} size 0 in
    record {
      kept = λ i l s.
          store_inside bytes m1 new_ptr i (ground (arith, len))
          ∙ get_or-read copied m1 ptr i (ground arith)
          ∙ store-Outside (replicate size 0) m new_ptr (ptr + i) (inl (omega arith));
      zeroed = λ i l s.
          store-Outside bytes m1 new_ptr (new_ptr + i) (inr (omega (arith, len)))
          ∙ store_inside (replicate size 0) m new_ptr i (omega (arith, zeros))
          ∙ get_or-replicate size i;
      old = λ a lt.
          store-Outside bytes m1 new_ptr a (inl lt)
          ∙ store-Outside (replicate size 0) m new_ptr a (inl lt);
    }

module _ (malloc_array : Ptr) (st : Libc) (ptr : Ptr) (size : ℕ) where
  -- For a pointer into the bytes in use and a new size for which the array has room, `realloc`
  -- returns a new block behind them. It begins with the bytes from the pointer to the end of the
  -- old heap, as far as they fit, the rest is zero, and all older bytes are as they were.
  pub realloc-Grown :
      IsHeap malloc_array st
      → malloc_array ≢ 0
      → malloc_array ≤ ptr
      → ptr < malloc_array + st.malloc_size
      → size ≢ 0
      → st.malloc_size + size ≤ malloc_max_size
      → (m' : Mem) × (realloc malloc_array st ptr size
          ≡ some (
              returned (
                record { mem = m'; malloc_size = st.malloc_size + size },
                malloc_array + st.malloc_size,
              )))
        × Grown st.mem m' ptr
            (malloc_array + st.malloc_size)
            (malloc_array + st.malloc_size - ptr)
            size
  unfolding realloc
  realloc-Grown v ne lo hi some_size room =
      let new_ptr = malloc_array + st.malloc_size in
      let m1 = store st.mem new_ptr (replicate size 0) in
      let left = new_ptr - ptr in
      let copied : ℕ = if ltb left size then left else size in
      let end = heap_end_lem malloc_array st size v in
      let e : copy_size malloc_array st ptr size ≡ copied = ground (arith, end) in
      let alloc = malloc-store malloc_array st size v room in
      let copy = memcpy-store m1 new_ptr ptr copied (inr (ground arith)) (ground arith) in
      let no_null : (ptr == 0 || size == 0) ≡ false = ground arith in
      let in_heap : (ltb ptr malloc_array || leb new_ptr malloc_array) ≡ false = ground arith in
      (
        store m1 new_ptr (read m1 ptr copied),
        ground arith,
        Grown-store st.mem ptr new_ptr left size copied refl (omega arith),
      )
