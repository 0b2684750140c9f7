-- ===== src/Liumlib/Alloc.antt =====
-- `malloc` and `realloc` of app/liumlib/liumlib.c: a bump allocator over one static array, which
-- never gives a block back.
pub mod Fresh
pub mod Blocks
pub mod Grow
use liumos.Prelude.{
  ℕ, ◌+◌, ◌-◌, ◌%◌, ◌^◌, ◌||◌, ◌≤◌, Option, none, some, ltb, leb, ◌==◌, if◌then◌else◌, codes, ◌>>=◌,
}
use liumos.Memory.{Mem, Ptr, Bytes}
use liumos.Liumlib.Str.{through_int}
use liumos.Liumlib.Block.{memset, memcpy}

-- The program's memory and the static `malloc_size`, an `int` given by its 32 bits.
pub record Libc : Type 0 where
  pub mem : Mem
  pub malloc_size : ℕ

-- A call that returns, ends the program with output and an exit status, or writes behind the array,
-- of which C leaves open what follows.
pub data Call {ℓ} (A : Type ℓ) : Type ℓ where
  returned : A → Call A
  exited : (output : Bytes) → (status : ℕ) → Call A
  overran : Call A

-- What follows a call runs only if it returns.
infixl 5 ◌then_do◌
abbrev pub ◌then_do◌ {ℓ κ} : {A : Type ℓ} {B : Type κ} → Call A → (A → Call B) → Call B
returned a then_do f = f a
exited output status then_do f = exited output status
overran then_do f = overran

abbrev pub malloc_max_size : ℕ
malloc_max_size = 1000000

module _ (malloc_array : Ptr) where
  -- The address behind the bytes that are in use.
  abbrev pub heap_end : Libc → Ptr
  heap_end st = (malloc_array + through_int st.malloc_size) % 2 ^ 64

  unfoldable pub malloc : Libc → ℕ → Call (Libc × Ptr)
  malloc st n =
      let total = (through_int st.malloc_size + n) % 2 ^ 64 in
      if ltb malloc_max_size total
      then exited (codes "fail: malloc\n") 1
      else let ptr = heap_end st in
        if ltb (malloc_array + malloc_max_size) (ptr + n)
        then overran
        else returned
            (record { mem = (memset st.mem ptr 0 n).0; malloc_size = total % 2 ^ 32 }, ptr)

  -- The bytes from `ptr` to the end of the heap, or fewer.
  abbrev pub copy_size : Libc → Ptr → ℕ → ℕ
  copy_size st ptr size =
      let left = (heap_end st + 2 ^ 64 - ptr) % 2 ^ 64 in if ltb left size then left else size

  -- The copy into the new block.
  abbrev realloc_copy : Ptr → ℕ → Call (Libc × Ptr) → Option (Call (Libc × Ptr))
  realloc_copy ptr size (exited output status) = some (exited output status)
  realloc_copy ptr size overran = some overran
  realloc_copy ptr size (returned (st, new_ptr)) = do
    (m, _) ← memcpy st.mem new_ptr ptr size
    some (returned (record st { mem = m }, new_ptr))

  -- `none` is a block too long for the counter of `memcpy`.
  unfoldable pub realloc : Libc → Ptr → ℕ → Option (Call (Libc × Ptr))
  realloc st ptr size =
      if ptr == 0 || size == 0
      then some (exited (codes "Not Implemented: realloc\n") 1)
      else if ltb ptr malloc_array || leb (heap_end st) malloc_array
      then some (returned (st, 0))
      else realloc_copy ptr (copy_size st ptr size) (malloc st size)

  -- The array lies in the address space, and `malloc_size` counts bytes of it.
  pub record IsHeap (st : Libc) : Type 0 where
    pub array : malloc_array + malloc_max_size ≤ 2 ^ 64 - 1
    pub within : st.malloc_size ≤ malloc_max_size
