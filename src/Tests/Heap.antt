-- ===== src/Tests/Heap.antt =====
-- `malloc` and `realloc` of app/liumlib/liumlib.c on an array at 4096.
use liumos.Prelude.{ℕ, ◌-◌, ◌^◌, ◌≡◌, some, [], ◌∷◌, List, arith, map}
use liumos.Memory.{Mem, store}
use liumos.Liumlib.Alloc.{Libc, returned, overran, malloc, realloc, IsHeap}
use liumos.Liumlib.Alloc.Fresh.{malloc-store, malloc_wrap}
use liumos.Liumlib.Alloc.Blocks.{Block, malloc_all, Fresh, malloc_all-Fresh}
use liumos.Liumlib.Alloc.Grow.{Grown, realloc-Grown}

abbrev st : Libc
st = record { mem = λ _. 7; malloc_size = 10 }

st-IsHeap : IsHeap 4096 st
st-IsHeap = record { array = omega arith; within = omega arith }

malloc-store_example :
    malloc 4096 st 3
    ≡ returned (record { mem = store st.mem 4106 (0 ∷ 0 ∷ 0 ∷ []); malloc_size = 13 }, 4106)
malloc-store_example = malloc-store 4096 st 3 st-IsHeap (omega arith)

malloc_huge : malloc 4096 st (2 ^ 64 - 4) ≡ overran
malloc_huge = malloc_wrap 4096 st (2 ^ 64 - 4) st-IsHeap (omega arith) (omega arith)

abbrev sizes : List ℕ
sizes = 4 ∷ 0 ∷ 2 ∷ []

malloc_all-Fresh_example :
    (st' : Libc) × (bs : List Block) × (malloc_all 4096 st sizes ≡ returned (st', bs))
    × (map (λ (b : Block). b.1) bs ≡ sizes)
    × Fresh 4096 st st' sizes bs
malloc_all-Fresh_example = malloc_all-Fresh 4096 sizes st st-IsHeap (omega arith)

realloc-Grown_example :
    (m' : Mem) × (realloc 4096 st 4104 6
      ≡ some (returned (record { mem = m'; malloc_size = 16 }, 4106)))
    × Grown st.mem m' 4104 4106 2 6
realloc-Grown_example =
    realloc-Grown 4096 st 4104 6 st-IsHeap (omega arith) (omega arith) (omega arith) (omega arith)
      (omega arith)
