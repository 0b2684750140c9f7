-- ===== src/Liumlib/Alloc/Blocks.antt =====
-- Many calls of `malloc`: the blocks that they return.
use liumos.Prelude.{
  ℕ, zero, suc, ◌+◌, ◌≤◌, ◌<◌, ◌≡◌, ◌⊎◌, ◌∙◌, map, get_or, inl, refl, ap, arith, replicate, List,
  [], ◌∷◌, All, length-replicate,
}
use liumos.Memory.{Mem, Ptr, store}
use liumos.Memory.Store.{Outside, store-Outside, store_inside}
use liumos.Liumlib.Alloc.{Libc, Call, returned, malloc, ◌then_do◌, IsHeap, malloc_max_size}
use liumos.Liumlib.Alloc.Fresh.{malloc-store}

-- A block: its address and its size.
abbrev pub Block : Type 0
Block = Ptr × ℕ

abbrev pub total : List ℕ → ℕ
total [] = 0
total (n ∷ ns) = n + total ns

-- Two blocks have no byte in common.
abbrev pub Disjoint : Block → Block → Type 0
Disjoint (p, n) (q, k) = (p + n ≤ q) ⊎ (q + k ≤ p)

abbrev pub AllDisjoint : List Block → Type 0
AllDisjoint [] = Unit
AllDisjoint (b ∷ bs) = All (Disjoint b) bs × AllDisjoint bs

module _ (malloc_array : Ptr) where
  -- The state after a row of calls, and the blocks that they returned.
  pub malloc_all : Libc → List ℕ → Call (Libc × List Block)
  malloc_all st [] = returned (st, [])
  malloc_all st (n ∷ ns) =
      malloc malloc_array st n
      then_do (λ (st1, p). malloc_all st1 ns then_do (λ (st2, bs). returned (st2, (p, n) ∷ bs)))

  -- A block lies between two addresses, and its bytes are 0.
  abbrev pub Zeroed : Mem → (lo hi : ℕ) → Block → Type 0
  Zeroed m lo hi (p, n) = (lo ≤ p) × (p + n ≤ hi) × ((i : ℕ) → i < n → m (p + i) ≡ 0)

  -- What a row of calls leaves: a valid heap, as many bytes more in use as were asked for, blocks
  -- of zeros between the old and the new end, no two with a byte in common, and the old bytes.
  pub record Fresh (st st' : Libc) (ns : List ℕ) (bs : List Block) : Type 0 where
    pub heap : IsHeap malloc_array st'
    pub used : st'.malloc_size ≡ st.malloc_size + total ns
    pub blocks :
        All (Zeroed st'.mem (malloc_array + st.malloc_size) (malloc_array + st'.malloc_size)) bs
    pub apart : AllDisjoint bs
    pub old : (a : ℕ) → a < malloc_array + st.malloc_size → st'.mem a ≡ st.mem a

pub get_or-replicate : (n i : ℕ) → get_or {0} {A = ℕ} (replicate n 0) i 0 ≡ 0
get_or-replicate zero i = refl
get_or-replicate (suc n) zero = refl
get_or-replicate (suc n) (suc i) = get_or-replicate n i

-- A block of zeros behind what is in use, and nothing else changed.
pub malloc_block :
    (malloc_array : Ptr) (st : Libc) (n : ℕ)
    → IsHeap malloc_array st
    → st.malloc_size + n ≤ malloc_max_size
    → (m : Mem) × (malloc malloc_array st n
        ≡ returned
            (record { mem = m; malloc_size = st.malloc_size + n }, malloc_array + st.malloc_size))
      × ((i : ℕ) → i < n → m (malloc_array + st.malloc_size + i) ≡ 0)
      × ((a : ℕ) → Outside a (malloc_array + st.malloc_size) n → m a ≡ st.mem a)
malloc_block malloc_array st n v room = (
  store st.mem (malloc_array + st.malloc_size) (replicate n 0),
  malloc-store malloc_array st n v room,
  λ i lt.
      store_inside (replicate n 0) st.mem (malloc_array + st.malloc_size) i
        (omega (arith, lt, length-replicate n (zero)))
      ∙ get_or-replicate n i,
  λ a o.
      store-Outside (replicate n 0) st.mem (malloc_array + st.malloc_size) a
        (omega (arith, o, length-replicate n (zero))),
)

All-map : (P Q : Block → Type 0) (bs : List Block) → ((b : Block) → P b → Q b) → All P bs → All Q bs
All-map P Q [] f h = tt
All-map P Q (b ∷ bs) f h = (f b h.0, All-map P Q bs f h.1)

module _ (malloc_array : Ptr) where
  Fresh-cons :
      (st st' : Libc) (n : ℕ) (ns : List ℕ) (bs : List Block)
      → IsHeap malloc_array st
      → Fresh malloc_array
          (record {
            mem = store st.mem (malloc_array + st.malloc_size) (replicate n 0);
            malloc_size = st.malloc_size + n;
          })
          st'
          ns
          bs
      → Fresh malloc_array st st' (n ∷ ns) ((malloc_array + st.malloc_size, n) ∷ bs)
  Fresh-cons st st' n ns bs v f =
      let p = malloc_array + st.malloc_size in
      let len = length-replicate {0} {A = ℕ} n 0 in
      record {
        heap = f.heap;
        used = omega (arith, f.used);
        blocks = (
          (
            omega arith,
            omega (arith, f.used),
            λ i lt.
                f.old (p + i) (omega arith)
                ∙ store_inside (replicate n 0) st.mem p i (omega (arith, len))
                ∙ get_or-replicate n i,
          ),
          All-map _ _ bs (λ b z. (omega (arith, z.0), z.1, z.2)) f.blocks,
        );
        apart = (All-map _ _ bs (λ b z. inl (omega (arith, z.0))) f.blocks, f.apart);
        old = λ a lt. f.old a (omega arith) ∙ store-Outside (replicate n 0) st.mem p a (inl lt);
      }

  -- While the array has room for all requests, a row of calls of `malloc` returns a block for each,
  -- of the size asked for. The blocks lie behind all that was in use, are zeroed and have no byte in
  -- common, and the bytes that were in use are unchanged.
  pub malloc_all-Fresh :
      (ns : List ℕ) (st : Libc)
      → IsHeap malloc_array st
      → st.malloc_size + total ns ≤ malloc_max_size
      → (st' : Libc) × (bs : List Block) × (malloc_all malloc_array st ns ≡ returned (st', bs))
        × (map (λ (b : Block). b.1) bs ≡ ns)
        × Fresh malloc_array st st' ns bs
  unfolding malloc_all
  malloc_all-Fresh [] st v room = (
    st,
    [],
    refl,
    refl,
    record { heap = v; used = omega arith; blocks = tt; apart = tt; old = λ a lt. refl },
  )
  malloc_all-Fresh (n ∷ ns) st v room =
      let st1 : Libc = record {
        mem = store st.mem (malloc_array + st.malloc_size) (replicate n 0);
        malloc_size = st.malloc_size + n;
      } in
      let first = malloc-store malloc_array st n v (omega arith) in
      let v1 : IsHeap malloc_array st1 = record { array = v.array; within = omega arith } in
      let (st', bs, e, sizes, f) = malloc_all-Fresh ns st1 v1 (omega arith) in
      (
        st',
        (malloc_array + st.malloc_size, n) ∷ bs,
        rw (first, e),
        ap (◌∷◌ n) sizes,
        Fresh-cons st st' n ns bs v f,
      )
