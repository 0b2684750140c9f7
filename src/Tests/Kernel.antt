-- ===== src/Tests/Kernel.antt =====
-- The ring buffer of src/ring_buffer.h with four places, and the allocator of
-- src/phys_page_allocator.h with two regions.
use liumos.Prelude.{Option, none, some, ℕ, ◌≡◌, refl, List, [], ◌∷◌, replicate, arith}
use liumos.Kernel.PageAllocator.{FreeInfo, alloc_pages, free_pages_with_proximity_domain}
use liumos.Kernel.RingBuffer.{new_ring_buffer, push, pop}
use liumos.Kernel.RingBuffer.Runs.{
  Operation, pushing, popping, ring_run, queue_run, ring_run-queue_run,
}

abbrev calls : List (Operation ℕ)
calls =
    pushing 1
    ∷ pushing 2
    ∷ popping
    ∷ pushing 3
    ∷ pushing 4
    ∷ pushing 5
    ∷ popping
    ∷ popping
    ∷ popping
    ∷ popping
    ∷ []

ring_run-queue_run_example :
    ring_run 4 0 calls (new_ring_buffer 4 0 (replicate 4 9)) ≡ queue_run 4 0 calls []
ring_run-queue_run_example = ring_run-queue_run 4 0 (replicate 4 9) calls refl (omega arith)

-- The fifth value is dropped.
run_of_calls : ring_run 4 0 calls (new_ring_buffer 4 0 (replicate 4 9)) ≡ 1 ∷ 2 ∷ 3 ∷ 4 ∷ 0 ∷ []
unfolding ring_run push pop
run_of_calls = refl

abbrev two_regions : List FreeInfo
two_regions =
    record { phys_addr = 4096; num_of_pages = 4; proximity_domain = 0 }
    ∷ record { phys_addr = 65536; num_of_pages = 8; proximity_domain = 1 }
    ∷ []

-- The first region is too small; five pages of the second leave three.
address_of : Option (List FreeInfo × ℕ) → Option ℕ
address_of none = none
address_of (some (infos, addr)) = some addr

alloc_five : address_of (alloc_pages two_regions 5) ≡ some 77824
unfolding alloc_pages address_of
alloc_five = refl

-- A region at address 0 ends the chain, and what was free is lost.
free_at_zero : free_pages_with_proximity_domain two_regions 0 3 0 ≡ some []
unfolding free_pages_with_proximity_domain
free_at_zero = refl
