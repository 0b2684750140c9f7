-- ===== src/Kernel/PageAllocator/Apart.antt =====
-- The pages that src/phys_page_allocator.h gives out and the regions that stay free.
use liumos.Prelude.{
  ℕ, ◌+◌, ◌-◌, ◌*◌, ◌^◌, ◌≤◌, ◌<◌, ◌≡◌, ◌⊎◌, Option, none, some, List, [], ◌∷◌, All,
}
use liumos.Kernel.PageAllocator.{FreeInfo}

-- Two ranges of pages have no byte in common.
abbrev pub Apart : (a n b m : ℕ) → Type 0
Apart a n b m = (a + n * 4096 ≤ b) ⊎ (b + m * 4096 ≤ a)

abbrev pub ApartFrom : (a n : ℕ) → FreeInfo → Type 0
ApartFrom a n info = Apart a n info.phys_addr info.num_of_pages

-- The regions lie in the address space, not at 0, and have no byte in common.
abbrev pub AreRegions : List FreeInfo → Type 0
AreRegions [] = Unit
AreRegions (info ∷ infos) =
    (0 < info.phys_addr)
    × (info.phys_addr + info.num_of_pages * 4096 ≤ 2 ^ 64 - 1)
    × All (ApartFrom info.phys_addr info.num_of_pages) infos
    × AreRegions infos

pub total_pages : List FreeInfo → ℕ
total_pages [] = 0
total_pages (info ∷ infos) = info.num_of_pages + total_pages infos

-- What an allocation of `n` pages at `addr` leaves.
pub record IsTaken (infos infos' : List FreeInfo) (addr n : ℕ) : Type 0 where
  pub regions : AreRegions infos'
  pub apart : All (ApartFrom addr n) infos'
  pub pages : total_pages infos' + n ≡ total_pages infos
  -- What is apart from all regions before is apart from the pages and from all regions after.
  pub inside : (b m : ℕ) → All (ApartFrom b m) infos → Apart b m addr n × All (ApartFrom b m) infos'

-- The pages were taken, or no region has more pages than are wanted.
abbrev pub Outcome : List FreeInfo → ℕ → Option (List FreeInfo × ℕ) → Type 0
Outcome infos n none = All (λ info. info.num_of_pages ≤ n) infos
Outcome infos n (some (infos', addr)) = IsTaken infos infos' addr n
