-- ===== src/Kernel/PageAllocator.antt =====
-- src/phys_page_allocator.h: the allocator of physical pages. The chain of the `FreeInfo`s, each
-- in the first page of its region, is a list with their addresses; address 0 ends the chain, as
-- with UsePhysicalAddressInternallyStrategy. `none` is a failed assertion or a panic.
pub mod Apart
use liumos.Prelude.{
  ℕ, ◌+◌, ◌-◌, ◌*◌, ◌%◌, ◌^◌, Bool, not, ◌||◌, Option, none, some, List, [], ◌∷◌, ltb, ◌==◌,
  if◌then◌else◌, ◌>>=◌,
}

pub record FreeInfo : Type 0 where
  pub phys_addr : ℕ
  pub num_of_pages : ℕ
  pub proximity_domain : ℕ

abbrev pub can_provide_pages : FreeInfo → ℕ → Bool
can_provide_pages info n = ltb n info.num_of_pages

-- The changed region and the address of the pages, 0 for a null pointer.
abbrev pub provide_pages : FreeInfo → ℕ → FreeInfo × ℕ
provide_pages info n =
    if not (can_provide_pages info n)
    then (info, 0)
    else let left = info.num_of_pages - n in
      (record info { num_of_pages = left }, (info.phys_addr + left * 2 ^ 12 % 2 ^ 64) % 2 ^ 64)

unfoldable pub free_pages_with_proximity_domain :
    List FreeInfo → (phys_addr num_of_pages prox_domain : ℕ) → Option (List FreeInfo)
free_pages_with_proximity_domain infos phys_addr num_of_pages prox_domain =
    if num_of_pages == 0 || not (phys_addr % 2 ^ 12 == 0)
    then none
    else if phys_addr == 0
    then some []
    else some (
        record {
          phys_addr = phys_addr;
          num_of_pages = num_of_pages;
          proximity_domain = prox_domain;
        }
        ∷ infos)

unfoldable pub alloc_pages : List FreeInfo → (num_of_pages : ℕ) → Option (List FreeInfo × ℕ)
alloc_pages [] n = none
alloc_pages (info ∷ infos) n =
    let rest = alloc_pages infos n in
    let provided = provide_pages info n in
    if not (provided.1 == 0)
    then some (provided.0 ∷ infos, provided.1)
    else do (infos', addr) ← rest; some (provided.0 ∷ infos', addr)

unfoldable pub alloc_pages_in_proximity_domain :
    List FreeInfo → (num_of_pages proximity_domain : ℕ) → Option (List FreeInfo × ℕ)
alloc_pages_in_proximity_domain [] n domain = none
alloc_pages_in_proximity_domain (info ∷ infos) n domain =
    let rest = alloc_pages_in_proximity_domain infos n domain in
    let provided = if info.proximity_domain == domain then provide_pages info n else (info, 0) in
    if not (provided.1 == 0)
    then some (provided.0 ∷ infos, provided.1)
    else do (infos', addr) ← rest; some (provided.0 ∷ infos', addr)
