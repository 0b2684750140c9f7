-- ===== src/Kernel/RingBuffer.antt =====
-- src/ring_buffer.h: the ring buffer with `n` places. `int` holds every index, and `n` is at most
-- 2^31, so that the remainder on `unsigned int` is that of numbers.
pub mod Queue
pub mod Runs
use liumos.Prelude.{ℕ, ◌+◌, ◌%◌, Bool, List, if◌then◌else◌, get_or, set, replicate, ◌==◌}

pub record RingBuffer {ℓ} (A : Type ℓ) : Type ℓ where
  pub elements : List A
  pub readp : ℕ
  pub writep : ℕ

-- `empty` is the value that `{}` stands for; the array holds anything at first.
module _ {ℓ} {A : Type ℓ} (n : ℕ) (empty : A) where
  abbrev pub new_ring_buffer : List A → RingBuffer A
  new_ring_buffer elements = record { elements = elements; readp = 0; writep = 0 }

  abbrev pub is_empty : RingBuffer A → Bool
  is_empty r = r.readp == r.writep

  unfoldable pub pop : RingBuffer A → RingBuffer A × A
  pop r =
      if is_empty r
      then (r, empty)
      else (record r { readp = (r.readp + 1) % n }, get_or r.elements r.readp empty)

  unfoldable pub push : A → RingBuffer A → RingBuffer A
  push value r =
      let nextp = (r.writep + 1) % n in
      if nextp == r.readp
      then r
      else record r { elements = set r.elements r.writep value; writep = nextp }
