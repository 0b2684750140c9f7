-- ===== src/Kernel/TrbRing.antt =====
-- The class TransferRequestBlockRing of src/xhci_trbring.h, with `n` for its parameter N, and the
-- entries, struct BasicTRB of src/xhci_trb.h. The array has n + 1 entries; the last one links back to the first.
pub mod Cycle
use liumos.Prelude.{
  ℕ, zero, suc, ◌+◌, ◌-◌, ◌*◌, ◌/◌, ◌%◌, ◌^◌, Option, none, some, List, [], ◌∷◌, length, get_elem?,
  ltb, leb, ◌==◌, if◌then◌else◌,
}

pub record BasicTrb : Type 0 where
  pub data_ : ℕ
  pub option : ℕ
  pub control : ℕ

pub record Ring : Type 0 where
  pub entry : List BasicTrb
  pub next_enqueue_idx : ℕ
  pub current_cycle_state : ℕ
  pub paddr : ℕ

-- A change of one entry; there is none behind the array.
abbrev pub change : List BasicTrb → ℕ → (BasicTrb → BasicTrb) → List BasicTrb
change [] i g = []
change (e ∷ es) zero g = g e ∷ es
change (e ∷ es) (suc i) g = e ∷ change es i g

-- `(control & ~1) | cycle`, for a `cycle` of one bit.
abbrev pub with_cycle : ℕ → BasicTrb → BasicTrb
with_cycle cycle e = record e { control = e.control / 2 * 2 + cycle }

unfoldable pub advance : Ring → Ring
advance r = record r {
  entry = change r.entry r.next_enqueue_idx (with_cycle r.current_cycle_state);
  next_enqueue_idx = r.next_enqueue_idx + 1;
}

abbrev pub link_trb : (paddr : ℕ) → BasicTrb
link_trb paddr = record { data_ = paddr; option = 0; control = 6 * 2 ^ 10 + 2 }

module _ (n : ℕ) where
  unfoldable pub push : Ring → Ring × ℕ
  unfolding advance
  push r =
      let next = advance r in
      if next.next_enqueue_idx == n
      then (
        record (advance next) {
          next_enqueue_idx = 0;
          current_cycle_state = 1 - next.current_cycle_state;
        },
        r.current_cycle_state,
      )
      else (next, r.current_cycle_state)

  pub pushes : (rounds : ℕ) → Ring → Ring
  unfolding push
  pushes zero r = r
  pushes (suc rounds) r = pushes rounds (push r).0

  unfoldable pub init : (paddr : ℕ) → Ring → Ring
  unfolding pushes
  init paddr r = pushes n (record {
    entry = change r.entry n (λ e. link_trb paddr);
    next_enqueue_idx = 0;
    current_cycle_state = 0;
    paddr = paddr;
  })

  -- `none` is a failed assertion.
  unfoldable pub get_entry_from_phys_addr : Ring → (p : ℕ) → Option BasicTrb
  get_entry_from_phys_addr r p =
      let ofs = (p + 2 ^ 64 - r.paddr) % 2 ^ 64 in
      if ofs % 16 == 0
      then (if ltb (ofs / 16) n then get_elem? r.entry (ofs / 16) else none)
      else none
