-- ===== src/Kernel/TrbRing/Cycle.antt =====
-- The cycle bits of the ring of src/xhci_trbring.h, which tell the controller what is new.
use liumos.Prelude.{
  ℕ, zero, suc, ◌+◌, ◌-◌, ◌*◌, ◌/◌, ◌%◌, ◌^◌, ◌≤◌, ◌<◌, ◌≡◌, ◌≢◌, ◌⊎◌, inl, inr, refl, sym, ap, ◌∙◌,
  true, false, none, List, [], ◌∷◌, length, get_elem?, ltb, ◌==◌, if◌then◌else◌, arith, Bool-cases,
}
use mathlib.Core.Path.{subst}
use liumos.Kernel.TrbRing.{
  BasicTrb, Ring, change, with_cycle, advance, link_trb, push, pushes, init,
  get_entry_from_phys_addr,
}

-- The cycle bit of an entry; 2 stands for an entry that is not there.
abbrev pub bit : List BasicTrb → ℕ → ℕ
bit [] i = 2
bit (e ∷ es) zero = e.control % 2
bit (e ∷ es) (suc i) = bit es i

length-change :
    (es : List BasicTrb) (i : ℕ) (g : BasicTrb → BasicTrb) → length (change es i g) ≡ length es
length-change [] i g = refl
length-change (e ∷ es) zero g = refl
length-change (e ∷ es) (suc i) g = ap suc (length-change es i g)

bit-change_here :
    (es : List BasicTrb) (i c : ℕ) → c < 2 → i < length es → bit (change es i (with_cycle c)) i ≡ c
bit-change_here [] i c small lt = absurd (omega arith)
bit-change_here (e ∷ es) zero c small lt = omega arith
bit-change_here (e ∷ es) (suc i) c small lt = bit-change_here es i c small (omega arith)

bit-change_there :
    (es : List BasicTrb) (i j : ℕ) (g : BasicTrb → BasicTrb)
    → j ≢ i
    → bit (change es i g) j ≡ bit es j
bit-change_there [] i j g ne = refl
bit-change_there (e ∷ es) zero zero g ne = absurd (ne refl)
bit-change_there (e ∷ es) zero (suc j) g ne = refl
bit-change_there (e ∷ es) (suc i) zero g ne = refl
bit-change_there (e ∷ es) (suc i) (suc j) g ne = bit-change_there es i j g (omega arith)

module _ (n : ℕ) where
  -- What has been pushed in this round bears the current cycle state, all else the other one.
  pub record IsRing (r : Ring) : Type 0 where
    pub size : length r.entry ≡ n + 1
    pub index : r.next_enqueue_idx < n
    pub state : r.current_cycle_state < 2
    pub pushed : (i : ℕ) → i < r.next_enqueue_idx → bit r.entry i ≡ r.current_cycle_state
    pub open_ : (i : ℕ) → r.next_enqueue_idx ≤ i → i ≤ n → bit r.entry i ≡ 1 - r.current_cycle_state

  -- As above, before the entries that are open have a known bit.
  pub record IsStarted (r : Ring) : Type 0 where
    pub size : length r.entry ≡ n + 1
    pub index : r.next_enqueue_idx < n
    pub state : r.current_cycle_state < 2
    pub pushed : (i : ℕ) → i < r.next_enqueue_idx → bit r.entry i ≡ r.current_cycle_state

  -- One entry further, within the array.
  advance_bits :
      (r : Ring)
      → length r.entry ≡ n + 1
      → r.next_enqueue_idx ≤ n
      → r.current_cycle_state < 2
      → (length (advance r).entry ≡ n + 1)
        × (bit (advance r).entry r.next_enqueue_idx ≡ r.current_cycle_state)
        × ((i : ℕ) → i ≢ r.next_enqueue_idx → bit (advance r).entry i ≡ bit r.entry i)
  unfolding advance
  advance_bits r size index state = (
    length-change r.entry r.next_enqueue_idx (with_cycle r.current_cycle_state) ∙ size,
    bit-change_here r.entry r.next_enqueue_idx r.current_cycle_state state (omega (arith, size)),
    λ i ne. bit-change_there r.entry r.next_enqueue_idx i (with_cycle r.current_cycle_state) ne,
  )

  here_or_before : (i k : ℕ) → i < k + 1 → (i ≡ k) ⊎ (i < k)
  here_or_before i k lt = elim (Bool-cases (ltb i k)) [
    | inl e ↦ inr (ground arith)
    | inr e ↦ inl (ground arith)
  ]

  -- A push that stays below the link.
  push_below :
      (r : Ring)
      → IsStarted r
      → r.next_enqueue_idx + 1 < n
      → (push n r ≡ (advance r, r.current_cycle_state)) × IsStarted (advance r)
  unfolding push advance
  push_below r h lt = (
    rw (not_last (r.next_enqueue_idx + 1) lt) refl,
    record {
      size = bits.0;
      index = lt;
      state = h.state;
      pushed = λ i below. elim (here_or_before i r.next_enqueue_idx below) [
        | inl e ↦ ap (bit (advance r).entry) e ∙ bits.1
        | inr less ↦ bits.2 i (omega arith) ∙ h.pushed i less
      ];
    },
  )
    where
      not_last : (k : ℕ) → k < n → (k == n) ≡ false
      not_last k lt = ground arith

      bits :
          (length (advance r).entry ≡ n + 1)
          × (bit (advance r).entry r.next_enqueue_idx ≡ r.current_cycle_state)
          × ((i : ℕ) → i ≢ r.next_enqueue_idx → bit (advance r).entry i ≡ bit r.entry i)
      bits = advance_bits r h.size (omega (arith, h.index)) h.state

  -- The push of the last entry goes on to the link, and a new round begins.
  push_last :
      (r : Ring)
      → IsStarted r
      → r.next_enqueue_idx + 1 ≡ n
      → IsRing (push n r).0
        × ((push n r).0.next_enqueue_idx ≡ 0)
        × ((push n r).0.current_cycle_state ≡ 1 - r.current_cycle_state)
        × ((push n r).1 ≡ r.current_cycle_state)
  unfolding push advance
  push_last r h e = rw (last (r.next_enqueue_idx + 1) e) (
    record {
      size = more.0;
      index = omega (arith, h.index);
      state = omega arith;
      pushed = λ i below. absurd (omega arith);
      open_ = λ i lo hi. elim (here_or_before i n (omega arith)) [
        | inl at ↦
            ap (bit (advance (advance r)).entry) (at ∙ sym e)
            ∙ more.1
            ∙ twice r.current_cycle_state h.state
        | inr less ↦
            more.2 i (omega arith) ∙ old i (omega arith) ∙ twice r.current_cycle_state h.state
      ];
    },
    refl,
    refl,
    refl,
  )
    where
      last : (k : ℕ) → k ≡ n → (k == n) ≡ true
      last k e = ground arith

      twice : (c : ℕ) → c < 2 → c ≡ 1 - (1 - c)
      twice c lt = omega arith

      first :
          (length (advance r).entry ≡ n + 1)
          × (bit (advance r).entry r.next_enqueue_idx ≡ r.current_cycle_state)
          × ((i : ℕ) → i ≢ r.next_enqueue_idx → bit (advance r).entry i ≡ bit r.entry i)
      first = advance_bits r h.size (omega (arith, h.index)) h.state

      more :
          (length (advance (advance r)).entry ≡ n + 1)
          × (bit (advance (advance r)).entry (r.next_enqueue_idx + 1) ≡ r.current_cycle_state)
          × ((i : ℕ)
              → i ≢ r.next_enqueue_idx + 1
              → bit (advance (advance r)).entry i ≡ bit (advance r).entry i)
      more = advance_bits (advance r) first.0 (omega (arith, e)) h.state

      old : (i : ℕ) → i < r.next_enqueue_idx + 1 → bit (advance r).entry i ≡ r.current_cycle_state
      old i lt = elim (here_or_before i r.next_enqueue_idx lt) [
        | inl at ↦ ap (bit (advance r).entry) at ∙ first.1
        | inr less ↦ first.2 i (omega arith) ∙ h.pushed i less
      ]

  started : (r : Ring) → IsRing r → IsStarted r
  started r h = record { size = h.size; index = h.index; state = h.state; pushed = h.pushed }

  -- `Push` returns the cycle state that the entry is to bear, goes on to the next entry, round the
  -- array, and keeps the ring in order: what was pushed in this round bears the current state and
  -- all other entries the opposite one, which the controller takes for not yet written.
  pub push-IsRing :
      (r : Ring)
      → IsRing r
      → IsRing (push n r).0
        × ((push n r).1 ≡ r.current_cycle_state)
        × ((push n r).0.next_enqueue_idx
            ≡ (if r.next_enqueue_idx + 1 == n then 0 else r.next_enqueue_idx + 1))
  unfolding advance
  push-IsRing r h = elim (Bool-cases (r.next_enqueue_idx + 1 == n)) [
    | inl e ↦
        (let (ring, idx, state, value) = push_last r (started r h) (ground arith) in
          rw e (ring, value, idx))
    | inr e ↦
        (let (run, k) =
            push_below r (started r h)
              (below (r.next_enqueue_idx + 1) (omega (arith, h.index)) e) in
          rw (run, e) (further k, refl, refl))
  ]
    where
      below : (k : ℕ) → k ≤ n → (k == n) ≡ false → k < n
      below k le e = ground arith

      further : IsStarted (advance r) → IsRing (advance r)
      further k = record {
        size = k.size;
        index = k.index;
        state = k.state;
        pushed = k.pushed;
        open_ = λ i lo hi.
            bit-change_there r.entry r.next_enqueue_idx i (with_cycle r.current_cycle_state)
              (omega arith)
            ∙ h.open_ i (omega arith) hi;
      }

  pushes-IsRing :
      (rounds : ℕ) (r : Ring)
      → IsStarted r
      → r.next_enqueue_idx + rounds ≡ n
      → IsRing (pushes n rounds r)
        × ((pushes n rounds r).next_enqueue_idx ≡ 0)
        × ((pushes n rounds r).current_cycle_state ≡ 1 - r.current_cycle_state)
  unfolding pushes advance
  pushes-IsRing zero r h e = absurd (omega (arith, h.index))
  pushes-IsRing (suc zero) r h e =
      let (ring, idx, state, value) = push_last r h e in (ring, idx, state)
  pushes-IsRing (suc (suc k)) r h e =
      let (run, next) = push_below r h (omega arith) in
      subst
        (λ (q : Ring).
          IsRing (pushes n (suc k) q)
          × ((pushes n (suc k) q).next_enqueue_idx ≡ 0)
          × ((pushes n (suc k) q).current_cycle_state ≡ 1 - r.current_cycle_state))
        (sym (ap (λ x. x.0) run)) (pushes-IsRing (suc k) (advance r) next (omega arith))

  -- `Init` leaves a ring in order from any array, whose first entry comes next, with the state 1.
  pub init-IsRing :
      (paddr : ℕ) (r : Ring)
      → length r.entry ≡ n + 1
      → 0 < n
      → IsRing (init n paddr r)
        × ((init n paddr r).next_enqueue_idx ≡ 0)
        × ((init n paddr r).current_cycle_state ≡ 1)
  unfolding init
  init-IsRing paddr r size some_entry =
      pushes-IsRing n _
        (record {
          size = length-change r.entry n (λ e. link_trb paddr) ∙ size;
          index = some_entry;
          state = omega arith;
          pushed = λ i below. absurd (omega arith);
        })
        (omega arith)

  -- `GetEntryFromPhysAddr` gives the entry that stands at an address of the array below the link,
  -- and fails at every other address.
  pub get_entry_from_phys_addr-entry :
      (r : Ring)
      → IsRing r
      → r.paddr + 16 * (n + 1) < 2 ^ 64
      → ((i : ℕ) → i < n → get_entry_from_phys_addr n r (r.paddr + 16 * i) ≡ get_elem? r.entry i)
        × ((p : ℕ)
            → p < 2 ^ 64
            → ((i : ℕ) → i < n → p ≢ r.paddr + 16 * i)
            → get_entry_from_phys_addr n r p ≡ none)
  unfolding get_entry_from_phys_addr
  get_entry_from_phys_addr-entry r h room = (
    λ i lt.
        (let ofs : (r.paddr + 16 * i + 2 ^ 64 - r.paddr) % 2 ^ 64 ≡ 16 * i = omega arith in
          rw ofs (found (16 * i) i refl lt)),
    λ p small other.
        missing ((p + 2 ^ 64 - r.paddr) % 2 ^ 64)
          (λ lt whole. other ((p + 2 ^ 64 - r.paddr) % 2 ^ 64 / 16) lt (omega arith)),
  )
    where
      found :
          (ofs i : ℕ)
          → ofs ≡ 16 * i
          → i < n
          → (if ofs % 16 == 0
              then (if ltb (ofs / 16) n then get_elem? r.entry (ofs / 16) else none)
              else none)
            ≡ get_elem? r.entry i
      found ofs i e lt =
          let place : ofs / 16 ≡ i = omega arith in
          let aligned : (ofs % 16 == 0) ≡ true = ground arith in
          let inside : ltb i n ≡ true = ground arith in rw (aligned, place, inside) refl

      missing :
          (ofs : ℕ)
          → (ofs / 16 < n → ofs % 16 ≡ 0 → ⊥)
          → (if ofs % 16 == 0
              then (if ltb (ofs / 16) n then get_elem? r.entry (ofs / 16) else none)
              else none)
            ≡ none
      missing ofs f = elim (Bool-cases (ofs % 16 == 0)) [
        | inl a ↦ elim (Bool-cases (ltb (ofs / 16) n)) [
          | inl b ↦ absurd (f (ground arith) (ground arith))
          | inr b ↦ rw (a, b) refl
        ]
        | inr a ↦ rw a refl
      ]
