-- ===== src/Kernel/RingBuffer/Queue.antt =====
-- The ring buffer of src/ring_buffer.h refines a queue that holds one value less than it has
-- places.
use liumos.Prelude.{
  ℕ, zero, suc, ◌+◌, ◌-◌, ◌%◌, ◌<◌, ◌≡◌, ◌≢◌, ◌⊎◌, inl, inr, refl, sym, ap, ◌∙◌, true, false, List,
  [], ◌∷◌, ◌++◌, length, get_or, set, ltb, leb, ◌==◌, if◌then◌else◌, arith, Bool-cases, lt→ltb,
}
use native.Mathlib.Nat.{mod-eq_of_lt, mod_self}
use mathlib.Core.Path.{subst}
use liumos.Kernel.RingBuffer.{RingBuffer, pop, push}

next : ℕ → ℕ → ℕ
next n r = (r + 1) % n

-- The index goes up by one, and from the last place to 0.
next-cases : (n r : ℕ) → r < n → ((r + 1 < n) × (next n r ≡ r + 1)) ⊎ ((r + 1 ≡ n) × (next n r ≡ 0))
unfolding next
next-cases n r lt = elim (Bool-cases (ltb (r + 1) n)) [
  | inl h ↦ (let less : r + 1 < n = ground arith in inl (less, mod-eq_of_lt less))
  | inr h ↦
      (let same : r + 1 ≡ n = ground arith in
        inr (same, subst (λ m. (r + 1) % m ≡ 0) same (mod_self (r + 1))))
]

next_lt : (n r : ℕ) → r < n → next n r < n
next_lt n r lt = elim (next-cases n r lt) [
  | inl (less, e) ↦ omega arith
  | inr (same, e) ↦ omega arith
]

next_injective : (n r w : ℕ) → r < n → w < n → next n r ≡ next n w → r ≡ w
next_injective n r w lt lt' e = elim (next-cases n r lt) [
  | inl (less, er) ↦ elim (next-cases n w lt') [
    | inl (less', ew) ↦ omega arith
    | inr (same', ew) ↦ omega arith
  ]
  | inr (same, er) ↦ elim (next-cases n w lt') [
    | inl (less', ew) ↦ omega arith
    | inr (same', ew) ↦ omega arith
  ]
]

-- The number of places from `r` round to `w`.
distance : (n r w : ℕ) → ℕ
distance n r w = if leb r w then w - r else w + n - r

distance-next : (n r w : ℕ) → r < n → w < n → r ≢ w → distance n r w ≡ suc (distance n (next n r) w)
unfolding distance
distance-next n r w lt lt' ne = elim (next-cases n r lt) [
  | inl (less, e) ↦ rw e (ground (arith, ne))
  | inr (same, e) ↦ rw e (ground (arith, ne))
]

ltb_full : (a b : ℕ) → a ≡ b → ltb a b ≡ false
ltb_full a b e = ground arith

test_same : (a b : ℕ) → a ≡ b → (a == b) ≡ true
test_same a b e = ground arith

test_other : (a b : ℕ) → a ≢ b → (a == b) ≡ false
test_other a b ne = ground arith

distance-full : (n r w : ℕ) → r < n → w < n → next n w ≡ r → distance n r w + 1 ≡ n
unfolding distance
distance-full n r w lt lt' e = elim (next-cases n w lt') [
  | inl (less, ew) ↦ ground (arith, e)
  | inr (same, ew) ↦ ground (arith, e)
]

distance_room : (n r w : ℕ) → r < n → w < n → next n w ≢ r → distance n r w + 1 < n
unfolding distance
distance_room n r w lt lt' ne = elim (next-cases n w lt') [
  | inl (less, ew) ↦ (let far : w + 1 ≢ r = (λ e. ne (ew ∙ e)) in ground arith)
  | inr (same, ew) ↦ (let far : 0 ≢ r = (λ e. ne (ew ∙ e)) in ground arith)
]

module _ {A : Type 0} (n : ℕ) (empty : A) where
  -- A queue that drops a value when it holds `n - 1`.
  unfoldable pub queue_push : A → List A → List A
  queue_push x q = if ltb (length q + 1) n then q ++ x ∷ [] else q

  unfoldable pub queue_pop : List A → List A × A
  queue_pop [] = ([], empty)
  queue_pop (x ∷ q) = (q, x)

  -- The values from place `r` round to place `w`.
  abbrev Holds : List A → (r : ℕ) → List A → (w : ℕ) → Type 0
  Holds elements r [] w = r ≡ w
  Holds elements r (x ∷ q) w =
      (r ≢ w) × (get_or elements r empty ≡ x) × Holds elements ((r + 1) % n) q w

  -- The ring buffer holds the values of a queue, the oldest first.
  pub record Represents (b : RingBuffer A) (q : List A) : Type 0 where
    pub places : length b.elements ≡ n
    pub reader : b.readp < n
    pub writer : b.writep < n
    pub values : Holds b.elements b.readp q b.writep

  length-distance :
      (elements : List A) (r : ℕ) (q : List A) (w : ℕ)
      → r < n
      → w < n
      → Holds elements r q w
      → length q ≡ distance n r w
  unfolding distance next
  length-distance elements r [] w lt lt' h = ground arith
  length-distance elements r (x ∷ q) w lt lt' h =
      ap suc (length-distance elements (next n r) q w (next_lt n r lt) lt' h.2)
      ∙ sym (distance-next n r w lt lt' h.0)

  get_or-set :
      (elements : List A) (w : ℕ) (x : A)
      → w < length elements
      → get_or (set elements w x) w empty ≡ x
  get_or-set [] w x lt = absurd (omega arith)
  get_or-set (e ∷ es) zero x lt = refl
  get_or-set (e ∷ es) (suc w) x lt = get_or-set es w x (omega arith)

  get_or-set_other :
      (elements : List A) (r w : ℕ) (x : A)
      → r ≢ w
      → get_or (set elements w x) r empty ≡ get_or elements r empty
  get_or-set_other [] r w x ne = refl
  get_or-set_other (e ∷ es) zero zero x ne = absurd (ne refl)
  get_or-set_other (e ∷ es) zero (suc w) x ne = refl
  get_or-set_other (e ∷ es) (suc r) zero x ne = refl
  get_or-set_other (e ∷ es) (suc r) (suc w) x ne = get_or-set_other es r w x (λ q. ne (ap suc q))

  length-set : (elements : List A) (w : ℕ) (x : A) → length (set elements w x) ≡ length elements
  length-set [] w x = refl
  length-set (e ∷ es) zero x = refl
  length-set (e ∷ es) (suc w) x = ap suc (length-set es w x)

  -- A value is written behind the last one, while the place behind that stays free.
  Holds-set :
      (elements : List A) (r : ℕ) (q : List A) (w : ℕ) (x : A)
      → r < n
      → w < n
      → length elements ≡ n
      → next n w ≢ r
      → Holds elements r q w
      → Holds (set elements w x) r (q ++ x ∷ []) (next n w)
  unfolding next
  Holds-set elements r [] w x lt lt' len ne h = (
    (λ e. ne (sym e)),
    subst (λ a. get_or (set elements w x) a empty ≡ x) (sym h)
        (get_or-set elements w x (omega arith)),
    ap (next n) h,
  )
  Holds-set elements r (y ∷ q) w x lt lt' len ne h = (
    (λ e. ne (sym e)),
    get_or-set_other elements r w x h.0 ∙ h.1,
    Holds-set elements (next n r) q w x (next_lt n r lt) lt' len
        (λ e. h.0 (next_injective n r w lt lt' (sym e))) h.2,
  )

  pushed :
      (b : RingBuffer A) (q : List A) (x : A)
      → Represents b q
      → next n b.writep ≢ b.readp
      → Represents
          (record b { elements = set b.elements b.writep x; writep = next n b.writep })
          (q ++ x ∷ [])
  pushed b q x h ne = record {
    places = length-set b.elements b.writep x ∙ h.places;
    reader = h.reader;
    writer = next_lt n b.writep h.writer;
    values = Holds-set b.elements b.readp q b.writep x h.reader h.writer h.places ne h.values;
  }

  -- A buffer that represents a queue represents, after `Push`, the queue with the value at its end,
  -- or the same queue if it was full.
  pub push-Represents :
      (b : RingBuffer A) (q : List A) (x : A)
      → Represents b q
      → Represents (push n empty x b) (queue_push x q)
  unfolding push queue_push next
  push-Represents b q x h = elim (Bool-cases (next n b.writep == b.readp)) [
    | inl e ↦
        (let full : (length q + 1 ≡ n) = omega (
          arith,
          length-distance b.elements b.readp q b.writep h.reader h.writer h.values,
          distance-full n b.readp b.writep h.reader h.writer (ground arith),
        ) in
          rw (e, ltb_full (length q + 1) n full) h)
    | inr e ↦
        (let ne : next n b.writep ≢ b.readp = ground arith in
          let room : length q + 1 < n = omega (
            arith,
            length-distance b.elements b.readp q b.writep h.reader h.writer h.values,
            distance_room n b.readp b.writep h.reader h.writer ne,
          ) in
          rw (e, lt→ltb (length q + 1) n room) (pushed b q x h ne))
  ]

  -- `Pop` then returns the first value of the queue and leaves the rest, or returns the empty
  -- value if there is none.
  pub pop-Represents :
      (b : RingBuffer A) (q : List A)
      → Represents b q
      → Represents (pop n empty b).0 (queue_pop q).0 × ((pop n empty b).1 ≡ (queue_pop q).1)
  unfolding pop queue_pop next
  pop-Represents b [] h = rw (test_same b.readp b.writep h.values) (h, refl)
  pop-Represents b (x ∷ q) h = rw (test_other b.readp b.writep h.values.0) (popped, h.values.1)
    where
      popped : Represents (record b { readp = (b.readp + 1) % n }) q
      popped = record {
        places = h.places;
        reader = next_lt n b.readp h.reader;
        writer = h.writer;
        values = h.values.2;
      }
