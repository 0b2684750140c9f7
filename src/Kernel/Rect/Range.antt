-- ===== src/Kernel/Rect/Range.antt =====
-- Ranges of integers without bounds: what one direction of an intersection would be.
use liumos.Prelude.{
  ◌+◌, ◌<◌, ◌≡◌, ◌↔◌, ◌⊎◌, inl, inr, refl, Bool, true, false, ◌&&◌, arith, Bool-cases,
}
use liumos.Prelude.Int.{
  ℤ, pos, pos_part, neg_part, ◌+ℤ◌, ◌-ℤ◌, ◌≤ℤ◌, leb_ℤ, ltb_ℤ, max_ℤ, min_ℤ, +ℤ_parts, -ℤ_parts,
}

-- Equal integers, by their parts, which are numbers.
abbrev pub Same : ℤ → ℤ → Type 0
Same a b = pos_part a + neg_part b ≡ pos_part b + neg_part a

pub max_ℤ-cases : (a b : ℤ) → Same (max_ℤ a b) a × (b ≤ℤ a) ⊎ Same (max_ℤ a b) b × (a ≤ℤ b)
unfolding max_ℤ
max_ℤ-cases a b = elim (Bool-cases (ltb_ℤ a b)) [
  | inl e ↦ inr (rw e refl, ground arith)
  | inr e ↦ inl (rw e refl, ground arith)
]

pub min_ℤ-cases : (a b : ℤ) → Same (min_ℤ a b) a × (a ≤ℤ b) ⊎ Same (min_ℤ a b) b × (b ≤ℤ a)
unfolding min_ℤ
min_ℤ-cases a b = elim (Bool-cases (ltb_ℤ b a)) [
  | inl e ↦ inr (rw e refl, ground arith)
  | inr e ↦ inl (rw e refl, ground arith)
]

-- A number from `start` on, below its end.
abbrev pub InRange : (p start size : ℤ) → Type 0
InRange p start size = (start ≤ℤ p) × ((p +ℤ pos 1) ≤ℤ (start +ℤ size))

unfoldable pub inside : (p start size : ℤ) → Bool
inside p start size = leb_ℤ start p && ltb_ℤ p (start +ℤ size)

unfoldable pub ideal_size : (a asize b bsize : ℤ) → ℤ
ideal_size a asize b bsize =
    let start = max_ℤ a b in max_ℤ (min_ℤ ((asize +ℤ a) -ℤ start) ((bsize +ℤ b) -ℤ start)) (pos 0)

pub inside_iff : (p start size : ℤ) → (inside p start size ≡ true) ↔ InRange p start size
unfolding inside
inside_iff p start size = (
  (λ h. ((ground arith), (let one = +ℤ_parts p (pos 1) in ground arith))),
  (λ h. (let one = +ℤ_parts p (pos 1) in ground arith)),
)

module _ (p a asize b bsize : ℤ) where
  pub common_range :
      InRange p (max_ℤ a b) (ideal_size a asize b bsize) ↔ InRange p a asize × InRange p b bsize
  unfolding ideal_size
  common_range =
      let start = max_ℤ a b in
      let left = (asize +ℤ a) -ℤ start in
      let right = (bsize +ℤ b) -ℤ start in
      let least = min_ℤ left right in
      let size = max_ℤ least (pos 0) in
      meet start left right least size (max_ℤ-cases a b) (min_ℤ-cases left right)
        (max_ℤ-cases least (pos 0)) refl refl
    where
      meet :
          (start left right least size : ℤ)
          → Same start a × (b ≤ℤ a) ⊎ Same start b × (a ≤ℤ b)
          → Same least left × (left ≤ℤ right) ⊎ Same least right × (right ≤ℤ left)
          → Same size least × (pos 0 ≤ℤ least) ⊎ Same size (pos 0) × (least ≤ℤ pos 0)
          → Same left ((asize +ℤ a) -ℤ start)
          → Same right ((bsize +ℤ b) -ℤ start)
          → InRange p start size ↔ InRange p a asize × InRange p b bsize
      meet start left right least size s l z el er =
          let n1 = +ℤ_parts p (pos 1) in
          let n2 = +ℤ_parts start size in
          let n3 = +ℤ_parts a asize in
          let n4 = +ℤ_parts b bsize in
          let n5 = +ℤ_parts asize a in
          let n6 = +ℤ_parts bsize b in
          let n7 = -ℤ_parts (asize +ℤ a) start in
          let n8 = -ℤ_parts (bsize +ℤ b) start in
          (
            λ h. (
              (
                omega (arith, h, s),
                omega (arith, n1, n2, n3, n4, n5, n6, n7, n8, h, s, l, z, el, er),
              ),
              (
                omega (arith, h, s),
                omega (arith, n1, n2, n3, n4, n5, n6, n7, n8, h, s, l, z, el, er),
              ),
            ),
            λ h. (
              omega (arith, h, s),
              omega (arith, n1, n2, n3, n4, n5, n6, n7, n8, h, s, l, z, el, er),
            ),
          )

pub no_range : (p start size : ℤ) → ltb_ℤ size (pos 0) ≡ true → InRange p start size → ⊥
no_range p start size neg h =
    let n1 = +ℤ_parts p (pos 1) in
    let n2 = +ℤ_parts start size in
    let lt : pos_part size < neg_part size = ground arith in omega (arith, n1, n2, h, lt)

-- A range in two others, as a test.
pub inside-and :
    (p a asize b bsize : ℤ)
    → inside p (max_ℤ a b) (ideal_size a asize b bsize) ≡ (inside p a asize && inside p b bsize)
inside-and p a asize b bsize =
    let both = common_range p a asize b bsize in
    by_cases _ _ _
      (λ h.
        (let (x, y) = both.0 ((inside_iff p _ _).0 h) in
          ((inside_iff p a asize).1 x, (inside_iff p b bsize).1 y)))
      (λ x y.
        (inside_iff p _ _).1 (both.1 ((inside_iff p a asize).0 x, (inside_iff p b bsize).0 y)))
  where
    by_cases :
        (x y z : Bool)
        → (x ≡ true → (y ≡ true) × (z ≡ true))
        → (y ≡ true → z ≡ true → x ≡ true)
        → x ≡ (y && z)
    by_cases true y z f g = let (e, e') = f refl in rw (e, e') refl
    by_cases false true true f g = g refl refl
    by_cases false true false f g = refl
    by_cases false false z f g = refl

-- Nothing is in a range of no size or less.
pub inside_nothing : (p start size : ℤ) → ltb_ℤ (pos 0) size ≡ false → inside p start size ≡ false
unfolding inside
inside_nothing p start size h = let sum = +ℤ_parts start size in ground arith
