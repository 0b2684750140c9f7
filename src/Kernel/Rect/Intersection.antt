-- ===== src/Kernel/Rect/Intersection.antt =====
-- src/rect.h: which points lie in an intersection, where the sums are `int`s.
use liumos.Prelude.{
  ◌+◌, ◌^◌, ◌<◌, ◌≤◌, ◌≡◌, ◌⊎◌, inl, inr, refl, ◌∙◌, Bool, true, false, ◌&&◌, ◌||◌, some, arith,
  Bool-cases, ap, if◌then◌else◌,
}
use liumos.Prelude.Int.{
  ℤ, pos, pos_part, neg_part, ◌+ℤ◌, ◌-ℤ◌, ◌≤ℤ◌, ltb_ℤ, max_ℤ, min_ℤ, +ℤ_parts, -ℤ_parts,
}
use liumos.Kernel.Rect.{
  Rect, empty_rect, int, add_int, sub_int, common_start, common_size, get_intersection_with, within,
  is_point_in_rect,
}
use liumos.Kernel.Rect.Range.{
  inside, ideal_size, max_ℤ-cases, min_ℤ-cases, inside-and, inside_nothing,
}

-- The range of `int`, and half of it.
abbrev pub Int32 : ℤ → Type 0
Int32 a = (neg_part a ≤ pos_part a + 2 ^ 31) × (pos_part a < neg_part a + 2 ^ 31)

abbrev pub Int31 : ℤ → Type 0
Int31 a = (neg_part a ≤ pos_part a + 2 ^ 30) × (pos_part a < neg_part a + 2 ^ 30)

-- From -2 ^ 30 to 2 ^ 30 - 1, so that no sum of a coordinate and a size overflows.
abbrev pub IsNear : Rect → Type 0
IsNear r = Int31 r.x × Int31 r.y × Int31 r.xsize × Int31 r.ysize

int-some : (a : ℤ) → Int32 a → int a ≡ some a
unfolding int
int-some a h = ground arith

add_int-some : (a b : ℤ) → Int31 a → Int31 b → add_int a b ≡ some (a +ℤ b)
unfolding add_int
add_int-some a b ha hb = let sum = +ℤ_parts a b in int-some (a +ℤ b) (omega arith)

ideal_end :
    (a asize b bsize : ℤ)
    → Int31 a
    → Int31 asize
    → Int31 b
    → Int31 bsize
    → Int32 (max_ℤ a b +ℤ ideal_size a asize b bsize)
unfolding ideal_size
ideal_end a asize b bsize ha hs hb ht =
    let start = max_ℤ a b in
    let left = (asize +ℤ a) -ℤ start in
    let right = (bsize +ℤ b) -ℤ start in
    let least = min_ℤ left right in
    let size = max_ℤ least (pos 0) in
    let n1 = +ℤ_parts start size in
    let n2 = +ℤ_parts asize a in
    let n3 = +ℤ_parts bsize b in
    let n4 = -ℤ_parts (asize +ℤ a) start in
    let n5 = -ℤ_parts (bsize +ℤ b) start in
    let s = max_ℤ-cases a b in
    let l = min_ℤ-cases left right in
    let z = max_ℤ-cases least (pos 0) in omega (arith, n1, n2, n3, n4, n5, s, l, z, ha, hs, hb, ht)

-- A size before its minimum with the other one.
difference_some :
    (a asize start : ℤ)
    → Int31 a
    → Int31 asize
    → Int31 start
    → pos 0 ≤ℤ asize
    → a ≤ℤ start
    → sub_int (asize +ℤ a) start ≡ some ((asize +ℤ a) -ℤ start)
unfolding sub_int
difference_some a asize start ha hs hstart positive below =
    let n1 = +ℤ_parts asize a in
    let n2 = -ℤ_parts (asize +ℤ a) start in int-some ((asize +ℤ a) -ℤ start) (omega arith)

max-Int31 : (a b : ℤ) → Int31 a → Int31 b → Int31 (max_ℤ a b) × (a ≤ℤ max_ℤ a b) × (b ≤ℤ max_ℤ a b)
max-Int31 a b ha hb = let s = max_ℤ-cases a b in (omega arith, omega arith, omega arith)

common_size-some :
    (a asize b bsize : ℤ)
    → Int31 a
    → Int31 asize
    → Int31 b
    → Int31 bsize
    → pos 0 ≤ℤ asize
    → pos 0 ≤ℤ bsize
    → common_size a asize b bsize ≡ some (ideal_size a asize b bsize)
unfolding common_size common_start ideal_size
common_size-some a asize b bsize ha hs hb ht ps pt =
    let (hstart, la, lb) = max-Int31 a b ha hb in
    rw
      (
        add_int-some asize a hs ha,
        difference_some a asize (max_ℤ a b) ha hs hstart ps la,
        add_int-some bsize b ht hb,
        difference_some b bsize (max_ℤ a b) hb ht hstart pt lb,
      )
      refl

within-some :
    (p start size : ℤ) → Int32 (start +ℤ size) → within p start size ≡ some (inside p start size)
unfolding within inside add_int
within-some p start size h = let e = int-some (start +ℤ size) h in ground arith

-- The point test without overflow.
abbrev pub Fits : Rect → Type 0
Fits r = Int32 (r.x +ℤ r.xsize) × Int32 (r.y +ℤ r.ysize)

is_point_some :
    (px py : ℤ) (r : Rect)
    → Fits r
    → is_point_in_rect px py r ≡ some (inside px r.x r.xsize && inside py r.y r.ysize)
unfolding is_point_in_rect
is_point_some px py r h =
    rw (within-some px r.x r.xsize h.0, within-some py r.y r.ysize h.1) (tested _ _)
  where
    tested : (a b : Bool) → (if a then some b else some false) ≡ some (a && b)
    tested true b = refl
    tested false b = refl

IsNear-Fits : (r : Rect) → IsNear r → Fits r
IsNear-Fits r h =
    let n1 = +ℤ_parts r.x r.xsize in let n2 = +ℤ_parts r.y r.ysize in (omega arith, omega arith)

one_true :
    (a b c d : Bool)
    → (a || b || c || d) ≡ true
    → ((a ≡ true) ⊎ (b ≡ true)) ⊎ ((c ≡ true) ⊎ (d ≡ true))
one_true true b c d h = inl (inl refl)
one_true false true c d h = inl (inr refl)
one_true false false true d h = inr (inl refl)
one_true false false false d h = inr (inr h)

none_true :
    (a b c d : Bool)
    → (a || b || c || d) ≡ false
    → (a ≡ false) × (b ≡ false) × (c ≡ false) × (d ≡ false)
none_true true b c d h = absurd (cc h)
none_true false true c d h = absurd (cc h)
none_true false false true d h = absurd (cc h)
none_true false false false d h = (refl, refl, refl, h)

-- Whether a point is in a rectangle, where no sum overflows.
abbrev covers : (px py : ℤ) → Rect → Bool
covers px py r = inside px r.x r.xsize && inside py r.y r.ysize

abbrev common : Rect → Rect → Rect
common r t = record {
  x = max_ℤ r.x t.x;
  y = max_ℤ r.y t.y;
  xsize = ideal_size r.x r.xsize t.x t.xsize;
  ysize = ideal_size r.y r.ysize t.y t.ysize;
}

abbrev some_negative : Rect → Rect → Bool
some_negative r t =
    ltb_ℤ r.xsize (pos 0) || ltb_ℤ r.ysize (pos 0) || ltb_ℤ t.xsize (pos 0) || ltb_ℤ t.ysize (pos 0)

covers-common :
    (px py : ℤ) (r t : Rect) → covers px py (common r t) ≡ (covers px py r && covers px py t)
covers-common px py r t =
    rw (inside-and px r.x r.xsize t.x t.xsize, inside-and py r.y r.ysize t.y t.ysize)
      (swapped (inside px r.x r.xsize) (inside px t.x t.xsize) (inside py r.y r.ysize)
        (inside py t.y t.ysize))
  where
    swapped : (a b c d : Bool) → ((a && b) && (c && d)) ≡ ((a && c) && (b && d))
    swapped true true c d = refl
    swapped true false true d = refl
    swapped true false false d = refl
    swapped false b c d = refl

-- A rectangle of a negative size has no points.
covers_none :
    (px py : ℤ) (r t : Rect) → some_negative r t ≡ true → (covers px py r && covers px py t) ≡ false
covers_none px py r t h =
    elim (one_true (ltb_ℤ r.xsize (pos 0)) (ltb_ℤ r.ysize (pos 0)) (ltb_ℤ t.xsize (pos 0))
      (ltb_ℤ t.ysize (pos 0)) h) [
        | inl (inl e) ↦ rw (inside_nothing px r.x r.xsize (ground arith)) refl
        | inl (inr e) ↦ rw (inside_nothing py r.y r.ysize (ground arith)) (second _ _)
        | inr (inl e) ↦ rw (inside_nothing px t.x t.xsize (ground arith)) (last _)
        | inr (inr e) ↦ rw (inside_nothing py t.y t.ysize (ground arith)) (third _ _)
      ]
  where
    second : (a b : Bool) → ((a && false) && b) ≡ false
    second true b = refl
    second false b = refl

    last : (a : Bool) → (a && false) ≡ false
    last true = refl
    last false = refl

    third : (a b : Bool) → (a && (b && false)) ≡ false
    third a b = rw (last b) (last a)

-- For rectangles whose coordinates and sizes are from -2 ^ 30 to 2 ^ 30 - 1, no sum in the
-- intersection and in the tests of points overflows, and any point lies in the intersection exactly
-- if it lies in both rectangles, whatever the signs of their sizes.
pub get_intersection_with-points :
    (px py : ℤ) (r t : Rect)
    → IsNear r
    → IsNear t
    → (i : Rect) × (a : Bool) × (b : Bool) × (get_intersection_with r t ≡ some i)
      × (is_point_in_rect px py r ≡ some a)
      × (is_point_in_rect px py t ≡ some b)
      × (is_point_in_rect px py i ≡ some (a && b))
unfolding get_intersection_with common_start
get_intersection_with-points px py r t hr ht = elim (Bool-cases (some_negative r t)) [
  | inl neg ↦ (
    empty_rect,
    covers px py r,
    covers px py t,
    rw neg refl,
    in_r,
    in_t,
    is_point_some px py empty_rect (zero_fits, zero_fits)
        ∙ rw (inside_nothing px (pos 0) (pos 0) refl, covers_none px py r t neg) refl,
  )
  | inr fine ↦
      (let (rx, ry, tx, ty) =
          none_true (ltb_ℤ r.xsize (pos 0)) (ltb_ℤ r.ysize (pos 0)) (ltb_ℤ t.xsize (pos 0))
            (ltb_ℤ t.ysize (pos 0)) fine in
        let w =
          common_size-some r.x r.xsize t.x t.xsize hr.0 hr.2 ht.0 ht.2 (ground arith)
            (ground arith) in
        let h =
          common_size-some r.y r.ysize t.y t.ysize hr.1 hr.3 ht.1 ht.3 (ground arith)
            (ground arith) in
        (
          common r t,
          covers px py r,
          covers px py t,
          rw (fine, w, h) refl,
          in_r,
          in_t,
          is_point_some px py (common r t) (
            ideal_end r.x r.xsize t.x t.xsize hr.0 hr.2 ht.0 ht.2,
            ideal_end r.y r.ysize t.y t.ysize hr.1 hr.3 ht.1 ht.3,
          )
              ∙ ap some (covers-common px py r t),
        ))
]
  where
    in_r : is_point_in_rect px py r ≡ some (covers px py r)
    in_r = is_point_some px py r (IsNear-Fits r hr)

    in_t : is_point_in_rect px py t ≡ some (covers px py t)
    in_t = is_point_some px py t (IsNear-Fits t ht)

    zero_fits : Int32 (pos 0 +ℤ pos 0)
    zero_fits = let sum = +ℤ_parts (pos 0) (pos 0) in (omega arith, omega arith)
