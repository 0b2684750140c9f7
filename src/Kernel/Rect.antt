-- ===== src/Kernel/Rect.antt =====
-- The struct Rect of src/rect.h. A sum that leaves the range of `int`, which C++ leaves undefined, is
-- the result `none`.
pub mod Range
pub mod Intersection
use liumos.Prelude.{
  ◌-◌, ◌^◌, Bool, true, false, not, ◌&&◌, ◌||◌, if◌then◌else◌, ◌==◌, Option, none, some, ◌>>=◌,
}
use liumos.Prelude.Int.{ℤ, pos, negsuc, ◌+ℤ◌, ◌-ℤ◌, leb_ℤ, ltb_ℤ, eqb_ℤ, max_ℤ, min_ℤ}

pub record Rect : Type 0 where
  pub x : ℤ
  pub y : ℤ
  pub xsize : ℤ
  pub ysize : ℤ

-- The result of an operation on `int`s, of 32 bits.
unfoldable pub int : ℤ → Option ℤ
int a = if leb_ℤ (negsuc (2 ^ 31 - 1)) a && leb_ℤ a (pos (2 ^ 31 - 1)) then some a else none

unfoldable pub add_int : (a b : ℤ) → Option ℤ
unfolding int
add_int a b = int (a +ℤ b)

unfoldable pub sub_int : (a b : ℤ) → Option ℤ
unfolding int
sub_int a b = int (a -ℤ b)

unfoldable pub get_right : Rect → Option ℤ
unfolding add_int
get_right r = add_int r.x r.xsize

unfoldable pub get_bottom : Rect → Option ℤ
unfolding add_int
get_bottom r = add_int r.y r.ysize

abbrev pub empty_rect : Rect
empty_rect = record { x = pos 0; y = pos 0; xsize = pos 0; ysize = pos 0 }

-- One direction of the intersection: where it begins, and its size.
unfoldable pub common_start : (a b : ℤ) → ℤ
common_start a b = max_ℤ a b

unfoldable pub common_size : (a asize b bsize : ℤ) → Option ℤ
unfolding common_start add_int sub_int
common_size a asize b bsize = do
  end1 ← add_int asize a
  size1 ← sub_int end1 (common_start a b)
  end2 ← add_int bsize b
  size2 ← sub_int end2 (common_start a b)
  some (max_ℤ (min_ℤ size1 size2) (pos 0))

unfoldable pub get_intersection_with : Rect → Rect → Option Rect
unfolding common_size
get_intersection_with r t =
    let common = (do
      w ← common_size r.x r.xsize t.x t.xsize
      h ← common_size r.y r.ysize t.y t.ysize
      some (record { x = common_start r.x t.x; y = common_start r.y t.y; xsize = w; ysize = h })) in
    if ltb_ℤ r.xsize (pos 0)
      || ltb_ℤ r.ysize (pos 0)
      || ltb_ℤ t.xsize (pos 0)
      || ltb_ℤ t.ysize (pos 0)
    then some empty_rect
    else common

-- One direction of the union.
unfoldable pub joint_size : (a asize b bsize : ℤ) → Option ℤ
unfolding add_int sub_int
joint_size a asize b bsize = do
  end1 ← add_int a asize
  end2 ← add_int b bsize
  sub_int (max_ℤ end1 end2) (min_ℤ a b)

unfoldable pub get_union_with : Rect → Rect → Option Rect
unfolding joint_size
get_union_with r s = do
  w ← joint_size r.x r.xsize s.x s.xsize
  h ← joint_size r.y r.ysize s.y s.ysize
  some (record { x = min_ℤ r.x s.x; y = min_ℤ r.y s.y; xsize = w; ysize = h })

-- One direction of `IsPointInRect`; the sum is computed only behind the first test.
unfoldable pub within : (p start size : ℤ) → Option Bool
unfolding add_int
within p start size =
    let below = (do end ← add_int start size; some (ltb_ℤ p end)) in
    if leb_ℤ start p then below else some false

unfoldable pub is_point_in_rect : (px py : ℤ) → Rect → Option Bool
unfolding within
is_point_in_rect px py r = do
  in_x ← within px r.x r.xsize
  if in_x then within py r.y r.ysize else some false

unfoldable pub is_equal : Rect → Rect → Bool
is_equal r s = eqb_ℤ r.x s.x && eqb_ℤ r.y s.y && eqb_ℤ r.xsize s.xsize && eqb_ℤ r.ysize s.ysize

unfoldable pub is_empty_rect : Rect → Bool
unfolding is_equal
is_empty_rect r = is_equal r empty_rect
