-- ===== src/Rectangle.antt =====
-- rectangle.c and include/rectangle.h: segments, and the regions of a rectangle that stand inside and
-- outside of a boundary. An `int` or an `unsigned` is its word of 32 bits.
pub mod Words
pub mod Segments
pub mod Regions
mod Tests
use arm64_os.Base.{
  ℕ, ◌+◌, ◌-◌, ◌%◌, ◌^◌, Bool, true, false, Option, none, some, ltb, leb, not, ◌&&◌, ◌||◌,
  if◌then◌else◌,
}

pub record Segment : Type 0 where
  pub offset : ℕ
  pub size : ℕ

pub record Rect : Type 0 where
  pub x : Segment
  pub y : Segment

pub record Region : Type 0 where
  pub r : Rect
  pub exists : Bool

-- a column or a row of the matrix of 3 by 3 regions
pub data Third : Type 0 where
  low : Third
  mid : Third
  high : Third

-- RGN(x, y)
abbrev pub Regions : Type 0
Regions = Third → Third → Region

unfoldable pub add_word : ℕ → ℕ → ℕ
add_word a b = (a + b) % 2 ^ 32

unfoldable pub sub_word : ℕ → ℕ → ℕ
sub_word a b = (a + 2 ^ 32 - b) % 2 ^ 32

-- the distance of an `int` from the smallest one
unfoldable pub bias : ℕ → ℕ
bias a = (a + 2 ^ 31) % 2 ^ 32

-- the comparison of two `int`
abbrev pub lt_int : ℕ → ℕ → Bool
lt_int a b = ltb (bias a) (bias b)

-- The result and the changed `s0`. A sum of an `int` and an `unsigned` is unsigned, and so are the
-- comparisons of it; the offsets alone are compared as `int`.
unfoldable pub clip_segment : Segment → Segment → ℕ × Segment
unfolding add_word sub_word bias
clip_segment s0 s1 =
    let end0 = add_word s0.offset s0.size in
    let end1 = add_word s1.offset s1.size in
    let at_end : Segment = record { offset = s0.offset; size = sub_word end1 s0.offset } in
    let at_start : Segment = record {
      offset = s1.offset;
      size = sub_word s0.size (sub_word s1.offset s0.offset);
    } in
    if ltb s1.offset end0 || ltb end1 s0.offset
    then (0xffffffff, s0)
    else if lt_int s1.offset s0.offset
    then (if ltb end1 end0 then (1, at_end) else (1, s0))
    else if lt_int s0.offset s1.offset
    then (1, at_start)
    else (0, s0)

abbrev pub no_segment : Segment
no_segment = record { offset = 0; size = 0 }

-- the matrix before the four sides are looked at
abbrev pub start : Rect → Regions
start r0 low low = record { r = record { x = no_segment; y = no_segment }; exists = false }
start r0 low mid = record { r = record { x = no_segment; y = r0.y }; exists = false }
start r0 low high = record { r = record { x = no_segment; y = no_segment }; exists = false }
start r0 mid low = record { r = record { x = r0.x; y = no_segment }; exists = false }
start r0 mid mid = record { r = r0; exists = true }
start r0 mid high = record { r = record { x = r0.x; y = no_segment }; exists = false }
start r0 high low = record { r = record { x = no_segment; y = no_segment }; exists = false }
start r0 high mid = record { r = record { x = no_segment; y = r0.y }; exists = false }
start r0 high high = record { r = record { x = no_segment; y = no_segment }; exists = false }

abbrev pub with_x : Segment → Bool → Region → Region
with_x s there g = record { r = record { x = s; y = g.r.y }; exists = there }

abbrev pub with_y : Segment → Bool → Region → Region
with_y s there g = record { r = record { x = g.r.x; y = s }; exists = there }

abbrev pub removed : Region → Region
removed g = record { r = g.r; exists = false }

-- what is left of a segment when `side` is cut off at its start, or at its end
unfoldable pub cut_start : Segment → Segment → Segment
unfolding add_word sub_word
cut_start side s = record { offset = add_word s.offset side.size; size = sub_word s.size side.size }

unfoldable pub cut_end : Segment → Segment → Segment
unfolding sub_word
cut_end side s = record { offset = s.offset; size = sub_word s.size side.size }

abbrev pub left_side : Segment → Regions → Regions
left_side side rs low j = with_x side true (rs low j)
left_side side rs mid mid =
    with_x (cut_start side (rs mid mid).r.x) (rs mid mid).exists (rs mid mid)
left_side side rs mid low = rs mid low
left_side side rs mid high = rs mid high
left_side side rs high j = rs high j

abbrev pub right_side : Segment → Regions → Regions
right_side side rs high j = with_x side true (rs high j)
right_side side rs mid mid = with_x (cut_end side (rs mid mid).r.x) (rs mid mid).exists (rs mid mid)
right_side side rs mid low = rs mid low
right_side side rs mid high = rs mid high
right_side side rs low j = rs low j

abbrev pub top_side : Segment → Regions → Regions
top_side side rs low low = with_y side (rs low low).exists (rs low low)
top_side side rs mid low = with_y side true (rs mid low)
top_side side rs high low = with_y side (rs high low).exists (rs high low)
top_side side rs mid mid = with_y (cut_start side (rs mid mid).r.y) (rs mid mid).exists (rs mid mid)
top_side side rs low mid = rs low mid
top_side side rs high mid = rs high mid
top_side side rs i high = rs i high

abbrev pub no_top : Regions → Regions
no_top rs i low = removed (rs i low)
no_top rs i mid = rs i mid
no_top rs i high = rs i high

abbrev pub bottom_side : Segment → Regions → Regions
bottom_side side rs low high = with_y side (rs low high).exists (rs low high)
bottom_side side rs mid high = with_y side true (rs mid high)
bottom_side side rs high high = with_y side (rs high high).exists (rs high high)
bottom_side side rs mid mid =
    with_y (cut_end side (rs mid mid).r.y) (rs mid mid).exists (rs mid mid)
bottom_side side rs low mid = rs low mid
bottom_side side rs high mid = rs high mid
bottom_side side rs i low = rs i low

abbrev pub no_bottom : Regions → Regions
no_bottom rs i high = removed (rs i high)
no_bottom rs i mid = rs i mid
no_bottom rs i low = rs i low

-- the part of `s0` before `s1`, or behind it
unfoldable pub before : Segment → Segment → Segment
unfolding sub_word
before s0 s1 = record { offset = s0.offset; size = sub_word s1.offset s0.offset }

unfoldable pub behind : Segment → Segment → Segment
unfolding add_word sub_word
behind s0 s1 =
    let end0 = add_word s0.offset s0.size in
    let end1 = add_word s1.offset s1.size in record { offset = end1; size = sub_word end0 end1 }

-- the four checks of a side, whose tests are given
unfoldable pub check_sides : Bool → Bool → Bool → Bool → Rect → Rect → Regions
unfolding before behind
check_sides left right top bottom r0 r1 =
    let rs0 = start r0 in
    let rs1 = if left then left_side (before r0.x r1.x) rs0 else rs0 in
    let rs2 = if right then right_side (behind r0.x r1.x) rs1 else rs1 in
    let rs3 = if top then top_side (before r0.y r1.y) rs2 else no_top rs2 in
    if bottom then bottom_side (behind r0.y r1.y) rs3 else no_bottom rs3

-- the end of a segment, an `int`
abbrev pub end_of : Segment → ℕ
end_of s = add_word s.offset s.size

-- whether two segments have nothing in common
unfoldable pub apart : Segment → Segment → Bool
unfolding add_word bias
apart s0 s1 = not (lt_int s1.offset (end_of s0)) || not (lt_int s0.offset (end_of s1))

unfoldable pub get_intersection_regions : Rect → Rect → Option Regions
unfolding add_word bias apart check_sides
get_intersection_regions r0 r1 =
    if apart r0.x r1.x || apart r0.y r1.y
    then none
    else some (
        check_sides (lt_int r0.x.offset r1.x.offset) (lt_int (end_of r1.x) (end_of r0.x))
          (lt_int r0.y.offset r1.y.offset) (lt_int (end_of r1.y) (end_of r0.y)) r0 r1)
