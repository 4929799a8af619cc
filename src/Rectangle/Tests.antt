-- ===== src/Rectangle/Tests.antt =====
-- The cases of test/test.c that cut a side off, and one that cuts all four.
use arm64_os.Base.{ℕ, ◌≡◌, refl, arith, true, Option, none, some, ◌&&◌, not}
use arm64_os.Rectangle.{
  Segment, Rect, Region, Regions, low, mid, bias, check_sides, clip_segment,
  get_intersection_regions, cut_start,
}
use arm64_os.Rectangle.Segments.{IsSegment, covers}
use arm64_os.Rectangle.Regions.{
  covers_rect, covers_region, covers_outside, get_intersection_regions-IsDividedAt,
  clip_segment-covers,
}

abbrev segment : ℕ → ℕ → Segment
segment offset size = record { offset = offset; size = size }

-- 20 by 20 at (0, 0)
abbrev square : Rect
square = record { x = segment 0 20; y = segment 0 20 }

-- 20 by 20 at (-1, 0)
abbrev to_the_left : Rect
to_the_left = record { x = segment 0xffffffff 20; y = segment 0 20 }

-- 40 by 40 at (-10, -10)
abbrev around : Rect
around = record { x = segment 0xfffffff6 40; y = segment 0xfffffff6 40 }

-- 20 by 20 at (-20, 0)
abbrev beside : Rect
beside = record { x = segment 0xffffffec 20; y = segment 0 20 }

abbrev left_and_middle : Option Regions → Option (Region × Region)
left_and_middle none = none
left_and_middle (some rs) = some (rs low mid, rs mid mid)

clip_left :
    left_and_middle (get_intersection_regions to_the_left square)
    ≡ some (
      record { r = record { x = segment 0xffffffff 1; y = segment 0 20 }; exists = true },
      record { r = record { x = segment 0 19; y = segment 0 20 }; exists = true },
    )
unfolding get_intersection_regions cut_start
clip_left = refl

out_of_bounds : get_intersection_regions beside square ≡ none
unfolding get_intersection_regions cut_start
out_of_bounds = refl

square_IsSegment : IsSegment (segment 0 20)
unfolding bias
square_IsSegment = record {
  offset_below = omega arith;
  size_below = omega arith;
  end_below = omega arith;
}

around_IsSegment : IsSegment (segment 0xfffffff6 40)
unfolding bias
around_IsSegment = record {
  offset_below = omega arith;
  size_below = omega arith;
  end_below = omega arith;
}

abbrev divided : Regions
divided = check_sides true true true true around square

get_intersection_regions-IsDividedAt_example :
    (covers_region (divided mid mid) 0x80000013 0x7fffffff
      ≡ (covers_rect around 0x80000013 0x7fffffff && covers_rect square 0x80000013 0x7fffffff))
    × (covers_outside divided 0x80000013 0x7fffffff ≡ (
        covers_rect around 0x80000013 0x7fffffff && not (covers_rect square 0x80000013 0x7fffffff)))
unfolding get_intersection_regions cut_start
get_intersection_regions-IsDividedAt_example =
    get_intersection_regions-IsDividedAt around square 0x80000013 0x7fffffff
      (record { x_IsSegment = around_IsSegment; y_IsSegment = around_IsSegment })
      (record { x_IsSegment = square_IsSegment; y_IsSegment = square_IsSegment })

clip_segment-covers_example :
    clip_segment (segment 0 20) (segment 0 20) ≡ (0xffffffff, segment 0 20)
unfolding covers bias
clip_segment-covers_example =
    clip_segment-covers (segment 0 20) (segment 0 20) 0x80000005 square_IsSegment square_IsSegment
      (omega arith) (omega arith) refl
