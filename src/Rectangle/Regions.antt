-- ===== src/Rectangle/Regions.antt =====
-- What the regions of an intersection cover.
use arm64_os.Base.{
  ℕ, ◌+◌, ◌^◌, ◌<◌, ◌≡◌, arith, Bool, true, false, Option, none, some, ltb, leb, not, ◌&&◌, ◌||◌,
  Bool-cases, inl, inr, ◌∙◌,
}
use arm64_os.Rectangle.{
  Segment, Rect, Region, low, mid, high, Regions, add_word, bias, lt_int, end_of, before, behind,
  apart, check_sides, get_intersection_regions, clip_segment,
}
use arm64_os.Rectangle.Segments.{
  IsSegment, covers, bias_end, middle, before-covers, behind-covers, middle-covers,
}

abbrev pub covers_rect : Rect → ℕ → ℕ → Bool
covers_rect r p q = covers r.x p && covers r.y q

abbrev pub covers_region : Region → ℕ → ℕ → Bool
covers_region g p q = g.exists && covers_rect g.r p q

-- whether a position lies in a region other than the middle one
abbrev pub covers_outside : Regions → ℕ → ℕ → Bool
covers_outside rs p q =
    (covers_region (rs low low) p q
      || (covers_region (rs mid low) p q || covers_region (rs high low) p q))
    || ((covers_region (rs low mid) p q || covers_region (rs high mid) p q)
        || (covers_region (rs low high) p q
            || (covers_region (rs mid high) p q || covers_region (rs high high) p q)))

pub record IsRect (r : Rect) : Type 0 where
  pub x_IsSegment : IsSegment r.x
  pub y_IsSegment : IsSegment r.y

-- the same as of four strips, each as long as the rectangle
abbrev strips : Bool → Bool → Bool → Bool → Rect → Rect → ℕ → ℕ → Bool
strips left right top bottom r0 r1 p q =
    let l = left && covers (before r0.x r1.x) p in
    let r = right && covers (behind r0.x r1.x) p in
    let t = top && covers (before r0.y r1.y) q in
    let b = bottom && covers (behind r0.y r1.y) q in
    let a = covers r0.x p in
    let c = covers r0.y q in
    ((l && t) || ((a && t) || (r && t)))
    || (((l && c) || (r && c)) || ((l && b) || ((a && b) || (r && b))))

check_sides-strips :
    (left right top bottom : Bool) (r0 r1 : Rect) (p q : ℕ)
    → covers_outside (check_sides left right top bottom r0 r1) p q
      ≡ strips left right top bottom r0 r1 p q
unfolding check_sides
check_sides-strips left right top bottom r0 r1 p q = ground arith

check_sides-middle :
    (left right top bottom : Bool) (r0 r1 : Rect) (p q : ℕ)
    → covers_region (check_sides left right top bottom r0 r1 mid mid) p q
      ≡ (covers (middle left right r0.x r1.x) p && covers (middle top bottom r0.y r1.y) q)
unfolding check_sides
check_sides-middle left right top bottom r0 r1 p q = ground arith

tautology :
    (a l r c t b : Bool)
    → ((((a && l) && (c && t)) || ((a && (c && t)) || ((a && r) && (c && t))))
        || ((((a && l) && c) || ((a && r) && c))
            || (((a && l) && (c && b)) || ((a && (c && b)) || ((a && r) && (c && b))))))
      ≡ ((a && c) && not ((not l && not r) && (not t && not b)))
tautology a l r c t b = ground arith

covers-sides :
    (s : Segment) (p : ℕ)
    → covers s p ≡ (not (ltb p (bias s.offset)) && not (leb (bias s.offset + s.size) p))
unfolding covers
covers-sides s p = ground arith

meet :
    (s0 s1 : Segment)
    → IsSegment s0
    → IsSegment s1
    → apart s0 s1 ≡ false
    → (bias s1.offset < bias s0.offset + s0.size) × (bias s0.offset < bias s1.offset + s1.size)
unfolding apart
meet s0 s1 h0 h1 h =
    let e0 = bias_end s0 h0 in let e1 = bias_end s1 h1 in (ground arith, ground arith)

apart-covers :
    (s0 s1 : Segment) (p : ℕ)
    → IsSegment s0
    → IsSegment s1
    → apart s0 s1 ≡ true
    → (covers s0 p && covers s1 p) ≡ false
unfolding apart covers
apart-covers s0 s1 p h0 h1 h = let e0 = bias_end s0 h0 in let e1 = bias_end s1 h1 in ground arith

abbrev pub IsDividedAt : Rect → Rect → ℕ → ℕ → Option Regions → Type 0
IsDividedAt r0 r1 p q none = (covers_rect r0 p q && covers_rect r1 p q) ≡ false
IsDividedAt r0 r1 p q (some rs) =
    (covers_region (rs mid mid) p q ≡ (covers_rect r0 p q && covers_rect r1 p q))
    × (covers_outside rs p q ≡ (covers_rect r0 p q && not (covers_rect r1 p q)))

module _ (r0 r1 : Rect) (p q : ℕ) (h0 : IsRect r0) (h1 : IsRect r1) where
  strips-covers :
      apart r0.x r1.x ≡ false
      → apart r0.y r1.y ≡ false
      → strips
          (lt_int r0.x.offset r1.x.offset)
          (lt_int (end_of r1.x) (end_of r0.x))
          (lt_int r0.y.offset r1.y.offset)
          (lt_int (end_of r1.y) (end_of r0.y))
          r0
          r1
          p
          q
        ≡ (covers_rect r0 p q && not (covers_rect r1 p q))
  strips-covers far_x far_y =
      let mx = meet r0.x r1.x h0.x_IsSegment h1.x_IsSegment far_x in
      let my = meet r0.y r1.y h0.y_IsSegment h1.y_IsSegment far_y in
      rw
        (
          before-covers r0.x r1.x h0.x_IsSegment h1.x_IsSegment mx p,
          behind-covers r0.x r1.x h0.x_IsSegment h1.x_IsSegment mx p,
          before-covers r0.y r1.y h0.y_IsSegment h1.y_IsSegment my q,
          behind-covers r0.y r1.y h0.y_IsSegment h1.y_IsSegment my q,
          covers-sides r1.x p,
          covers-sides r1.y q,
        )
        (tautology (covers r0.x p) (ltb p (bias r1.x.offset)) (leb (bias r1.x.offset + r1.x.size) p)
          (covers r0.y q) (ltb q (bias r1.y.offset)) (leb (bias r1.y.offset + r1.y.size) q))

  sides-IsDividedAt :
      apart r0.x r1.x ≡ false
      → apart r0.y r1.y ≡ false
      → IsDividedAt r0 r1 p q (
          some (
            check_sides
              (lt_int r0.x.offset r1.x.offset)
              (lt_int (end_of r1.x) (end_of r0.x))
              (lt_int r0.y.offset r1.y.offset)
              (lt_int (end_of r1.y) (end_of r0.y))
              r0
              r1))
  sides-IsDividedAt far_x far_y =
      let mx = meet r0.x r1.x h0.x_IsSegment h1.x_IsSegment far_x in
      let my = meet r0.y r1.y h0.y_IsSegment h1.y_IsSegment far_y in
      (
        check_sides-middle (lt_int r0.x.offset r1.x.offset) (lt_int (end_of r1.x) (end_of r0.x))
              (lt_int r0.y.offset r1.y.offset) (lt_int (end_of r1.y) (end_of r0.y)) r0 r1 p q
            ∙ rw
                (
                  middle-covers r0.x r1.x h0.x_IsSegment h1.x_IsSegment mx p,
                  middle-covers r0.y r1.y h0.y_IsSegment h1.y_IsSegment my q,
                )
                (ground arith),
        check_sides-strips (lt_int r0.x.offset r1.x.offset) (lt_int (end_of r1.x) (end_of r0.x))
              (lt_int r0.y.offset r1.y.offset) (lt_int (end_of r1.y) (end_of r0.y)) r0 r1 p q
            ∙ strips-covers far_x far_y,
      )

-- For two rectangles whose ends are within `int`: where the code finds no intersection, no position
-- is in both. Where it finds one, the middle region covers exactly the positions that are in both,
-- and the other regions that exist, taken together, exactly those of `r0` that are not in `r1`.
pub get_intersection_regions-IsDividedAt :
    (r0 r1 : Rect) (p q : ℕ)
    → IsRect r0
    → IsRect r1
    → IsDividedAt r0 r1 p q (get_intersection_regions r0 r1)
unfolding get_intersection_regions
get_intersection_regions-IsDividedAt r0 r1 p q h0 h1 = elim (Bool-cases (apart r0.x r1.x)) [
  | inl far ↦
      let none_x = apart-covers r0.x r1.x p h0.x_IsSegment h1.x_IsSegment far in
      rw far (ground arith)
  | inr near ↦ elim (Bool-cases (apart r0.y r1.y)) [
    | inl far ↦
        let none_y = apart-covers r0.y r1.y q h0.y_IsSegment h1.y_IsSegment far in
        rw (near, far) (ground arith)
    | inr close ↦ rw (near, close) (sides-IsDividedAt r0 r1 p q h0 h1 near close)
  ]
]

-- Two segments with a common position, within the numbers from 0 on, are always reported as clipped
-- away, and the first stays as it was.
pub clip_segment-covers :
    (s0 s1 : Segment) (p : ℕ)
    → IsSegment s0
    → IsSegment s1
    → s0.offset < 2 ^ 31
    → s1.offset < 2 ^ 31
    → (covers s0 p && covers s1 p) ≡ true
    → clip_segment s0 s1 ≡ (0xffffffff, s0)
unfolding clip_segment covers add_word bias
clip_segment-covers s0 s1 p h0 h1 pos0 pos1 h =
    let b0 : bias s0.offset ≡ s0.offset + 2 ^ 31 = omega arith in
    let b1 : bias s1.offset ≡ s1.offset + 2 ^ 31 = omega arith in
    let end0 : add_word s0.offset s0.size ≡ s0.offset + s0.size = omega (arith, h0.end_below) in
    let common : s1.offset < s0.offset + s0.size = ground arith in rw end0 (ground arith)
