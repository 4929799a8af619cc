-- ===== src/Rectangle/Segments.antt =====
-- The positions that a segment covers, counted from the smallest `int` on.
use arm64_os.Base.{
  ℕ, ◌+◌, ◌-◌, ◌^◌, ◌≤◌, ◌<◌, ◌≡◌, refl, arith, Bool, true, false, ltb, leb, ◌&&◌, if◌then◌else◌,
  Bool-cases, inl, inr, ◌∙◌,
}
use arm64_os.Rectangle.{Segment, bias, lt_int, end_of, before, behind, cut_start, cut_end}
use arm64_os.Rectangle.Words.{
  bias_below, bias-add_word, sub_word-bias, sub_word_lem, add_word_below,
}

-- the words of a segment, whose end is an `int`
pub record IsSegment (s : Segment) : Type 0 where
  pub offset_below : s.offset < 2 ^ 32
  pub size_below : s.size < 2 ^ 32
  pub end_below : bias s.offset + s.size < 2 ^ 32

unfoldable pub covers : Segment → ℕ → Bool
covers s p = leb (bias s.offset) p && ltb p (bias s.offset + s.size)

pub bias_end : (s : Segment) → IsSegment s → bias (end_of s) ≡ bias s.offset + s.size
bias_end s h = bias-add_word s.offset s.size h.end_below

module _ (s0 s1 : Segment) (h0 : IsSegment s0) (h1 : IsSegment s1) where
  before-size :
      lt_int s0.offset s1.offset ≡ true → (before s0 s1).size ≡ bias s1.offset - bias s0.offset
  unfolding before
  before-size h = sub_word-bias s0.offset s1.offset h0.offset_below h1.offset_below (ground arith)

  behind-size :
      lt_int (end_of s1) (end_of s0) ≡ true
      → (behind s0 s1).size ≡ (bias s0.offset + s0.size) - (bias s1.offset + s1.size)
  unfolding behind
  behind-size h =
      let e0 = bias_end s0 h0 in
      let e1 = bias_end s1 h1 in
      let le : bias (end_of s1) ≤ bias (end_of s0) = ground arith in
      sub_word-bias (end_of s1) (end_of s0) (add_word_below s1.offset s1.size)
        (add_word_below s0.offset s0.size) le
      ∙ omega arith

-- the middle part, by whether there are parts before and behind it
abbrev pub middle : Bool → Bool → Segment → Segment → Segment
middle left right s0 s1 =
    let s = if left then cut_start (before s0 s1) s0 else s0 in
    if right then cut_end (behind s0 s1) s else s

-- a segment of known numbers
abbrev Is : Segment → ℕ → ℕ → Type 0
Is s a n = (bias s.offset ≡ a) × (s.size ≡ n)

covers-Is : (s : Segment) (a n p : ℕ) → Is s a n → covers s p ≡ (leb a p && ltb p (a + n))
unfolding covers
covers-Is s a n p (same_a, same_n) = rw (same_a, same_n) refl

module _ (s0 s1 : Segment) (h0 : IsSegment s0) (h1 : IsSegment s1)
    (meet : (bias s1.offset < bias s0.offset + s0.size)
      × (bias s0.offset < bias s1.offset + s1.size)) where
  cut_start-Is :
      lt_int s0.offset s1.offset ≡ true
      → Is
          (cut_start (before s0 s1) s0)
          (bias s1.offset)
          (bias s0.offset + s0.size - bias s1.offset)
  unfolding cut_start
  cut_start-Is h =
      let e = before-size s0 s1 h0 h1 h in
      let le : bias s0.offset < bias s1.offset = ground arith in
      let small : (before s0 s1).size ≤ s0.size = omega (arith, meet.0) in
      let b = bias_below s1.offset in
      let shifted = bias-add_word s0.offset (before s0 s1).size (omega arith) in
      let left = sub_word_lem s0.size (before s0 s1).size h0.size_below small in
      (omega arith, omega arith)

  cut_end-Is :
      (s : Segment) (a : ℕ)
      → Is s a (bias s0.offset + s0.size - a)
      → a ≤ bias s1.offset + s1.size
      → bias s0.offset ≤ a
      → lt_int (end_of s1) (end_of s0) ≡ true
      → Is (cut_end (behind s0 s1) s) a (bias s1.offset + s1.size - a)
  unfolding cut_end
  cut_end-Is s a (same_a, same_n) lt le h =
      let e = behind-size s0 s1 h0 h1 h in
      let e0 = bias_end s0 h0 in
      let e1 = bias_end s1 h1 in
      let far : bias (end_of s1) < bias (end_of s0) = ground arith in
      let size_0 = h0.size_below in
      let small : (behind s0 s1).size ≤ s.size = omega arith in
      let below : s.size < 2 ^ 32 = omega arith in
      let left = sub_word_lem s.size (behind s0 s1).size below small in (same_a, omega arith)

  before-Is :
      lt_int s0.offset s1.offset ≡ true
      → Is (before s0 s1) (bias s0.offset) (bias s1.offset - bias s0.offset)
  unfolding before
  before-Is h = (refl, before-size s0 s1 h0 h1 h)

  inside :
      (p : ℕ)
      → bias s0.offset < bias s1.offset
      → (leb (bias s0.offset) p && ltb p (bias s0.offset + (bias s1.offset - bias s0.offset)))
        ≡ ((leb (bias s0.offset) p && ltb p (bias s0.offset + s0.size)) && ltb p (bias s1.offset))
  inside p le = let near = meet.0 in ground arith

  behind-Is :
      lt_int (end_of s1) (end_of s0) ≡ true
      → Is
          (behind s0 s1)
          (bias s1.offset + s1.size)
          (bias s0.offset + s0.size - (bias s1.offset + s1.size))
  unfolding behind
  behind-Is h = (bias_end s1 h1, behind-size s0 s1 h0 h1 h)

  -- Whether a position lies in the part of `s0` before `s1`, behind it, and in the middle.
  pub before-covers :
      (p : ℕ)
      → (lt_int s0.offset s1.offset && covers (before s0 s1) p)
        ≡ (covers s0 p && ltb p (bias s1.offset))
  before-covers p = elim (Bool-cases (lt_int s0.offset s1.offset)) [
    | inl h ↦
        let le : bias s0.offset < bias s1.offset = ground arith in
        let part =
          covers-Is (before s0 s1) (bias s0.offset) (bias s1.offset - bias s0.offset) p
            (before-Is h) in
        rw (h, part, covers-Is s0 (bias s0.offset) s0.size p (refl, refl)) (inside p le)
    | inr h ↦
        let le : bias s1.offset ≤ bias s0.offset = ground arith in
        rw (h, covers-Is s0 (bias s0.offset) s0.size p (refl, refl)) (ground arith)
  ]

  pub behind-covers :
      (p : ℕ)
      → (lt_int (end_of s1) (end_of s0) && covers (behind s0 s1) p)
        ≡ (covers s0 p && leb (bias s1.offset + s1.size) p)
  behind-covers p =
      let e0 = bias_end s0 h0 in
      let e1 = bias_end s1 h1 in
      let near = meet.1 in
      rw (covers-Is s0 (bias s0.offset) s0.size p (refl, refl))
        (elim (Bool-cases (lt_int (end_of s1) (end_of s0))) [
          | inl h ↦
              rw
                (
                  h,
                  covers-Is (behind s0 s1) (bias s1.offset + s1.size)
                      (bias s0.offset + s0.size - (bias s1.offset + s1.size)) p (behind-Is h),
                )
                (ground arith)
          | inr h ↦ rw h (ground arith)
        ])

  middle-Is :
      (left right : Bool)
      → lt_int s0.offset s1.offset ≡ left
      → lt_int (end_of s1) (end_of s0) ≡ right
      → Is (middle left right s0 s1) (if left then bias s1.offset else bias s0.offset) (
          (if right then bias s1.offset + s1.size else bias s0.offset + s0.size)
          - (if left then bias s1.offset else bias s0.offset))
  middle-Is false false l r = (refl, omega arith)
  middle-Is true false l r = cut_start-Is l
  middle-Is false true l r =
      let near = meet.1 in
      cut_end-Is s0 (bias s0.offset) (refl, omega arith) (omega (arith, near)) (omega arith) r
  middle-Is true true l r =
      let le : bias s0.offset ≤ bias s1.offset = ground arith in
      cut_end-Is (cut_start (before s0 s1) s0) (bias s1.offset) (cut_start-Is l) (omega arith) le r

  pub middle-covers :
      (p : ℕ)
      → covers (middle (lt_int s0.offset s1.offset) (lt_int (end_of s1) (end_of s0)) s0 s1) p
        ≡ (covers s0 p && covers s1 p)
  middle-covers p =
      let e0 = bias_end s0 h0 in
      let e1 = bias_end s1 h1 in
      let near = meet.0 in
      let near' = meet.1 in
      rw
        (
          covers-Is (middle (lt_int s0.offset s1.offset) (lt_int (end_of s1) (end_of s0)) s0 s1)
              (if lt_int s0.offset s1.offset then bias s1.offset else bias s0.offset)
              ((if lt_int (end_of s1) (end_of s0)
                  then bias s1.offset + s1.size
                  else bias s0.offset + s0.size)
                - (if lt_int s0.offset s1.offset then bias s1.offset else bias s0.offset))
              p (middle-Is (lt_int s0.offset s1.offset) (lt_int (end_of s1) (end_of s0)) refl refl),
          covers-Is s0 (bias s0.offset) s0.size p (refl, refl),
          covers-Is s1 (bias s1.offset) s1.size p (refl, refl),
        )
        (ground arith)
