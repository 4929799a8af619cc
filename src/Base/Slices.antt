-- ===== src/Base/Slices.antt =====
-- The part of a buffer between two offsets, and a block copy into a buffer.
use arm64_os.Base.Lists.{length, take, drop, get_or, set}
use Prim.Native.Nat.{ℕ, zero, suc, ◌+◌, ◌≤◌, ◌<◌}
use Prim.Native.Nat.add
use mathlib.Core.Path.{◌≡◌, refl, ap}
use mathlib.Core.List.{List, [], ◌∷◌, ◌++◌}
use native.Mathlib.Omega.{arith}

module _ {ℓ} {A : Type ℓ} where
  -- the `n` cells of `m` from offset `i`
  abbrev pub slice : List A → ℕ → ℕ → List A
  slice m i n = take n (drop i m)

  -- copy `src` over `m` from offset `i`, nothing past the end of `m`
  abbrev pub blit : List A → ℕ → List A → List A
  blit [] i src = []
  blit (x ∷ m) zero [] = x ∷ m
  blit (x ∷ m) zero (s ∷ src) = s ∷ blit m zero src
  blit (x ∷ m) (suc i) src = x ∷ blit m i src

  pub length-blit : (m : List A) (i : ℕ) (src : List A) → length (blit m i src) ≡ length m
  length-blit [] i src = refl
  length-blit (x ∷ m) zero [] = refl
  length-blit (x ∷ m) zero (s ∷ src) = ap suc (length-blit m zero src)
  length-blit (x ∷ m) (suc i) src = ap suc (length-blit m i src)

  blit_start : (m src : List A) → length src ≤ length m → take (length src) (blit m 0 src) ≡ src
  blit_start [] [] h = refl
  blit_start [] (s ∷ src) h = absurd (omega arith)
  blit_start (x ∷ m) [] h = refl
  blit_start (x ∷ m) (s ∷ src) h = ap (λ l. s ∷ l) (blit_start m src (omega arith))

  -- What was copied is read back.
  pub slice-blit_self :
      (m : List A) (i : ℕ) (src : List A)
      → i + length src ≤ length m
      → slice (blit m i src) i (length src) ≡ src
  slice-blit_self m zero src h = blit_start m src (omega arith)
  slice-blit_self [] (suc i) src h = absurd (omega arith)
  slice-blit_self (x ∷ m) (suc i) src h = slice-blit_self m i src (omega arith)

  -- The cells below the copied block are kept.
  pub slice-blit_below :
      (m : List A) (i : ℕ) (src : List A) (j n : ℕ)
      → j + n ≤ i
      → slice (blit m i src) j n ≡ slice m j n
  slice-blit_below [] i src j n h = refl
  slice-blit_below (x ∷ m) zero src zero zero h = refl
  slice-blit_below (x ∷ m) zero src zero (suc n) h = absurd (omega arith)
  slice-blit_below (x ∷ m) zero src (suc j) n h = absurd (omega arith)
  slice-blit_below (x ∷ m) (suc i) src zero zero h = refl
  slice-blit_below (x ∷ m) (suc i) src zero (suc n) h =
      ap (λ l. x ∷ l) (slice-blit_below m i src 0 n (omega arith))
  slice-blit_below (x ∷ m) (suc i) src (suc j) n h = slice-blit_below m i src j n (omega arith)

  drop-blit_start : (m src : List A) (j : ℕ) → length src ≤ j → drop j (blit m 0 src) ≡ drop j m
  drop-blit_start [] src j h = refl
  drop-blit_start (x ∷ m) [] j h = refl
  drop-blit_start (x ∷ m) (s ∷ src) zero h = absurd (omega arith)
  drop-blit_start (x ∷ m) (s ∷ src) (suc j) h = drop-blit_start m src j (omega arith)

  -- The cells above the copied block are kept.
  pub drop-blit_above :
      (m : List A) (i : ℕ) (src : List A) (j : ℕ)
      → i + length src ≤ j
      → drop j (blit m i src) ≡ drop j m
  drop-blit_above m zero src j h = drop-blit_start m src j (omega arith)
  drop-blit_above [] (suc i) src j h = refl
  drop-blit_above (x ∷ m) (suc i) src zero h = absurd (omega arith)
  drop-blit_above (x ∷ m) (suc i) src (suc j) h = drop-blit_above m i src j (omega arith)

  pub length-slice : (m : List A) (i n : ℕ) → i + n ≤ length m → length (slice m i n) ≡ n
  length-slice m zero zero h = refl
  length-slice [] zero (suc n) h = absurd (omega arith)
  length-slice (x ∷ m) zero (suc n) h = ap suc (length-slice m zero n (omega arith))
  length-slice [] (suc i) n h = absurd (omega arith)
  length-slice (x ∷ m) (suc i) n h = length-slice m i n (omega arith)

  pub take-add : (a b : ℕ) (m : List A) → take (a + b) m ≡ take a m ++ take b (drop a m)
  take-add zero b m = ap (λ k. take k m) (omega arith)
  take-add (suc a) b [] = rw (add.suc a b) (take_nil b)
    where
      take_nil : (k : ℕ) → [] ≡ take {A = A} k []
      take_nil zero = refl
      take_nil (suc k) = refl
  take-add (suc a) b (x ∷ m) = rw (add.suc a b) (ap (λ l. x ∷ l) (take-add a b m))

  pub drop-add : (i a : ℕ) (m : List A) → drop (i + a) m ≡ drop a (drop i m)
  drop-add zero a m = ap (λ k. drop k m) (omega arith)
  drop-add (suc i) a [] = rw (add.suc i a) (drop_nil a)
    where
      drop_nil : (k : ℕ) → [] ≡ drop {A = A} k []
      drop_nil zero = refl
      drop_nil (suc k) = refl
  drop-add (suc i) a (x ∷ m) = rw (add.suc i a) (drop-add i a m)

  -- A slice is cut in two at any of its places.
  pub slice-add : (m : List A) (i a b : ℕ) → slice m i (a + b) ≡ slice m i a ++ slice m (i + a) b
  slice-add m i a b = rw drop-add (take-add a b (drop i m))

  pub slice_step :
      (m : List A) (i n : ℕ) (d : A)
      → i < length m
      → slice m i (suc n) ≡ get_or m i d ∷ slice m (suc i) n
  slice_step [] i n d h = absurd (omega arith)
  slice_step (x ∷ m) zero n d h = refl
  slice_step (x ∷ m) (suc i) n d h = slice_step m i n d (omega arith)

  pub blit-set :
      (m : List A) (i : ℕ) (v : A) (src : List A)
      → blit (set m i v) (suc i) src ≡ blit m i (v ∷ src)
  blit-set [] i v src = refl
  blit-set (x ∷ m) zero v src = refl
  blit-set (x ∷ m) (suc i) v src = ap (λ l. x ∷ l) (blit-set m i v src)

  pub blit-nil : (m : List A) (i : ℕ) → blit m i [] ≡ m
  blit-nil [] i = refl
  blit-nil (x ∷ m) zero = refl
  blit-nil (x ∷ m) (suc i) = ap (λ l. x ∷ l) (blit-nil m i)
