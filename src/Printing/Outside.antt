-- ===== src/Printing/Outside.antt =====
-- What the fills and the copies of memory leave alone.
use arm64_os.Base.{
  ℕ, zero, suc, ◌+◌, ◌-◌, ◌*◌, ◌/◌, ◌%◌, ◌^◌, leb, ◌≤◌, ◌<◌, ◌≡◌, refl, arith, Bool, true, false,
  if◌then◌else◌, Option, none, some, ◌==◌, not, ◌||◌, ◌⊎◌, inl, inr, ◌∙◌, Bool-cases, ◌>>=◌,
}
use arm64_os.Strings.{
  Memory, store, memset, copy_el, copy_els, copy_bytes, copy_rest, memcpy_8aligned, memcpy,
}
use arm64_os.Printing.Fields.{printf_strlcpy}

-- not one of the `n` places from `p` on
abbrev pub IsOut : ℕ → ℕ → ℕ → Type 0
IsOut p n q = (q < p) ⊎ (p + n ≤ q)

-- the memories agree outside of the `n` places from `p` on
abbrev pub Outside : ℕ → ℕ → Memory → Memory → Type 0
Outside p n m m' = (q : ℕ) → IsOut p n q → m' q ≡ m q

-- a property of the result, where there is one
abbrev pub AllSome {ℓ} : {A : Type ℓ} → (A → Type 0) → Option A → Type 0
AllSome P none = Unit
AllSome P (some a) = P a

pub AllSome-bind {ℓ κ} :
    {A : Type ℓ} {B : Type κ} (P : A → Type 0) (Q : B → Type 0) (o : Option A) (f : A → Option B)
    → AllSome P o
    → ((a : A) → P a → AllSome Q (f a))
    → AllSome Q (o >>= f)
AllSome-bind P Q none f h k = tt
AllSome-bind P Q (some a) f h k = k a h

-- a property of both branches
pub if_cases {ℓ} :
    {A : Type ℓ} (P : A → Type 0) (b : Bool) {x y : A} → P x → P y → P (if b then x else y)
if_cases P true hx hy = hx
if_cases P false hx hy = hy

pub store-Outside : (p n v : ℕ) (m : Memory) → 0 < n → Outside p n m (store p v m)
store-Outside p n v m pos_n q (inl lt) = ground arith
store-Outside p n v m pos_n q (inr le) = ground arith

narrow : (p n q : ℕ) → IsOut p (suc n) q → IsOut (suc p) n q
narrow p n q (inl lt) = inl (omega arith)
narrow p n q (inr le) = inr (omega arith)

pub memset-Outside : (p v n : ℕ) (m : Memory) → Outside p n m (memset p v n m)
unfolding memset
memset-Outside p v zero m q out = refl
memset-Outside p v (suc n) m q out =
    memset-Outside (suc p) v n (store p v m) q (narrow p n q out)
    ∙ store-Outside p (suc n) v m (omega arith) q out

el-Outside : (size p src : ℕ) (m : Memory) → Outside p size m (copy_el size p src m)
el-Outside size p src m q (inl lt) = ground arith
el-Outside size p src m q (inr le) = ground arith

later :
    (p i size n q : ℕ)
    → IsOut (p + i * size) (suc n * size) q
    → IsOut (p + suc i * size) (n * size) q
later p i size n q (inl lt) = inl (grind arith)
later p i size n q (inr le) = inr (grind arith)

now : (p i size n q : ℕ) → IsOut (p + i * size) (suc n * size) q → IsOut (p + i * size) size q
now p i size n q (inl lt) = inl lt
now p i size n q (inr le) = inr (grind arith)

els-Outside :
    (size p src i n : ℕ) (m : Memory)
    → Outside (p + i * size) (n * size) m (copy_els size p src i n m)
unfolding copy_els
els-Outside size p src i zero m q out = refl
els-Outside size p src i (suc n) m q out =
    els-Outside size p src (suc i) n (copy_el size (p + i * size) (src + i * size) m) q
      (later p i size n q out)
    ∙ el-Outside size (p + i * size) (src + i * size) m q (now p i size n q out)

within : (p k j n q : ℕ) → k + j ≤ n → IsOut p n q → IsOut (p + k) j q
within p k j n q le (inl lt) = inl (omega arith)
within p k j n q le (inr ge) = inr (omega arith)

els-Outside_within :
    (size p src i j n : ℕ) (m : Memory)
    → i * size + j * size ≤ n
    → Outside p n m (copy_els size p src i j m)
els-Outside_within size p src i j n m le q out =
    els-Outside size p src i j m q (within p (i * size) (j * size) n q le out)

-- a copy by elements, then one of the rest
both :
    (size p src n : ℕ) (m : Memory)
    → n / size * size ≤ n
    → Outside p n m (copy_bytes p src (n / size * size) n (copy_els size p src 0 (n / size) m))
both size p src n m le q out =
    els-Outside_within 1 p src (n / size * size) (n - n / size * size) n _ (omega arith) q out
    ∙ els-Outside_within size p src 0 (n / size) n m (omega arith) q out

too_long : (p src n : ℕ) (m : Memory) → leb (2 ^ 32) n ≡ true → memcpy p src n m ≡ none
unfolding memcpy memcpy_8aligned copy_rest
too_long p src n m big = elim (Bool-cases (not (p % 8 == 0) || not (src % 8 == 0))) [
  | inl odd8 ↦ elim (Bool-cases (not (p % 4 == 0) || not (src % 4 == 0))) [
    | inl odd4 ↦ rw (odd8, odd4, big) refl
    | inr even4 ↦ rw (odd8, even4, big) refl
  ]
  | inr even8 ↦
      let whole : n / 8 * 8 % 8 ≡ 0 = omega arith in
      elim (Bool-cases (leb (2 ^ 31) (n / 8 * 8 / 8))) [
        | inl more ↦ rw (even8, whole, more) refl
        | inr fewer ↦ rw (even8, whole, fewer, big) refl
      ]
]

by_parts :
    (p src n : ℕ) (m : Memory) → leb (2 ^ 32) n ≡ false → AllSome (Outside p n m) (memcpy p src n m)
unfolding memcpy memcpy_8aligned copy_rest
by_parts p src n m ends = elim (Bool-cases (not (p % 8 == 0) || not (src % 8 == 0))) [
  | inl odd8 ↦ elim (Bool-cases (not (p % 4 == 0) || not (src % 4 == 0))) [
    | inl odd4 ↦ rw (odd8, odd4, ends) (els-Outside_within 1 p src 0 (n - 0) n m (omega arith))
    | inr even4 ↦
        let quot : n / 4 * 4 % 2 ^ 32 / 4 ≡ n / 4 = ground arith in
        rw (odd8, even4, quot, ends) (both 4 p src n m (omega arith))
  ]
  | inr even8 ↦
      let quot : n / 8 * 8 / 8 ≡ n / 8 = omega arith in
      let whole : n / 8 * 8 % 8 ≡ 0 = omega arith in
      let fits : leb (2 ^ 31) (n / 8) ≡ false = ground arith in
      rw (even8, whole, quot, fits, ends) (both 8 p src n m (omega arith))
]

pub memcpy-Outside : (p src n : ℕ) (m : Memory) → AllSome (Outside p n m) (memcpy p src n m)
memcpy-Outside p src n m = elim (Bool-cases (leb (2 ^ 32) n)) [
  | inl big ↦ rw (too_long p src n m big) tt
  | inr ends ↦ by_parts p src n m ends
]

-- The copy of a text ends within its room.
pub printf_strlcpy-Outside :
    (p src n : ℕ) (m : Memory)
    → (p ≤ (printf_strlcpy p src n m).0)
      × ((printf_strlcpy p src n m).0 ≤ p + n)
      × Outside p n m (printf_strlcpy p src n m).1
unfolding printf_strlcpy
printf_strlcpy-Outside p src zero m = (omega arith, omega arith, λ q out. refl)
printf_strlcpy-Outside p src (suc n) m = elim (Bool-cases (m src == 0)) [
  | inl ends ↦ rw ends (omega arith, omega arith, λ q out. refl)
  | inr more ↦
      let (lo, hi, same) = printf_strlcpy-Outside (suc p) (suc src) n (store p (m src) m) in
      rw more (
        omega arith,
        omega arith,
        λ q out. same q (narrow p n q out) ∙ store-Outside p (suc n) (m src) m (omega arith) q out,
      )
]
