-- ===== src/Mmu/Tables.antt =====
-- The entries that the loops over a table write, and what they leave alone.
use arm64_os.Base.Maps.{update}
use arm64_os.Base.{
  ℕ, zero, suc, ◌+◌, ◌-◌, ◌*◌, ◌≤◌, ◌<◌, ◌≡◌, refl, arith, List, [], ◌∷◌, ◌++◌, ◌⊎◌, inl, inr, ◌∙◌,
  ap,
}
use arm64_os.Mmu.{
  Words, PtMemRange, make_page_pte, make_table_pte, map_page_ptes, page_lo_attr, table_ptes,
  map_ranges,
}

-- no entry of the `n` at `pt`
abbrev pub IsBeside : ℕ → ℕ → ℕ → Type 0
IsBeside pt n a = (a < pt) ⊎ (pt + 8 * n ≤ a)

update_beside : (w : Words) (pt n v a : ℕ) → IsBeside pt (suc n) a → update w pt v a ≡ w a
update_beside w pt n v a (inl lt) = ground arith
update_beside w pt n v a (inr le) = ground arith

IsBeside-rest : (pt n a : ℕ) → IsBeside pt (suc n) a → IsBeside (pt + 8) n a
IsBeside-rest pt n a (inl lt) = inl (omega arith)
IsBeside-rest pt n a (inr le) = inr (omega arith)

pub map_page_ptes-beside :
    (n pt page lo : ℕ) (w : Words) (a : ℕ) → IsBeside pt n a → map_page_ptes pt page n lo w a ≡ w a
unfolding map_page_ptes
map_page_ptes-beside zero pt page lo w a h = refl
map_page_ptes-beside (suc n) pt page lo w a h =
    map_page_ptes-beside n (pt + 8) (page + 1) lo (update w pt (make_page_pte 0 page lo)) a
      (IsBeside-rest pt n a h)
    ∙ update_beside w pt n (make_page_pte 0 page lo) a h

pub table_ptes-beside :
    (n pt next : ℕ) (w : Words) (a : ℕ) → IsBeside pt n a → table_ptes pt n next w a ≡ w a
unfolding table_ptes
table_ptes-beside zero pt next w a h = refl
table_ptes-beside (suc n) pt next w a h =
    table_ptes-beside n (pt + 8) (next + 1) (update w pt (make_table_pte 0 0 0 0 next)) a
      (IsBeside-rest pt n a h)
    ∙ update_beside w pt n (make_table_pte 0 0 0 0 next) a h

update_at : (w : Words) (pt v : ℕ) → update w pt v (pt + 8 * 0) ≡ v
update_at w pt v = ground arith

pub map_page_ptes-at :
    (n i pt page lo : ℕ) (w : Words)
    → i < n
    → map_page_ptes pt page n lo w (pt + 8 * i) ≡ make_page_pte 0 (page + i) lo
unfolding map_page_ptes
map_page_ptes-at zero i pt page lo w h = absurd (omega arith)
map_page_ptes-at (suc n) zero pt page lo w h =
    map_page_ptes-beside n (pt + 8) (page + 1) lo (update w pt (make_page_pte 0 page lo))
      (pt + 8 * 0) (inl (omega arith))
    ∙ update_at w pt (make_page_pte 0 page lo)
    ∙ ap (λ (p : ℕ). make_page_pte 0 p lo) (omega arith)
map_page_ptes-at (suc n) (suc i) pt page lo w h =
    let place : pt + 8 * suc i ≡ (pt + 8) + 8 * i = omega arith in
    rw place (
      map_page_ptes-at n i (pt + 8) (page + 1) lo (update w pt (make_page_pte 0 page lo))
        (omega arith)
      ∙ ap (λ (p : ℕ). make_page_pte 0 p lo) (omega arith))

pub table_ptes-at :
    (n i pt next : ℕ) (w : Words)
    → i < n
    → table_ptes pt n next w (pt + 8 * i) ≡ make_table_pte 0 0 0 0 (next + i)
unfolding table_ptes
table_ptes-at zero i pt next w h = absurd (omega arith)
table_ptes-at (suc n) zero pt next w h =
    table_ptes-beside n (pt + 8) (next + 1) (update w pt (make_table_pte 0 0 0 0 next)) (pt + 8 * 0)
      (inl (omega arith))
    ∙ update_at w pt (make_table_pte 0 0 0 0 next)
    ∙ ap (λ (p : ℕ). make_table_pte 0 0 0 0 p) (omega arith)
table_ptes-at (suc n) (suc i) pt next w h =
    let place : pt + 8 * suc i ≡ (pt + 8) + 8 * i = omega arith in
    rw place (
      table_ptes-at n i (pt + 8) (next + 1) (update w pt (make_table_pte 0 0 0 0 next))
        (omega arith)
      ∙ ap (λ (p : ℕ). make_table_pte 0 0 0 0 p) (omega arith))

-- the virtual page is one of the range, or none of it
abbrev pub IsIn : PtMemRange → ℕ → Type 0
IsIn r p = (r.va_start_page ≤ p) × (p < r.va_start_page + r.num_pages)

abbrev pub IsOff : ℕ → List PtMemRange → Type 0
IsOff p [] = Unit
IsOff p (r ∷ rs) = ((p < r.va_start_page) ⊎ (r.va_start_page + r.num_pages ≤ p)) × IsOff p rs

off-IsBeside :
    (pt p : ℕ) (r : PtMemRange)
    → (p < r.va_start_page) ⊎ (r.va_start_page + r.num_pages ≤ p)
    → IsBeside (pt + 8 * r.va_start_page) r.num_pages (pt + 8 * p)
off-IsBeside pt p r (inl lt) = inl (omega arith)
off-IsBeside pt p r (inr le) = inr (omega arith)

pub map_ranges-off :
    (rs : List PtMemRange) (pt p : ℕ) (w : Words)
    → IsOff p rs
    → map_ranges pt rs w (pt + 8 * p) ≡ w (pt + 8 * p)
unfolding map_ranges
map_ranges-off [] pt p w h = refl
map_ranges-off (r ∷ rs) pt p w h =
    map_ranges-off rs pt p _ h.1
    ∙ map_page_ptes-beside r.num_pages (pt + 8 * r.va_start_page) r.pa_start_page
        (page_lo_attr r.mem_attr_idx r.sh_bits) w (pt + 8 * p) (off-IsBeside pt p r h.0)

-- Nothing below the table of pages is written.
pub map_ranges-below :
    (rs : List PtMemRange) (pt a : ℕ) (w : Words) → a < pt → map_ranges pt rs w a ≡ w a
unfolding map_ranges
map_ranges-below [] pt a w h = refl
map_ranges-below (r ∷ rs) pt a w h =
    map_ranges-below rs pt a _ h
    ∙ map_page_ptes-beside r.num_pages (pt + 8 * r.va_start_page) r.pa_start_page
        (page_lo_attr r.mem_attr_idx r.sh_bits) w a (inl (omega arith))

-- The last range that has the page decides.
pub map_ranges-at :
    (before : List PtMemRange) (r : PtMemRange) (after : List PtMemRange) (pt p : ℕ) (w : Words)
    → IsIn r p
    → IsOff p after
    → map_ranges pt (before ++ (r ∷ after)) w (pt + 8 * p)
      ≡ make_page_pte 0
          (r.pa_start_page + (p - r.va_start_page))
          (page_lo_attr r.mem_attr_idx r.sh_bits)
unfolding map_ranges
map_ranges-at [] r after pt p w (lo, hi) off =
    let place : pt + 8 * p ≡ (pt + 8 * r.va_start_page) + 8 * (p - r.va_start_page) = omega arith in
    map_ranges-off after pt p _ off
    ∙ ap
        (map_page_ptes (pt + 8 * r.va_start_page) r.pa_start_page r.num_pages
          (page_lo_attr r.mem_attr_idx r.sh_bits) w)
        place
    ∙ map_page_ptes-at r.num_pages (p - r.va_start_page) (pt + 8 * r.va_start_page) r.pa_start_page
        (page_lo_attr r.mem_attr_idx r.sh_bits) w (omega arith)
map_ranges-at (b ∷ before) r after pt p w h off = map_ranges-at before r after pt p _ h off
