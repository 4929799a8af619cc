-- ===== src/Mmu/Descriptors.antt =====
-- The descriptors by arithmetic: the page number that a descriptor holds, its kind and its lower
-- attributes.
use Prim.Native.Nat.{bit_or}
use arm64_os.Base.Bits.{bit_or_fields, zero-bit_or}
use arm64_os.Base.{ℕ, ◌+◌, ◌*◌, ◌/◌, ◌%◌, ◌^◌, ◌<◌, ◌≡◌, arith, ◌∙◌, ap}
use arm64_os.Mmu.{pte_out_addr, make_page_pte, make_table_pte}

no_upper : (x : ℕ) → bit_or (0 % 2 ^ 13 * 2 ^ 51) x ≡ x
no_upper x = zero-bit_or x

make_page_pte-sum :
    (page lo : ℕ) → make_page_pte 0 page lo ≡ page % 2 ^ 40 * 2 ^ 12 + lo % 2 ^ 10 * 2 ^ 2 + 3
unfolding make_page_pte pte_out_addr
make_page_pte-sum page lo =
    let front = page % 2 ^ 40 * 2 ^ 10 + lo % 2 ^ 10 in
    let joined : page % 2 ^ 40 * 2 ^ 12 + lo % 2 ^ 10 * 2 ^ 2 ≡ front * 2 ^ 2 = omega arith in
    ap (λ (x : ℕ). bit_or (bit_or x (lo % 2 ^ 10 * 2 ^ 2)) 3) (zero-bit_or (page % 2 ^ 40 * 2 ^ 12))
    ∙ ap (λ (x : ℕ). bit_or x 3)
        (bit_or_fields 12 (page % 2 ^ 40) (lo % 2 ^ 10 * 2 ^ 2) (omega arith) ∙ joined)
    ∙ bit_or_fields 2 front 3 (omega arith)
    ∙ omega arith

make_table_pte-sum : (page : ℕ) → make_table_pte 0 0 0 0 page ≡ page % 2 ^ 40 * 2 ^ 12 + 3
unfolding make_table_pte pte_out_addr
make_table_pte-sum page =
    let joined : page % 2 ^ 40 * 2 ^ 12 ≡ page % 2 ^ 40 * 2 ^ 10 * 2 ^ 2 = omega arith in
    ap (λ (x : ℕ). bit_or x 3) (zero-bit_or (page % 2 ^ 40 * 2 ^ 12) ∙ joined)
    ∙ bit_or_fields 2 (page % 2 ^ 40 * 2 ^ 10) 3 (omega arith)
    ∙ omega arith

-- what the architecture reads from a descriptor that is valid: the page, and the lower attributes
abbrev pub page_of : ℕ → ℕ
page_of d = d / 2 ^ 12 % 2 ^ 36

abbrev pub lower_attributes : ℕ → ℕ
lower_attributes d = d / 2 ^ 2 % 2 ^ 10

abbrev pub is_table_or_page : ℕ → ℕ
is_table_or_page d = d % 4

pub make_page_pte_lem :
    (page lo : ℕ)
    → page < 2 ^ 36
    → (page_of (make_page_pte 0 page lo) ≡ page)
      × (lower_attributes (make_page_pte 0 page lo) ≡ lo % 2 ^ 10)
      × (is_table_or_page (make_page_pte 0 page lo) ≡ 3)
make_page_pte_lem page lo h =
    let sum = make_page_pte-sum page lo in
    (omega (arith, sum), omega (arith, sum), omega (arith, sum))

pub make_table_pte_lem :
    (page : ℕ)
    → page < 2 ^ 36
    → (page_of (make_table_pte 0 0 0 0 page) ≡ page)
      × (is_table_or_page (make_table_pte 0 0 0 0 page) ≡ 3)
make_table_pte_lem page h =
    let sum = make_table_pte-sum page in (omega (arith, sum), omega (arith, sum))
