-- ===== src/Strings.antt =====
-- lib/stringlib/stringlib.c on a memory of bytes, where `char` is unsigned. A loop that runs to a
-- terminator is on fuel, which the caller gives, and `none` is that it went on. An `int` result is
-- its bit pattern.
pub mod Copies
pub mod Scans
pub mod Texts
mod Tests
use arm64_os.Base.{
  ℕ, zero, suc, ◌+◌, ◌-◌, ◌*◌, ◌/◌, ◌%◌, ◌^◌, Bool, true, false, Option, none, some, ltb, leb, ◌==◌,
  not, ◌&&◌, ◌||◌, if◌then◌else◌, ◌>>=◌,
}

abbrev pub Memory : Type 0
Memory = ℕ → ℕ

unfoldable pub isprint : ℕ → Bool
isprint ch = ((leb 0x20 ch && ltb ch 0x7f) || (ch == 10)) || (ch == 0x20)

unfoldable pub isdigit : ℕ → Bool
isdigit ch = leb 0x30 ch && leb ch 0x39

unfoldable pub isspace : ℕ → Bool
isspace c = (c == 0x20) || (leb 9 c && leb c 0xd)

-- `*s1 - *s2`
abbrev pub diff : ℕ → ℕ → ℕ
diff a b = (a + 2 ^ 32 - b) % 2 ^ 32

unfoldable pub strcmp : ℕ → ℕ → ℕ → Memory → Option ℕ
strcmp zero s1 s2 m = none
strcmp (suc fuel) s1 s2 m =
    let rest = strcmp fuel (suc s1) (suc s2) m in
    if (not (m s1 == 0) && not (m s2 == 0)) && (m s1 == m s2)
    then rest
    else some (diff (m s1) (m s2))

-- The pointers do not move.
unfoldable pub memcmp : ℕ → ℕ → ℕ → Memory → ℕ
memcmp p1 p2 zero m = 0
memcmp p1 p2 (suc n) m =
    let rest = memcmp p1 p2 n m in if not (m p1 == m p2) then diff (m p1) (m p2) else rest

unfoldable pub strncmp : ℕ → ℕ → ℕ → Memory → ℕ
strncmp s1 s2 zero m = 0
strncmp s1 s2 (suc n) m =
    let rest = strncmp (suc s1) (suc s2) n m in
    if (not (m s1 == 0) && not (m s2 == 0)) && (m s1 == m s2) then rest else diff (m s1) (m s2)

unfoldable pub strlen_from : ℕ → ℕ → ℕ → Memory → Option ℕ
strlen_from zero ptr res m = none
strlen_from (suc fuel) ptr res m =
    let rest = strlen_from fuel (suc ptr) (res + 1) m in if m ptr == 0 then some res else rest

unfoldable pub strlen : ℕ → ℕ → Memory → Option ℕ
unfolding strlen_from
strlen fuel ptr m = strlen_from fuel ptr 0 m

unfoldable pub strnlen_from : ℕ → ℕ → ℕ → Memory → ℕ
strnlen_from ptr zero res m = res
strnlen_from ptr (suc n) res m =
    let rest = strnlen_from (suc ptr) n (res + 1) m in if m ptr == 0 then res else rest

unfoldable pub strnlen : ℕ → ℕ → Memory → ℕ
unfolding strnlen_from
strnlen ptr n m = strnlen_from ptr n 0 m

abbrev pub store : ℕ → ℕ → Memory → Memory
store p v m q = if p == q then v else m q

unfoldable pub strcpy : ℕ → ℕ → ℕ → Memory → Option Memory
strcpy zero dst src m = none
strcpy (suc fuel) dst src m =
    let rest = strcpy fuel (suc dst) (suc src) (store dst (m src) m) in
    if m src == 0 then some (store dst 0 m) else rest

unfoldable pub memset : ℕ → ℕ → ℕ → Memory → Memory
memset dst value zero m = m
memset dst value (suc n) m = memset (suc dst) value n (store dst value m)

-- The second loop of `strncpy` writes what is left of `n` zeroes.
unfoldable pub strncpy : ℕ → ℕ → ℕ → Memory → Memory
unfolding memset
strncpy dst src zero m = m
strncpy dst src (suc n) m =
    let m1 = store dst (m src) m in
    let rest = strncpy (suc dst) (suc src) n m1 in
    if m src == 0 then memset (suc dst) 0 n m1 else rest

-- one assignment of an element of `size` bytes
abbrev pub copy_el : ℕ → ℕ → ℕ → Memory → Memory
copy_el size dst src m q = if leb dst q && ltb q (dst + size) then m (src + (q - dst)) else m q

-- the loop over `n` elements from the index `i`
unfoldable pub copy_els : ℕ → ℕ → ℕ → ℕ → ℕ → Memory → Memory
copy_els size dst src i zero m = m
copy_els size dst src i (suc n) m =
    copy_els size dst src (suc i) n (copy_el size (dst + i * size) (src + i * size) m)

-- `none` is the panic, or an index that an `int` does not hold
unfoldable pub memcpy_8aligned : ℕ → ℕ → ℕ → Memory → Option Memory
unfolding copy_els
memcpy_8aligned dst src n m =
    if (not (dst % 8 == 0) || not (src % 8 == 0)) || not (n % 8 == 0)
    then none
    else if leb (2 ^ 31) (n / 8)
    then none
    else some (copy_els 8 dst src 0 (n / 8) m)

-- the bytes from `from` to `n`
abbrev pub copy_bytes : ℕ → ℕ → ℕ → ℕ → Memory → Memory
copy_bytes dst src from n m = copy_els 1 dst src from (n - from) m

-- The loops that end at `n`. Their index has 32 bits, so it never gets to an `n` that has more.
unfoldable pub copy_rest : ℕ → ℕ → ℕ → ℕ → Memory → Option Memory
unfolding copy_els
copy_rest dst src from n m = if leb (2 ^ 32) n then none else some (copy_bytes dst src from n m)

-- `imax` has 32 bits too. `none` also is a loop that does not end.
unfoldable pub memcpy : ℕ → ℕ → ℕ → Memory → Option Memory
unfolding copy_rest memcpy_8aligned
memcpy dst src n m =
    if not (dst % 8 == 0) || not (src % 8 == 0)
    then if not (dst % 4 == 0) || not (src % 4 == 0)
      then copy_rest dst src 0 n m
      else copy_rest dst src (n / 4 * 4) n (copy_els 4 dst src 0 (n / 4 * 4 % 2 ^ 32 / 4) m)
    else do m1 ← memcpy_8aligned dst src (n / 8 * 8) m; copy_rest dst src (n / 8 * 8) n m1
