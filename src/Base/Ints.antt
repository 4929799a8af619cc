-- ===== src/Base/Ints.antt =====
-- Signed numbers of C as integers, and their bit patterns.
use Prim.Native.Nat.{ℕ, ◌+◌, ◌-◌, ◌/◌, ◌%◌, ◌^◌}
use arm64_os.Base.Tests.{ltb, if◌then◌else◌}

pub data ℤ : Type 0 where
  pos : ℕ → ℤ
  negsuc : ℕ → ℤ

-- `max(x, 0)`
abbrev pub clamp : ℤ → ℕ
clamp (pos n) = n
clamp (negsuc n) = 0

-- the `int` in the low 32 bits of a word
unfoldable pub int_of_word : ℕ → ℤ
int_of_word w =
    if ltb (w % 2 ^ 32) (2 ^ 31) then pos (w % 2 ^ 32) else negsuc (2 ^ 32 - 1 - w % 2 ^ 32)

-- an `int` widened to a word of 64 bits
unfoldable pub sign_extend_32 : ℕ → ℕ
sign_extend_32 w = if ltb (w % 2 ^ 32) (2 ^ 31) then w % 2 ^ 32 else w % 2 ^ 32 + (2 ^ 64 - 2 ^ 32)

abbrev pub magnitude_64 : ℕ → ℕ
magnitude_64 w = if ltb w (2 ^ 63) then w else 2 ^ 64 - w

-- the signed quotient of two words of 64 bits, towards zero, for a divisor that is not 0
unfoldable pub signed_div_64 : ℕ → ℕ → ℕ
signed_div_64 a b =
    let q = magnitude_64 a / magnitude_64 b in
    if ltb a (2 ^ 63)
    then (if ltb b (2 ^ 63) then q else (2 ^ 64 - q) % 2 ^ 64)
    else (if ltb b (2 ^ 63) then (2 ^ 64 - q) % 2 ^ 64 else q)
