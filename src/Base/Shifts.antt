-- ===== src/Base/Shifts.antt =====
-- Shifts of an `int`.
use Prim.Native.Nat.{ℕ, ◌-◌, ◌^◌}
use mathlib.Core.Option.{Option, none, some}
use arm64_os.Base.Tests.{ltb, ◌==◌, if◌then◌else◌}

-- `1 << order`, extended to 64 bits; it has no value from 32 on.
unfoldable pub int_bit : ℕ → Option ℕ
int_bit order =
    if ltb order 31 then some (2 ^ order) else if order == 31 then some (2 ^ 64 - 2 ^ 31) else none
