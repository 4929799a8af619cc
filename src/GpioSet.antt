-- ===== src/GpioSet.antt =====
-- gpio_set.c: exclusive sets of pins. A key is the bytes before its terminator; the lock makes each
-- operation one step. `none` is an access outside of `gpio_sets`.
pub mod Sets
pub mod Owners
pub mod Exhausted
mod Tests
use Prim.Native.Nat.{bit_and, bit_or}
use arm64_os.Base.Shifts.{int_bit}
use arm64_os.Base.{
  ◌>>=◌, ℕ, zero, suc, ◌+◌, List, [], ◌∷◌, ◌++◌, Bool, true, false, Option, none, some, ◌==◌, not,
  ◌&&◌, ◌⊎◌, inl, inr, if◌then◌else◌, set, length, get_elem?,
}
use arm64_os.Base.Errors.{
  ErrorCode, err_ok, err_not_init, err_inval_arg, err_no_resource, err_busy, err_not_found,
  err_fatal,
}

pub record PinSet : Type 0 where
  pub active : ℕ
  pub owner_key : List ℕ
  pub mask : ℕ

pub record GpioSets : Type 0 where
  pub gpio_sets : List PinSet
  pub active_count : ℕ
  pub initialized : ℕ

abbrev pub num_sets : ℕ
num_sets = 32

abbrev pub key_len : ℕ
key_len = 15

unfoldable pub is_busy : ℕ → List PinSet → Bool
is_busy setmask [] = false
is_busy setmask (g ∷ gs) =
    let rest = is_busy setmask gs in
    if not (g.active == 0) && not (bit_and g.mask setmask == 0) then true else rest

-- the index at which the second loop stops: the number of sets if all are active
unfoldable pub first_free : List PinSet → ℕ
first_free [] = 0
first_free (g ∷ gs) = let rest = first_free gs in if g.active == 0 then 0 else suc rest

-- After a full loop, `set` still points to the last one.
abbrev pub slot : ℕ → ℕ
slot i = if i == num_sets then 31 else i

unfoldable pub gpio_set_request : ℕ → List ℕ → GpioSets → GpioSets × (ErrorCode × Option ℕ)
gpio_set_request setmask owner_key s =
    if s.initialized == 0
    then (s, (err_not_init, none))
    else if not (length owner_key == key_len)
    then (s, (err_inval_arg, none))
    else if s.active_count == num_sets
    then (s, (err_no_resource, none))
    else if is_busy setmask s.gpio_sets
    then (s, (err_busy, none))
    else let i = first_free s.gpio_sets in
      let new : PinSet = record { active = 1; owner_key = owner_key ++ (0 ∷ []); mask = setmask } in
      (
        record s { gpio_sets = set s.gpio_sets (slot i) new; active_count = s.active_count + 1 },
        (err_ok, some i),
      )

unfoldable pub release_set : ℕ → Option PinSet → GpioSets → Option (GpioSets × ErrorCode)
release_set handle none s = none
release_set handle (some g) s =
    if g.active == 0
    then some (s, err_not_found)
    else some (record s { gpio_sets = set s.gpio_sets handle (record g { active = 0 }) }, err_ok)

unfoldable pub gpio_set_release : ℕ → List ℕ → GpioSets → Option (GpioSets × ErrorCode)
unfolding release_set
gpio_set_release handle owner_key s = release_set handle (get_elem? s.gpio_sets handle) s

unfoldable pub num_owners : ℕ → List PinSet → ℕ
num_owners setmask [] = 0
num_owners setmask (g ∷ gs) =
    let rest = num_owners setmask gs in if bit_and g.mask setmask == 0 then rest else suc rest

-- `inl` is an error
unfoldable pub gpio_set_get_num_owners : ℕ → GpioSets → ErrorCode ⊎ ℕ
gpio_set_get_num_owners setmask s =
    if s.initialized == 0 then inl err_not_init else inr (num_owners setmask s.gpio_sets)

-- the sets that are written out, where `room` is how many fit the buffer
unfoldable pub owners : ℕ → ℕ → List PinSet → List PinSet
owners setmask zero gs = []
owners setmask (suc room) [] = []
owners setmask (suc room) (g ∷ gs) =
    let skip = owners setmask (suc room) gs in
    let keep = owners setmask room gs in if bit_and g.mask setmask == 0 then skip else g ∷ keep

unfoldable pub gpio_set_get_owners : ℕ → ℕ → GpioSets → ErrorCode ⊎ List PinSet
gpio_set_get_owners setmask room s =
    if s.initialized == 0 then inl err_not_init else inr (owners setmask room s.gpio_sets)

-- `memset` gets the number of sets for a number of bytes: it clears 32 bytes, which is one set.
unfoldable pub gpio_set_init : GpioSets → GpioSets × ErrorCode
gpio_set_init s = if not (s.initialized == 0) then (s, err_fatal) else (
  record {
    gpio_sets = set s.gpio_sets 0 (record { active = 0; owner_key = []; mask = 0 });
    active_count = 0;
    initialized = 1;
  },
  err_ok,
)

-- `*mask |= (1<<gpio_num)`
unfoldable pub gpio_set_mask_add : ℕ → ℕ → Option ℕ
unfolding int_bit
gpio_set_mask_add mask gpio_num = int_bit gpio_num >>= (λ bit. some (bit_or mask bit))

-- the loop over the pins
unfoldable pub pins_mask : ℕ → List ℕ → Option ℕ
unfolding gpio_set_mask_add
pins_mask mask [] = some mask
pins_mask mask (pin ∷ pins) = do mask' ← gpio_set_mask_add mask pin; pins_mask mask' pins

-- `none` in the pair is GPIO_SET_INVALID_HANDLE
unfoldable pub gpio_set_checked_request : ℕ → List ℕ → GpioSets → GpioSets × Option ℕ
unfolding gpio_set_request
gpio_set_checked_request pins owner_key s =
    let (s', result) = gpio_set_request pins owner_key s in (s', result.1)

unfoldable pub gpio_set_request_n_pins : List ℕ → List ℕ → GpioSets → Option (GpioSets × Option ℕ)
unfolding pins_mask gpio_set_checked_request
gpio_set_request_n_pins pins owner_key s = do
  pin_mask ← pins_mask 0 pins
  some (gpio_set_checked_request pin_mask owner_key s)
