-- ===== src/GpioSet/Tests.antt =====
-- A table whose first set has pins 0 to 3, and a full one.
use arm64_os.Base.{ℕ, zero, suc, ◌≡◌, refl, List, [], ◌∷◌, ◌++◌, arith, none, some, replicate}
use arm64_os.Base.Errors.{ErrorCode, err_ok, err_busy}
use arm64_os.GpioSet.{PinSet, GpioSets, gpio_set_request, gpio_set_release, is_busy, first_free}
use arm64_os.GpioSet.Sets.{IsValid, IsDisjoint, IsFree}
use arm64_os.GpioSet.Owners.{
  Requests, gpio_set_request-Requests, Released, gpio_set_release-Released,
}

abbrev no_set : PinSet
no_set = record { active = 0; owner_key = []; mask = 0 }

abbrev key : List ℕ
key = replicate 15 0x67

abbrev table : GpioSets
table = record {
  gpio_sets =
      (record { active = 1; owner_key = key ++ (0 ∷ []); mask = 0xf }) ∷ replicate 31 no_set;
  active_count = 1;
  initialized = 1;
}

abbrev full : GpioSets
full = record table { active_count = 32 }

idle-IsFree : (m n : ℕ) → IsFree m (replicate n no_set)
idle-IsFree m zero = tt
idle-IsFree m (suc n) = (λ ne. absurd (ne refl), idle-IsFree m n)

idle-IsDisjoint : (n : ℕ) → IsDisjoint (replicate n no_set)
idle-IsDisjoint zero = tt
idle-IsDisjoint (suc n) = (λ ne. absurd (ne refl), idle-IsDisjoint n)

table-IsValid : IsValid table
table-IsValid = record {
  size = refl;
  disjoint = (λ ne. idle-IsFree 0xf 31, idle-IsDisjoint 31);
  counted = omega arith;
  limit = omega arith;
}

second_place : (gpio_set_request 0x30 key table).1 ≡ (err_ok, some 1)
unfolding gpio_set_request is_busy first_free
second_place = refl

shared_pin : (gpio_set_request 0x18 key table).1 ≡ (err_busy, none)
unfolding gpio_set_request is_busy
shared_pin = refl

gpio_set_request-Requests_example : Requests 0x30 key table (gpio_set_request 0x30 key table)
gpio_set_request-Requests_example = gpio_set_request-Requests 0x30 key table table-IsValid

gpio_set_release-Released_example :
    (s' : GpioSets) × (code : ErrorCode) × (gpio_set_release 0 key table ≡ some (s', code))
    × Released 0 table s' code
gpio_set_release-Released_example =
    gpio_set_release-Released 0 key table table-IsValid (omega arith)
