-- ===== src/GpioSet/Exhausted.antt =====
-- The counter of active sets over the life of the table.
use arm64_os.Base.{
  ℕ, ◌≢◌, ◌≡◌, List, arith, Option, none, some, ◌==◌, length, get_elem?, Bool-cases, inl, inr,
}
use arm64_os.Base.Errors.{ErrorCode, err_no_resource}
use arm64_os.GpioSet.{
  PinSet, GpioSets, num_sets, key_len, gpio_set_request, gpio_set_release, release_set,
}

-- one operation of some client
pub data Step (s : GpioSets) : GpioSets → Type 0 where
  request : (m : ℕ) (key : List ℕ) → Step s (gpio_set_request m key s).0
  release :
      (handle : ℕ) (key : List ℕ) {t : GpioSets} {code : ErrorCode}
      → gpio_set_release handle key s ≡ some (t, code)
      → Step s t

pub data Reach (s : GpioSets) : GpioSets → Type 0 where
  here : Reach s s
  next : {t u : GpioSets} → Reach s t → Step t u → Reach s u

abbrev IsFull : GpioSets → Type 0
IsFull s = (s.initialized ≢ 0) × (s.active_count ≡ num_sets)

full_request :
    (m : ℕ) (key : List ℕ) (s : GpioSets)
    → IsFull s
    → length key ≡ key_len
    → gpio_set_request m key s ≡ (s, (err_no_resource, none))
unfolding gpio_set_request
full_request m key s k fits = ground arith

request-IsFull :
    (m : ℕ) (key : List ℕ) (s : GpioSets) → IsFull s → IsFull (gpio_set_request m key s).0
unfolding gpio_set_request
request-IsFull m key s k = ground arith

release_set-IsFull :
    (handle : ℕ) (o : Option PinSet) (s t : GpioSets) (code : ErrorCode)
    → release_set handle o s ≡ some (t, code)
    → IsFull s
    → IsFull t
unfolding release_set
release_set-IsFull handle none s t code h k = cc
release_set-IsFull handle (some g) s t code h k = elim (Bool-cases (g.active == 0)) [
  | inl off ↦ ground arith
  | inr on ↦ ground arith
]

Step-IsFull : {s t : GpioSets} → Step s t → IsFull s → IsFull t
unfolding gpio_set_release
Step-IsFull {s} (request m key) k = request-IsFull m key s k
Step-IsFull {s} {t} (release handle key {t = u} {code} h) k =
    release_set-IsFull handle (get_elem? s.gpio_sets handle) s _ code h k

Reach-IsFull : {s t : GpioSets} → Reach s t → IsFull s → IsFull t
Reach-IsFull here k = k
Reach-IsFull (next r st) k = Step-IsFull st (Reach-IsFull r k)

-- Once 32 requests have been granted, no later request is, whatever was released in between: with a
-- key of the right length it fails for lack of resources.
pub gpio_set_request_exhausted :
    (m : ℕ) (key : List ℕ) {s t : GpioSets}
    → s.initialized ≢ 0
    → s.active_count ≡ num_sets
    → Reach s t
    → length key ≡ key_len
    → gpio_set_request m key t ≡ (t, (err_no_resource, none))
gpio_set_request_exhausted m key {s} {t} ready full r fits =
    full_request m key t (Reach-IsFull r (ready, full)) fits
