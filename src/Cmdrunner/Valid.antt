-- ===== src/Cmdrunner/Valid.antt =====
-- What holds of the indices and lengths at every character.
use arm64_os.Base.{
  ℕ, zero, suc, ◌-◌, ◌≡◌, refl, Option, none, some, leb, ◌⊎◌, ◌≤◌, ◌<◌, arith, length, Bool, true,
  false, ltb, ◌==◌, if◌then◌else◌, Bool-cases, inl, inr,
}
use arm64_os.Strings.{store}
use arm64_os.Cmdrunner.{
  Cmdrunner, with_line, with_current, with_escbuflen, cmdline_buf_size, command_max_count,
  max_history_lines, same_chars, history_prev, history_next, backspace, clear_line_loop, clear_line,
  copied, fetched, history_fetch, history_after, put_line, history_put, scroll_up, scroll_down,
}

pub record IsValid (c : Cmdrunner) : Type 0 where
  pub len_below : (j : ℕ) → (c.h j).len ≤ cmdline_buf_size
  pub current_below : c.current < max_history_lines
  pub last_below : c.last < max_history_lines
  pub carret_below : c.carret ≤ cmdline_buf_size
  pub commands_below : length c.commands ≤ command_max_count
  pub escbuflen_below : c.escbuflen ≤ 2

-- one of two valid states
pub either : (b : Bool) (c d : Cmdrunner) → IsValid c → IsValid d → IsValid (if b then c else d)
either true c d hc hd = hc
either false c d hc hd = hd

with_current-IsValid :
    (i : ℕ) (c : Cmdrunner) → i < max_history_lines → IsValid c → IsValid (with_current i c)
with_current-IsValid i c lt h = record {
  len_below = h.len_below;
  current_below = lt;
  last_below = h.last_below;
  carret_below = h.carret_below;
  commands_below = h.commands_below;
  escbuflen_below = h.escbuflen_below;
}

pub with_line-IsValid :
    (buf : ℕ → ℕ) (n : ℕ) (c : Cmdrunner)
    → n ≤ cmdline_buf_size
    → IsValid c
    → IsValid (with_line buf n c)
with_line-IsValid buf n c le h = record {
  len_below = h.len_below;
  current_below = h.current_below;
  last_below = h.last_below;
  carret_below = le;
  commands_below = h.commands_below;
  escbuflen_below = h.escbuflen_below;
}

pub with_escbuflen-IsValid :
    (n : ℕ) (c : Cmdrunner) → n ≤ 2 → IsValid c → IsValid (with_escbuflen n c)
with_escbuflen-IsValid n c le h = record {
  len_below = h.len_below;
  current_below = h.current_below;
  last_below = h.last_below;
  carret_below = h.carret_below;
  commands_below = h.commands_below;
  escbuflen_below = le;
}

history_prev-IsValid : (c : Cmdrunner) → IsValid c → IsValid (history_prev c).1
unfolding history_prev
history_prev-IsValid c h =
    with_current-IsValid ((history_prev c).1).current c (let b = h.current_below in ground arith) h

history_next-IsValid : (c : Cmdrunner) → IsValid c → IsValid (history_next c).1
unfolding history_next
history_next-IsValid c h =
    with_current-IsValid ((history_next c).1).current c (let b = h.current_below in ground arith) h

-- The line or a line of the history has as many characters as its buffer.
abbrev pub IsFull : Cmdrunner → Type 0
IsFull c = (c.carret ≡ cmdline_buf_size) ⊎ ((j : ℕ) × ((c.h j).len ≡ cmdline_buf_size))

-- A result is valid, and there is one unless something is full.
abbrev pub IsSafe : Cmdrunner → Option Cmdrunner → Type 0
IsSafe c none = IsFull c
IsSafe c (some d) = IsValid d

pub backspace-IsSafe : (c : Cmdrunner) → IsValid c → IsSafe c (backspace c)
unfolding backspace
backspace-IsSafe c h =
    let b = h.carret_below in
    elim (Bool-cases (c.carret == 0)) [
      | inl start ↦ rw start h
      | inr later ↦ elim (Bool-cases (leb cmdline_buf_size c.carret)) [
        | inl full ↦ rw (later, full) (inl (ground arith))
        | inr room ↦
            rw (later, room)
              (with_line-IsValid (store c.carret 0 c.inputbuf) (c.carret - 1) c (omega arith) h)
      ]
    ]

backspace-room :
    (c : Cmdrunner)
    → 0 < c.carret
    → c.carret < cmdline_buf_size
    → backspace c ≡ some (with_line (store c.carret 0 c.inputbuf) (c.carret - 1) c)
unfolding backspace
backspace-room c lt room =
    let later : (c.carret == 0) ≡ false = ground arith in
    let fits : leb cmdline_buf_size c.carret ≡ false = ground arith in rw (later, fits) refl

-- Clearing a line that is not full keeps the rest of the state.
room_clears :
    (n : ℕ) (c : Cmdrunner)
    → IsValid c
    → c.carret < cmdline_buf_size
    → (d : Cmdrunner) × (clear_line_loop n c ≡ some d) × IsValid d
unfolding clear_line_loop
room_clears zero c h room = (c, refl, h)
room_clears (suc n) c h room = elim (Bool-cases (ltb 0 c.carret)) [
  | inl more ↦
      let c1 = with_line (store c.carret 0 c.inputbuf) (c.carret - 1) c in
      let (d, e, valid) =
        room_clears n c1
          (with_line-IsValid (store c.carret 0 c.inputbuf) (c.carret - 1) c (omega arith) h)
          (omega arith) in
      (d, rw (more, backspace-room c (ground arith) room) e, valid)
  | inr done ↦ (c, rw done refl, h)
]

fetched-IsSafe : (c d : Cmdrunner) (j : ℕ) → IsValid c → IsValid d → IsSafe c (fetched (c.h j) d)
unfolding fetched
fetched-IsSafe c d j h valid =
    let b = h.len_below j in
    elim (Bool-cases (leb cmdline_buf_size (c.h j).len)) [
      | inl full ↦ rw full (inr (j, ground arith))
      | inr room ↦ rw room (
          with_line-IsValid (store (c.h j).len 0 (copied (c.h j).s (c.h j).len d.inputbuf))
            (c.h j).len d b valid)
    ]

full_clears :
    (n : ℕ) (c : Cmdrunner) → c.carret ≡ cmdline_buf_size → 0 < n → clear_line_loop n c ≡ none
unfolding clear_line_loop backspace
full_clears zero c e lt = absurd (omega arith)
full_clears (suc n) c e lt =
    let more : ltb 0 c.carret ≡ true = ground arith in
    let later : (c.carret == 0) ≡ false = ground arith in
    let full : leb cmdline_buf_size c.carret ≡ true = ground arith in rw (more, later, full) refl

history_fetch-IsSafe : (c : Cmdrunner) → IsValid c → IsSafe c (history_fetch c)
unfolding history_fetch clear_line
history_fetch-IsSafe c h = elim (Bool-cases (c.carret == cmdline_buf_size)) [
  | inl full ↦
      let e : c.carret ≡ cmdline_buf_size = ground arith in
      rw (full_clears c.carret c e (omega arith)) (inl e)
  | inr other ↦
      let (d, e, valid) = room_clears c.carret c h (let b = h.carret_below in ground arith) in
      rw e (fetched-IsSafe c d c.current h valid)
]

-- Where the history stands does not matter.
same_full :
    (c : Cmdrunner) (i : ℕ) (o : Option Cmdrunner) → IsSafe (with_current i c) o → IsSafe c o
same_full c i none full = full
same_full c i (some d) valid = valid

either-IsSafe :
    (b : Bool) (c d : Cmdrunner) (o : Option Cmdrunner)
    → IsSafe c o
    → IsValid d
    → IsSafe c (if b then o else some d)
either-IsSafe true c d o safe valid = safe
either-IsSafe false c d o safe valid = valid

pub scroll_up-IsSafe : (c : Cmdrunner) → IsValid c → IsSafe c (scroll_up c)
unfolding scroll_up history_prev
scroll_up-IsSafe c h =
    let prev = history_prev-IsValid c h in
    either-IsSafe (history_prev c).0 c (history_prev c).1 (history_fetch (history_prev c).1)
      (same_full c (history_prev c).1.current (history_fetch (history_prev c).1)
        (history_fetch-IsSafe (history_prev c).1 prev))
      prev

pub scroll_down-IsSafe : (c : Cmdrunner) → IsValid c → IsSafe c (scroll_down c)
unfolding scroll_down history_next
scroll_down-IsSafe c h =
    let next = history_next-IsValid c h in
    either-IsSafe (history_next c).0 c (history_next c).1 (history_fetch (history_next c).1)
      (same_full c (history_next c).1.current (history_fetch (history_next c).1)
        (history_fetch-IsSafe (history_next c).1 next))
      next

history_after_below : (i : ℕ) → i < max_history_lines → history_after i < max_history_lines
unfolding history_after
history_after_below i lt = ground arith

pub history_put-IsValid : (c : Cmdrunner) → IsValid c → IsValid (history_put c)
unfolding history_put
history_put-IsValid c h =
    let i = history_after_below c.last h.last_below in
    let put : IsValid (put_line c) = record {
      len_below = λ j. put_len j;
      current_below = history_after_below (history_after c.last) i;
      last_below = i;
      carret_below = h.carret_below;
      commands_below = h.commands_below;
      escbuflen_below = h.escbuflen_below;
    } in
    either (same_chars (c.h c.last).s c.inputbuf 0 c.carret) c (put_line c) h put
  where
    put_len : (j : ℕ) → ((put_line c).h j).len ≤ cmdline_buf_size
    put_len j = elim (Bool-cases (j == history_after c.last)) [
      | inl new ↦ rw new h.carret_below
      | inr old ↦ rw old (h.len_below j)
    ]
