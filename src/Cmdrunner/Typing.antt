-- ===== src/Cmdrunner/Typing.antt =====
-- A line that is being typed, against a stack of characters.
use arm64_os.Base.{
  leb, ◌&&◌, ℕ, ◌≤◌, ◌≡◌, ◌≢◌, refl, arith, List, [], ◌∷◌, length, true, false, Option, none, some,
  ltb, ◌==◌, ◌||◌, if◌then◌else◌, Bool-cases, inl, inr, Bool, ◌>>=◌,
}
use arm64_os.Strings.{Memory, store}
use arm64_os.Cmdrunner.{Cmdrunner, cmdline_buf_size, backspace}
use arm64_os.Cmdrunner.Input.{Line, without_line, handle_char, handle_chars, plain_char, typed}

-- The characters of the line, the last one first.
abbrev pub IsStack : Memory → List ℕ → Type 0
IsStack m [] = Unit
IsStack m (ch ∷ line) = (m (length line) ≡ ch) × IsStack m line

pub record IsTyped (c : Cmdrunner) (line : List ℕ) : Type 0 where
  pub no_escape : c.escbuflen ≡ 0
  pub is_length : c.carret ≡ length line
  pub is_stack : IsStack c.inputbuf line

abbrev pub pop : List ℕ → List ℕ
pop [] = []
pop (ch ∷ line) = line

-- what a character does to the line
abbrev pub edit : List ℕ → ℕ → List ℕ
edit line ch =
    if (ch == 0x08) || (ch == 0x7f)
    then pop line
    else if ltb (length line) cmdline_buf_size
    then ch ∷ line
    else line

abbrev pub edits : List ℕ → List ℕ → List ℕ
edits line [] = line
edits line (ch ∷ chs) = edits (edit line ch) chs

-- neither ESC nor the end of a line
abbrev pub IsEditing : ℕ → Type 0
IsEditing ch = (ch ≢ 0x1b) × (ch ≢ 0x0a) × (ch ≢ 0x0d)

abbrev is_back : ℕ → Bool
is_back ch = (ch == 0x08) || (ch == 0x7f)

-- All characters are for editing, and none is a backspace on a full line.
abbrev pub AreEditing : List ℕ → List ℕ → Type 0
AreEditing line [] = Unit
AreEditing line (ch ∷ chs) =
    IsEditing ch
    × ((is_back ch && leb cmdline_buf_size (length line)) ≡ false)
    × AreEditing (edit line ch) chs

-- There is a result, and it has the property.
abbrev pub IsReached : (Cmdrunner → Type 0) → Option Cmdrunner → Type 0
IsReached P none = ⊥
IsReached P (some c) = P c

store-IsStack :
    (p v : ℕ) (m : Memory) (line : List ℕ)
    → length line ≤ p
    → IsStack m line
    → IsStack (store p v m) line
store-IsStack p v m [] le h = tt
store-IsStack p v m (ch ∷ line) le (top, h) =
    let before : (p == length line) ≡ false = ground arith in
    (rw before top, store-IsStack p v m line (omega arith) h)

typed-IsTyped :
    (ch : ℕ) (c : Cmdrunner) (line : List ℕ)
    → IsTyped c line
    → IsTyped (typed ch c) (if ltb (length line) cmdline_buf_size then ch ∷ line else line)
unfolding typed
typed-IsTyped ch c line h =
    let e = h.is_length in
    elim (Bool-cases (ltb (length line) cmdline_buf_size)) [
      | inl room ↦
          let here : (length line == length line) ≡ true = ground arith in
          rw (e, room)
            (record {
              no_escape = h.no_escape;
              is_length = omega arith;
              is_stack = (
                rw here refl,
                store-IsStack (length line) ch c.inputbuf line (omega arith) h.is_stack,
              );
            })
      | inr full ↦
          let stays : ltb c.carret cmdline_buf_size ≡ false = ground arith in rw (stays, full) h
    ]

-- the same with what a line leads to
abbrev IsReachedBy : (Cmdrunner → Type 0) → Option (Cmdrunner × Option Line) → Type 0
IsReachedBy P none = ⊥
IsReachedBy P (some r) = P r.0

backspace-IsTyped :
    (c : Cmdrunner) (line : List ℕ)
    → leb cmdline_buf_size (length line) ≡ false
    → IsTyped c line
    → IsReachedBy (λ d. IsTyped d (pop line)) (without_line (backspace c))
unfolding backspace
backspace-IsTyped c [] room h =
    let e = h.is_length in let start : (c.carret == 0) ≡ true = ground arith in rw start h
backspace-IsTyped c (ch ∷ line) room h =
    let e = h.is_length in
    let inside : (c.carret == 0) ≡ false = ground arith in
    let fits : leb cmdline_buf_size c.carret ≡ false = ground arith in
    rw (inside, fits)
      (record {
        no_escape = h.no_escape;
        is_length = omega arith;
        is_stack = store-IsStack c.carret 0 c.inputbuf line (omega arith) h.is_stack.1;
      })

handle_char-IsTyped :
    (c : Cmdrunner) (ch : ℕ) (line : List ℕ)
    → IsEditing ch
    → (is_back ch && leb cmdline_buf_size (length line)) ≡ false
    → IsTyped c line
    → IsReachedBy (λ d. IsTyped d (edit line ch)) (handle_char c ch)
unfolding handle_char plain_char
handle_char-IsTyped c ch line (no_esc, no_newline, no_return) room h =
    let e = h.no_escape in
    let outside : ltb 0 c.escbuflen ≡ false = ground arith in
    let plain : (ch == 0x1b) ≡ false = ground arith in
    let on_line : ((ch == 0x0a) || (ch == 0x0d)) ≡ false = ground arith in
    elim (Bool-cases ((ch == 0x08) || (ch == 0x7f))) [
      | inl back ↦ rw (outside, plain, on_line, back) (backspace-IsTyped c line (rw back at room) h)
      | inr other ↦ rw (outside, plain, on_line, other) (typed-IsTyped ch c line h)
    ]

go_on :
    (chs line : List ℕ) (r : Option (Cmdrunner × Option Line))
    → ((d : Cmdrunner)
        → IsTyped d line
        → IsReached (λ e. IsTyped e (edits line chs)) (handle_chars d chs))
    → IsReachedBy (λ d. IsTyped d line) r
    → IsReached (λ e. IsTyped e (edits line chs)) (r >>= (λ x. handle_chars x.0 chs))
go_on chs line none rest h = h
go_on chs line (some r) rest h = rest r.0 h

-- Characters that are neither ESC nor the end of a line never lead to a panic, as long as no backspace
-- comes on a full line. They push themselves on the line while it is shorter than the buffer, and are
-- dropped after that; the two backspaces take the last character of the line away, if there is one.
pub handle_chars-IsTyped :
    (chs : List ℕ) (c : Cmdrunner) (line : List ℕ)
    → AreEditing line chs
    → IsTyped c line
    → IsReached (λ d. IsTyped d (edits line chs)) (handle_chars c chs)
unfolding handle_chars
handle_chars-IsTyped [] c line editing h = h
handle_chars-IsTyped (ch ∷ chs) c line (first, room, editing) h =
    go_on chs (edit line ch) (handle_char c ch)
      (λ d typed_d. handle_chars-IsTyped chs d (edit line ch) editing typed_d)
      (handle_char-IsTyped c ch line first room h)

-- A backspace on a full line writes behind the line.
pub handle_char_full :
    (c : Cmdrunner) (line : List ℕ)
    → IsTyped c line
    → length line ≡ cmdline_buf_size
    → handle_char c 0x7f ≡ none
unfolding handle_char plain_char backspace
handle_char_full c line h full =
    let e = h.no_escape in
    let same = h.is_length in
    let outside : ltb 0 c.escbuflen ≡ false = ground arith in
    let later : (c.carret == 0) ≡ false = ground arith in
    let fits : leb cmdline_buf_size c.carret ≡ true = ground arith in rw (outside, later, fits) refl
