-- ===== src/Cmdrunner/Reached.antt =====
-- The states that characters lead to.
use arm64_os.Base.{
  ℕ, ◌+◌, ◌≤◌, ◌≡◌, ◌≢◌, ◌⊎◌, arith, List, [], ◌∷◌, ◌++◌, length, length-append, Option, none, some,
  ltb, ◌==◌, ◌||◌, Bool-cases, inl, inr, ◌>>=◌,
}
use arm64_os.Strings.{Memory, store}
use arm64_os.Cmdrunner.{
  Cmdrunner, cmdline_buf_size, command_max_count, backspace, with_escbuflen, history_put,
  flush_inputbuf,
}
use arm64_os.Cmdrunner.Input.{
  Line, on_newline, add_cmd, add_cmds, blank, cmdrunner_init, arrow, typed, escape_char, plain_char,
  handle_char, without_line,
}
use arm64_os.Cmdrunner.Valid.{
  IsValid, with_line-IsValid, with_escbuflen-IsValid, IsFull, IsSafe, backspace-IsSafe,
  scroll_up-IsSafe, scroll_down-IsSafe, history_put-IsValid,
}

add_cmd-IsValid : (name : List ℕ) (c : Cmdrunner) → IsValid c → IsValid (add_cmd name c).1
unfolding add_cmd
add_cmd-IsValid name c h = elim (Bool-cases (length c.commands == command_max_count)) [
  | inl full ↦ rw full h
  | inr room ↦
      let le = h.commands_below in
      let longer = length-append c.commands (name ∷ []) in
      let below : length (c.commands ++ (name ∷ [])) ≤ command_max_count = ground arith in
      rw room (record {
        len_below = h.len_below;
        current_below = h.current_below;
        last_below = h.last_below;
        carret_below = h.carret_below;
        commands_below = below;
        escbuflen_below = h.escbuflen_below;
      })
]

typed-IsValid : (ch : ℕ) (c : Cmdrunner) → IsValid c → IsValid (typed ch c)
unfolding typed
typed-IsValid ch c h = elim (Bool-cases (ltb c.carret cmdline_buf_size)) [
  | inl room ↦
      rw room (with_line-IsValid (store c.carret ch c.inputbuf) (c.carret + 1) c (ground arith) h)
  | inr full ↦ rw full h
]

-- The same with what a line leads to. Where there is no result, something is full, or a character other
-- than `[` comes after ESC, which is the panic.
abbrev pub IsHandled : Cmdrunner → ℕ → Option (Cmdrunner × Option Line) → Type 0
IsHandled c ch none = ((c.escbuflen ≡ 1) × (ch ≢ 0x5b)) ⊎ IsFull c
IsHandled c ch (some r) = IsValid r.0

without_line-IsHandled :
    (c : Cmdrunner) (ch : ℕ) (o : Option Cmdrunner) → IsSafe c o → IsHandled c ch (without_line o)
without_line-IsHandled c ch none full = inr full
without_line-IsHandled c ch (some d) valid = valid

plain_char-IsHandled : (c : Cmdrunner) (ch : ℕ) → IsValid c → IsHandled c ch (plain_char c ch)
unfolding plain_char on_newline
plain_char-IsHandled c ch h = elim (Bool-cases ((ch == 0x0a) || (ch == 0x0d))) [
  | inl newline ↦ rw newline (
      with_line-IsValid (flush_inputbuf (history_put c)).inputbuf 0 (history_put c) (omega arith)
        (history_put-IsValid c h))
  | inr other ↦ elim (Bool-cases ((ch == 0x08) || (ch == 0x7f))) [
    | inl back ↦ rw (other, back) (without_line-IsHandled c ch (backspace c) (backspace-IsSafe c h))
    | inr plain ↦ rw (other, plain) (typed-IsValid ch c h)
  ]
]

arrow-IsSafe : (ch : ℕ) (c : Cmdrunner) → IsValid c → IsSafe c (arrow ch c)
unfolding arrow
arrow-IsSafe ch c h = elim (Bool-cases (ch == 0x41)) [
  | inl up ↦ rw up (scroll_up-IsSafe c h)
  | inr other ↦ elim (Bool-cases (ch == 0x42)) [
    | inl down ↦ rw (other, down) (scroll_down-IsSafe c h)
    | inr neither ↦ rw (other, neither) h
  ]
]

after_arrow :
    (c : Cmdrunner) (ch : ℕ) (o : Option Cmdrunner)
    → IsSafe c o
    → IsHandled c ch (without_line (o >>= (λ d. some (with_escbuflen 0 d))))
after_arrow c ch none full = inr full
after_arrow c ch (some d) valid = with_escbuflen-IsValid 0 d (omega arith) valid

pub handle_char-IsHandled : (c : Cmdrunner) (ch : ℕ) → IsValid c → IsHandled c ch (handle_char c ch)
unfolding handle_char escape_char
handle_char-IsHandled c ch h = elim (Bool-cases (ltb 0 c.escbuflen)) [
  | inl escaped ↦ elim (Bool-cases (c.escbuflen == 1)) [
    | inl first ↦ elim (Bool-cases (ch == 0x5b)) [
      | inl bracket ↦
          rw (escaped, first, bracket) (with_escbuflen-IsValid (c.escbuflen + 1) c (ground arith) h)
      | inr other ↦ rw (escaped, first, other) (inl (ground arith, ground arith))
    ]
    | inr second ↦ rw (escaped, second) (after_arrow c ch (arrow ch c) (arrow-IsSafe ch c h))
  ]
  | inr plain ↦ elim (Bool-cases (ch == 0x1b)) [
    | inl escape ↦ rw (plain, escape) (with_escbuflen-IsValid 1 c (omega arith) h)
    | inr other ↦ rw (plain, other) (plain_char-IsHandled c ch h)
  ]
]

add_cmds-IsValid : (names : List (List ℕ)) (c : Cmdrunner) → IsValid c → IsValid (add_cmds names c)
unfolding add_cmds
add_cmds-IsValid [] c h = h
add_cmds-IsValid (name ∷ names) c h =
    add_cmds-IsValid names (add_cmd name c).1 (add_cmd-IsValid name c h)

pub cmdrunner_init-IsValid : (names : List (List ℕ)) (m : Memory) → IsValid (cmdrunner_init names m)
unfolding cmdrunner_init
cmdrunner_init-IsValid names m = add_cmds-IsValid names (blank m) (record {
  len_below = λ j. omega arith;
  current_below = omega arith;
  last_below = omega arith;
  carret_below = omega arith;
  commands_below = omega arith;
  escbuflen_below = omega arith;
})
