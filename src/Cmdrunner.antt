-- ===== src/Cmdrunner.antt =====
-- cmdrunner/cmdrunner.c: the line that is typed, its history, and the commands. A pointer into the
-- line is its distance from the start of it. `none` is a panic, or a write behind the line. What is
-- printed is not modelled, and neither is what a command does.
pub mod Input
pub mod Valid
pub mod Reached
pub mod History
pub mod Typing
mod Tests
use arm64_os.Base.{
  ◌>>=◌, ℕ, zero, suc, ◌+◌, ◌-◌, List, [], ◌∷◌, ◌++◌, length, Bool, true, false, Option, none, some,
  ltb, leb, ◌==◌, not, ◌&&◌, ◌||◌, if◌then◌else◌,
}
use arm64_os.Strings.{Memory, store}

-- CMDLINE_BUF_SIZE, MAX_HISTORY_LINES, COMMAND_MAX_COUNT
abbrev pub cmdline_buf_size : ℕ
cmdline_buf_size = 1024

abbrev pub max_history_lines : ℕ
max_history_lines = 8

abbrev pub command_max_count : ℕ
command_max_count = 256

pub record HistoryElement : Type 0 where
  pub s : Memory
  pub len : ℕ

-- `commands` has the names; `escbuflen` is of the state that the caller keeps.
pub record Cmdrunner : Type 0 where
  pub h : ℕ → HistoryElement
  pub current : ℕ
  pub last : ℕ
  pub inputbuf : Memory
  pub carret : ℕ
  pub commands : List (List ℕ)
  pub escbuflen : ℕ

abbrev pub with_current : ℕ → Cmdrunner → Cmdrunner
with_current i c = record {
  h = c.h;
  current = i;
  last = c.last;
  inputbuf = c.inputbuf;
  carret = c.carret;
  commands = c.commands;
  escbuflen = c.escbuflen;
}

abbrev pub with_line : Memory → ℕ → Cmdrunner → Cmdrunner
with_line buf n c = record {
  h = c.h;
  current = c.current;
  last = c.last;
  inputbuf = buf;
  carret = n;
  commands = c.commands;
  escbuflen = c.escbuflen;
}

abbrev pub with_escbuflen : ℕ → Cmdrunner → Cmdrunner
with_escbuflen n c = record {
  h = c.h;
  current = c.current;
  last = c.last;
  inputbuf = c.inputbuf;
  carret = c.carret;
  commands = c.commands;
  escbuflen = n;
}

-- whether `current` has changed, and the state
unfoldable pub history_prev : Cmdrunner → Bool × Cmdrunner
history_prev c =
    let i =
      if c.current == 0
      then (if not ((c.h (max_history_lines - 2)).s 0 == 0)
          then max_history_lines - 2
          else c.current)
      else if not ((c.h (c.current - 1)).s 0 == 0)
      then c.current - 1
      else c.current in
    (not (i == c.current), with_current i c)

unfoldable pub history_next : Cmdrunner → Bool × Cmdrunner
history_next c =
    let i =
      if not (c.current + 1 == max_history_lines)
      then (if not ((c.h (c.current + 1)).s 0 == 0) then c.current + 1 else c.current)
      else 0 in
    (not (i == c.current), with_current i c)

-- At the end of a full line, the byte behind the line is cleared.
unfoldable pub backspace : Cmdrunner → Option Cmdrunner
backspace c =
    if c.carret == 0
    then some c
    else if leb cmdline_buf_size c.carret
    then none
    else some (with_line (store c.carret 0 c.inputbuf) (c.carret - 1) c)

-- One round per character of the line is enough fuel.
unfoldable pub clear_line_loop : ℕ → Cmdrunner → Option Cmdrunner
unfolding backspace
clear_line_loop zero c = some c
clear_line_loop (suc n) c =
    let rest = backspace c >>= clear_line_loop n in if ltb 0 c.carret then rest else some c

unfoldable pub clear_line : Cmdrunner → Option Cmdrunner
unfolding clear_line_loop
clear_line c = clear_line_loop c.carret c

-- `memcpy` between two arrays, from the start of each
abbrev pub copied : Memory → ℕ → Memory → Memory
copied src n dst q = if ltb q n then src q else dst q

-- the line as an element of the history; the terminator of a full one would be behind the line
unfoldable pub fetched : HistoryElement → Cmdrunner → Option Cmdrunner
fetched e c =
    if leb cmdline_buf_size e.len
    then none
    else some (with_line (store e.len 0 (copied e.s e.len c.inputbuf)) e.len c)

unfoldable pub history_fetch : Cmdrunner → Option Cmdrunner
unfolding clear_line fetched
history_fetch c = clear_line c >>= fetched (c.h c.current)

-- `strncmp(a, b, n) == 0` from the index `q` on
unfoldable pub same_chars : Memory → Memory → ℕ → ℕ → Bool
same_chars a b q zero = true
same_chars a b q (suc n) =
    let rest = same_chars a b (suc q) n in
    if (not (a q == 0) && not (b q == 0)) && (a q == b q) then rest else a q == b q

-- the index after `i`
unfoldable pub history_after : ℕ → ℕ
history_after i = if i + 1 == max_history_lines then 0 else i + 1

-- the line as the next element of the history
unfoldable pub put_line : Cmdrunner → Cmdrunner
unfolding history_after
put_line c =
    let i = history_after c.last in
    let e : HistoryElement = record { s = copied c.inputbuf c.carret (c.h i).s; len = c.carret } in
    record {
      h = λ j. if j == i then e else c.h j;
      current = history_after i;
      last = i;
      inputbuf = c.inputbuf;
      carret = c.carret;
      commands = c.commands;
      escbuflen = c.escbuflen;
    }

unfoldable pub history_put : Cmdrunner → Cmdrunner
unfolding same_chars put_line
history_put c = if same_chars (c.h c.last).s c.inputbuf 0 c.carret then c else put_line c

unfoldable pub scroll_up : Cmdrunner → Option Cmdrunner
unfolding history_prev history_fetch
scroll_up c =
    let (changed, c') = history_prev c in
    let line = history_fetch c' in if changed then line else some c'

unfoldable pub scroll_down : Cmdrunner → Option Cmdrunner
unfolding history_next history_fetch
scroll_down c =
    let (changed, c') = history_next c in
    let line = history_fetch c' in if changed then line else some c'

abbrev pub flush_inputbuf : Cmdrunner → Cmdrunner
flush_inputbuf c = with_line (λ q. if ltb q cmdline_buf_size then 0 else c.inputbuf q) 0 c
