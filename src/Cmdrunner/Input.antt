-- ===== src/Cmdrunner/Input.antt =====
-- cmdrunner/cmdrunner.c: what a character does, and the search for the command of a line.
use arm64_os.Base.{
  ℕ, zero, suc, ◌+◌, List, [], ◌∷◌, ◌++◌, length, Bool, true, false, Option, none, some, ltb, ◌==◌,
  ◌||◌, if◌then◌else◌, ◌>>=◌,
}
use arm64_os.Strings.{Memory, store}
use arm64_os.Tokens.{StringToken, tokenize_string}
use arm64_os.Cmdrunner.{
  Cmdrunner, with_line, with_escbuflen, cmdline_buf_size, command_max_count, same_chars,
  history_put, scroll_up, scroll_down, backspace, flush_inputbuf,
}

-- a name with its terminator
abbrev pub chars_of : List ℕ → Memory
chars_of [] q = 0
chars_of (c ∷ cs) zero = c
chars_of (c ∷ cs) (suc q) = chars_of cs q

unfoldable pub string_token_eq : Memory → StringToken → List ℕ → Bool
unfolding same_chars
string_token_eq m t name = same_chars (λ q. m (t.s + q)) (chars_of name) 0 t.len

-- the index of a command, counted from `i` on
unfoldable pub get_command : Memory → StringToken → ℕ → List (List ℕ) → Option ℕ
unfolding string_token_eq
get_command m t i [] = none
get_command m t i (name ∷ names) =
    let rest = get_command m t (suc i) names in if string_token_eq m t name then some i else rest

-- What a line leads to. Without a token, the code compares a token that is not set.
pub data Line : Type 0 where
  no_token : Line
  unknown_command : Line
  runs : ℕ → List StringToken → Line

abbrev pub line_of : Memory → List (List ℕ) → List StringToken → Line
unfolding get_command
line_of m names [] = no_token
line_of m names (t ∷ ts) = elim (get_command m t 0 names) [
  | none ↦ unknown_command
  | some i ↦ runs i ts
]

unfoldable pub on_newline : Cmdrunner → Cmdrunner × Line
unfolding history_put tokenize_string line_of
on_newline c =
    let put = history_put c in
    (put, line_of put.inputbuf put.commands (tokenize_string put.inputbuf 0 put.carret 8))

unfoldable pub add_cmd : List ℕ → Cmdrunner → Bool × Cmdrunner
add_cmd name c =
    let added : Cmdrunner = record {
      h = c.h;
      current = c.current;
      last = c.last;
      inputbuf = c.inputbuf;
      carret = c.carret;
      commands = c.commands ++ (name ∷ []);
      escbuflen = c.escbuflen;
    } in
    if length c.commands == command_max_count then (false, c) else (true, added)

-- a character after ESC [
unfoldable pub arrow : ℕ → Cmdrunner → Option Cmdrunner
unfolding scroll_up scroll_down
arrow ch c = if ch == 0x41 then scroll_up c else if ch == 0x42 then scroll_down c else some c

-- a character after ESC
unfoldable pub escape_char : Cmdrunner → ℕ → Option Cmdrunner
unfolding arrow
escape_char c ch =
    if c.escbuflen == 1
    then (if ch == 0x5b then some (with_escbuflen (c.escbuflen + 1) c) else none)
    else arrow ch c >>= (λ d. some (with_escbuflen 0 d))

unfoldable pub typed : ℕ → Cmdrunner → Cmdrunner
typed ch c =
    if ltb c.carret cmdline_buf_size
    then with_line (store c.carret ch c.inputbuf) (c.carret + 1) c
    else c

abbrev pub without_line : Option Cmdrunner → Option (Cmdrunner × Option Line)
without_line none = none
without_line (some c) = some (c, none)

-- a character of a line
unfoldable pub plain_char : Cmdrunner → ℕ → Option (Cmdrunner × Option Line)
unfolding on_newline backspace typed
plain_char c ch =
    let (put, line) = on_newline c in
    if (ch == 0x0a) || (ch == 0x0d)
    then some (flush_inputbuf put, some line)
    else if (ch == 0x08) || (ch == 0x7f)
    then without_line (backspace c)
    else some (typed ch c, none)

unfoldable pub handle_char : Cmdrunner → ℕ → Option (Cmdrunner × Option Line)
unfolding escape_char plain_char
handle_char c ch =
    if ltb 0 c.escbuflen
    then without_line (escape_char c ch)
    else if ch == 0x1b
    then some (with_escbuflen 1 c, none)
    else plain_char c ch

-- the characters that the interactive loop gets, one after the other
unfoldable pub handle_chars : Cmdrunner → List ℕ → Option Cmdrunner
unfolding handle_char
handle_chars c [] = some c
handle_chars c (ch ∷ chs) = handle_char c ch >>= (λ r. handle_chars r.0 chs)

-- `commands` gets the names one after the other.
unfoldable pub add_cmds : List (List ℕ) → Cmdrunner → Cmdrunner
unfolding add_cmd
add_cmds [] c = c
add_cmds (name ∷ names) c = add_cmds names (add_cmd name c).1

-- before there is a command; `m` is what stands behind the line in memory
abbrev pub blank : Memory → Cmdrunner
blank m =
    let c : Cmdrunner = record {
      h = λ j. record { s = λ q. 0; len = 0 };
      current = 0;
      last = 0;
      inputbuf = m;
      carret = 0;
      commands = [];
      escbuflen = 0;
    } in
    flush_inputbuf c

unfoldable pub cmdrunner_init : List (List ℕ) → Memory → Cmdrunner
unfolding add_cmds
cmdrunner_init names m = add_cmds names (blank m)
