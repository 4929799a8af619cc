-- ===== src/Cmdrunner/History.antt =====
-- What the arrow up brings back.
use arm64_os.Base.{
  ℕ, suc, ◌-◌, ◌<◌, ◌≡◌, ◌≢◌, refl, arith, true, false, ◌==◌, sym, ◌∙◌, leb, Option, none, some,
  ◌>>=◌,
}
use arm64_os.Cmdrunner.{
  Cmdrunner, with_current, cmdline_buf_size, clear_line, clear_line_loop, fetched,
  max_history_lines, same_chars, history_prev, history_fetch, history_after, put_line, history_put,
  scroll_up, flush_inputbuf,
}
use arm64_os.Cmdrunner.Input.{on_newline, plain_char}

-- There is a result, whose line is `n` characters, those of `s`.
abbrev pub HoldsLine : Option Cmdrunner → (ℕ → ℕ) → ℕ → Type 0
HoldsLine none s n = ⊥
HoldsLine (some c) s n = (c.carret ≡ n) × ((q : ℕ) → q < n → c.inputbuf q ≡ s q)

fetch-HoldsLine :
    (c : Cmdrunner) (i : ℕ)
    → c.carret ≡ 0
    → (c.h i).len < cmdline_buf_size
    → HoldsLine (history_fetch (with_current i c)) (c.h i).s (c.h i).len
unfolding history_fetch clear_line clear_line_loop fetched
fetch-HoldsLine c i e lt =
    let room : leb cmdline_buf_size (c.h i).len ≡ false = ground arith in
    rw (e, room) (refl, λ q below_q. ground arith)

HoldsLine-same :
    (o : Option Cmdrunner) (s s' : ℕ → ℕ) (n n' : ℕ)
    → HoldsLine o s n
    → n ≡ n'
    → ((q : ℕ) → q < n' → s q ≡ s' q)
    → HoldsLine o s' n'
HoldsLine-same none s s' n n' held e same = held
HoldsLine-same (some c) s s' n n' (len, chars) e same =
    (len ∙ e, λ q lt. chars q (omega (arith, e, lt)) ∙ same q lt)

-- From the element `i` + 1, or from 0 to the one before the last.
up_one :
    (c : Cmdrunner) (i : ℕ)
    → c.current ≡ suc i
    → (c.h i).s 0 ≢ 0
    → c.carret ≡ 0
    → (c.h i).len < cmdline_buf_size
    → HoldsLine (scroll_up c) (c.h i).s (c.h i).len
unfolding scroll_up history_prev
up_one c i e there start lt =
    let back : suc i - 1 ≡ i = omega arith in
    let starts : ((c.h i).s 0 == 0) ≡ false = ground arith in
    let moved : (i == suc i) ≡ false = ground arith in
    let not_first : (suc i == 0) ≡ false = ground arith in
    rw (e, not_first, back, starts, moved) (fetch-HoldsLine c i start lt)

up_first :
    (c : Cmdrunner)
    → c.current ≡ 0
    → (c.h 6).s 0 ≢ 0
    → c.carret ≡ 0
    → (c.h 6).len < cmdline_buf_size
    → HoldsLine (scroll_up c) (c.h 6).s (c.h 6).len
unfolding scroll_up history_prev
up_first c e there start lt =
    let starts : ((c.h 6).s 0 == 0) ≡ false = ground arith in
    rw (e, starts) (fetch-HoldsLine c 6 start lt)

-- The history at the next line: the element after the last one is the line.
newline :
    (c : Cmdrunner)
    → same_chars (c.h c.last).s c.inputbuf 0 c.carret ≡ false
    → (plain_char c 0x0a >>= (λ r. scroll_up r.0)) ≡ scroll_up (flush_inputbuf (put_line c))
unfolding plain_char on_newline history_put
newline c other = rw other refl

put_line-element :
    (c : Cmdrunner) (i : ℕ)
    → history_after c.last ≡ i
    → (((put_line c).h i).len ≡ c.carret)
      × ((q : ℕ) → q < c.carret → ((put_line c).h i).s q ≡ c.inputbuf q)
unfolding put_line
put_line-element c i e =
    let same : (i == i) ≡ true = ground arith in rw (e, same) (refl, λ q lt. ground arith)

-- A line that is not empty and not full, and not how the last line of the history starts, is back in the
-- line after its newline and an arrow up, unless it went into the last element of the history.
pub scroll_up-plain_char :
    (c : Cmdrunner)
    → 0 < c.carret
    → c.carret < cmdline_buf_size
    → c.inputbuf 0 ≢ 0
    → same_chars (c.h c.last).s c.inputbuf 0 c.carret ≡ false
    → c.last < max_history_lines
    → c.last ≢ 6
    → HoldsLine (plain_char c 0x0a >>= (λ r. scroll_up r.0)) c.inputbuf c.carret
unfolding history_after put_line
scroll_up-plain_char c lt room there other below not_six =
    let i = history_after c.last in
    let next : history_after i ≡ suc i = ground arith in
    let (len, chars) = put_line-element c i refl in
    let up =
      up_one (flush_inputbuf (put_line c)) i next (λ e. there (sym (chars 0 lt) ∙ e)) refl
        (omega (arith, len, room)) in
    rw (newline c other) (
      HoldsLine-same (scroll_up (flush_inputbuf (put_line c))) ((put_line c).h i).s c.inputbuf
        ((put_line c).h i).len c.carret up len chars)

-- A line that goes into the last element of the history is skipped by the arrow up, which brings the
-- element before it, if that is neither empty nor full.
pub scroll_up_skips :
    (c : Cmdrunner)
    → same_chars (c.h c.last).s c.inputbuf 0 c.carret ≡ false
    → c.last ≡ 6
    → (c.h 6).s 0 ≢ 0
    → (c.h 6).len < cmdline_buf_size
    → HoldsLine (plain_char c 0x0a >>= (λ r. scroll_up r.0)) (c.h 6).s (c.h 6).len
unfolding history_after put_line
scroll_up_skips c other six there room =
    let last : history_after c.last ≡ 7 = ground arith in
    let wraps : history_after (history_after c.last) ≡ 0 = ground arith in
    let kept : (6 == history_after c.last) ≡ false = ground arith in
    let element : (put_line c).h 6 ≡ c.h 6 = rw kept refl in
    let starts : ((put_line c).h 6).s 0 ≢ 0 = rw element there in
    let short : ((put_line c).h 6).len < cmdline_buf_size = rw element room in
    let up = up_first (flush_inputbuf (put_line c)) wraps starts refl short in
    rw (newline c other) (rw element at up)
