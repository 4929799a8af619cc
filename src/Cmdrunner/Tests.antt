-- ===== src/Cmdrunner/Tests.antt =====
-- Lines that are typed, kept and brought back.
use arm64_os.Base.{ℕ, ◌≡◌, refl, arith, List, [], ◌∷◌, Option, ◌==◌, if◌then◌else◌, ◌>>=◌}
use arm64_os.Strings.{Memory, store, isspace}
use arm64_os.Cmdrunner.{Cmdrunner, scroll_up, same_chars}
use arm64_os.Cmdrunner.Input.{runs, blank, cmdrunner_init, handle_chars, plain_char, on_newline}
use arm64_os.Cmdrunner.History.{HoldsLine, scroll_up-plain_char, scroll_up_skips}
use arm64_os.Cmdrunner.Typing.{IsTyped, IsReached, handle_chars-IsTyped}

-- ls, ps, pwm
abbrev names : List (List ℕ)
names = (0x6c ∷ 0x73 ∷ []) ∷ (0x70 ∷ 0x73 ∷ []) ∷ (0x70 ∷ 0x77 ∷ 0x6d ∷ []) ∷ []

abbrev memory : Memory
memory q = 0xcc

abbrev with_ps : Cmdrunner
with_ps = record {
  h = λ j. record { s = λ q. 0; len = 0 };
  current = 0;
  last = 0;
  inputbuf = λ q. if q == 0 then 0x70 else if q == 1 then 0x73 else 0;
  carret = 2;
  commands = names;
  escbuflen = 0;
}

abbrev at_six : Cmdrunner
at_six = record {
  h = λ j. record { s = λ q. 0x6c; len = 2 };
  current = 7;
  last = 6;
  inputbuf = with_ps.inputbuf;
  carret = 2;
  commands = names;
  escbuflen = 0;
}

runs_ps : (on_newline with_ps).1 ≡ runs 1 []
unfolding on_newline isspace
runs_ps = refl

handle_chars-IsTyped_example :
    IsReached
      (λ d. IsTyped d (0x73 ∷ 0x6c ∷ []))
      (handle_chars (blank memory) (0x6c ∷ 0x70 ∷ 0x08 ∷ 0x73 ∷ []))
handle_chars-IsTyped_example =
    handle_chars-IsTyped (0x6c ∷ 0x70 ∷ 0x08 ∷ 0x73 ∷ []) (blank memory) []
      (
        (ground arith, ground arith, ground arith),
        refl,
        (
          (ground arith, ground arith, ground arith),
          refl,
          (
            (ground arith, ground arith, ground arith),
            refl,
            ((ground arith, ground arith, ground arith), refl, tt),
          ),
        ),
      )
      (record { no_escape = refl; is_length = refl; is_stack = tt })

scroll_up-plain_char_example :
    HoldsLine (plain_char with_ps 0x0a >>= (λ r. scroll_up r.0)) with_ps.inputbuf 2
unfolding same_chars
scroll_up-plain_char_example =
    scroll_up-plain_char with_ps (omega arith) (omega arith) (ground arith) refl (omega arith)
      (ground arith)

scroll_up_skips_example : HoldsLine (plain_char at_six 0x0a >>= (λ r. scroll_up r.0)) (λ q. 0x6c) 2
unfolding same_chars
scroll_up_skips_example = scroll_up_skips at_six refl refl (ground arith) (omega arith)

abbrev after_l : Option Cmdrunner
unfolding handle_chars cmdrunner_init
after_l = handle_chars (cmdrunner_init names memory) (0x6c ∷ [])

abbrev typed_l : Cmdrunner
typed_l = record {
  h = λ j. record { s = λ q. 0; len = 0 };
  current = 0;
  last = 0;
  inputbuf = store 0 0x6c (blank memory).inputbuf;
  carret = 1;
  commands = names;
  escbuflen = 0;
}
