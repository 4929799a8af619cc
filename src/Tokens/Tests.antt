-- ===== src/Tokens/Tests.antt =====
-- The text " hi ho" at 8.
use arm64_os.Base.{◌≡◌, refl, [], ◌∷◌, map, take, ◌==◌, if◌then◌else◌}
use arm64_os.Strings.{Memory, isspace}
use arm64_os.Tokens.{tokenize_string, tokenize, token_at, scan_word, skip_spaces}
use arm64_os.Tokens.Scans.{token_text, words, text}
use arm64_os.Tokens.Words.{tokenize_string-words}

abbrev line : Memory
line p =
    if p == 8
    then 0x20
    else if p == 9
    then 0x68
    else if p == 10
    then 0x69
    else if p == 11
    then 0x20
    else if p == 12
    then 0x68
    else if p == 13
    then 0x6f
    else 0

two_tokens :
    tokenize_string line 8 20 4 ≡ (record { s = 9; len = 2 }) ∷ (record { s = 12; len = 2 }) ∷ []
unfolding tokenize_string tokenize token_at scan_word skip_spaces isspace
two_tokens = refl

tokenize_string-words_example :
    map (token_text line) (tokenize_string line 8 20 1) ≡ take 1 (words (text line 12 8))
tokenize_string-words_example = tokenize_string-words line 8 20 1
