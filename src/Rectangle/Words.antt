-- ===== src/Rectangle/Words.antt =====
-- Words of 32 bits as the numbers from the smallest `int` on.
use arm64_os.Base.{ℕ, ◌+◌, ◌-◌, ◌^◌, ◌≤◌, ◌<◌, ◌≡◌, arith}
use arm64_os.Rectangle.{add_word, sub_word, bias}

pub bias_below : (a : ℕ) → bias a < 2 ^ 32
unfolding bias
bias_below a = omega arith

pub bias-add_word : (a n : ℕ) → bias a + n < 2 ^ 32 → bias (add_word a n) ≡ bias a + n
unfolding bias add_word
bias-add_word a n lt = omega arith

pub sub_word-bias :
    (a b : ℕ) → a < 2 ^ 32 → b < 2 ^ 32 → bias a ≤ bias b → sub_word b a ≡ bias b - bias a
unfolding bias sub_word
sub_word-bias a b below_a below_b le = omega arith

pub sub_word_lem : (s n : ℕ) → s < 2 ^ 32 → n ≤ s → sub_word s n ≡ s - n
unfolding sub_word
sub_word_lem s n lt le = omega arith

pub add_word_below : (a b : ℕ) → add_word a b < 2 ^ 32
unfolding add_word
add_word_below a b = omega arith
