-- ===== src/Prelude/Words.antt =====
use Prim.Native.Nat.{ℕ, ◌+◌, ◌-◌, ◌*◌, ◌%◌, ◌^◌}

abbrev pub word_size : ℕ
word_size = 2 ^ 64

abbrev pub add64 : ℕ → ℕ → ℕ
add64 a b = (a + b) % word_size

abbrev pub sub64 : ℕ → ℕ → ℕ
sub64 a b = (a + word_size - b) % word_size

abbrev pub mul64 : ℕ → ℕ → ℕ
mul64 a b = a * b % word_size
