-- ===== src/Base/Word.antt =====
-- 64-bit words as their bit patterns, numbers below 2 ^ 64. `int64_t` and `uint64_t` share the
-- arithmetic, which wraps; the signed order is the order of the patterns moved by 2 ^ 63.
use llvm_mctoll.Base.{ℕ, ◌+◌, ◌-◌, ◌*◌, ◌%◌, ◌^◌, ◌<◌, ltb, leb, Bool}

abbrev pub word : ℕ
word = 2 ^ 64

abbrev pub IsWord : ℕ → Type 0
IsWord n = n < 2 ^ 64

unfoldable pub add64 : ℕ → ℕ → ℕ
add64 a b = (a + b) % 2 ^ 64

unfoldable pub sub64 : ℕ → ℕ → ℕ
sub64 a b = (a + 2 ^ 64 - b) % 2 ^ 64

unfoldable pub mul64 : ℕ → ℕ → ℕ
mul64 a b = a * b % 2 ^ 64

-- The place of a pattern in the signed order.
abbrev pub rank : ℕ → ℕ
rank a = (a + 2 ^ 63) % 2 ^ 64

abbrev pub slt : ℕ → ℕ → Bool
slt a b = ltb (rank a) (rank b)

abbrev pub sle : ℕ → ℕ → Bool
sle a b = leb (rank a) (rank b)
