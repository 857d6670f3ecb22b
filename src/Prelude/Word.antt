-- ===== src/Prelude/Word.antt =====
-- 32-bit machine integers as bit patterns below 2 ^ 32, with the arithmetic of `int32_t` on them:
-- two's complement, which wraps where the C++ standard leaves an overflow open.
pub mod Signed
pub mod Modular
use helesta.Prelude.{
  ℕ, ◌+◌, ◌-◌, ◌*◌, ◌%◌, ◌^◌, ◌<◌, ◌≡◌, Bool, true, false, arith, ltb, if◌then◌else◌,
}
use helesta.Prelude.Int.{ℤ, pos, negsuc, ltb_ℤ, ◌≤ℤ◌}

abbrev pub word_mod : ℕ
word_mod = 2 ^ 32

abbrev pub IsWord : ℕ → Type 0
IsWord w = w < 2 ^ 32

-- The integer that a bit pattern stands for, and the pattern of an integer.
abbrev pub signed : ℕ → ℤ
signed w = if ltb w (2 ^ 31) then pos w else negsuc (2 ^ 32 - w - 1)

abbrev pub of_int : ℤ → ℕ
of_int (pos n) = n % 2 ^ 32
of_int (negsuc n) = 2 ^ 32 - 1 - n % 2 ^ 32

unfoldable pub add32 : ℕ → ℕ → ℕ
add32 a b = (a + b) % 2 ^ 32

unfoldable pub sub32 : ℕ → ℕ → ℕ
sub32 a b = (a + (2 ^ 32 - b)) % 2 ^ 32

unfoldable pub mul32 : ℕ → ℕ → ℕ
mul32 a b = a * b % 2 ^ 32

unfoldable pub neg32 : ℕ → ℕ
neg32 a = (2 ^ 32 - a) % 2 ^ 32

-- `int32_t(b)` of a Boolean.
abbrev pub of_bool : Bool → ℕ
of_bool true = 1
of_bool false = 0

-- The range of `int32_t`.
abbrev pub Int32Range : ℤ → Type 0
Int32Range z = (negsuc (2 ^ 31 - 1) ≤ℤ z) × (z ≤ℤ pos (2 ^ 31 - 1))

-- The order of two patterns read as signed integers.
abbrev pub ltb_signed : ℕ → ℕ → Bool
ltb_signed a b = ltb_ℤ (signed a) (signed b)
