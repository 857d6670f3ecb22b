-- ===== src/Ir/Scalar/Tests.antt =====
-- Runs of the evaluators of src/ir/scalar.hpp, on a stand-in for the float unit that knows the two
-- zeros and orders patterns as numbers.
use helesta.Prelude.{
  ℕ, ◌+◌, ◌*◌, ◌/◌, ◌%◌, ◌^◌, ◌≡◌, refl, Bool, true, ◌&&◌, ◌||◌, ◌⊎◌, ◌↔◌, none, some, ltb, leb,
  ◌==◌, arith,
}
use helesta.Prelude.Int.{tdiv, tmod}
use helesta.Prelude.Word.{mul32}
use helesta.Ir.Scalar.{
  FloatUnit, BinaryCompute, int, float, bits, zero_f, minus_zero_f, int_min, minus_one,
  is_commutable_compute, is_useless_binary, typed_compute_unary, typed_compute_binary,
  compute_unary, compute_binary,
}
use helesta.Ir.Scalar.BinaryCompute.{mul, div, modulo, less, shl, fadd}
use helesta.Ir.Scalar.UnaryCompute.{neg}
use helesta.Ir.Scalar.Laws.{
  IsWide, Commutes, Traps, typed_compute-agrees, typed_compute-aborts, typed_compute_unary-agrees,
  compute_comm,
}
use helesta.Ir.Scalar.Useless.{HasSignedZeros, useless_sound, useless_fadd_unsound}

abbrev is_zero_f : ℕ → Bool
is_zero_f a = a == zero_f || a == minus_zero_f

abbrev pub toy : FloatUnit
toy = record {
  plus = λ a b. (a % 2 ^ 31 + b % 2 ^ 31) % 2 ^ 31;
  minus = λ a b. a % 2 ^ 32;
  times = λ a b. a * b % 2 ^ 32;
  over = λ a b. a % 2 ^ 32;
  lt = λ a b. ltb a b;
  le = λ a b. leb a b;
  equal = λ a b. a == b || (is_zero_f a && is_zero_f b);
  negate = λ a. (a + 2 ^ 31) % 2 ^ 32;
  to_int = λ a. a % 2 ^ 32 / 2 ^ 30;
  from_int = λ a. a % 2 ^ 32;
  double_low = λ a. a / 2;
  double_high = λ a. a;
  int_double_low = λ a. a;
  int_double_high = λ a. 0;
  wide_shift = λ a b. 0;
}

toy-HasSignedZeros : HasSignedZeros toy
toy-HasSignedZeros = record { zeros_equal = refl; zero_plus = refl }

pub toy-IsWide : IsWide toy
toy-IsWide = record {
  plus_word = λ a b. omega arith;
  minus_word = λ a b. omega arith;
  times_word = λ a b. omega arith;
  over_word = λ a b. omega arith;
  negate_word = λ a. omega arith;
  to_int_word = λ a. omega arith;
  from_int_word = λ a. omega arith;
  shift_word = λ a b. omega arith;
}

-- -7 / 2 truncates to -3.
minus_seven_halves : compute_binary toy div 0xfffffff9 2 ≡ some 0xfffffffd
unfolding compute_binary tdiv tmod
minus_seven_halves = refl

minus_seven_rem : compute_binary toy modulo 0xfffffff9 2 ≡ some 0xffffffff
unfolding compute_binary tdiv tmod
minus_seven_rem = refl

-- The run guards INT_MIN / -1, and not INT_MIN % -1.
int_min_div : compute_binary toy div int_min minus_one ≡ some 0
unfolding compute_binary
int_min_div = refl

int_min_rem : compute_binary toy modulo int_min minus_one ≡ none
unfolding compute_binary
int_min_rem = refl

negative_less : compute_binary toy less minus_one 0 ≡ some 1
unfolding compute_binary
negative_less = refl

fold_div : typed_compute_binary toy div (int 0xfffffff9) (int 2) ≡ some (int 0xfffffffd)
unfolding typed_compute_binary tdiv
fold_div = refl

typed_compute-agrees_example : compute_binary toy div 0xfffffff9 2 ≡ some 0xfffffffd
typed_compute-agrees_example = typed_compute-agrees toy div 0xfffffff9 2 fold_div

fold_trap : typed_compute_binary toy div (int int_min) (int minus_one) ≡ none
unfolding typed_compute_binary
fold_trap = refl

typed_compute-aborts_example :
    (div ≡ shl) ⊎ ((◌≡◌ {A = BinaryCompute} div div ⊎ (div ≡ modulo)) × Traps int_min minus_one)
typed_compute-aborts_example = typed_compute-aborts toy div int_min minus_one fold_trap

typed_compute_unary-agrees_example :
    bits (typed_compute_unary toy neg (int 5)) ≡ compute_unary toy neg 5
typed_compute_unary-agrees_example = typed_compute_unary-agrees toy neg 5 (λ e. cc)

run_mul : compute_binary toy mul 0x10000 0x10001 ≡ some 0x10000
unfolding compute_binary mul32
run_mul = refl

compute_comm_example : (is_commutable_compute mul ≡ true) ↔ Commutes toy mul
compute_comm_example = compute_comm toy mul refl

useless_sound_example :
    (is_useless_binary toy div (some (int 1)) none ≡ true → compute_binary toy div 1 9 ≡ some 9)
    × (is_useless_binary toy div none (some (int 1)) ≡ true → compute_binary toy div 9 1 ≡ some 9)
useless_sound_example = useless_sound toy div 1 9 (omega arith)

useless_fadd_unsound_example :
    (is_useless_binary toy fadd (some (float zero_f)) none ≡ true)
    × (compute_binary toy fadd zero_f minus_zero_f ≡ some zero_f)
    × (¬ ((x : ℕ) → compute_binary toy fadd zero_f x ≡ some x))
useless_fadd_unsound_example = useless_fadd_unsound toy toy-HasSignedZeros
