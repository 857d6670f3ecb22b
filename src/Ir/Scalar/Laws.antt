-- ===== src/Ir/Scalar/Laws.antt =====
-- The two evaluators of src/ir/scalar.hpp against each other, and the exchange of operands.
use native.Mathlib.Nat.{mul_comm}
use helesta.Prelude.{ℕ, ◌≡◌, ◌≢◌, refl, sym, true, ◌⊎◌, ◌↔◌, ◌∙◌, inl, none, some, arith}
use helesta.Prelude.Int.{tdiv, tmod}
use helesta.Prelude.Word.{IsWord, add32, sub32, mul32}
use helesta.Ir.Scalar.{
  FloatUnit, UnaryCompute, BinaryCompute, TypedScalar, int, float, bits, int_min, minus_one,
  mod_int, is_commutable_compute, typed_compute_unary, typed_compute_binary, compute_unary,
  compute_binary,
}
use helesta.Ir.Scalar.BinaryCompute.{
  add, sub, mul, div, less, leq, eq, neq, modulo, shl, fadd, fsub, fmul, fdiv, fless, fleq, feq,
  fneq,
}
use helesta.Ir.Scalar.UnaryCompute.{lnot, fneg, f2i, f2d0, f2d1}

-- The typed scalar that an operand of an operator is, by the operator's name.
abbrev pub operand : BinaryCompute → ℕ → TypedScalar
operand fadd = float
operand fsub = float
operand fmul = float
operand fdiv = float
operand fless = float
operand fleq = float
operand feq = float
operand fneq = float
operand _ = int

abbrev pub operand1 : UnaryCompute → ℕ → TypedScalar
operand1 fneg = float
operand1 f2i = float
operand1 f2d0 = float
operand1 f2d1 = float
operand1 _ = int

-- The operands at which the host traps an integer division.
abbrev pub Traps : ℕ → ℕ → Type 0
Traps a b = (b ≡ 0) ⊎ ((a ≡ int_min) × (b ≡ minus_one))

-- What the operators keep of a float unit whose results are 32 bits.
pub record IsWide (m : FloatUnit) : Type 0 where
  pub plus_word : (a b : ℕ) → IsWord (m.plus a b)
  pub minus_word : (a b : ℕ) → IsWord (m.minus a b)
  pub times_word : (a b : ℕ) → IsWord (m.times a b)
  pub over_word : (a b : ℕ) → IsWord (m.over a b)
  pub negate_word : (a : ℕ) → IsWord (m.negate a)
  pub to_int_word : (a : ℕ) → IsWord (m.to_int a)
  pub from_int_word : (a : ℕ) → IsWord (m.from_int a)
  pub shift_word : (a b : ℕ) → IsWord (m.wide_shift a b)

module _ (m : FloatUnit) where
  -- A binary operator that a pass folds has the bits that running it gives, whenever the
  -- folding itself comes to an end.
  pub typed_compute-agrees :
      (op : BinaryCompute) (a b : ℕ) {v : TypedScalar}
      → typed_compute_binary m op (operand op a) (operand op b) ≡ some v
      → compute_binary m op a b ≡ some (bits v)
  unfolding typed_compute_binary compute_binary
  typed_compute-agrees add a b h = ground arith
  typed_compute-agrees _ a b h = ground arith

  -- Folding a binary operator aborts only on a shift, and on a division or remainder that the host
  -- traps.
  pub typed_compute-aborts :
      (op : BinaryCompute) (a b : ℕ)
      → typed_compute_binary m op (operand op a) (operand op b) ≡ none
      → (op ≡ shl) ⊎ (((op ≡ div) ⊎ (op ≡ modulo)) × Traps a b)
  unfolding typed_compute_binary
  typed_compute-aborts add a b h = ground arith
  typed_compute-aborts shl a b h = inl refl
  typed_compute-aborts div a b h = ground arith
  typed_compute-aborts modulo a b h = ground arith
  typed_compute-aborts _ a b h = cc

  -- A folded unary operator other than F2D1 gives the bits that running it gives.
  pub typed_compute_unary-agrees :
      (op : UnaryCompute) (a : ℕ)
      → op ≢ f2d1
      → bits (typed_compute_unary m op (operand1 op a)) ≡ compute_unary m op a
  unfolding typed_compute_unary compute_unary
  typed_compute_unary-agrees f2d1 a h = absurd (h refl)
  typed_compute_unary-agrees lnot a h = refl
  typed_compute_unary-agrees _ a h = refl

  -- The operands on words may be exchanged.
  abbrev pub Commutes : BinaryCompute → Type 0
  Commutes op = (a b : ℕ) → IsWord a → IsWord b → compute_binary m op a b ≡ compute_binary m op b a

  exchange :
      (op : BinaryCompute) → operand op 0 ≡ int 0 → is_commutable_compute op ≡ true → Commutes op
  unfolding is_commutable_compute compute_binary add32 mul32
  exchange add i h a b wa wb = ground arith
  exchange mul i h a b wa wb = ground (arith, mul_comm a b)
  exchange eq i h a b wa wb = ground arith
  exchange neq i h a b wa wb = ground arith
  exchange _ i h a b wa wb = cc

  no_exchange :
      (op : BinaryCompute) (a b v w : ℕ)
      → IsWord a
      → IsWord b
      → compute_binary m op a b ≡ some v
      → compute_binary m op b a ≡ some w
      → v ≢ w
      → ¬ Commutes op
  no_exchange op a b v w wa wb p q ne c =
      let same : some v ≡ some w = sym p ∙ c a b wa wb ∙ q in ne (ground arith)

  only_commutable :
      (op : BinaryCompute) → operand op 0 ≡ int 0 → Commutes op → is_commutable_compute op ≡ true
  unfolding is_commutable_compute compute_binary sub32 mod_int tdiv tmod
  only_commutable add i c = refl
  only_commutable mul i c = refl
  only_commutable eq i c = refl
  only_commutable neq i c = refl
  only_commutable sub i c =
      absurd (no_exchange sub 1 0 1 minus_one (omega arith) (omega arith) refl refl (omega arith) c)
  only_commutable div i c =
      absurd (no_exchange div 2 1 2 0 (omega arith) (omega arith) refl refl (omega arith) c)
  only_commutable less i c =
      absurd (no_exchange less 0 1 1 0 (omega arith) (omega arith) refl refl (omega arith) c)
  only_commutable leq i c =
      absurd (no_exchange leq 0 1 1 0 (omega arith) (omega arith) refl refl (omega arith) c)
  only_commutable modulo i c =
      absurd (no_exchange modulo 1 2 1 0 (omega arith) (omega arith) refl refl (omega arith) c)
  only_commutable shl i c =
      absurd (no_exchange shl 1 3 8 6 (omega arith) (omega arith) refl refl (omega arith) c)
  only_commutable _ i c = cc

  -- Of the operators on integers, value numbering looks up with their operands exchanged exactly those that commute
  -- on all words when they are run.
  pub compute_comm :
      (op : BinaryCompute) → operand op 0 ≡ int 0 → (is_commutable_compute op ≡ true) ↔ Commutes op
  compute_comm op i = (exchange op i, only_commutable op i)
