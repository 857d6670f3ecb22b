-- ===== src/Arm/Cond.antt =====
-- `InstCond` of src/arm/block.hpp and the two functions on it of src/arm/inst.cpp.
pub mod Tests
use helesta.Prelude.{ℕ, ◌≡◌, Bool, true, false, not, Option, none, some, ◌==◌, ==_iff, arith, refl}
use helesta.Prelude.Word.{signed, ltb_signed}

pub data InstCond : Type 0 where
  always eq ne ge gt le lt : InstCond

-- A missing result is the failed assertion.
unfoldable pub logical_not : InstCond → Option InstCond
logical_not eq = some ne
logical_not ne = some eq
logical_not ge = some lt
logical_not gt = some le
logical_not le = some gt
logical_not lt = some ge
logical_not always = none

unfoldable pub reverse_operand : InstCond → InstCond
reverse_operand ge = le
reverse_operand gt = lt
reverse_operand le = ge
reverse_operand lt = gt
reverse_operand c = c

-- Whether an instruction with the condition is carried out after two words are compared.
abbrev pub passes : InstCond → ℕ → ℕ → Bool
passes always a b = true
passes eq a b = a == b
passes ne a b = not (a == b)
passes ge a b = not (ltb_signed a b)
passes gt a b = ltb_signed b a
passes le a b = not (ltb_signed b a)
passes lt a b = ltb_signed a b

-- Where `logical_not` gives a condition, that condition passes exactly where the first one does not.
pub passes-logical_not :
    (c d : InstCond) (a b : ℕ) → logical_not c ≡ some d → passes d a b ≡ not (passes c a b)
unfolding logical_not
passes-logical_not c d a b h = ground arith

-- The condition for exchanged operands passes where the condition for the operands does.
pub passes-reverse_operand :
    (c : InstCond) (a b : ℕ) → passes (reverse_operand c) b a ≡ passes c a b
unfolding reverse_operand
passes-reverse_operand c a b = ground arith
