-- ===== src/Ast/InitValue.antt =====
-- src/ast/init_value.hpp and src/ast/init_value.cpp: the values of constant expressions, which the
-- front end computes in 64 bits and refuses where they do not fit an `int32_t`.
pub mod Laws
pub mod Run
pub mod Tests
use helesta.Prelude.{ℕ, ◌-◌, ◌^◌, Bool, true, false, not, ◌&&◌, ◌||◌, ◌==◌, if◌then◌else◌}
use helesta.Prelude.Int.{ℤ, pos, negsuc, ◌+ℤ◌, ◌-ℤ◌, ◌*ℤ◌, ltb_ℤ, tdiv, tmod}
use helesta.Prelude.Word.{signed, of_int, of_bool, ltb_signed}
use helesta.Ir.Scalar.{FloatUnit, zero_f, int_min}

-- `CompileTimeValueEvalFail`, by its message.
pub data EvalFail : Type 0 where
  out_of_bound division_by_zero float_mod : EvalFail

pub data Result (A : Type 0) : Type 0 where
  ok : A → Result A
  fail : EvalFail → Result A

-- `CompileTimeValueAny`: its tag and the bits of its member.
pub data CompileTimeValueAny : Type 0 where
  int : ℕ → CompileTimeValueAny
  float : ℕ → CompileTimeValueAny

-- `ALL_BOP`, with the `>` and `>=` of the header.
pub data Bop : Type 0 where
  add sub mul div modulo less leq eq neq land lor greater geq : Bop

pub data Uop : Type 0 where
  lnot neg : Uop

abbrev pub is_float : CompileTimeValueAny → Bool
is_float (int w) = false
is_float (float w) = true

abbrev pub bool_value : Bool → Result CompileTimeValueAny
bool_value b = ok (int (of_bool b))

unfoldable pub check_and_return : ℤ → Result CompileTimeValueAny
check_and_return x =
    if ltb_ℤ x (negsuc (2 ^ 31 - 1)) || ltb_ℤ (pos (2 ^ 31 - 1)) x
    then fail out_of_bound
    else ok (int (of_int x))

unfoldable pub int_uop : Uop → ℕ → Result CompileTimeValueAny
unfolding check_and_return
int_uop neg x = if x == int_min then ok (int int_min) else check_and_return (pos 0 -ℤ signed x)
int_uop lnot x = bool_value (x == 0)

unfoldable pub int_bop : Bop → ℕ → ℕ → Result CompileTimeValueAny
unfolding check_and_return
int_bop add lhs rhs = check_and_return (signed lhs +ℤ signed rhs)
int_bop sub lhs rhs = check_and_return (signed lhs -ℤ signed rhs)
int_bop mul lhs rhs = check_and_return (signed lhs *ℤ signed rhs)
int_bop div lhs rhs =
    if rhs == 0 then fail division_by_zero else check_and_return (tdiv (signed lhs) (signed rhs))
int_bop modulo lhs rhs =
    if rhs == 0 then fail division_by_zero else check_and_return (tmod (signed lhs) (signed rhs))
int_bop less lhs rhs = bool_value (ltb_signed lhs rhs)
int_bop leq lhs rhs = bool_value (not (ltb_signed rhs lhs))
int_bop eq lhs rhs = bool_value (lhs == rhs)
int_bop neq lhs rhs = bool_value (not (lhs == rhs))
int_bop land lhs rhs = bool_value (not (lhs == 0) && not (rhs == 0))
int_bop lor lhs rhs = bool_value (not (lhs == 0) || not (rhs == 0))
int_bop greater lhs rhs = bool_value (ltb_signed rhs lhs)
int_bop geq lhs rhs = bool_value (not (ltb_signed lhs rhs))

module _ (m : FloatUnit) where
  -- The conversions `value<float>` and `value<int32_t>`.
  unfoldable pub value_float : CompileTimeValueAny → ℕ
  value_float (int w) = m.from_int w
  value_float (float w) = w

  unfoldable pub value_int : CompileTimeValueAny → ℕ
  value_int (int w) = w
  value_int (float w) = m.to_int w

  unfoldable pub float_uop : Uop → ℕ → Result CompileTimeValueAny
  float_uop neg x = ok (float (m.negate x))
  float_uop lnot x = bool_value (m.equal x zero_f)

  abbrev truth : ℕ → Bool
  truth x = not (m.equal x zero_f)

  unfoldable pub float_bop : Bop → ℕ → ℕ → Result CompileTimeValueAny
  float_bop add lhs rhs = ok (float (m.plus lhs rhs))
  float_bop sub lhs rhs = ok (float (m.minus lhs rhs))
  float_bop mul lhs rhs = ok (float (m.times lhs rhs))
  float_bop div lhs rhs = ok (float (m.over lhs rhs))
  float_bop modulo lhs rhs = fail float_mod
  float_bop less lhs rhs = bool_value (m.lt lhs rhs)
  float_bop leq lhs rhs = bool_value (m.le lhs rhs)
  float_bop eq lhs rhs = bool_value (m.equal lhs rhs)
  float_bop neq lhs rhs = bool_value (not (m.equal lhs rhs))
  float_bop land lhs rhs = bool_value (truth lhs && truth rhs)
  float_bop lor lhs rhs = bool_value (truth lhs || truth rhs)
  float_bop greater lhs rhs = bool_value (m.lt rhs lhs)
  float_bop geq lhs rhs = bool_value (m.le rhs lhs)

  unfoldable pub eval_uop : Uop → CompileTimeValueAny → Result CompileTimeValueAny
  unfolding value_float value_int float_uop int_uop
  eval_uop op x = if is_float x then float_uop op (value_float x) else int_uop op (value_int x)

  unfoldable pub eval_bop :
      Bop → CompileTimeValueAny → CompileTimeValueAny → Result CompileTimeValueAny
  unfolding value_float value_int float_bop int_bop
  eval_bop op lhs rhs =
      if is_float lhs || is_float rhs
      then float_bop op (value_float lhs) (value_float rhs)
      else int_bop op (value_int lhs) (value_int rhs)
