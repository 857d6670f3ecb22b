-- ===== src/Ast/Expr/Const.antt =====
-- The compile-time mode of src/ast/ast_visitor.cpp.
use helesta.Prelude.{◌≡◌, refl, if◌then◌else◌}
use helesta.Ir.Scalar.{FloatUnit}
use helesta.Ast.InitValue.{Result, ok, fail, CompileTimeValueAny, Uop, eval_uop, eval_bop}
use helesta.Ast.Expr.{Sign, Expr, number, unary, binary, bop, rev}

infixl 1 ◌>>=◌
abbrev pub ◌>>=◌ : {A B : Type 0} → Result A → (A → Result B) → Result B
ok a >>= f = f a
fail e >>= f = fail e

module _ (m : FloatUnit) where
  unfoldable pub const_sign : Sign → CompileTimeValueAny → Result CompileTimeValueAny
  const_sign Sign.plus x = ok x
  const_sign Sign.minus x = eval_uop m Uop.neg x
  const_sign Sign.bang x = eval_uop m Uop.lnot x

  unfoldable pub const_value : Expr → Result CompileTimeValueAny
  unfolding const_sign
  const_value (number v) = ok v
  const_value (unary op e) = do x ← const_value e; const_sign op x
  const_value (binary op l r) = do
    x ← const_value l
    y ← const_value r
    if rev op then eval_bop m (bop op) y x else eval_bop m (bop op) x y

pub >>=-eq-ok :
    {A B : Type 0} (r : Result A) (f : A → Result B) {b : B}
    → (r >>= f) ≡ ok b
    → (a : A) × (r ≡ ok a) × (f a ≡ ok b)
>>=-eq-ok (ok a) f h = (a, refl, h)
>>=-eq-ok (fail e) f h = cc
