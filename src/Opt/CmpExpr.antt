-- ===== src/Opt/CmpExpr.antt =====
-- `CmpOp` and `CmpExpr` of src/ir/opt/add_expr.hpp and src/ir/opt/loop_ops.cpp: a comparison that
-- controls a loop.
pub mod Tests
use helesta.Prelude.{
  ℕ, ◌≡◌, refl, ap, Bool, true, false, not, Option, none, some, if◌then◌else◌, arith, inl, inr,
  Bool-cases,
}
use helesta.Prelude.Word.{signed, ltb_signed, of_bool}
use helesta.Ir.Scalar.{FloatUnit, BinaryCompute, compute_binary}

pub record CmpExpr : Type 0 where
  pub less : Bool
  pub eq : Bool
  pub s1 : ℕ
  pub s2 : ℕ

-- `CmpOp::neg`, `CmpExpr::swap` and `CmpOp::compute`.
unfoldable pub neg : CmpExpr → CmpExpr
neg e = record e { less = not e.less; eq = not e.eq }

unfoldable pub swap : CmpExpr → CmpExpr
swap e = record e { s1 = e.s2; s2 = e.s1; less = not e.less }

unfoldable pub compute : CmpExpr → ℕ → ℕ → Bool
compute e x y =
    if e.less
    then if e.eq then not (ltb_signed y x) else ltb_signed x y
    else if e.eq
    then not (ltb_signed x y)
    else ltb_signed y x

unfoldable pub make : BinaryCompute → ℕ → ℕ → Option CmpExpr
make BinaryCompute.less s1 s2 = some (record { less = true; eq = false; s1 = s1; s2 = s2 })
make BinaryCompute.leq s1 s2 = some (record { less = true; eq = true; s1 = s1; s2 = s2 })
make _ s1 s2 = none

-- What a comparison says of the registers.
abbrev pub holds : (ℕ → ℕ) → CmpExpr → Bool
holds env e = compute e (env e.s1) (env e.s2)

-- The comparison that is made of an instruction holds where the instruction gives 1, and where it
-- does not hold the instruction gives 0.
pub make-compute_binary :
    (m : FloatUnit) (env : ℕ → ℕ) (op : BinaryCompute) (s1 s2 : ℕ) (e : CmpExpr)
    → make op s1 s2 ≡ some e
    → compute_binary m op (env s1) (env s2) ≡ some (of_bool (holds env e))
unfolding make compute compute_binary
make-compute_binary m env BinaryCompute.less s1 s2 e h = ground arith
make-compute_binary m env BinaryCompute.leq s1 s2 e h = ground arith
make-compute_binary m env _ s1 s2 e h = cc

-- Negating a comparison gives the one that holds where it does not, and exchanging its sides gives
-- one that holds where it does.
pub neg_and_swap :
    (env : ℕ → ℕ) (e : CmpExpr)
    → (holds env (neg e) ≡ not (holds env e)) × (holds env (swap e) ≡ holds env e)
unfolding neg swap compute
neg_and_swap env e = ground arith
