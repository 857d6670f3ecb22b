-- ===== src/Opt/CmpExpr/Tests.antt =====
-- A comparison of two registers.
use helesta.Prelude.{ℕ, ◌≡◌, refl, true, some}
use helesta.Prelude.Word.{of_bool}
use helesta.Ir.Scalar.{BinaryCompute, compute_binary}
use helesta.Ir.Scalar.Tests.{toy}
use helesta.Opt.CmpExpr.{CmpExpr, make, holds, make-compute_binary}

abbrev at_most : CmpExpr
at_most = record { less = true; eq = true; s1 = 1; s2 = 2 }

abbrev env : ℕ → ℕ
env r = r

make-compute_binary_example :
    compute_binary toy BinaryCompute.leq 1 2 ≡ some (of_bool (holds env at_most))
unfolding make
make-compute_binary_example = make-compute_binary toy env BinaryCompute.leq 1 2 at_most refl
