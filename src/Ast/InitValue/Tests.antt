-- ===== src/Ast/InitValue/Tests.antt =====
-- Constants of src/ast/init_value.cpp at concrete values.
use helesta.Prelude.{◌≡◌, refl, arith}
use helesta.Prelude.Int.{tdiv, tmod}
use helesta.Prelude.Word.{signed}
use helesta.Ir.Scalar.{int_min, minus_one}
use helesta.Ir.Scalar.Tests.{toy}
use helesta.Ast.InitValue.{ok, fail, int, Bop, eval_bop, out_of_bound}
use helesta.Ast.InitValue.Laws.{exact, Meets, eval_bop-Meets}

int_min_div : eval_bop toy Bop.div (int int_min) (int minus_one) ≡ fail out_of_bound
unfolding eval_bop tdiv
int_min_div = refl

int_min_rem : eval_bop toy Bop.modulo (int int_min) (int minus_one) ≡ ok (int 0)
unfolding eval_bop tmod
int_min_rem = refl

eval_bop-Meets_example :
    Meets
      (exact Bop.div (signed 0xfffffff9) (signed 2))
      (eval_bop toy Bop.div (int 0xfffffff9) (int 2))
eval_bop-Meets_example = eval_bop-Meets toy Bop.div 0xfffffff9 2 tt (omega arith)
