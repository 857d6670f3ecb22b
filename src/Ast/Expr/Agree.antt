-- ===== src/Ast/Expr/Agree.antt =====
-- The two modes of the expression visitor of src/ast/ast_visitor.cpp against each other.
use helesta.Prelude.{ℕ, ◌≡◌, refl, Bool, true, false, some, arith, if◌then◌else◌}
use helesta.Prelude.Word.{IsWord, of_bool, add32, sub32, mul32}
use helesta.Prelude.Word.Signed.{of_int-IsWord}
use helesta.Ir.Scalar.{FloatUnit, BinaryCompute, compute_binary, int_min, minus_one}
use helesta.Ir.Scalar.Laws.{IsWide}
use helesta.Ir.Op.{ScalarType, binary_op}
use helesta.Ast.InitValue.{ok, bool_value, CompileTimeValueAny, int, float, int_bop, float_bop}
use helesta.Ast.InitValue.Run.{run_add, run_sub, run_mul, run_div, run_modulo}
use helesta.Ast.Expr.{Operator, opt, is_test, bop}
use helesta.Ast.Expr.Operator.{times, over, percent, plus, minus, lt, gt, le, ge, eq, ne}
use helesta.Ast.Expr.Lower.{literal_type, word}

-- The operands at which `%` of the host traps.
abbrev pub TrapsRem : Operator → ℕ → ℕ → Type 0
TrapsRem percent a b = (a ≡ int_min) × (b ≡ minus_one)
TrapsRem _ a b = ⊥

-- What an operator gives on two operands of one type: the constant, and the run of what is emitted.
pub record Same (m : FloatUnit) (type : ScalarType) (op : Operator) (a b : ℕ)
    (v : CompileTimeValueAny) : Type 0 where
  pub code : BinaryCompute
  pub emitted : binary_op type (opt op) ≡ some code
  pub computed : compute_binary m code a b ≡ some (word v)
  pub typed : literal_type v ≡ (if is_test op then ScalarType.int else type)
  pub fits : IsWord (word v)

if_same : (b : Bool) (t : ScalarType) → t ≡ (if b then t else t)
if_same true t = refl
if_same false t = refl

module _ (m : FloatUnit) where
  int_value :
      (op : Operator) (a b w : ℕ) {v : CompileTimeValueAny}
      → v ≡ int w
      → binary_op ScalarType.int (opt op) ≡ some (opt op)
      → compute_binary m (opt op) a b ≡ some w
      → IsWord w
      → Same m ScalarType.int op a b v
  int_value op a b w e o c f = rw e (record {
    code = opt op;
    emitted = o;
    computed = c;
    typed = if_same (is_test op) ScalarType.int;
    fits = f;
  })

  bool_value_of :
      (op : Operator) (a b : ℕ) (t : Bool) {v : CompileTimeValueAny}
      → bool_value t ≡ ok v
      → binary_op ScalarType.int (opt op) ≡ some (opt op)
      → compute_binary m (opt op) a b ≡ some (of_bool t)
      → Same m ScalarType.int op a b v
  bool_value_of op a b t h o c = int_value op a b (of_bool t) (ground arith) o c (ground arith)

  pub int_Same :
      (op : Operator) (a b : ℕ) {v : CompileTimeValueAny}
      → IsWord a
      → IsWord b
      → ¬ TrapsRem op a b
      → int_bop (bop op) a b ≡ ok v
      → Same m ScalarType.int op a b v
  unfolding int_bop binary_op compute_binary add32 sub32 mul32
  int_Same plus a b wa wb safe h =
      int_value plus a b _ (run_add m a b wa wb h) refl refl (omega arith)
  int_Same minus a b wa wb safe h =
      int_value minus a b _ (run_sub m a b wa wb h) refl refl (omega arith)
  int_Same times a b wa wb safe h =
      int_value times a b _ (run_mul m a b wa wb h) refl refl (omega arith)
  int_Same over a b wa wb safe h =
      let (c, e) = run_div m a b wa wb h in int_value over a b _ e refl c (of_int-IsWord _)
  int_Same percent a b wa wb safe h =
      let (c, e) = run_modulo m a b wa wb safe h in
      int_value percent a b _ e refl c (of_int-IsWord _)
  int_Same lt a b wa wb safe h = bool_value_of lt a b _ h refl refl
  int_Same gt a b wa wb safe h = bool_value_of gt a b _ h refl refl
  int_Same le a b wa wb safe h = bool_value_of le a b _ h refl refl
  int_Same ge a b wa wb safe h = bool_value_of ge a b _ h refl refl
  int_Same eq a b wa wb safe h = bool_value_of eq a b _ h refl refl
  int_Same ne a b wa wb safe h = bool_value_of ne a b _ h refl refl

  float_value :
      (op : Operator) (code : BinaryCompute) (a b w : ℕ) {v : CompileTimeValueAny}
      → ok (float w) ≡ ok v
      → is_test op ≡ false
      → binary_op ScalarType.float (opt op) ≡ some code
      → compute_binary m code a b ≡ some w
      → IsWord w
      → Same m ScalarType.float op a b v
  float_value op code a b w {v} h t o c f =
      let e : v ≡ float w = ground arith in
      rw e (record { code = code; emitted = o; computed = c; typed = rw t refl; fits = f })

  float_test :
      (op : Operator) (code : BinaryCompute) (a b : ℕ) (t : Bool) {v : CompileTimeValueAny}
      → bool_value t ≡ ok v
      → is_test op ≡ true
      → binary_op ScalarType.float (opt op) ≡ some code
      → compute_binary m code a b ≡ some (of_bool t)
      → Same m ScalarType.float op a b v
  float_test op code a b t {v} h i o c =
      let e : v ≡ int (of_bool t) = ground arith in
      rw e
        (record { code = code; emitted = o; computed = c; typed = rw i refl; fits = ground arith })

  pub float_Same :
      IsWide m
      → (op : Operator) (a b : ℕ) {v : CompileTimeValueAny} → float_bop m (bop op) a b ≡ ok v
      → Same m ScalarType.float op a b v
  unfolding float_bop binary_op compute_binary
  float_Same w plus a b h = float_value plus _ a b _ h refl refl refl (w.plus_word a b)
  float_Same w minus a b h = float_value minus _ a b _ h refl refl refl (w.minus_word a b)
  float_Same w times a b h = float_value times _ a b _ h refl refl refl (w.times_word a b)
  float_Same w over a b h = float_value over _ a b _ h refl refl refl (w.over_word a b)
  float_Same w percent a b h = absurd (cc)
  float_Same w lt a b h = float_test lt _ a b _ h refl refl refl
  float_Same w gt a b h = float_test gt _ a b _ h refl refl refl
  float_Same w le a b h = float_test le _ a b _ h refl refl refl
  float_Same w ge a b h = float_test ge _ a b _ h refl refl refl
  float_Same w eq a b h = float_test eq _ a b _ h refl refl refl
  float_Same w ne a b h = float_test ne _ a b _ h refl refl refl
