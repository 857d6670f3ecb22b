-- ===== src/Opt/SimplifyExpr.antt =====
-- `SimplifyExpr::getExpr` of src/ir/opt/simplify_expr.cpp over one block: the linear form of each
-- register that the block writes, and the size of the tree that it would replace.
pub mod Forms
pub mod Sound
pub mod Replace
pub mod Tests
use helesta.Prelude.{
  ℕ, ◌+◌, Bool, true, false, not, ◌&&◌, Option, none, some, List, [], ◌∷◌, map, ◌==◌, if◌then◌else◌,
  update, ◌>>=◌,
}
use helesta.Prelude.Word.{word_mod}
use helesta.Ir.Scalar.{UnaryCompute, BinaryCompute, minus_one}
use helesta.Ir.Op.{ScalarType}
use helesta.Ir.Exec.{Instr}
use helesta.Ir.Instr.{dest, uses}
use helesta.Opt.AddExpr.{AddExpr, fresh, add_reg, add_expr, set_mul}

pub record Expr : Type 0 where
  pub tree_size : ℕ
  pub add : AddExpr

-- `std::map<Reg, Expr>`: the registers visited so far.
abbrev pub Exprs : Type 0
Exprs = ℕ → Option Expr

abbrev pub unvisited : Expr
unvisited = record { tree_size = 1; add = fresh }

-- `set_const`: the register stands for itself. An expression that is bad stays so.
abbrev pub set_const : ℕ → Expr → Expr
set_const r w = record { tree_size = 0; add = add_reg w.add r 1 }

abbrev pub constant : ℕ → Expr
constant v = record { tree_size = 1; add = record fresh { c = v } }

-- An operand that is not visited: a constant of type int, or itself.
unfoldable pub atom : ℕ → Instr → Expr
atom r (Instr.load_const ScalarType.int _ v) = constant v
atom r _ = set_const r unvisited

-- MUL: where neither factor is constant the source means the product to stand for itself.
unfoldable pub product : ℕ → ℕ → AddExpr → AddExpr → Expr
product r n w1 w2 =
    let w : Expr = record { tree_size = n; add = set_mul fresh w1 w2 } in
    if not w1.bad && not w2.bad && w.add.bad then set_const r w else w

module _ (defs : ℕ → Option Instr) (use_count : ℕ → ℕ) where
  -- `getExpr(r)`: it must be in `defs`; if it is not visited yet, it is a constant or stands for itself.
  unfoldable pub get_operand : ℕ → Exprs → Option (Expr × Exprs)
  get_operand r es = do
    i ← defs r
    some (elim (es r) [ some w ↦ (w, es) | none ↦ (atom r i, update es r (some (atom r i))) ])

  -- The sizes of the operands that are used nowhere else.
  unfoldable pub operand_sizes : List ℕ → ℕ → Exprs → Option (ℕ × Exprs)
  operand_sizes [] n es = some (n, es)
  operand_sizes (r ∷ rs) n es = do
    (n', es') ←
        if use_count r == 1
        then (do (w, es') ← get_operand r es; some (n + w.tree_size, es'))
        else some (n, es)
    operand_sizes rs n' es'

  unfoldable pub with_operand : (Expr → Expr) → ℕ → Exprs → Option (Expr × Exprs)
  with_operand f r es = do (w, es') ← get_operand r es; some (f w, es')

  unfoldable pub with_operands : (Expr → Expr → Expr) → ℕ → ℕ → Exprs → Option (Expr × Exprs)
  with_operands f r1 r2 es = do (w, es') ← get_operand r1 es; with_operand (f w) r2 es'

  -- The linear form of an instruction, by its operator.
  unfoldable pub linear : ℕ → Instr → ℕ → Exprs → Option (Expr × Exprs)
  linear r (Instr.unary_op _ s1 UnaryCompute.id) n es =
      with_operand (λ w. record { tree_size = n; add = w.add }) s1 es
  linear r (Instr.unary_op _ s1 UnaryCompute.neg) n es =
      with_operand (λ w. record { tree_size = n; add = add_expr fresh w.add minus_one }) s1 es
  linear r (Instr.binary_op _ s1 s2 BinaryCompute.add) n es =
      with_operands (λ w1 w2. record { tree_size = n; add = add_expr w1.add w2.add 1 }) s1 s2 es
  linear r (Instr.binary_op _ s1 s2 BinaryCompute.sub) n es =
      with_operands (λ w1 w2. record { tree_size = n; add = add_expr w1.add w2.add minus_one }) s1
        s2 es
  linear r (Instr.binary_op _ s1 s2 BinaryCompute.mul) n es =
      with_operands (λ w1 w2. product r n w1.add w2.add) s1 s2 es
  linear r i n es = some (set_const r unvisited, es)

  unfoldable pub visit_operator : ℕ → Instr → Exprs → Option Exprs
  visit_operator r i es = do
    let es0 : Exprs = update es r (some unvisited)
    (n, es1) ← if use_count r == 1 then operand_sizes (uses i) 1 es0 else some (1, es0)
    (w, es2) ← linear r i n es1
    some (update es2 r (some w))

  unfoldable pub visit_new : ℕ → Instr → Exprs → Option Exprs
  visit_new r (Instr.load_const ScalarType.int _ v) es = some (update es r (some (constant v)))
  visit_new r i es = visit_operator r i es

  -- `getExpr(rw, 1)`, which stores what it finds; an instruction that writes no register is passed.
  unfoldable pub visit : Instr → Exprs → Option Exprs
  visit i es = elim (dest i) [
    | none ↦ some es
    | some r ↦ elim (es r) [ some w ↦ some es | none ↦ visit_new r i es ]
  ]

  -- The loop over the instructions of a block, from an empty map.
  unfoldable pub visit_all : List Instr → Exprs → Option Exprs
  visit_all [] es = some es
  visit_all (i ∷ is) es = do es' ← visit i es; visit_all is es'
