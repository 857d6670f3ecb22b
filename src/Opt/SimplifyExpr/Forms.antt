-- ===== src/Opt/SimplifyExpr/Forms.antt =====
-- The forms of src/ir/opt/simplify_expr.cpp for single instructions, and what it means for one to have
-- the value of its register.
use helesta.Prelude.{
  ℕ, ◌≡◌, ◌≢◌, sym, ap, ap₂, subst, ◌∙◌, false, some, List, [], ◌∷◌, ◌==◌, ==_iff, arith, update,
  Bool-cases, inl, inr,
}
use helesta.Prelude.Word.{IsWord, add32, sub32, mul32, neg32}
use helesta.Ir.Scalar.{FloatUnit, BinaryCompute, compute_unary, compute_binary, minus_one}
use helesta.Ir.Op.{ScalarType}
use helesta.Ir.Exec.{Instr}
use helesta.Opt.RegMap.{total}
use helesta.Opt.AddExpr.{AddExpr, fresh, add_reg, add_expr, set_mul, value}
use helesta.Opt.AddExpr.Value.{value-add_reg, value-add_expr, value-set_mul, add_expr_parts}
use helesta.Ir.Instr.{dest}
use helesta.Opt.SimplifyExpr.{Expr, Exprs, unvisited, set_const, constant, atom, product}

product_parts :
    (r n : ℕ) (w1 w2 : AddExpr)
    → (product r n w1 w2).add.bad ≡ false
    → ((set_mul fresh w1 w2).bad ≡ false) × ((product r n w1 w2).add ≡ set_mul fresh w1 w2)
unfolding product add_reg
product_parts r n w1 w2 h = ground arith

factors :
    (w1 w2 : AddExpr) → (set_mul fresh w1 w2).bad ≡ false → (w1.bad ≡ false) × (w2.bad ≡ false)
unfolding set_mul
factors w1 w2 h = ground arith

-- No right instruction reads the register that it writes, when it is an operator.
abbrev pub Apart : Instr → Type 0
Apart (Instr.unary_op d s _) = s ≢ d
Apart (Instr.binary_op d a b _) = (a ≢ d) × (b ≢ d)
Apart _ = Unit {0}

-- Where two factors give no linear form, neither does the product: the register does not come to
-- stand for itself.
pub product_bad :
    (r n : ℕ) (w1 w2 : AddExpr) → (product r n w1 w2).add.bad ≡ (set_mul fresh w1 w2).bad
unfolding product add_reg
product_bad r n w1 w2 = ground arith

module _ (m : FloatUnit) (env : ℕ → ℕ) where
  -- The valuation gives the register that an instruction writes what the instruction computes.
  abbrev pub Holds : Instr → Type 0
  Holds (Instr.load_const _ d v) = env d ≡ v
  Holds (Instr.unary_op d s op) = env d ≡ compute_unary m op (env s)
  Holds (Instr.binary_op d a b op) = compute_binary m op (env a) (env b) ≡ some (env d)
  Holds _ = Unit {0}

  abbrev pub Block : List Instr → Type 0
  Block [] = Unit {0}
  Block (i ∷ is) = (Holds i × Apart i) × Block is

  abbrev pub Good : ℕ → Expr → Type 0
  Good r w = w.add.bad ≡ false → value env w.add ≡ env r

  -- The map is right on the registers of which `on` holds.
  abbrev pub SoundOn : (ℕ → Type 0) → Exprs → Type 0
  SoundOn on es = (r : ℕ) (w : Expr) → on r → es r ≡ some w → Good r w

  pub SoundOn-update :
      (on on' : ℕ → Type 0) (es : Exprs) (r : ℕ) (w : Expr)
      → SoundOn on es
      → ((x : ℕ) → on' x → x ≢ r → on x)
      → (on' r → Good r w)
      → SoundOn on' (update es r (some w))
  SoundOn-update on on' es r w s f g x v o h = elim (Bool-cases (x == r)) [
    | inl e ↦
        let p : x ≡ r = (==_iff x r).0 e in
        let q : w ≡ v = ground arith in
        subst (λ y. Good y v) (sym p) (subst (λ y. Good r y) q (g (subst on' p o)))
    | inr ne ↦ s x v (f x o (λ p. grind arith)) (rw ne at h)
  ]

  module _ (words : (r : ℕ) → IsWord (env r)) where
    value-fresh : value env fresh ≡ 0
    unfolding value total
    value-fresh = omega arith

    pub constant-Good : (r v : ℕ) → env r ≡ v → Good r (constant v)
    unfolding value total
    constant-Good r v e h = omega (arith, words r)

    pub set_const-Good : (r n : ℕ) → Good r (set_const r unvisited)
    unfolding add32 mul32
    set_const-Good r n h = value-add_reg env fresh r 1 h ∙ omega (arith, words r, value-fresh)

    pub atom-Good : (r : ℕ) (i : Instr) → dest i ≡ some r → Holds i → Good r (atom r i)
    unfolding atom dest
    atom-Good r (Instr.load_const ScalarType.int d v) e h =
        let p : d ≡ r = ground arith in constant-Good r v (ap env (sym p) ∙ h)
    atom-Good r _ e h = set_const-Good r 0

    sum-Good :
        (r x y n : ℕ) (w1 w2 : AddExpr) (k : ℕ)
        → (w1.bad ≡ false → value env w1 ≡ env x)
        → (w2.bad ≡ false → value env w2 ≡ env y)
        → add32 (env x) (mul32 k (env y)) ≡ env r
        → Good r (record { tree_size = n; add = add_expr w1 w2 k })
    sum-Good r x y n w1 w2 k g1 g2 e h =
        let (b1, b2, _) = add_expr_parts env w1 w2 k h in
        value-add_expr env w1 w2 k h ∙ ap₂ (λ s t. add32 s (mul32 k t)) (g1 b1) (g2 b2) ∙ e

    pub neg-Good :
        (r s n : ℕ) (w : AddExpr)
        → (w.bad ≡ false → value env w ≡ env s)
        → env r ≡ neg32 (env s)
        → Good r (record { tree_size = n; add = add_expr fresh w minus_one })
    unfolding neg32
    neg-Good r s n w g e h =
        let (_, b, _) = add_expr_parts env fresh w minus_one h in
        let q : add32 0 (mul32 minus_one (env s)) ≡ env r =
          unfold add32 mul32 in omega (arith, words s) in
        value-add_expr env fresh w minus_one h
        ∙ ap₂ (λ t u. add32 t (mul32 minus_one u)) value-fresh (g b)
        ∙ q

    product-Good :
        (r x y n : ℕ) (w1 w2 : AddExpr)
        → (w1.bad ≡ false → value env w1 ≡ env x)
        → (w2.bad ≡ false → value env w2 ≡ env y)
        → mul32 (env x) (env y) ≡ env r
        → Good r (product r n w1 w2)
    product-Good r x y n w1 w2 g1 g2 e h =
        let (b, q) = product_parts r n w1 w2 h in
        let (b1, b2) = factors w1 w2 b in
        ap (value env) q ∙ value-set_mul env w1 w2 b ∙ ap₂ mul32 (g1 b1) (g2 b2) ∙ e

    pub sum_of :
        (d x y n : ℕ) (w1 w2 : AddExpr)
        → (w1.bad ≡ false → value env w1 ≡ env x)
        → (w2.bad ≡ false → value env w2 ≡ env y)
        → compute_binary m BinaryCompute.add (env x) (env y) ≡ some (env d)
        → Good d (record { tree_size = n; add = add_expr w1 w2 1 })
    unfolding compute_binary
    sum_of d x y n w1 w2 g1 g2 h =
        let q : add32 (env x) (env y) ≡ env d = ground arith in
        let k : add32 (env x) (mul32 1 (env y)) ≡ env d = unfold add32 mul32 in omega (arith, q) in
        sum-Good d x y n w1 w2 1 g1 g2 k

    pub difference_of :
        (d x y n : ℕ) (w1 w2 : AddExpr)
        → (w1.bad ≡ false → value env w1 ≡ env x)
        → (w2.bad ≡ false → value env w2 ≡ env y)
        → compute_binary m BinaryCompute.sub (env x) (env y) ≡ some (env d)
        → Good d (record { tree_size = n; add = add_expr w1 w2 minus_one })
    unfolding compute_binary
    difference_of d x y n w1 w2 g1 g2 h =
        let q : sub32 (env x) (env y) ≡ env d = ground arith in
        let k : add32 (env x) (mul32 minus_one (env y)) ≡ env d =
          unfold add32 mul32 sub32 in omega (arith, q, words y) in
        sum-Good d x y n w1 w2 minus_one g1 g2 k

    pub product_of :
        (d x y n : ℕ) (w1 w2 : AddExpr)
        → (w1.bad ≡ false → value env w1 ≡ env x)
        → (w2.bad ≡ false → value env w2 ≡ env y)
        → compute_binary m BinaryCompute.mul (env x) (env y) ≡ some (env d)
        → Good d (product d n w1 w2)
    unfolding compute_binary
    product_of d x y n w1 w2 g1 g2 h =
        let q : mul32 (env x) (env y) ≡ env d = ground arith in product-Good d x y n w1 w2 g1 g2 q
