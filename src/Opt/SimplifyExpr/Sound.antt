-- ===== src/Opt/SimplifyExpr/Sound.antt =====
-- The linear forms of `getExpr` of src/ir/opt/simplify_expr.cpp against the values of the registers,
-- for the instructions of a block.
use helesta.Prelude.{
  ℕ, ◌≡◌, ◌≢◌, refl, sym, ap, subst, ◌∙◌, Bool, true, false, Option, none, some, List, [], ◌∷◌,
  ◌==◌, arith, update, Bool-cases, Option-cases, inl, inr, ◌⊎◌, if◌then◌else◌, ◌>>=◌, >>=-eq-some,
}
use helesta.Prelude.Word.{IsWord}
use helesta.Ir.Scalar.{FloatUnit, UnaryCompute, BinaryCompute, compute_unary, compute_binary}
use helesta.Ir.Op.{ScalarType}
use helesta.Ir.Exec.{Instr}
use helesta.Opt.AddExpr.{value}
use helesta.Ir.Instr.{dest, uses}
use helesta.Opt.SimplifyExpr.{
  Expr, Exprs, unvisited, set_const, constant, atom, get_operand, with_operand, with_operands,
  operand_sizes, linear, visit_new, visit_operator, visit, visit_all,
}
use helesta.Opt.SimplifyExpr.Forms.{
  Holds, Apart, Block, Good, SoundOn, SoundOn-update, atom-Good, constant-Good, set_const-Good,
  neg-Good, sum_of, difference_of, product_of,
}

module _ (m : FloatUnit) (env : ℕ → ℕ) (words : (r : ℕ) → IsWord (env r)) (defs : ℕ → Option Instr)
    (use_count : ℕ → ℕ)
    (right : (r : ℕ) (i : Instr) → defs r ≡ some i → (dest i ≡ some r) × Holds m env i) where
  operand_cases :
      (r : ℕ) (es es' : Exprs) (w : Expr)
      → get_operand defs use_count r es ≡ some (w, es')
      → ((es r ≡ some w) × (es' ≡ es))
        ⊎ ((i : Instr) × (defs r ≡ some i) × (w ≡ atom r i) × (es' ≡ update es r (some (atom r i))))
  unfolding get_operand
  operand_cases r es es' w h =
      let (i, d, k) = >>=-eq-some (defs r) _ h in
      elim (Option-cases (es r)) [
        | inl e ↦ let k1 = rw e at k in inr (i, d, ground arith, ground arith)
        | inr (v, e) ↦ let k1 = rw e at k in inl (e ∙ ground arith, ground arith)
      ]

  get_operand-SoundOn :
      (on : ℕ → Type 0) (r : ℕ) (es es' : Exprs) (w : Expr)
      → SoundOn m env on es
      → get_operand defs use_count r es ≡ some (w, es')
      → (on r → Good m env r w) × SoundOn m env on es'
  get_operand-SoundOn on r es es' w s h = elim (operand_cases r es es' w h) [
    | inl (k, q) ↦ ((λ o. s r w o k), subst (SoundOn m env on) (sym q) s)
    | inr (i, d, p, q) ↦
        let (e, k) = right r i d in
        let good : Good m env r (atom r i) = atom-Good m env words r i e k in
        (
          (λ _. subst (Good m env r) (sym p) good),
          subst (SoundOn m env on) (sym q)
              (SoundOn-update m env on on es r (atom r i) s (λ _ o _. o) (λ _. good)),
        )
  ]

  operand_sizes-SoundOn :
      (on : ℕ → Type 0) (rs : List ℕ) (n k : ℕ) (es es' : Exprs)
      → SoundOn m env on es
      → operand_sizes defs use_count rs n es ≡ some (k, es')
      → SoundOn m env on es'
  unfolding operand_sizes
  operand_sizes-SoundOn on [] n k es es' s h =
      let q : es ≡ es' = ground arith in subst (SoundOn m env on) q s
  operand_sizes-SoundOn on (r ∷ rs) n k es es' s h = elim (Bool-cases (use_count r == 1)) [
    | inl e ↦
        let k1 = rw e at h in
        let ((v, es1), a1, k2) = >>=-eq-some (get_operand defs use_count r es >>= _) _ k1 in
        let ((u, es2), a2, k3) = >>=-eq-some (get_operand defs use_count r es) _ a1 in
        let q : es2 ≡ es1 = ground arith in
        let s2 = (get_operand-SoundOn on r es es2 u s a2).1 in
        operand_sizes-SoundOn on rs v k es1 es' (subst (SoundOn m env on) q s2) k2
    | inr e ↦ let k1 = rw e at h in operand_sizes-SoundOn on rs n k es es' s k1
  ]

  with_operand-SoundOn :
      (on : ℕ → Type 0) (f : Expr → Expr) (r : ℕ) (es es' : Exprs) (w : Expr)
      → on r
      → SoundOn m env on es
      → with_operand defs use_count f r es ≡ some (w, es')
      → ((v : Expr) × Good m env r v × (f v ≡ w)) × SoundOn m env on es'
  unfolding with_operand
  with_operand-SoundOn on f r es es' w o s h =
      let ((v, es1), a, k) = >>=-eq-some (get_operand defs use_count r es) _ h in
      let (g, t) = get_operand-SoundOn on r es es1 v s a in
      let q : es1 ≡ es' = ground arith in ((v, g o, ground arith), subst (SoundOn m env on) q t)

  with_operands-SoundOn :
      (on : ℕ → Type 0) (f : Expr → Expr → Expr) (x y : ℕ) (es es' : Exprs) (w : Expr)
      → on x
      → on y
      → SoundOn m env on es
      → with_operands defs use_count f x y es ≡ some (w, es')
      → ((v1 : Expr) × (v2 : Expr) × Good m env x v1 × Good m env y v2 × (f v1 v2 ≡ w))
        × SoundOn m env on es'
  unfolding with_operands
  with_operands-SoundOn on f x y es es' w ox oy s h =
      let ((v1, es1), a, k) = >>=-eq-some (get_operand defs use_count x es) _ h in
      let (g1, t1) = get_operand-SoundOn on x es es1 v1 s a in
      let ((v2, g2, q), t2) = with_operand-SoundOn on (f v1) y es1 es' w oy t1 k in
      ((v1, v2, g1 ox, g2, q), t2)

  abbrev Every : ℕ → Type 0
  Every _ = Unit {0}

  abbrev Others : ℕ → ℕ → Type 0
  Others d r = r ≢ d

  abbrev ApartFrom : ℕ → ℕ → Type 0
  ApartFrom r d = r ≢ d

  linear-SoundOn :
      (d : ℕ) (i : Instr) (n : ℕ) (es es' : Exprs) (w : Expr)
      → dest i ≡ some d
      → Holds m env i
      → Apart i
      → SoundOn m env (Others d) es
      → linear defs use_count d i n es ≡ some (w, es')
      → Good m env d w × SoundOn m env (Others d) es'
  unfolding linear dest compute_unary
  linear-SoundOn d (Instr.unary_op d' s1 UnaryCompute.id) n es es' w e o a s h =
      let p : d' ≡ d = ground arith in
      let ((v, g, q), t) =
        with_operand-SoundOn (Others d) _ s1 es es' w (subst (ApartFrom s1) p a) s h in
      (subst (Good m env d) q (λ k. g k ∙ sym o ∙ ap env p), t)
  linear-SoundOn d (Instr.unary_op d' s1 UnaryCompute.neg) n es es' w e o a s h =
      let p : d' ≡ d = ground arith in
      let ((v, g, q), t) =
        with_operand-SoundOn (Others d) _ s1 es es' w (subst (ApartFrom s1) p a) s h in
      (subst (Good m env d) q (neg-Good m env words d s1 n v.add g (ap env (sym p) ∙ o)), t)
  linear-SoundOn d (Instr.binary_op d' s1 s2 BinaryCompute.add) n es es' w e o a s h =
      let p : d' ≡ d = ground arith in
      let ((v1, v2, g1, g2, q), t) =
        with_operands-SoundOn (Others d) _ s1 s2 es es' w (subst (ApartFrom s1) p a.0)
          (subst (ApartFrom s2) p a.1) s h in
      (
        subst (Good m env d) q (
            sum_of m env words d s1 s2 n v1.add v2.add g1 g2 (
              subst (λ r. compute_binary m BinaryCompute.add (env s1) (env s2) ≡ some (env r)) p
                o)),
        t,
      )
  linear-SoundOn d (Instr.binary_op d' s1 s2 BinaryCompute.sub) n es es' w e o a s h =
      let p : d' ≡ d = ground arith in
      let ((v1, v2, g1, g2, q), t) =
        with_operands-SoundOn (Others d) _ s1 s2 es es' w (subst (ApartFrom s1) p a.0)
          (subst (ApartFrom s2) p a.1) s h in
      (
        subst (Good m env d) q (
            difference_of m env words d s1 s2 n v1.add v2.add g1 g2 (
              subst (λ r. compute_binary m BinaryCompute.sub (env s1) (env s2) ≡ some (env r)) p
                o)),
        t,
      )
  linear-SoundOn d (Instr.binary_op d' s1 s2 BinaryCompute.mul) n es es' w e o a s h =
      let p : d' ≡ d = ground arith in
      let ((v1, v2, g1, g2, q), t) =
        with_operands-SoundOn (Others d) _ s1 s2 es es' w (subst (ApartFrom s1) p a.0)
          (subst (ApartFrom s2) p a.1) s h in
      (
        subst (Good m env d) q (
            product_of m env words d s1 s2 n v1.add v2.add g1 g2 (
              subst (λ r. compute_binary m BinaryCompute.mul (env s1) (env s2) ≡ some (env r)) p
                o)),
        t,
      )
  linear-SoundOn d i n es es' w e o a s h =
      let q : set_const d unvisited ≡ w = ground arith in
      let t : es ≡ es' = ground arith in
      (
        subst (Good m env d) q (set_const-Good m env words d 0),
        subst (SoundOn m env (Others d)) t s,
      )

  tree_size-SoundOn :
      (on : ℕ → Type 0) (b : Bool) (rs : List ℕ) (k : ℕ) (es es' : Exprs)
      → SoundOn m env on es
      → (if b then operand_sizes defs use_count rs 1 es else some (1, es)) ≡ some (k, es')
      → SoundOn m env on es'
  tree_size-SoundOn on true rs k es es' s h = operand_sizes-SoundOn on rs 1 k es es' s h
  tree_size-SoundOn on false rs k es es' s h =
      let q : es ≡ es' = ground arith in subst (SoundOn m env on) q s

  visit_operator-SoundOn :
      (r : ℕ) (i : Instr) (es es' : Exprs)
      → dest i ≡ some r
      → Holds m env i
      → Apart i
      → SoundOn m env Every es
      → visit_operator defs use_count r i es ≡ some es'
      → SoundOn m env Every es'
  unfolding visit_operator
  visit_operator-SoundOn r i es es' e o a s h =
      let ((n, es1), a1, k1) = >>=-eq-some (if use_count r == 1 then _ else _) _ h in
      let ((w, es2), a2, k2) = >>=-eq-some (linear defs use_count r i n es1) _ k1 in
      let s0 : SoundOn m env (Others r) (update es r (some unvisited)) =
        SoundOn-update m env Every (Others r) es r unvisited s (λ _ _ _. tt)
          (λ k. elim (k refl) [ ]) in
      let s1 = tree_size-SoundOn (Others r) (use_count r == 1) (uses i) n _ es1 s0 a1 in
      let (g, s2) = linear-SoundOn r i n es1 es2 w e o a s1 a2 in
      let q : update es2 r (some w) ≡ es' = ground arith in
      subst (SoundOn m env Every) q
        (SoundOn-update m env (Others r) Every es2 r w s2 (λ _ _ k. k) (λ _. g))

  visit_new-SoundOn :
      (r : ℕ) (i : Instr) (es es' : Exprs)
      → dest i ≡ some r
      → Holds m env i
      → Apart i
      → SoundOn m env Every es
      → visit_new defs use_count r i es ≡ some es'
      → SoundOn m env Every es'
  unfolding visit_new
  visit_new-SoundOn r (Instr.load_const ScalarType.int d v) es es' e o a s h =
      let p : d ≡ r = unfold dest in ground arith in
      let q : update es r (some (constant v)) ≡ es' = ground arith in
      let g : Good m env r (constant v) = constant-Good m env words r v (ap env (sym p) ∙ o) in
      subst (SoundOn m env Every) q
        (SoundOn-update m env Every Every es r (constant v) s (λ _ k _. k) (λ _. g))
  visit_new-SoundOn r i es es' e o a s h = visit_operator-SoundOn r i es es' e o a s h

  visit-SoundOn :
      (i : Instr) (es es' : Exprs)
      → Holds m env i
      → Apart i
      → SoundOn m env Every es
      → visit defs use_count i es ≡ some es'
      → SoundOn m env Every es'
  unfolding visit
  visit-SoundOn i es es' o a s h = elim (Option-cases (dest i)) [
    | inl e ↦
        let k = rw (visit, e) at h in
        let q : es ≡ es' = ground arith in subst (SoundOn m env Every) q s
    | inr (r, e) ↦
        let k = rw (visit, e) at h in
        elim (Option-cases (es r)) [
          | inl f ↦ visit_new-SoundOn r i es es' e o a s (rw f at k)
          | inr (w, f) ↦
              let l = rw f at k in
              let q : es ≡ es' = ground arith in subst (SoundOn m env Every) q s
        ]
  ]

  visit_all-SoundOn :
      (is : List Instr) (es es' : Exprs)
      → Block m env is
      → SoundOn m env Every es
      → visit_all defs use_count is es ≡ some es'
      → SoundOn m env Every es'
  unfolding visit_all
  visit_all-SoundOn [] es es' b s h =
      let q : es ≡ es' = ground arith in subst (SoundOn m env Every) q s
  visit_all-SoundOn (i ∷ is) es es' ((o, a), b) s h =
      let (es1, a1, k1) = >>=-eq-some (visit defs use_count i es) _ h in
      visit_all-SoundOn is es1 es' b (visit-SoundOn i es es1 o a s a1) k1

  -- When the instructions of a block hold in a valuation of the registers by words, none of its
  -- operators reads the register that it writes, and `defs` gives instructions that write
  -- their registers and hold, every linear form that the pass stores and that has not gone bad
  -- has the value of its register.
  pub visit_all_sound :
      (is : List Instr) (es : Exprs) (r : ℕ) (w : Expr)
      → Block m env is
      → visit_all defs use_count is (λ _. none) ≡ some es
      → es r ≡ some w
      → w.add.bad ≡ false
      → value env w.add ≡ env r
  visit_all_sound is es r w b h k n =
      visit_all-SoundOn is (λ _. none) es b (λ _ _ _ q. cc) h r w tt k n
