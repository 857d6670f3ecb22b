-- ===== src/Opt/AddExpr/Value.antt =====
-- The operations of `AddExpr` (src/ir/opt/simplify_expr.cpp) against the values of expressions.
use native.Mathlib.Nat.{mul_comm}
use helesta.Prelude.{
  ℕ, ◌+◌, ◌*◌, ◌%◌, ◌^◌, ◌≡◌, refl, sym, ap, subst, ==_iff, ◌∙◌, true, false, [], ◌∷◌, arith,
  Bool-cases, inl, inr, ◌⊎◌, ◌==◌,
}
use helesta.Prelude.Word.{add32, mul32}
use helesta.Prelude.Word.Modular.{◌≈◌, ≈_mul, mod-mul, mul-mod}
use helesta.Opt.RegMap.{RegMap, at, assign, erase, total, total-assign, total-erase, at-assign_self}
use helesta.Opt.AddExpr.{
  AddExpr, fresh, bump, add_reg, add_terms, add_expr, is_empty, set_mul, value,
}

drop_zero : (v t t' r : ℕ) → v ≡ 0 → t + v * r ≡ t' → t ≡ t'
drop_zero v t t' r z h = let k : v * r ≡ 0 * r = ap (λ (w : ℕ). w * r) z in omega arith

mul32_comm : (a b : ℕ) → mul32 a b ≡ mul32 b a
unfolding mul32
mul32_comm a b = ap (λ t. t % 2 ^ 32) (mul_comm a b)

module _ (env : ℕ → ℕ) where
  raw : AddExpr → ℕ
  raw e = e.c + total env e.cs

  product_shift : (v b a t t' r : ℕ) → v ≈ b + a → t' + b * r ≡ t + v * r → t' ≈ t + a * r
  product_shift v b a t t' r h k =
      let p : v * r ≈ (b + a) * r = ≈_mul v (b + a) r r h refl in omega arith

  total-bump : (x a : ℕ) (cs : RegMap) → total env (bump x a cs) ≈ total env cs + a * env x
  unfolding bump add32
  total-bump x a cs =
      let v = (at x cs + a) % 2 ^ 32 in
      let shifted : total env (assign x v cs) ≈ total env cs + a * env x =
        product_shift v (at x cs) a _ _ (env x) (omega arith) (total-assign env x v cs) in
      elim (Bool-cases (v == 0)) [
        | inl z ↦
            let same : total env (erase x (assign x v cs)) + v * env x ≡ total env (assign x v cs) =
              subst
                (λ t. total env (erase x (assign x v cs)) + t * env x ≡ total env (assign x v cs))
                (at-assign_self x v cs) (total-erase env x (assign x v cs)) in
            rw z (ap (λ t. t % 2 ^ 32) (drop_zero v _ _ (env x) ((==_iff v 0).0 z) same) ∙ shifted)
        | inr nz ↦ rw nz shifted
      ]

  raw-add_reg :
      (e : AddExpr) (x a : ℕ)
      → (add_reg e x a).bad ≡ false
      → raw (add_reg e x a) ≈ raw e + a * env x
  unfolding raw add_reg
  raw-add_reg e x a h = ground (arith, total-bump x a e.cs)

  scaled_step : (a s r t t0 t1 b : ℕ) → b ≈ a * s → t1 ≈ t0 + b * r → t ≈ t1 → t ≈ t0 + s * (a * r)
  scaled_step a s r t t0 t1 b p q k =
      let f : b * r ≈ a * s * r = ≈_mul b (a * s) r r p refl in
      let g : s * (a * r) ≡ a * s * r = grind arith in omega arith

  pub add_terms-bad :
      (e : AddExpr) (m : RegMap) (s : ℕ) → (add_terms e m s).bad ≡ false → e.bad ≡ false
  unfolding add_terms add_reg
  add_terms-bad e [] s h = h
  add_terms-bad e ((x, a) ∷ m) s h = ground (arith, add_terms-bad (add_reg e x (mul32 a s)) m s)

  raw-add_terms :
      (e : AddExpr) (m : RegMap) (s : ℕ)
      → (add_terms e m s).bad ≡ false
      → raw (add_terms e m s) ≈ raw e + s * total env m
  unfolding add_terms total
  raw-add_terms e [] s h = omega arith
  raw-add_terms e ((x, a) ∷ m) s h =
      let e1 = add_reg e x (mul32 a s) in
      let rest : raw (add_terms e1 m s) ≈ raw e1 + s * total env m = raw-add_terms e1 m s h in
      let one : raw e1 ≈ raw e + mul32 a s * env x =
        raw-add_reg e x (mul32 a s) (add_terms-bad e1 m s h) in
      let b : mul32 a s ≈ a * s = unfold mul32 in omega arith in
      let step : raw e1 ≈ raw e + s * (a * env x) =
        scaled_step a s (env x) (raw e1) (raw e) (raw e1) (mul32 a s) b one refl in
      omega arith

  abbrev shifted_const : AddExpr → AddExpr → ℕ → AddExpr
  shifted_const e w s = record e { c = add32 e.c (mul32 w.c s) }

  pub add_expr_parts :
      (e w : AddExpr) (s : ℕ)
      → (add_expr e w s).bad ≡ false
      → (e.bad ≡ false)
        × (w.bad ≡ false)
        × (add_expr e w s ≡ add_terms (shifted_const e w s) w.cs s)
  unfolding add_expr
  add_expr_parts e w s h = ground arith

  raw-add_expr :
      (e w : AddExpr) (s : ℕ)
      → (add_expr e w s).bad ≡ false
      → raw (add_expr e w s) ≈ raw e + s * raw w
  unfolding raw
  raw-add_expr e w s h =
      let (eb, wb, q) = add_expr_parts e w s h in
      let e0 = shifted_const e w s in
      let terms : raw (add_terms e0 w.cs s) ≈ raw e0 + s * total env w.cs =
        raw-add_terms e0 w.cs s (ap (λ (t : AddExpr). t.bad) (sym q) ∙ h) in
      let c0 : add32 e.c (mul32 w.c s) ≈ e.c + w.c * s = unfold add32 mul32 in omega arith in
      let distribute : s * (w.c + total env w.cs) ≡ w.c * s + s * total env w.cs = grind arith in
      ap (λ t. raw t % 2 ^ 32) q ∙ omega arith

  -- Adding `s` times another expression adds `s` times its value, in 32 bits, unless the result has
  -- gone bad.
  pub value-add_expr :
      (e w : AddExpr) (s : ℕ)
      → (add_expr e w s).bad ≡ false
      → value env (add_expr e w s) ≡ add32 (value env e) (mul32 s (value env w))
  unfolding value add32 mul32 raw
  value-add_expr e w s h =
      let p = raw-add_expr e w s h in
      let q : s * (raw w % 2 ^ 32) ≈ s * raw w = mul-mod s (raw w) (2 ^ 32) in omega arith

  empty-total : (m : RegMap) → is_empty m ≡ true → total env m ≡ 0
  unfolding total
  empty-total [] h = refl
  empty-total ((x, a) ∷ m) h = cc

  fresh-total : raw fresh ≡ 0
  unfolding raw total
  fresh-total = omega arith

  set_mul_parts :
      (w1 w2 : AddExpr)
      → (set_mul fresh w1 w2).bad ≡ false
      → ((is_empty w1.cs ≡ true) × (set_mul fresh w1 w2 ≡ add_expr fresh w2 w1.c))
        ⊎ ((is_empty w2.cs ≡ true) × (set_mul fresh w1 w2 ≡ add_expr fresh w1 w2.c))
  unfolding set_mul
  set_mul_parts w1 w2 h = ground arith

  constant_times :
      (w : AddExpr) (v : ℕ)
      → is_empty w.cs ≡ true
      → add32 (value env fresh) (mul32 w.c v) ≡ mul32 (value env w) v
  unfolding value add32 mul32 raw
  constant_times w v z =
      let none_left : total env w.cs ≡ 0 = empty-total w.cs z in
      let reduced : value env w ≡ w.c % 2 ^ 32 = omega arith in
      let start : value env fresh ≡ 0 = omega (arith, fresh-total) in
      let product : w.c % 2 ^ 32 * v ≈ w.c * v = mod-mul w.c v (2 ^ 32) in
      let outer : value env w * v ≈ w.c % 2 ^ 32 * v = ap (λ t. t * v % 2 ^ 32) reduced in
      omega arith

  -- The product of two expressions has the product of their values, in 32 bits, unless it has gone
  -- bad.
  pub value-set_mul :
      (w1 w2 : AddExpr)
      → (set_mul fresh w1 w2).bad ≡ false
      → value env (set_mul fresh w1 w2) ≡ mul32 (value env w1) (value env w2)
  value-set_mul w1 w2 h = elim (set_mul_parts w1 w2 h) [
    | inl (z, q) ↦
        ap (value env) q
        ∙ value-add_expr fresh w2 w1.c (ap (λ (t : AddExpr). t.bad) (sym q) ∙ h)
        ∙ constant_times w1 (value env w2) z
    | inr (z, q) ↦
        ap (value env) q
        ∙ value-add_expr fresh w1 w2.c (ap (λ (t : AddExpr). t.bad) (sym q) ∙ h)
        ∙ constant_times w2 (value env w1) z
        ∙ mul32_comm (value env w2) (value env w1)
  ]

  -- `add_eq(x, a)` adds `a` times the register, in 32 bits, unless the result has gone bad.
  pub value-add_reg :
      (e : AddExpr) (x a : ℕ)
      → (add_reg e x a).bad ≡ false
      → value env (add_reg e x a) ≡ add32 (value env e) (mul32 a (env x))
  unfolding value add32 mul32 raw
  value-add_reg e x a h = omega (arith, raw-add_reg e x a h)
