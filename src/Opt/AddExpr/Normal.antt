-- ===== src/Opt/AddExpr/Normal.antt =====
-- The normal form of `AddExpr` (src/ir/opt/add_expr.hpp): what a form has to be for equal linear forms
-- to be equal map keys.
use helesta.Prelude.{
  ℕ, ◌≤◌, [], ◌∷◌, ltb, length, arith, Bool-cases, inl, inr, ◌==◌, ◌||◌, if_intro,
}
use helesta.Prelude.Word.{add32, mul32}
use helesta.Opt.RegMap.{
  RegMap, at, IsSortedFrom, assign-IsSortedFrom, erase-IsSortedFrom, erase-assign,
}
use helesta.Opt.AddExpr.{AddExpr, bump, add_reg, add_terms, add_expr, set_mul, is_empty}

-- Keys rise strictly, no coefficient is 0, and at most 20 entries are kept.
pub record IsNormal (e : AddExpr) : Type 0 where
  pub sorted : IsSortedFrom 0 e.cs
  pub small : length e.cs ≤ 20

bump-IsSortedFrom : (x a : ℕ) (cs : RegMap) → IsSortedFrom 0 cs → IsSortedFrom 0 (bump x a cs)
unfolding bump
bump-IsSortedFrom x a cs s = elim (Bool-cases (add32 (at x cs) a == 0)) [
  | inl z ↦ rw (z, erase-assign x (add32 (at x cs) a) cs) (erase-IsSortedFrom 0 x cs s)
  | inr nz ↦ rw nz (assign-IsSortedFrom 0 x _ cs (omega arith) (ground arith) s)
]

add_reg-IsNormal : (e : AddExpr) (x a : ℕ) → IsNormal e → IsNormal (add_reg e x a)
unfolding add_reg
add_reg-IsNormal e x a n =
    if_intro IsNormal e.bad (λ _. n)
      (λ _.
        if_intro IsNormal (ltb 20 (length (bump x a e.cs)))
          (λ _. record { sorted = tt; small = omega arith })
          (λ fits. record { sorted = bump-IsSortedFrom x a e.cs n.sorted; small = ground arith }))

add_terms-IsNormal : (e : AddExpr) (m : RegMap) (s : ℕ) → IsNormal e → IsNormal (add_terms e m s)
unfolding add_terms
add_terms-IsNormal e [] s n = n
add_terms-IsNormal e ((x, a) ∷ m) s n =
    add_terms-IsNormal (add_reg e x (mul32 a s)) m s (add_reg-IsNormal e x (mul32 a s) n)

add_expr-IsNormal : (e w : AddExpr) (s : ℕ) → IsNormal e → IsNormal (add_expr e w s)
unfolding add_expr
add_expr-IsNormal e w s n =
    if_intro IsNormal e.bad (λ _. n)
      (λ _.
        if_intro IsNormal w.bad (λ _. record { sorted = n.sorted; small = n.small })
          (λ _. add_terms-IsNormal _ w.cs s (record { sorted = n.sorted; small = n.small })))

set_mul-IsNormal : (e w v : AddExpr) → IsNormal e → IsNormal (set_mul e w v)
unfolding set_mul
set_mul-IsNormal e w v n =
    if_intro IsNormal (w.bad || v.bad) (λ _. record { sorted = n.sorted; small = n.small })
      (λ _.
        if_intro IsNormal (is_empty w.cs) (λ _. add_expr-IsNormal e v w.c n)
          (λ _.
            if_intro IsNormal (is_empty v.cs) (λ _. add_expr-IsNormal e w v.c n)
              (λ _. record { sorted = n.sorted; small = n.small })))

-- Adding a register, adding a multiple of an expression and multiplying keep the normal form: keys
-- that rise strictly, no coefficient 0, and at most 20 entries.
pub ops-IsNormal :
    (e w v : AddExpr) (x a s : ℕ)
    → IsNormal e
    → IsNormal (add_reg e x a) × IsNormal (add_expr e w s) × IsNormal (set_mul e w v)
ops-IsNormal e w v x a s n =
    (add_reg-IsNormal e x a n, add_expr-IsNormal e w s n, set_mul-IsNormal e w v n)
