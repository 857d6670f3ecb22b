-- ===== src/Opt/AddExpr.antt =====
-- `AddExpr` of src/ir/opt/add_expr.hpp and src/ir/opt/simplify_expr.cpp: a constant plus registers
-- times coefficients, in wrapping 32-bit arithmetic.
pub mod Value
pub mod Normal
pub mod GenIr
pub mod Tests
use helesta.Prelude.{
  ℕ, ◌+◌, ◌%◌, ◌^◌, Bool, true, false, ◌||◌, List, [], ◌∷◌, ltb, ◌==◌, if◌then◌else◌, length,
}
use helesta.Prelude.Word.{add32, mul32}
use helesta.Opt.RegMap.{RegMap, at, assign, erase, total}

pub record AddExpr : Type 0 where
  pub c : ℕ
  pub bad : Bool
  pub cs : RegMap

abbrev pub fresh : AddExpr
fresh = record { c = 0; bad = false; cs = [] }

-- `cs[x] += a`, and the entry goes where the sum is 0.
unfoldable pub bump : ℕ → ℕ → RegMap → RegMap
bump x a cs = let v = add32 (at x cs) a in if v == 0 then erase x (assign x v cs) else assign x v cs

unfoldable pub add_reg : AddExpr → ℕ → ℕ → AddExpr
add_reg e x a =
    let cs = bump x a e.cs in
    if e.bad
    then e
    else if ltb 20 (length cs)
    then record e { cs = []; bad = true }
    else record e { cs = cs }

unfoldable pub add_const : AddExpr → ℕ → AddExpr
add_const e s = record e { c = add32 e.c s }

unfoldable pub add_terms : AddExpr → RegMap → ℕ → AddExpr
add_terms e [] s = e
add_terms e ((x, a) ∷ m) s = add_terms (add_reg e x (mul32 a s)) m s

unfoldable pub add_expr : AddExpr → AddExpr → ℕ → AddExpr
add_expr e w s =
    if e.bad
    then e
    else if w.bad
    then record e { bad = true }
    else add_terms (record e { c = add32 e.c (mul32 w.c s) }) w.cs s

abbrev pub is_empty : RegMap → Bool
is_empty [] = true
is_empty (_ ∷ _) = false

unfoldable pub set_mul : AddExpr → AddExpr → AddExpr → AddExpr
set_mul e w1 w2 =
    if w1.bad || w2.bad
    then record e { bad = true }
    else if is_empty w1.cs
    then add_expr e w2 w1.c
    else if is_empty w2.cs
    then add_expr e w1 w2.c
    else record e { bad = true }

-- What an expression stands for, where the registers hold `env`.
unfoldable pub value : (ℕ → ℕ) → AddExpr → ℕ
value env e = (e.c + total env e.cs) % 2 ^ 32
