-- ===== src/Opt/AddExpr/Tests.antt =====
-- Sums and products of small linear forms.
use helesta.Prelude.{ℕ, ◌+◌, ◌≡◌, refl, false, [], ◌∷◌, arith}
use helesta.Prelude.Word.{add32, mul32}
use helesta.Opt.RegMap.{at, assign, erase}
use helesta.Opt.AddExpr.{AddExpr, fresh, bump, add_reg, add_terms, add_expr, set_mul}
use helesta.Opt.AddExpr.Normal.{IsNormal, ops-IsNormal}

abbrev env : ℕ → ℕ
env r = r + 5

-- 7 + 2 r1
abbrev line : AddExpr
line = record { c = 7; bad = false; cs = (1, 2) ∷ [] }

-- 1 - 2 r1 + 4 r3
abbrev other : AddExpr
other = record { c = 1; bad = false; cs = (1, 0xfffffffe) ∷ (3, 4) ∷ [] }

abbrev five : AddExpr
five = record fresh { c = 5 }

cancel : add_expr line other 1 ≡ record { c = 8; bad = false; cs = (3, 4) ∷ [] }
unfolding add_expr add_terms add_reg bump add32 at mul32 erase assign
cancel = refl

line-IsNormal : IsNormal line
line-IsNormal = record { sorted = (omega arith, omega arith, tt); small = omega arith }

ops-IsNormal_example :
    IsNormal (add_reg line 1 0xfffffffe)
    × IsNormal (add_expr line other 3)
    × IsNormal (set_mul line other five)
ops-IsNormal_example = ops-IsNormal line other five 1 0xfffffffe 3 line-IsNormal
