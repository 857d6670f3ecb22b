-- ===== src/Opt/PhiInsertion/Tests.antt =====
-- A run of `phi_insertion` of src/ir/opt/ssa_constrcution.cpp.
use helesta.Prelude.{ℕ, ◌<◌, ◌≡◌, ◌↔◌, refl, some, List, [], ◌∷◌, All, All-at, arith}
use helesta.Opt.Dom.Graph.{IsGraph}
use helesta.Opt.PhiInsertion.{visit, drain, phi_insertion}
use helesta.Opt.PhiInsertion.Visit.{In, Once}
use helesta.Opt.PhiInsertion.Correct.{Iterated, phi_insertion_lem}

-- The frontiers of a loop: 1 is its head, 2 and 3 lie in it, and 3 meets 2.
abbrev frontiers : List (List ℕ)
frontiers = [] ∷ (1 ∷ []) ∷ (3 ∷ []) ∷ (1 ∷ []) ∷ []

frontiers-IsGraph : IsGraph frontiers
frontiers-IsGraph u outs e =
    All-at (All (λ v. v < 4)) frontiers u outs
      (tt, ((omega arith, tt), ((omega arith, tt), ((omega arith, tt), tt)))) e

phis_test : phi_insertion frontiers (2 ∷ []) ≡ some (3 ∷ 1 ∷ [])
unfolding phi_insertion drain visit
phis_test = refl

defs_lt : (v : ℕ) → In (2 ∷ []) v → v < 4
defs_lt v (i, e) = All-at (λ x. x < 4) (2 ∷ []) i v (omega arith, tt) e

phi_insertion_lem_example :
    (phis : List ℕ) × (phi_insertion frontiers (2 ∷ []) ≡ some phis)
    × ((v : ℕ) → In phis v ↔ Iterated frontiers (2 ∷ []) v)
    × Once phis
phi_insertion_lem_example = phi_insertion_lem frontiers (2 ∷ []) frontiers-IsGraph defs_lt
