-- ===== src/Opt/Dom/Tests.antt =====
-- Runs of the dominators of src/ir/opt/dom.cpp.
use helesta.Prelude.{
  All, All-at, ℕ, ◌<◌, ◌≡◌, refl, Option, some, List, [], ◌∷◌, ◌>>=◌, length, arith,
}
use helesta.Opt.Dom.{Graph, dfs, assert_that, construct}
use helesta.Opt.Dom.Graph.{IsGraph}
use helesta.Opt.Dom.Construct.{FatherOf, Numbering, construct_lem}

-- A branch that meets again before a loop, and a block that nothing reaches.
abbrev branches : Graph
branches = (1 ∷ 2 ∷ []) ∷ (3 ∷ []) ∷ (3 ∷ []) ∷ (4 ∷ []) ∷ (3 ∷ 5 ∷ []) ∷ [] ∷ (5 ∷ []) ∷ []

branches-IsGraph : IsGraph branches
branches-IsGraph u outs e =
    All-at (All (λ v. v < 7)) branches u outs
      (
        (omega arith, (omega arith, tt)),
        (
          (omega arith, tt),
          (
            (omega arith, tt),
            ((omega arith, tt), ((omega arith, (omega arith, tt)), (tt, ((omega arith, tt), tt)))),
          ),
        ),
      )
      e

unfoldable father : ℕ → Option ℕ
unfolding construct
father v = do r ← construct branches 0; r.1 v

fathers_test : father 3 ≡ some 0
unfolding father dfs assert_that
fathers_test = refl

outside_test : father 6 ≡ some 2
unfolding father dfs assert_that
outside_test = refl

construct_lem_example :
    (dfn : List ℕ) × (fa : ℕ → Option ℕ) × (construct branches 0 ≡ some (dfn, fa))
    × Numbering branches 0 dfn
    × ((v : ℕ) → v < length branches → FatherOf branches 0 dfn v (fa v))
construct_lem_example = construct_lem branches branches-IsGraph 0 (omega arith)
