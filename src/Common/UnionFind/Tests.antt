-- ===== src/Common/UnionFind/Tests.antt =====
-- Runs of `UnionFind` of src/common/common.hpp.
use helesta.Prelude.{ℕ, suc, ◌≤◌, ◌≡◌, refl, none, some, update, arith}
use helesta.Common.UnionFind.{UnionFind, find, merge}
use helesta.Common.UnionFind.Forest.{Root, top, up}
use helesta.Common.UnionFind.Correct.{Keeps, find_lem}
use helesta.Common.UnionFind.Merge.{joined, merge_lem}

-- 3 points to 2, and 2 to 1.
abbrev chain : UnionFind
chain = update (update (λ _. none) 2 (some 1)) 3 (some 2)

three-Root : Root chain 3 1 2
three-Root = up 3 1 1 (λ e. omega arith) (up 2 1 0 (λ e. omega arith) (top 1 refl))

find_lem_example : (v : UnionFind) × (find 3 chain 3 ≡ some (1, v)) × Keeps chain v
find_lem_example = find_lem 3 chain 3 1 2 three-Root (omega arith)

merge_lem_example :
    (v : UnionFind) × (merge 3 chain 3 5 ≡ some v)
    × ((z t k : ℕ) → Root chain z t k → (k' : ℕ) × (k' ≤ suc k) × Root v z (joined 1 5 t) k')
merge_lem_example =
    merge_lem 3 chain 3 5 1 5 2 0 three-Root (omega arith) (top 5 refl) (omega arith)
