-- ===== src/Common/UnionFind.antt =====
-- `UnionFind` of src/common/common.hpp: a forest in a hash map, with path halving. A map is a function, and
-- `none` is the end of the fuel.
pub mod Forest
pub mod Correct
pub mod Merge
pub mod Tests
use helesta.Prelude.{ℕ, zero, suc, Option, none, some, ◌==◌, if◌then◌else◌, update, ◌>>=◌}

-- `_f`
abbrev pub UnionFind : Type 0
UnionFind = ℕ → Option ℕ

abbrev pub parent : UnionFind → ℕ → ℕ
parent u x = elim (u x) [ some p ↦ p | none ↦ x ]

-- `f(x)` makes an entry where there is none.
abbrev pub touch : UnionFind → ℕ → UnionFind
touch u x = update u x (some (parent u x))

-- `operator[]`: each round lets `x` point to its grandparent and goes there.
unfoldable pub find : ℕ → UnionFind → ℕ → Option (ℕ × UnionFind)
find zero u x = none
find (suc fuel) u x =
    let p : ℕ = parent u x in
    let q : ℕ = parent (touch u x) p in
    let rest = find fuel (update (touch (touch u x) p) x (some q)) q in
    if x == p then some (x, touch u x) else rest

-- `merge(x, y)`: the right side of the assignment is evaluated first.
unfoldable pub merge : ℕ → UnionFind → ℕ → ℕ → Option UnionFind
unfolding find
merge fuel u x y = do
  (s, u1) ← find fuel u y
  (r, u2) ← find fuel u1 x
  some (update (touch u2 r) r (some s))
