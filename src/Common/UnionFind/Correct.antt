-- ===== src/Common/UnionFind/Correct.antt =====
-- `operator[]` and `merge` of src/common/common.hpp against the roots of the forest.
use helesta.Prelude.{
  ℕ, zero, suc, ◌<◌, ◌≤◌, ◌≡◌, ◌≢◌, inl, inr, sym, ap, subst, ◌∙◌, some, ◌==◌, ==_iff,
  if◌then◌else◌, update, Bool-cases, arith,
}
use helesta.Common.UnionFind.{UnionFind, parent, touch, find}
use helesta.Common.UnionFind.Forest.{
  Root, top, up, Root-unique, Root-same, parent-touch, parent-update, halved, halve, below,
}

-- Roots stay, and are no further up.
abbrev pub Keeps : UnionFind → UnionFind → Type 0
Keeps u v = (y s m : ℕ) → Root u y s m → (m' : ℕ) × (m' ≤ m) × Root v y s m'

Keeps-trans : (u v w : UnionFind) → Keeps u v → Keeps v w → Keeps u w
Keeps-trans u v w f g y s m r =
    let (a, la, ra) = f y s m r in let (b, lb, rb) = g y s a ra in (b, omega arith, rb)

Keeps-same : (u v : UnionFind) → ((x : ℕ) → parent v x ≡ parent u x) → Keeps u v
Keeps-same u v f y s m r = (m, omega arith, Root-same u v f r)

round : UnionFind → ℕ → UnionFind
round u x = let p : ℕ = parent u x in update (touch (touch u x) p) x (some (parent (touch u x) p))

round_at : (u : UnionFind) (x y : ℕ) → parent (round u x) y ≡ parent (halved u x) y
unfolding round
round_at u x y =
    let p : ℕ = parent u x in
    let q : ℕ = parent (touch u x) p in
    let first : parent (round u x) y ≡ (if y == x then q else parent (touch (touch u x) p) y) =
      parent-update (touch (touch u x) p) x q y in
    let up_to : q ≡ parent u p = parent-touch u x p in
    let away : parent (touch (touch u x) p) y ≡ parent u y =
      parent-touch (touch u x) p y ∙ parent-touch u x y in
    let second : parent (halved u x) y ≡ (if y == x then parent u p else parent u y) =
      parent-update u x (parent u p) y in
    first
    ∙ ap (λ z. if y == x then z else parent (touch (touch u x) p) y) up_to
    ∙ ap (λ z. if y == x then parent u p else z) away
    ∙ sym second

round-Keeps : (u : UnionFind) (x : ℕ) → Keeps u (round u x)
round-Keeps u x =
    Keeps-trans u (halved u x) (round u x) (λ y s m r. halve u x r)
      (Keeps-same (halved u x) (round u x) (round_at u x))

-- The parent of a node has the same root, no further up.
parent-Root :
    (u : UnionFind) {x r n : ℕ} → Root u x r n → (m : ℕ) × (m ≤ n) × Root u (parent u x) r m
parent-Root u (top x p) = (0, omega arith, subst (λ z. Root u z x 0) (sym p) (top x p))
parent-Root u (up x r n _ w) = (n, omega arith, w)

-- In a map in which the node has a root, fewer steps up than the fuel, the search returns the root, and
-- every node keeps its root, no further up.
pub find_lem :
    (fuel : ℕ) (u : UnionFind) (x r n : ℕ)
    → Root u x r n
    → n < fuel
    → (v : UnionFind) × (find fuel u x ≡ some (r, v)) × Keeps u v
unfolding find round
find_lem zero u x r n w low = absurd (omega arith)
find_lem (suc fuel) u x r n w low = elim (Bool-cases (x == parent u x)) [
  | inl k ↦
      let stays : parent u x ≡ x = sym ((==_iff x (parent u x)).0 k) in
      let same : x ≡ r = (Root-unique u (top x stays) w).0 in
      (
        touch u x,
        rw k (ap (λ z. some (z, touch u x)) same),
        Keeps-same u (touch u x) (parent-touch u x),
      )
  | inr k ↦
      let moves : parent u x ≢ x = λ e. grind arith in
      let (m, e, w1) = below u w moves in
      let (j, l, w2) = parent-Root u w1 in
      let q : ℕ = parent (touch u x) (parent u x) in
      let to : parent u (parent u x) ≡ q = sym (parent-touch u x (parent u x)) in
      let (i, l', w3) = round-Keeps u x q r j (subst (λ z. Root u z r j) to w2) in
      let (v, found, keeps) = find_lem fuel (round u x) q r i w3 (omega arith) in
      (v, rw k found, Keeps-trans u (round u x) v (round-Keeps u x) keeps)
]
