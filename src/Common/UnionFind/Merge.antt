-- ===== src/Common/UnionFind/Merge.antt =====
-- `merge` of src/common/common.hpp against the roots of the forest.
use helesta.Prelude.{
  ℕ, suc, ◌<◌, ◌≤◌, ◌≡◌, inl, inr, refl, sym, ap, subst, ◌∙◌, Bool, true, false, some, ◌==◌, ==_iff,
  if◌then◌else◌, update, Bool-cases, arith,
}
use helesta.Common.UnionFind.{UnionFind, parent, touch, merge}
use helesta.Common.UnionFind.Forest.{Root, top, up, parent-touch, parent-update}
use helesta.Common.UnionFind.Correct.{find_lem}

Root-end : (u : UnionFind) {x r n : ℕ} → Root u x r n → parent u r ≡ r
Root-end u (top x p) = p
Root-end u (up x r n ne w) = Root-end u w

-- The root after the root `r` is put under the root `s`.
abbrev pub joined : ℕ → ℕ → ℕ → ℕ
joined r s t = if t == r then s else t

module _ (u v : UnionFind) (r s : ℕ)
    (linked : (z : ℕ) → parent v z ≡ (if z == r then s else parent u z)) (rr : parent u r ≡ r)
    (ss : parent u s ≡ s) where
  s_stays : parent v s ≡ s
  s_stays = linked s ∙ if_same (s == r)
    where
      if_same : (b : Bool) → (if b then s else parent u s) ≡ s
      if_same true = refl
      if_same false = ss

  link : {z t k : ℕ} → Root u z t k → (k' : ℕ) × (k' ≤ suc k) × Root v z (joined r s t) k'
  link (top z p) = elim (Bool-cases (z == r)) [
    | inl e ↦
        let to : parent v z ≡ s = linked z ∙ rw e refl in
        elim (Bool-cases (s == z)) [
          | inl f ↦
              let same : z ≡ s = sym ((==_iff s z).0 f) in
              (0, omega arith, rw e (subst (λ y. Root v z y 0) same (top z (to ∙ sym same))))
          | inr f ↦ (
            1,
            omega arith,
            rw e (up z s 0 (λ g. grind arith) (subst (λ y. Root v y s 0) (sym to) (top s s_stays))),
          )
        ]
    | inr e ↦ (0, omega arith, rw e (top z (linked z ∙ rw e p)))
  ]
  link (up z t k ne w) =
      let (k', l, w') = link w in
      let other : (z == r) ≡ false = elim (Bool-cases (z == r)) [
        | inl e ↦
            let same : z ≡ r = (==_iff z r).0 e in absurd (ne (ap (parent u) same ∙ rr ∙ sym same))
        | inr e ↦ e
      ] in
      let to : parent v z ≡ parent u z = linked z ∙ rw other refl in
      (
        suc k',
        omega arith,
        up z (joined r s t) k' (λ e. ne (sym to ∙ e))
            (subst (λ y. Root v y (joined r s t) k') (sym to) w'),
      )

-- Where both nodes have roots, fewer steps up than the fuel, they are joined: what had the root of the first
-- has the root of the second, and everything else keeps its root.
pub merge_lem :
    (fuel : ℕ) (u : UnionFind) (x y r s n m : ℕ)
    → Root u x r n
    → n < fuel
    → Root u y s m
    → m < fuel
    → (v : UnionFind) × (merge fuel u x y ≡ some v)
      × ((z t k : ℕ) → Root u z t k → (k' : ℕ) × (k' ≤ suc k) × Root v z (joined r s t) k')
unfolding merge
merge_lem fuel u x y r s n m wx ln wy lm =
    let (u1, q1, k1) = find_lem fuel u y s m wy lm in
    let (n', l, wx') = k1 x r n wx in
    let (u2, q2, k2) = find_lem fuel u1 x r n' wx' (omega arith) in
    let (i, li, wr) = k2 x r n' wx' in
    let (j, lj, ws) = k1 y s m wy in
    let (j', lj', ws') = k2 y s j ws in
    let v : UnionFind = update (touch u2 r) r (some s) in
    let linked : (z : ℕ) → parent v z ≡ (if z == r then s else parent u2 z) = λ z.
      parent-update (touch u2 r) r s z ∙ ap (λ p. if z == r then s else p) (parent-touch u2 r z) in
    (
      v,
      rw (q1, q2) refl,
      λ z t k w.
          let (a, la, wa) = k1 z t k w in
          let (b, lb, wb) = k2 z t a wa in
          let (c, lc, wc) = link u2 v r s linked (Root-end u2 wr) (Root-end u2 ws') wb in
          (c, omega arith, wc),
    )
