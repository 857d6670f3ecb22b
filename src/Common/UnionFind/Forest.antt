-- ===== src/Common/UnionFind/Forest.antt =====
-- Forests of src/common/common.hpp, and what path halving does to them.
use helesta.Prelude.{
  ℕ, suc, ◌≤◌, ◌≡◌, ◌≢◌, inl, inr, refl, sym, ap, subst, ◌∙◌, some, ◌==◌, ==_iff, if◌then◌else◌,
  update, Bool-cases, arith,
}
use helesta.Common.UnionFind.{UnionFind, parent, touch}

-- `r` is the root above `x`, so many steps up.
pub data Root (u : UnionFind) : ℕ → ℕ → ℕ → Type 0 where
  top : (x : ℕ) → parent u x ≡ x → Root u x x 0
  up : (x r n : ℕ) → parent u x ≢ x → Root u (parent u x) r n → Root u x r (suc n)

pub Root-unique : (u : UnionFind) {x r s n m : ℕ} → Root u x r n → Root u x s m → (r ≡ s) × (n ≡ m)
Root-unique u (top x p) (top _ q) = (refl, refl)
Root-unique u (top x p) (up _ s m ne w) = absurd (ne p)
Root-unique u (up x r n ne w) (top _ q) = absurd (ne q)
Root-unique u (up x r n ne w) (up _ s m ne' w') = let (p, q) = Root-unique u w w' in (p, ap suc q)

pub Root-top : (u : UnionFind) {x r n : ℕ} → Root u x r n → Root u r r 0
Root-top u (top x p) = top x p
Root-top u (up x r n ne w) = Root-top u w

-- Maps with the same parents have the same roots.
pub Root-same :
    (u v : UnionFind)
    → ((x : ℕ) → parent v x ≡ parent u x)
    → {x r n : ℕ} → Root u x r n
    → Root v x r n
Root-same u v f (top x p) = top x (f x ∙ p)
Root-same u v f (up x r n ne w) =
    up x r n (λ e. ne (sym (f x) ∙ e)) (subst (λ z. Root v z r n) (sym (f x)) (Root-same u v f w))

pub parent-touch : (u : UnionFind) (y x : ℕ) → parent (touch u y) x ≡ parent u x
parent-touch u y x = ground arith

pub parent-update :
    (u : UnionFind) (y q x : ℕ)
    → parent (update u y (some q)) x ≡ (if x == y then q else parent u x)
parent-update u y q x = ground arith

pub below :
    (u : UnionFind) {x r n : ℕ}
    → Root u x r n
    → parent u x ≢ x
    → (k : ℕ) × (n ≡ suc k) × Root u (parent u x) r k
below u (top x p) ne = absurd (ne p)
below u (up x r n _ w) ne = (n, refl, w)

pub no_cycle :
    (u : UnionFind) {x r n : ℕ} → Root u x r n → parent u x ≢ x → parent u (parent u x) ≢ x
no_cycle u {x} {r} {n} w ne e =
    let other : parent u (parent u x) ≢ parent u x = λ k. ne (sym k ∙ e) in
    let (k, p, w1) = below u w ne in
    let (j, q, w2) = below u w1 other in
    let again : Root u x r j = subst (λ z. Root u z r j) e w2 in
    let same : n ≡ j = (Root-unique u w again).1 in absurd (omega arith)

module _ (u : UnionFind) (x : ℕ) where
  abbrev pub halved : UnionFind
  halved = update u x (some (parent u (parent u x)))

  abbrev pub Kept : ℕ → ℕ → ℕ → Type 0
  Kept y s m = (m' : ℕ) × (m' ≤ m) × Root halved y s m'

  halved_at : (y : ℕ) → parent halved y ≡ (if y == x then parent u (parent u x) else parent u y)
  halved_at y = parent-update u x (parent u (parent u x)) y

  halve_both : {y s m : ℕ} → Root u y s m → Kept y s m × Kept (parent u y) s m
  halve_both (top y p) =
      let still : parent halved y ≡ y = elim (Bool-cases (y == x)) [
        | inl k ↦
            let same : y ≡ x = (==_iff y x).0 k in
            halved_at y ∙ rw k (ap (λ z. parent u (parent u z)) (sym same) ∙ ap (parent u) p ∙ p)
        | inr k ↦ halved_at y ∙ rw k p
      ] in
      (
        (0, omega arith, top y still),
        (0, omega arith, subst (λ z. Root halved z y 0) (sym p) (top y still)),
      )
  halve_both (up y s m ne w) =
      let ((a, la, ra), (b, lb, rb)) = halve_both w in
      (
        elim (Bool-cases (y == x)) [
          | inl k ↦
              let same : y ≡ x = (==_iff y x).0 k in
              let to : parent halved y ≡ parent u (parent u y) =
                halved_at y ∙ rw k (ap (λ z. parent u (parent u z)) (sym same)) in
              (
                suc b,
                omega arith,
                up y s b (λ e. no_cycle u (up y s m ne w) ne (sym to ∙ e))
                    (subst (λ z. Root halved z s b) (sym to) rb),
              )
          | inr k ↦
              let to : parent halved y ≡ parent u y = halved_at y ∙ rw k refl in
              (
                suc a,
                omega arith,
                up y s a (λ e. ne (sym to ∙ e)) (subst (λ z. Root halved z s a) (sym to) ra),
              )
        ],
        (a, omega arith, ra),
      )

  -- After `x` is made to point to its grandparent, all roots are where they were, no further up.
  pub halve : {y s m : ℕ} → Root u y s m → Kept y s m
  halve w = (halve_both w).0
