-- ===== src/Opt/TypeCheck/Classes.antt =====
-- Classes of the union-find that src/ir/opt/typecheck.cpp uses.
use helesta.Prelude.{
  ℕ, suc, ◌<◌, ◌≤◌, ◌≡◌, ◌↔◌, inl, inr, refl, sym, ap, subst, ◌∙◌, Bool, true, some, ◌==◌, ==_iff,
  Bool-cases, arith,
}
use helesta.Common.UnionFind.{UnionFind, find, merge}
use helesta.Common.UnionFind.Forest.{Root, Root-unique}
use helesta.Common.UnionFind.Correct.{Keeps, find_lem}
use helesta.Common.UnionFind.Merge.{joined, merge_lem}
use helesta.Opt.TypeCheck.{same_class}

pub data Kind : Type 0 where
  int float addr : Kind

-- Every node has a root, at most so many steps up.
abbrev pub Shallow : ℕ → UnionFind → Type 0
Shallow k u = (x : ℕ) → (r : ℕ) × (n : ℕ) × (n ≤ k) × Root u x r n

abbrev pub Same : UnionFind → ℕ → ℕ → Type 0
Same u x y = (r : ℕ) × (n : ℕ) × (m : ℕ) × Root u x r n × Root u y r m

-- A labelling of the nodes that the classes respect.
abbrev pub Respects : (ℕ → Kind) → UnionFind → Type 0
Respects t u = (x r n : ℕ) → Root u x r n → t r ≡ t x

-- A forest with no less in each class, and no labelling lost.
abbrev pub Refines : UnionFind → UnionFind → Type 0
Refines u v = (x y : ℕ) → Same u x y → Same v x y

Keeps-Shallow : (k : ℕ) (u v : UnionFind) → Keeps u v → Shallow k u → Shallow k v
Keeps-Shallow k u v f h x =
    let (r, n, l, w) = h x in let (m, l', w') = f x r n w in (r, m, omega arith, w')

Keeps-Refines : (u v : UnionFind) → Keeps u v → Refines u v
Keeps-Refines u v f x y (r, n, m, a, b) =
    let (n', _, a') = f x r n a in let (m', _, b') = f y r m b in (r, n', m', a', b')

Keeps-Respects :
    (k : ℕ) (t : ℕ → Kind) (u v : UnionFind) → Shallow k u → Keeps u v → Respects t u → Respects t v
Keeps-Respects k t u v h f g x r n w =
    let (s, m, _, a) = h x in
    let (m', _, a') = f x s m a in
    let same : s ≡ r = (Root-unique v a' w).0 in ap t (sym same) ∙ g x s m a

pub find_step :
    (fuel k : ℕ) (u : UnionFind) (x : ℕ)
    → Shallow k u
    → k < fuel
    → (r : ℕ) × (v : UnionFind) × (n : ℕ) × (find fuel u x ≡ some (r, v)) × Root u x r n × Keeps u v
find_step fuel k u x h low =
    let (r, n, l, w) = h x in
    let (v, e, f) = find_lem fuel u x r n w (omega arith) in (r, v, n, e, w, f)

-- What a step of the check leaves: the depth, the classes and the labellings.
pub record Stays (k : ℕ) (u v : UnionFind) : Type 0 where
  pub shallow : Shallow k v
  pub refines : Refines u v
  pub respects : (t : ℕ → Kind) → Respects t u → Respects t v
  pub back : (x y : ℕ) → Same v x y → Same u x y

Keeps-Stays : (k : ℕ) (u v : UnionFind) → Shallow k u → Keeps u v → Stays k u v
Keeps-Stays k u v h f = record {
  shallow = Keeps-Shallow k u v f h;
  refines = Keeps-Refines u v f;
  respects = λ t. Keeps-Respects k t u v h f;
  back = λ x y (r, n, m, a, b).
      let (s, i, _, c) = h x in
      let (s', j, _, d) = h y in
      let (i', _, c') = f x s i c in
      let (j', _, d') = f y s' j d in
      let one : s ≡ r = (Root-unique v c' a).0 in
      let two : s' ≡ r = (Root-unique v d' b).0 in
      (s, i, j, c, subst (λ z. Root u y z j) (two ∙ sym one) d);
}

pub same_class_lem :
    (fuel k : ℕ) (u : UnionFind) (x y : ℕ)
    → Shallow k u
    → k < fuel
    → (b : Bool) × (v : UnionFind) × (same_class fuel u x y ≡ some (b, v))
      × ((b ≡ true) ↔ Same u x y)
      × Stays k u v
unfolding same_class
same_class_lem fuel k u x y h low =
    let (r, u1, n, e, w, f) = find_step fuel k u x h low in
    let h1 = Keeps-Shallow k u u1 f h in
    let (s, u2, m, e', w', f') = find_step fuel k u1 y h1 low in
    let st = Keeps-Stays k u u1 h f in
    let st' = Keeps-Stays k u1 u2 h1 f' in
    let (n1, _, w1) = f x r n w in
    (
      r == s,
      u2,
      rw (e, e') refl,
      (
        (λ t. st.back x y (s, n1, m, subst (λ z. Root u1 x z n1) ((==_iff r s).0 t) w1, w')),
        (λ p.
            let (q, i, j, a, b) = st.refines x y p in
            let one : r ≡ q = (Root-unique u1 w1 a).0 in
            let two : s ≡ q = (Root-unique u1 w' b).0 in (==_iff r s).1 (one ∙ sym two)),
      ),
      record {
        shallow = st'.shallow;
        refines = λ a b p. st'.refines a b (st.refines a b p);
        respects = λ t g. st'.respects t (st.respects t g);
        back = λ a b p. st.back a b (st'.back a b p);
      },
    )

pub merge_step :
    (fuel k : ℕ) (u : UnionFind) (x y : ℕ)
    → Shallow k u
    → k < fuel
    → (v : UnionFind) × (merge fuel u x y ≡ some v)
      × Shallow (suc k) v
      × Refines u v
      × Same v x y
      × ((t : ℕ → Kind) → t x ≡ t y → Respects t u → Respects t v)
merge_step fuel k u x y h low =
    let (r, n, l, w) = h x in
    let (s, m, l', w') = h y in
    let (v, e, f) = merge_lem fuel u x y r s n m w (omega arith) w' (omega arith) in
    let refines : Refines u v = λ a b (q, i, j, c, d).
      let (i', _, c') = f a q i c in
      let (j', _, d') = f b q j d in (joined r s q, i', j', c', d') in
    let (i, _, c) = f x r n w in
    let (j, _, d) = f y s m w' in
    (
      v,
      e,
      (λ z.
          let (q, i, li, a) = h z in
          let (i', l2, a') = f z q i a in (joined r s q, i', omega arith, a')),
      refines,
      (
        s,
        i,
        j,
        subst (λ z. Root v x z i) (joined_at r s) c,
        subst (λ z. Root v y z j) (joined_to r s) d,
      ),
      (λ t p g z q n' w2.
          let (o, i, _, a) = h z in
          let (i', _, a') = f z o i a in
          let same : joined r s o ≡ q = (Root-unique v a' w2).0 in
          ap t (sym same) ∙ label t r s o (g x r n w ∙ p ∙ sym (g y s m w')) ∙ g z o i a),
    )
  where
    joined_at : (r s : ℕ) → joined r s r ≡ s
    joined_at r s = ground arith

    joined_to : (r s : ℕ) → joined r s s ≡ s
    joined_to r s = ground arith

    label : (t : ℕ → Kind) (r s o : ℕ) → t r ≡ t s → t (joined r s o) ≡ t o
    label t r s o p = elim (Bool-cases (o == r)) [
      | inl k ↦ rw k (sym p ∙ ap t (sym ((==_iff o r).0 k)))
      | inr k ↦ rw k refl
    ]
