-- ===== src/Opt/TypeCheck/Correct.antt =====
-- What the check of src/ir/opt/typecheck.cpp decides.
use helesta.Prelude.{
  ℕ, suc, ◌+◌, ◌<◌, ◌≡◌, ◌≢◌, ◌↔◌, inl, inr, refl, sym, ap, subst, ◌∙◌, Bool, true, false, ◌||◌,
  Option, some, List, [], ◌∷◌, ◌==◌, if◌then◌else◌, length, All, Bool-cases, arith,
}
use helesta.Common.UnionFind.{UnionFind}
use helesta.Common.UnionFind.Forest.{Root, Root-top, Root-unique}
use helesta.Opt.TypeCheck.{Verdict, int_node, float_node, addr_node, success, check_all}
use helesta.Opt.TypeCheck.Classes.{
  Kind, Shallow, Same, Respects, Refines, same_class_lem, merge_step,
}

-- Kinds for the nodes: the type nodes have their own, and each merge joins nodes of one kind.
pub record Labels (t : ℕ → Kind) (u : UnionFind) (ms : List (ℕ × ℕ)) : Type 0 where
  pub ints : t int_node ≡ Kind.int
  pub floats : t float_node ≡ Kind.float
  pub addrs : t addr_node ≡ Kind.addr
  pub classes : Respects t u
  pub agrees : All (λ m. t m.0 ≡ t m.1) ms

Same-label : (t : ℕ → Kind) (u : UnionFind) (x y : ℕ) → Respects t u → Same u x y → t x ≡ t y
Same-label t u x y g (r, n, m, a, b) = sym (g x r n a) ∙ g y r m b

different :
    (t : ℕ → Kind) (u : UnionFind) (ms : List (ℕ × ℕ))
    → Labels t u ms
    → (¬ Same u int_node float_node)
      × (¬ Same u int_node addr_node)
      × (¬ Same u float_node addr_node)
different t u ms l = (
  (λ p.
      let e = Same-label t u int_node float_node l.classes p in
      let a = l.ints in let b = l.floats in cc),
  (λ p.
      let e = Same-label t u int_node addr_node l.classes p in
      let a = l.ints in let b = l.addrs in cc),
  (λ p.
      let e = Same-label t u float_node addr_node l.classes p in
      let a = l.floats in let b = l.addrs in cc),
)

-- The kind of a node from its root and those of the type nodes.
unfoldable label : ℕ → ℕ → ℕ → Kind
label ints floats r = if r == ints then Kind.int else if r == floats then Kind.float else Kind.addr

-- Classes that are apart give kinds to all nodes.
labelled :
    (k : ℕ) (u : UnionFind)
    → Shallow k u
    → ¬ Same u int_node float_node
    → ¬ Same u int_node addr_node
    → ¬ Same u float_node addr_node
    → (t : ℕ → Kind) × Labels t u []
unfolding label
labelled k u h ne1 ne2 ne3 =
    let (i, ni, li, wi) = h int_node in
    let (f, nf, lf, wf) = h float_node in
    let (a, na, la, wa) = h addr_node in
    let d1 : f ≢ i = λ e. ne1 (i, ni, nf, wi, subst (λ z. Root u float_node z nf) e wf) in
    let d2 : a ≢ i = λ e. ne2 (i, ni, na, wi, subst (λ z. Root u addr_node z na) e wa) in
    let d3 : a ≢ f = λ e. ne3 (f, nf, na, wf, subst (λ z. Root u addr_node z na) e wa) in
    (
      (λ x. label i f (h x).0),
      record {
        ints = ground arith;
        floats = ground arith;
        addrs = ground arith;
        classes = λ x r n w.
            let (r', n', _, w') = h r in
            let (x', m', _, v') = h x in
            let one : r' ≡ r = (Root-unique u w' (Root-top u w)).0 in
            let two : x' ≡ r = (Root-unique u v' w).0 in ap (label i f) (one ∙ sym two);
        agrees = tt;
      },
    )

success_lem :
    (fuel k : ℕ) (u : UnionFind)
    → Shallow k u
    → k < fuel
    → (b : Bool) × (success fuel u ≡ some b) × ((b ≡ true) ↔ ((t : ℕ → Kind) × Labels t u []))
unfolding success
success_lem fuel k u h low =
    let (a, u1, e1, i1, s1) = same_class_lem fuel k u int_node float_node h low in
    let (b, u2, e2, i2, s2) = same_class_lem fuel k u1 int_node addr_node s1.shallow low in
    let (c, u3, e3, i3, s3) = same_class_lem fuel k u2 float_node addr_node s2.shallow low in
    (
      (if a || b then false else if c then false else true),
      rw (e1, e2, e3) refl,
      (
        (λ t.
            labelled k u h (λ p. let q = i1.1 p in ground arith)
              (λ p. let q = i2.1 (s1.refines int_node addr_node p) in ground arith)
              (λ p.
                let q =
                  i3.1 (s2.refines float_node addr_node (s1.refines float_node addr_node p)) in
                ground arith)),
        (λ (t, l).
            let (n1, n2, n3) = different t u [] l in
            elim (Bool-cases a) [
              | inl k ↦ absurd (n1 (i1.0 k))
              | inr k1 ↦ elim (Bool-cases b) [
                | inl k ↦ absurd (n2 (s1.back int_node addr_node (i2.0 k)))
                | inr k2 ↦ elim (Bool-cases c) [
                  | inl k ↦
                      absurd
                        (n3 (s1.back float_node addr_node (s2.back float_node addr_node (i3.0 k))))
                  | inr k3 ↦ rw (k1, k2, k3) refl
                ]
              ]
            ]),
      ),
    )

abbrev pub Decided : Option Verdict → Type 0 → Type 0
Decided o P = (v : Verdict) × (o ≡ some v) × ((v ≡ Verdict.checked true) ↔ P)

abbrev pub Kinds : UnionFind → List (ℕ × ℕ) → Type 0
Kinds u ms = (t : ℕ → Kind) × Labels t u ms

aborted_lem :
    (u : UnionFind) (ms : List (ℕ × ℕ))
    → ¬ Kinds u ms
    → (Verdict.aborted ≡ Verdict.checked true) ↔ Kinds u ms
aborted_lem u ms n = ((λ e. cc), (λ l. absurd (n l)))

checked_lem : (b : Bool) → (Verdict.checked b ≡ Verdict.checked true) ↔ (b ≡ true)
checked_lem b = ((λ e. cc), (λ e. ap Verdict.checked e))

-- The merges and their checks decide whether there are kinds for all nodes.
pub check_all_lem :
    (fuel k : ℕ) (u : UnionFind) (ms : List (ℕ × ℕ))
    → Shallow k u
    → k + length ms < fuel
    → Decided (check_all fuel u ms) (Kinds u ms)
unfolding check_all
check_all_lem fuel k u [] h low =
    let (b, e, i) = success_lem fuel k u h (omega arith) in
    let j = checked_lem b in
    (Verdict.checked b, rw e refl, ((λ p. i.0 (j.0 p)), (λ l. j.1 (i.1 l))))
check_all_lem fuel k u ((x, y) ∷ ms) h low =
    let (u1, e1, h1, r1, joins, g1) = merge_step fuel k u x y h (omega arith) in
    let (a, u2, e2, i2, s2) = same_class_lem fuel (suc k) u1 int_node float_node h1 (omega arith) in
    let (b, u3, e3, i3, s3) =
      same_class_lem fuel (suc k) u2 addr_node float_node s2.shallow (omega arith) in
    let (v, e, i) = check_all_lem fuel (suc k) u3 ms s3.shallow (omega arith) in
    let down : Kinds u ((x, y) ∷ ms) → Kinds u3 ms = λ (t, l). (
      t,
      record {
        ints = l.ints;
        floats = l.floats;
        addrs = l.addrs;
        classes = s3.respects t (s2.respects t (g1 t l.agrees.0 l.classes));
        agrees = l.agrees.1;
      },
    ) in
    let up_refines : Refines u u3 = λ p q o. s3.refines p q (s2.refines p q (r1 p q o)) in
    let up : Kinds u3 ms → Kinds u ((x, y) ∷ ms) = λ (t, l). (
      t,
      record {
        ints = l.ints;
        floats = l.floats;
        addrs = l.addrs;
        classes =
            λ z r n w. Same-label t u3 r z l.classes (up_refines r z (r, 0, n, Root-top u w, w));
        agrees = (Same-label t u3 x y l.classes (s3.refines x y (s2.refines x y joins)), l.agrees);
      },
    ) in
    elim (Bool-cases a) [
      | inl k1 ↦ (
        Verdict.aborted,
        rw (e1, e2, e3, k1) refl,
        aborted_lem u ((x, y) ∷ ms) (λ l.
            let (t, m) = down l in
            (different t u3 ms m).0
              (s3.refines int_node float_node (s2.refines int_node float_node (i2.0 k1)))),
      )
      | inr k1 ↦ elim (Bool-cases b) [
        | inl k2 ↦ (
          Verdict.aborted,
          rw (e1, e2, e3, k1, k2) refl,
          aborted_lem u ((x, y) ∷ ms) (λ l.
              let (t, m) = down l in
              let (r, n1, n2, w1, w2) = s3.refines addr_node float_node (i3.0 k2) in
              (different t u3 ms m).2 (r, n2, n1, w2, w1)),
        )
        | inr k2 ↦ (v, rw (e1, e2, e3, k1, k2) e, ((λ p. up (i.0 p)), (λ l. i.1 (down l))))
      ]
    ]
