-- ===== src/Opt/Dom/Search.antt =====
-- What the search of src/ir/opt/dom.cpp marks.
use helesta.Prelude.{
  All, found, get_elem?-set_at, length-set_at, ℕ, zero, suc, ◌<◌, ◌≤◌, ◌≡◌, ◌≢◌, ◌⊎◌, inl, inr,
  refl, sym, ap, subst, ◌∙◌, Option, some, List, [], ◌∷◌, ◌==◌, ==_iff, length, get_elem?,
  if◌then◌else◌, Bool-cases, arith,
}
use helesta.Opt.Dom.{Graph, Dfs, enter, each, dfs}
use helesta.Opt.Dom.Graph.{unmarked, unmarked-set_at, IsGraph, Edge, Walk, here, step, Walk-map}

module _ (g : Graph) where
  module _ (tag : ℕ) where
    abbrev pub Marked : Dfs → ℕ → Type 0
    Marked st v = get_elem? st.tags v ≡ some tag

    abbrev pub Clear : Dfs → ℕ → Type 0
    Clear st v = get_elem? st.tags v ≢ some tag

    abbrev pub Sized : Dfs → Type 0
    Sized st = length st.tags ≡ length g

    -- What a call does, where it starts from the nodes `from`.
    pub record After (from : ℕ → Type 0) (st st' : Dfs) : Type 0 where
      pub sized : Sized st'
      pub falls : unmarked tag st'.tags ≤ unmarked tag st.tags
      pub grows : (v : ℕ) → Marked st v → Marked st' v
      pub kept :
          (v t : ℕ) → get_elem? st'.tags v ≡ some t → (t ≡ tag) ⊎ (get_elem? st.tags v ≡ some t)
      pub closed : (u v : ℕ) → Marked st' u → Edge g u v → Marked st u ⊎ Marked st' v
      pub sound : (v : ℕ) → Marked st' v → Marked st v ⊎ ((u : ℕ) × from u × Walk g (Clear st) u v)

    After-refl : (from : ℕ → Type 0) (st : Dfs) → Sized st → After from st st
    After-refl from st h = record {
      sized = h;
      falls = omega arith;
      grows = λ v m. m;
      kept = λ v t e. inr e;
      closed = λ u v m e. inl m;
      sound = λ v m. inl m;
    }

    After-trans :
        (from : ℕ → Type 0) (st st1 st2 : Dfs)
        → After from st st1
        → After from st1 st2
        → After from st st2
    After-trans from st st1 st2 a b = record {
      sized = b.sized;
      falls = omega (arith, a.falls, b.falls);
      grows = λ v m. b.grows v (a.grows v m);
      kept = λ v t e. elim (b.kept v t e) [ inl q ↦ inl q | inr q ↦ a.kept v t q ];
      closed = λ u v m e. elim (b.closed u v m e) [
        | inr q ↦ inr q
        | inl q ↦ elim (a.closed u v q e) [ inl r ↦ inl r | inr r ↦ inr (b.grows v r) ]
      ];
      sound = λ v m. elim (b.sound v m) [
        | inl q ↦ a.sound v q
        | inr (u, f, w) ↦ inr (u, f, Walk-map g (Clear st1) (Clear st) (λ x c k. c (a.grows x k)) w)
      ];
    }

    After-from :
        (from from' : ℕ → Type 0) (st st' : Dfs)
        → ((u : ℕ) → from u → from' u)
        → After from st st'
        → After from' st st'
    After-from from from' st st' f a = record {
      sized = a.sized;
      falls = a.falls;
      grows = a.grows;
      kept = a.kept;
      closed = a.closed;
      sound = λ v m. elim (a.sound v m) [ inl q ↦ inl q | inr (u, p, w) ↦ inr (u, f u p, w) ];
    }

    abbrev pub In : List ℕ → ℕ → Type 0
    In xs u = (i : ℕ) × (get_elem? xs i ≡ some u)

    -- A body that does its work on every state with fewer unmarked nodes than `fuel`.
    abbrev pub Works : (ℕ → Dfs → Option Dfs) → ℕ → Type 0
    Works f fuel =
        (node : ℕ) (st : Dfs)
        → Sized st
        → node < length g
        → unmarked tag st.tags < fuel
        → (st' : Dfs) × (f node st ≡ some st') × Marked st' node × After (λ u. u ≡ node) st st'

    each_lem :
        (f : ℕ → Dfs → Option Dfs) (fuel : ℕ)
        → Works f fuel
        → (xs : List ℕ) (st : Dfs) → Sized st
        → All (λ v. v < length g) xs
        → unmarked tag st.tags < fuel
        → (st' : Dfs) × (each f xs st ≡ some st')
          × ((v : ℕ) → In xs v → Marked st' v)
          × After (In xs) st st'
    unfolding each
    each_lem f fuel works [] st s h low = (st, refl, (λ v (i, q). cc), After-refl (In []) st s)
    each_lem f fuel works (x ∷ xs) st s (hx, h) low =
        let (st1, q1, m1, a1) = works x st s hx low in
        let (st2, q2, m2, a2) = each_lem f fuel works xs st1 a1.sized h (omega (arith, a1.falls)) in
        let first : After (In (x ∷ xs)) st st1 =
          After-from (λ u. u ≡ x) (In (x ∷ xs)) st st1 (λ u p. (0, ap some (sym p))) a1 in
        let rest : After (In (x ∷ xs)) st1 st2 =
          After-from (In xs) (In (x ∷ xs)) st1 st2 (λ u (i, p). (suc i, p)) a2 in
        (
          st2,
          rw (each, q1) q2,
          in_cons x xs st1 st2 m1 m2 a2,
          After-trans (In (x ∷ xs)) st st1 st2 first rest,
        )
      where
        in_cons :
            (x : ℕ) (xs : List ℕ) (st1 st2 : Dfs)
            → Marked st1 x
            → ((v : ℕ) → In xs v → Marked st2 v)
            → After (In xs) st1 st2
            → (v : ℕ) → In (x ∷ xs) v
            → Marked st2 v
        in_cons x xs st1 st2 m1 m2 a2 v (zero, p) =
            let q : x ≡ v = ground arith in subst (Marked st2) q (a2.grows x m1)
        in_cons x xs st1 st2 m1 m2 a2 v (suc i, p) = m2 v (i, p)

    module _ (node : ℕ) (st : Dfs) (s : Sized st) (hn : node < length g)
        (clear : Clear st node) where
      enter_at :
          (v : ℕ)
          → get_elem? (enter tag node st).tags v
            ≡ (if v == node then some tag else get_elem? st.tags v)
      enter_at v = get_elem?-set_at st.tags node v tag (omega arith)

      enter_grows : (v : ℕ) → Marked st v → Marked (enter tag node st) v
      enter_grows v m = enter_at v ∙ ground arith

      enter_cases :
          (v t : ℕ)
          → get_elem? (enter tag node st).tags v ≡ some t
          → ((v ≡ node) × (t ≡ tag)) ⊎ (get_elem? st.tags v ≡ some t)
      enter_cases v t e = elim (Bool-cases (v == node)) [
        | inl p ↦
            let q : some tag ≡ some t = rw p at (sym (enter_at v) ∙ e) in
            inl ((==_iff v node).0 p, ground arith)
        | inr p ↦ inr (rw p at (sym (enter_at v) ∙ e))
      ]

      entered :
          (outs : List ℕ) (st' : Dfs)
          → get_elem? g node ≡ some outs
          → ((v : ℕ) → In outs v → Marked st' v)
          → unmarked tag (enter tag node st).tags ≤ unmarked tag st.tags
          → After (In outs) (enter tag node st) st'
          → Marked st' node × After (λ u. u ≡ node) st st'
      entered outs st' q all less a =
          let at_node : Marked (enter tag node st) node = enter_at node ∙ ground arith in
          let back : (x : ℕ) → Clear (enter tag node st) x → Clear st x =
            λ x c k. c (enter_grows x k) in
          (
            a.grows node at_node,
            record {
              sized = a.sized;
              falls = omega (arith, a.falls);
              grows = λ v m. a.grows v (enter_grows v m);
              kept = λ v t e. elim (a.kept v t e) [
                | inl p ↦ inl p
                | inr p ↦ elim (enter_cases v t p) [ inl (_, r) ↦ inl r | inr r ↦ inr r ]
              ];
              closed = λ u v m (outs', p, i, r). elim (a.closed u v m (outs', p, i, r)) [
                | inr k ↦ inr k
                | inl k ↦ elim (enter_cases u tag k) [
                  | inr l ↦ inl l
                  | inl (l, _) ↦
                      let same : outs' ≡ outs = ground arith in
                      inr (all v (i, subst (λ os. get_elem? os i ≡ some v) same r))
                ]
              ];
              sound = λ v m. elim (a.sound v m) [
                | inl k ↦ elim (enter_cases v tag k) [
                  | inr l ↦ inl l
                  | inl (l, _) ↦
                      inr (node, refl, subst (Walk g (Clear st) node) (sym l) (here clear))
                ]
                | inr (u, (i, p), w) ↦ inr (
                  node,
                  refl,
                  step clear (outs, q, i, p)
                      (Walk-map g (Clear (enter tag node st)) (Clear st) back w),
                )
              ];
            },
          )

    pub dfs_lem : IsGraph g → (fuel : ℕ) → Works (dfs g tag fuel) fuel
    unfolding dfs
    dfs_lem graph zero node st s hn low = absurd (omega arith)
    dfs_lem graph (suc fuel) node st s hn low =
        let (t, qt) = found st.tags node (omega arith) in
        let (outs, qo) = found g node hn in
        elim (Bool-cases (t == tag)) [
          | inl e ↦
              let same : t ≡ tag = (==_iff t tag).0 e in
              (st, rw (dfs, qt, qo, e) refl, qt ∙ ap some same, After-refl (λ u. u ≡ node) st s)
          | inr e ↦
              let differs : t ≢ tag = λ p. grind arith in
              let clear : Clear st node = λ k. differs (ground arith) in
              let one_less = unmarked-set_at tag st.tags node t qt differs in
              let (st', q, all, a) =
                each_lem (dfs g tag fuel) fuel (dfs_lem graph fuel) outs (enter tag node st)
                  (length-set_at st.tags node tag ∙ s) (graph node outs qo) (omega arith) in
              let (m, after) = entered node st s hn clear outs st' qo all (omega arith) a in
              (st', rw (dfs, qt, qo, e) q, m, after)
        ]
