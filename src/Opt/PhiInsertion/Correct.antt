-- ===== src/Opt/PhiInsertion/Correct.antt =====
-- The blocks that `phi_insertion` of src/ir/opt/ssa_constrcution.cpp finds, against the iterated frontier.
use helesta.Prelude.{
  ℕ, zero, suc, ◌+◌, ◌<◌, ◌≡◌, ◌⊎◌, ◌↔◌, inl, inr, refl, sym, ap, subst, ◌∙◌, Bool, true, some,
  List, [], ◌∷◌, All, All-at, length, get_elem?, found, arith,
}
use helesta.Opt.Dom.Graph.{IsGraph, Edge}
use helesta.Opt.PhiInsertion.{Queue, drain, absent, phi_insertion}
use helesta.Opt.PhiInsertion.Visit.{In, Once, Has, count, After, visit_lem}

module _ (g : List (List ℕ)) (defs : List ℕ) where
  -- In the frontier of a definition, or of a block that is so.
  pub data Iterated : ℕ → Type 0 where
    first : (u v : ℕ) → In defs u → Edge g u v → Iterated v
    more : (u v : ℕ) → Iterated u → Edge g u v → Iterated v

  record Going (s : Queue) : Type 0 where
    sized : length s.f ≡ length g
    range : (v : ℕ) → In s.w v → v < length g
    sources : (v : ℕ) → In s.w v → In defs v ⊎ Iterated v
    sound : (v : ℕ) → Has s v → Iterated v
    closed : (u : ℕ) → In defs u ⊎ Has s u → In s.w u ⊎ ((v : ℕ) → Edge g u v → Has s v)
    placed : (v : ℕ) → In s.phis v → Has s v
    listed : (v : ℕ) → Has s v → In s.phis v
    once : Once s.phis

  module _ (graph : IsGraph g) where
    module _ (n : ℕ) (w : List ℕ) (f : List Bool) (phis outs : List ℕ) (t : Queue)
        (q : get_elem? g n ≡ some outs) where
      abbrev before : Queue
      before = record { w = n ∷ w; f = f; phis = phis }

      abbrev popped : Queue
      popped = record { w = w; f = f; phis = phis }

      module _ (i : Going before) (all : (v : ℕ) → In outs v → Has t v)
          (a : After defs (In outs) popped t) where
        from_n : (v : ℕ) → In outs v → Iterated v
        from_n v (k, e) = elim (i.sources n (0, refl)) [
          | inl d ↦ first n v d (outs, q, k, e)
          | inr r ↦ more n v r (outs, q, k, e)
        ]

        edge_marked : (v : ℕ) → Edge g n v → Has t v
        edge_marked v (outs', p, k, e) =
            let same : outs' ≡ outs = ground arith in
            all v (k, subst (λ os. get_elem? os k ≡ some v) same e)

        still_closed :
            (u : ℕ) → In defs u ⊎ Has popped u → In t.w u ⊎ ((v : ℕ) → Edge g u v → Has t v)
        still_closed u h = elim (i.closed u h) [
          | inr c ↦ inr (λ v e. a.grows v (c v e))
          | inl (k, e) ↦ at k e
        ]
          where
            at :
                (k : ℕ) → get_elem? (n ∷ w) k ≡ some u → In t.w u ⊎ ((v : ℕ) → Edge g u v → Has t v)
            at zero e =
                let same : n ≡ u = ground arith in
                inr (λ v d. edge_marked v (subst (λ z. Edge g z v) (sym same) d))
            at (suc k) e = inl (a.waits u (k, e))

        still_Going : Going t
        still_Going = record {
          sized = a.sized ∙ i.sized;
          range = λ v h. elim (a.queued v h) [
            | inl (k, e) ↦ i.range v (suc k, e)
            | inr ((k, e), _) ↦ All-at (λ x. x < length g) outs k v (graph n outs q) e
          ];
          sources = λ v h. elim (a.queued v h) [
            | inl (k, e) ↦ i.sources v (suc k, e)
            | inr (k, _) ↦ inr (from_n v k)
          ];
          sound = λ v h. elim (a.fresh v h) [ inl k ↦ i.sound v k | inr (k, _) ↦ from_n v k ];
          closed = λ u h. elim h [
            | inl d ↦ still_closed u (inl d)
            | inr k ↦ elim (a.fresh u k) [
              | inl l ↦ still_closed u (inr l)
              | inr (_, l) ↦ elim l [ inl d ↦ still_closed u (inl d) | inr x ↦ inl x ]
            ]
          ];
          placed = a.placed i.placed;
          listed = a.listed i.listed;
          once = a.once i.placed i.once;
        }

    drain_lem :
        (fuel : ℕ) (w : List ℕ) (f : List Bool) (phis : List ℕ)
        → Going (record { w = w; f = f; phis = phis })
        → length w + count f < fuel
        → (t : Queue) × (drain g defs fuel (record { w = w; f = f; phis = phis }) ≡ some t)
          × Going t
          × (t.w ≡ [])
    unfolding drain
    drain_lem zero w f phis i low = absurd (omega arith)
    drain_lem (suc fuel) [] f phis i low = (record { w = []; f = f; phis = phis }, refl, i, refl)
    drain_lem (suc fuel) (n ∷ w) f phis i low =
        let (outs, q) = found g n (i.range n (0, refl)) in
        let s0 : Queue = record { w = w; f = f; phis = phis } in
        let (t, e, all, a) =
          visit_lem defs outs s0
            (subst (λ k. All (λ v. v < k) outs) (sym i.sized) (graph n outs q)) in
        let (u, e', i', done) =
          drain_lem fuel t.w t.f t.phis (still_Going n w f phis outs t q i all a)
            (omega (arith, a.falls)) in
        (u, rw (drain, q, e) e', i', done)

    length-absent : (xs : List (List ℕ)) → length (absent xs) ≡ length xs
    length-absent [] = refl
    length-absent (x ∷ xs) = ap suc (length-absent xs)

    count-absent : (xs : List (List ℕ)) → count (absent xs) ≡ length xs
    count-absent [] = refl
    count-absent (x ∷ xs) = omega (arith, count-absent xs)

    none_absent : (xs : List (List ℕ)) (v : ℕ) → get_elem? (absent xs) v ≡ some true → ⊥
    none_absent [] v e = cc
    none_absent (x ∷ xs) zero e = cc
    none_absent (x ∷ xs) (suc v) e = none_absent xs v e

    -- Where the frontiers and the definitions are blocks of the tree, the search ends, and the blocks that
    -- get a phi function are those in the frontier of a definition or of a block that gets one, each once.
    pub phi_insertion_lem :
        ((v : ℕ) → In defs v → v < length g)
        → (phis : List ℕ) × (phi_insertion g defs ≡ some phis)
          × ((v : ℕ) → In phis v ↔ Iterated v)
          × Once phis
    unfolding phi_insertion
    phi_insertion_lem range =
        let none_of = none_absent g in
        let start : Going (record { w = defs; f = absent g; phis = [] }) = record {
          sized = length-absent g;
          range = range;
          sources = λ v h. inl h;
          sound = λ v h. absurd (none_of v h);
          closed = λ u h. elim h [ inl d ↦ inl d | inr k ↦ absurd (none_of u k) ];
          placed = λ v (i, e). cc;
          listed = λ v h. absurd (none_of v h);
          once = λ i j v e e'. cc;
        } in
        let (t, e, i, done) =
          drain_lem (suc (length defs + length g)) defs (absent g) [] start
            (omega (arith, count-absent g)) in
        (
          t.phis,
          rw e refl,
          (λ v. ((λ h. i.sound v (i.placed v h)), (λ h. i.listed v (marked t i done v h)))),
          i.once,
        )
      where
        open_edges :
            (t : Queue)
            → Going t
            → t.w ≡ []
            → (u : ℕ) → In defs u ⊎ Has t u
            → (v : ℕ) → Edge g u v
            → Has t v
        open_edges t i done u h v e = elim (i.closed u h) [
          | inl k ↦ let (j, p) : In [] u = subst (λ l. In l u) done k in cc
          | inr c ↦ c v e
        ]

        marked : (t : Queue) → Going t → t.w ≡ [] → (v : ℕ) → Iterated v → Has t v
        marked t i done v (first u _ d e) = open_edges t i done u (inl d) v e
        marked t i done v (more u _ r e) = open_edges t i done u (inr (marked t i done u r)) v e
