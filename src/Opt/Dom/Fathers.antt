-- ===== src/Opt/Dom/Fathers.antt =====
-- The fathers that src/ir/opt/dom.cpp finds, against dominance: a node dominates another when every walk
-- from the entry to the other goes through it.
use helesta.Prelude.{
  get_elem?-set_at, length-set_at, set_at, ℕ, suc, ◌<◌, ◌≡◌, ◌≢◌, ◌⊎◌, ◌↔◌, inl, inr, sym, subst,
  ◌∙◌, some, ◌==◌, ==_iff, length, get_elem?, if◌then◌else◌, Bool-cases, arith,
}
use helesta.Opt.Dom.{Graph, Dfs, search}
use helesta.Opt.Dom.Graph.{unmarked_le, Safe, Fresh, IsGraph, Edge, Walk, here, step, Walk-map}
use helesta.Opt.Dom.Search.{Marked, Clear, Sized, After, dfs_lem}

module _ (g : Graph) (graph : IsGraph g) (entry : ℕ) (he : entry < length g) where
  -- The search with a new tag around a node.
  pub record Around (tag node : ℕ) (st' : Dfs) : Type 0 where
    pub sized : Sized g tag st'
    pub fresh : Fresh (suc tag) st'.tags
    pub marks : (v : ℕ) → Marked g tag st' v ↔ Safe g entry node v

  module _ (tag node : ℕ) (st : Dfs) (s : Sized g tag st) (fresh : Fresh tag st.tags)
      (hn : node < length g) where
    abbrev start : Dfs
    start = record st { tags = set_at st.tags node tag }

    start_at :
        (v : ℕ) → get_elem? start.tags v ≡ (if v == node then some tag else get_elem? st.tags v)
    start_at v = get_elem?-set_at st.tags node v tag (omega arith)

    start_cases : (v t : ℕ) → get_elem? start.tags v ≡ some t → ((v ≡ node) × (t ≡ tag)) ⊎ (t < tag)
    start_cases v t e = elim (Bool-cases (v == node)) [
      | inl p ↦
          let q : some tag ≡ some t = rw p at (sym (start_at v) ∙ e) in
          inl ((==_iff v node).0 p, ground arith)
      | inr p ↦ inr (fresh v t (rw p at (sym (start_at v) ∙ e)))
    ]

    start_only : (v : ℕ) → Marked g tag start v → v ≡ node
    start_only v m = elim (start_cases v tag m) [ inl (p, _) ↦ p | inr p ↦ absurd (omega arith) ]

    start_self : Marked g tag start node
    start_self = start_at node ∙ ground arith

    walk-Marked :
        (st' : Dfs)
        → ((u v : ℕ) → Marked g tag st' u → Edge g u v → Marked g tag start u ⊎ Marked g tag st' v)
        → {u v : ℕ} → Marked g tag st' u
        → Walk g (λ x. x ≢ node) u v
        → Marked g tag st' v
    walk-Marked st' closed m (here p) = m
    walk-Marked st' closed m (step p e w) = elim (closed _ _ m e) [
      | inl k ↦ absurd (p (start_only _ k))
      | inr k ↦ walk-Marked st' closed k w
    ]

    pub around_lem : (st' : Dfs) × (search g tag entry start ≡ some st') × Around tag node st'
    around_lem =
        let low = unmarked_le tag start.tags in
        let size : Sized g tag start = length-set_at st.tags node tag ∙ s in
        let (st', q, m, a) =
          dfs_lem g tag graph (suc (length g)) entry start size he (omega arith) in
        (
          st',
          q,
          record {
            sized = a.sized;
            fresh = λ v t e. elim (a.kept v t e) [
              | inl p ↦ omega arith
              | inr p ↦ elim (start_cases v t p) [ inl (_, r) ↦ omega arith | inr r ↦ omega arith ]
            ];
            marks = λ v. (marked_safe st' a v, safe_marked st' m a v);
          },
        )
      where
        marked_safe :
            (st' : Dfs)
            → After g tag (λ u. u ≡ entry) start st'
            → (v : ℕ) → Marked g tag st' v
            → Safe g entry node v
        marked_safe st' a v k = elim (a.sound v k) [
          | inl p ↦ inl (start_only v p)
          | inr (u, p, w) ↦
              let clear : (x : ℕ) → Clear g tag start x → x ≢ node =
                λ x c r. c (subst (Marked g tag start) (sym r) start_self) in
              inr (
                subst (λ z. Walk g (λ x. x ≢ node) z v) p
                  (Walk-map g (Clear g tag start) (λ x. x ≢ node) clear w))
        ]

        safe_marked :
            (st' : Dfs)
            → Marked g tag st' entry
            → After g tag (λ u. u ≡ entry) start st'
            → (v : ℕ) → Safe g entry node v
            → Marked g tag st' v
        safe_marked st' m a v (inl p) = subst (Marked g tag st') (sym p) (a.grows node start_self)
        safe_marked st' m a v (inr w) = walk-Marked st' a.closed m w
