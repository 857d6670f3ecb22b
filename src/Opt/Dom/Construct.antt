-- ===== src/Opt/Dom/Construct.antt =====
-- The fathers that `construct_dom_tree` of src/ir/opt/dom.cpp finds, against dominance.
use helesta.Prelude.{
  All, found, in_range, ℕ, zero, suc, ◌<◌, ◌≡◌, ◌⊎◌, ◌↔◌, inl, inr, refl, sym, ap, subst, ◌∙◌, true,
  Option, none, some, List, [], ◌∷◌, ◌++◌, ◌==◌, ==_iff, length, get_elem?, Bool-cases, arith,
}
use mathlib.Core.List.{append_assoc, append-nil}
use helesta.Opt.Dom.{Graph, Dfs, set_fathers, fathers, zeros, assert_that, construct}
use helesta.Opt.Dom.Graph.{unmarked_le, Safe, Fresh, IsGraph, Edge, Walk, here, step, Walk-map}
use helesta.Opt.Dom.Search.{Marked, Clear, Sized, After, In, dfs_lem}
use helesta.Opt.Dom.Numbering.{Numbered, dfs-Numbered, dfs_front}
use helesta.Opt.Dom.Fathers.{Around, around_lem}

All-append : (P : ℕ → Type 0) (xs : List ℕ) (y : ℕ) → All P xs → P y → All P (xs ++ (y ∷ []))
All-append P [] y h p = (p, tt)
All-append P (x ∷ xs) y (q, h) p = (q, All-append P xs y h p)

All-get : (P : ℕ → Type 0) (xs : List ℕ) → ((i v : ℕ) → get_elem? xs i ≡ some v → P v) → All P xs
All-get P [] f = tt
All-get P (x ∷ xs) f = (f 0 x refl, All-get P xs (λ i v. f (suc i) v))

module _ (g : Graph) (entry : ℕ) where
  -- The father that the nodes `done` give to `v`: the last of them around which `v` is out of reach.
  abbrev pub FatherOf : List ℕ → ℕ → Option ℕ → Type 0
  FatherOf done v none = All (λ d. Safe g entry d v) done
  FatherOf done v (some d) =
      (pre : List ℕ) × (post : List ℕ) × (done ≡ pre ++ d ∷ post)
      × (¬ Safe g entry d v)
      × All (λ x. Safe g entry x v) post

  -- `dfn` lists, once each, the nodes that can be reached.
  abbrev pub Numbering : List ℕ → Type 0
  Numbering dfn =
      ((v : ℕ) → In g 1 dfn v ↔ Walk g (λ _. Unit {0}) entry v)
      × ((i j v : ℕ) → get_elem? dfn i ≡ some v → get_elem? dfn j ≡ some v → i ≡ j)

module _ (g : Graph) (graph : IsGraph g) (entry : ℕ) (he : entry < length g) where
  father_kept :
      (done : List ℕ) (v node : ℕ) (o : Option ℕ)
      → FatherOf g entry done v o
      → Safe g entry node v
      → FatherOf g entry (done ++ (node ∷ [])) v o
  father_kept done v node none h s = All-append (λ d. Safe g entry d v) done node h s
  father_kept done v node (some d) (pre, post, e, n, h) s = (
    pre,
    post ++ (node ∷ []),
    ap (λ l. l ++ (node ∷ [])) e ∙ append_assoc pre (d ∷ post) (node ∷ []),
    n,
    All-append (λ x. Safe g entry x v) post node h s,
  )

  father_step :
      (done : List ℕ) (v node next : ℕ) (st' : Dfs) (fa : ℕ → Option ℕ)
      → Around g graph entry he next node st'
      → v < length g
      → FatherOf g entry done v (fa v)
      → FatherOf g entry (done ++ (node ∷ [])) v (set_fathers next node st'.tags fa v)
  unfolding set_fathers
  father_step done v node next st' fa a hv h =
      let (t, q) = found st'.tags v (omega (arith, a.sized)) in
      elim (Bool-cases (t == next)) [
        | inl k ↦
            let m : Marked g next st' v = q ∙ ap some ((==_iff t next).0 k) in
            let same : set_fathers next node st'.tags fa v ≡ fa v = rw (set_fathers, q, k) refl in
            subst (FatherOf g entry (done ++ (node ∷ [])) v) (sym same)
              (father_kept done v node (fa v) h ((a.marks v).0 m))
        | inr k ↦
            let out : ¬ Safe g entry node v = λ s. grind (arith, (a.marks v).1 s) in
            let same : set_fathers next node st'.tags fa v ≡ some node =
              rw (set_fathers, q, k) refl in
            subst (FatherOf g entry (done ++ (node ∷ [])) v) (sym same) (done, [], refl, out, tt)
      ]

  fathers_lem :
      (tag : ℕ) (done nodes : List ℕ) (st : Dfs) (fa : ℕ → Option ℕ)
      → Sized g tag st
      → Fresh (suc tag) st.tags
      → All (λ v. v < length g) nodes
      → ((v : ℕ) → v < length g → FatherOf g entry done v (fa v))
      → (fa' : ℕ → Option ℕ) × (fathers g entry tag nodes st fa ≡ some fa')
        × ((v : ℕ) → v < length g → FatherOf g entry (done ++ nodes) v (fa' v))
  unfolding fathers
  fathers_lem tag done [] st fa s fresh h fs =
      (fa, refl, λ v hv. subst (λ l. FatherOf g entry l v (fa v)) (sym (append-nil done)) (fs v hv))
  fathers_lem tag done (node ∷ nodes) st fa s fresh (hn, h) fs =
      let (st', q, a) = around_lem g graph entry he (suc tag) node st s fresh hn in
      let (fa', q', fs') =
        fathers_lem (suc tag) (done ++ (node ∷ [])) nodes st'
          (set_fathers (suc tag) node st'.tags fa) a.sized a.fresh h
          (λ v hv. father_step done v node (suc tag) st' fa a hv (fs v hv)) in
      (
        fa',
        rw (fathers, q) q',
        λ v hv.
            subst (λ l. FatherOf g entry l v (fa' v)) (append_assoc done (node ∷ []) nodes)
              (fs' v hv),
      )

  zeros_lem : (xs : List (List ℕ)) (v t : ℕ) → get_elem? (zeros xs) v ≡ some t → t ≡ 0
  zeros_lem [] v t e = cc
  zeros_lem (x ∷ xs) zero t e = ground arith
  zeros_lem (x ∷ xs) (suc v) t e = zeros_lem xs v t e

  length-zeros : (xs : List (List ℕ)) → length (zeros xs) ≡ length xs
  length-zeros [] = refl
  length-zeros (x ∷ xs) = ap suc (length-zeros xs)

  -- In a graph whose edges lead to its nodes and whose entry is one of them, the search ends: `dfn` lists
  -- the nodes that can be reached from the entry, each once, and the father of a node is the last in `dfn`
  -- of the other nodes without which it is out of reach, or missing where no node of `dfn` is such.
  pub construct_lem :
      (dfn : List ℕ) × (fa : ℕ → Option ℕ) × (construct g entry ≡ some (dfn, fa))
      × Numbering g entry dfn
      × ((v : ℕ) → v < length g → FatherOf g entry dfn v (fa v))
  unfolding construct assert_that
  construct_lem =
      let st0 : Dfs = record { tags = zeros g; dfn = [] } in
      let low = unmarked_le 1 st0.tags in
      let size : Sized g 1 st0 = length-zeros g in
      let (st, q, m, a) = dfs_lem g 1 graph (suc (length g)) entry st0 size he (omega arith) in
      let numbered : Numbered g st = dfs-Numbered g (suc (length g)) entry st0 st q none_numbered in
      let (t, qt) = found st0.tags entry (omega (arith, length-zeros g)) in
      let front =
        dfs_front g (length g) entry t st0 st q qt (λ k. omega (arith, zeros_lem g entry t qt))
          refl in
      let same : (entry == entry) ≡ true = (==_iff entry entry).1 refl in
      let marks = reached st m a in
      let (fa, q', fs) =
        fathers_lem 1 [] st.dfn st (λ _. none) a.sized
          (λ v t e. elim (a.kept v t e) [
            | inl p ↦ omega arith
            | inr p ↦ omega (arith, zeros_lem g v t p)
          ])
          (All-get (λ v. v < length g) st.dfn
            (λ i v e. omega (arith, in_range st.tags v 1 (numbered.listed i v e))))
          (λ v hv. tt) in
      (
        st.dfn,
        fa,
        rw (construct, q, front, same, q') refl,
        (
          λ v. (
            (λ (i, e). (marks v).0 (numbered.listed i v e)),
            (λ w. numbered.all v ((marks v).1 w)),
          ),
          numbered.once,
        ),
        fs,
      )
    where
      none_numbered : Numbered g (record { tags = zeros g; dfn = [] })
      none_numbered = record {
        listed = λ i v e. cc;
        all = λ v e. absurd (omega (arith, zeros_lem g v 1 e));
        once = λ i j v e f. cc;
      }

      walked :
          (st : Dfs)
          → ((u v : ℕ)
              → Marked g 1 st u
              → Edge g u v
              → Marked g 1 (record { tags = zeros g; dfn = [] }) u ⊎ Marked g 1 st v)
          → {u v : ℕ} → Marked g 1 st u
          → Walk g (λ _. Unit {0}) u v
          → Marked g 1 st v
      walked st closed m (here p) = m
      walked st closed m (step p e w) = elim (closed _ _ m e) [
        | inl k ↦ absurd (omega (arith, zeros_lem g _ 1 k))
        | inr k ↦ walked st closed k w
      ]

      reached :
          (st : Dfs)
          → Marked g 1 st entry
          → After g 1 (λ u. u ≡ entry) (record { tags = zeros g; dfn = [] }) st
          → (v : ℕ) → Marked g 1 st v ↔ Walk g (λ _. Unit {0}) entry v
      reached st m a v = (
        λ k. elim (a.sound v k) [
          | inl p ↦ absurd (omega (arith, zeros_lem g v 1 p))
          | inr (u, p, w) ↦
              subst (λ z. Walk g (λ _. Unit {0}) z v) p
                (Walk-map g (Clear g 1 (record { tags = zeros g; dfn = [] })) (λ _. Unit {0})
                  (λ x c. tt) w)
        ],
        λ w. walked st a.closed m w,
      )
