-- ===== src/Arm/Coloring/Spill.antt =====
-- `choose_spill` and the loop of `run` over the nodes to spill, of src/arm/simple_coloring_alloc.hpp.
use helesta.Prelude.{
  ℕ, zero, suc, ◌<◌, ◌≤◌, ◌≡◌, ◌≢◌, ◌⊎◌, inl, inr, refl, sym, ap, subst, ◌∙◌, Bool, true, false,
  not, ◌&&◌, Option, none, some, List, [], ◌∷◌, ◌++◌, length, Bool-cases, Option-cases, arith,
}
use helesta.Arm.Coloring.{
  RegConvention, Graph, History, Colors, Allocation, most, erase, remove, simplify, choose_spill,
  spill_all,
}
use helesta.Arm.Coloring.Sets.{In, NoDup, In-append, NoDup-append, In-erase, length-erase_lt}
use helesta.Arm.Coloring.Simplify.{Queued, Fews, Waits, gone, gone-remain, gone-Queued, remove_at}
use helesta.Arm.Coloring.Order.{Order-remain, simplify_lem}
use helesta.Arm.Coloring.Most.{Picks, most-Picks}

module _ (spilling : ℕ → Bool) where
  -- Nodes for `spill`: different ones that may be spilled, at least one.
  pub record IsSpill (Q : ℕ → Type 0) (ns : List ℕ) : Type 0 where
    pub once : NoDup ns
    pub some_node : (u : ℕ) × In u ns
    pub may : (u : ℕ) → In u ns → Q u × (spilling u ≡ false)

  -- What is left where `choose_spill` finds no node.
  pub record IsStuck (Q : ℕ → Type 0) (left : List ℕ) : Type 0 where
    pub some_node : (u : ℕ) × In u left
    pub all : (u : ℕ) → In u left → Q u × (spilling u ≡ true)

  abbrev pub Ends : (Colors → Type 0) → (ℕ → Type 0) → Allocation → Type 0
  Ends C Q (Allocation.colored s) = C s
  Ends C Q (Allocation.spilled ns) = IsSpill Q ns
  Ends C Q (Allocation.stuck left) = IsStuck Q left

  pub Ends-map :
      (C D : Colors → Type 0) (Q : ℕ → Type 0)
      → ((s : Colors) → C s → D s)
      → (r : Allocation) → Ends C Q r
      → Ends D Q r
  Ends-map C D Q f (Allocation.colored s) h = f s h
  Ends-map C D Q f (Allocation.spilled ns) h = h
  Ends-map C D Q f (Allocation.stuck left) h = h

abbrev pub emptied : (ℕ → List ℕ) → List ℕ → Graph
emptied edges remain = record { edges = edges; queue = []; remain = remain }

module _ (conv : RegConvention) (occur : ℕ → Bool) (spilling constant : ℕ → Bool) where
  -- A node that may be spilled: one whose register is in `spilling_reg` may not.
  abbrev pub Candidate : Graph → ℕ → Type 0
  Candidate g u = In u g.remain × (spilling u ≡ false)

  -- What `choose_spill` gives.
  abbrev pub Chooses : Graph → Option ℕ → Type 0
  Chooses g (some n) =
      Candidate g n
      × ((u : ℕ)
          → Candidate g u
          → (constant u ≡ true → constant n ≡ true)
            × (constant u ≡ constant n → length (g.edges u) ≤ length (g.edges n)))
  Chooses g none = (u : ℕ) → ¬ Candidate g u

  -- `choose_spill` gives one of the nodes left that is not in `spilling_reg`: one that holds a constant or the address
  -- of a symbol if there is such a node, and among the nodes that agree with it in this one with the most edges. It
  -- finds none only where every node left is in `spilling_reg`.
  pub choose_spill_lem : (g : Graph) → Chooses g (choose_spill conv spilling constant g)
  unfolding choose_spill
  choose_spill_lem g =
      case (most (λ i. not (spilling i) && constant i) g.edges g.remain none)
        (most-Picks (λ i. not (spilling i) && constant i) g.edges g.remain)
    where
      all_of :
          (r : Option ℕ)
          → Picks (λ i. not (spilling i)) g.edges g.remain r
          → ((u : ℕ) → In u g.remain → (not (spilling u) && constant u) ≡ false)
          → Chooses g r
      all_of none h fails = λ u (i, s). let t = h u i in ground arith
      all_of (some n) (i, s, m) fails = (
        (i, ground arith),
        λ u (j, t).
            let a = fails u j in
            let b = m u j (ground arith) in ((λ c. absurd (ground arith)), (λ e. b)),
      )

      case :
          (r : Option ℕ)
          → Picks (λ i. not (spilling i) && constant i) g.edges g.remain r
          → Chooses g (elim r [
            | some i ↦ some i
            | none ↦ most (λ i. not (spilling i)) g.edges g.remain none
          ])
      case none h =
          all_of (most (λ i. not (spilling i)) g.edges g.remain none)
            (most-Picks (λ i. not (spilling i)) g.edges g.remain) h
      case (some n) (i, s, m) = (
        (i, ground arith),
        λ u (j, t).
            let own : constant n ≡ true = ground arith in
            ((λ c. own), (λ e. let c = e ∙ own in m u j (ground arith))),
      )

  -- A node that leaves the graph once the queue is empty, and the simplification that follows.
  round :
      (edges : ℕ → List ℕ) (remain : List ℕ) (h : History) (n : ℕ)
      → 0 < conv.allocable_register_count
      → Queued conv occur (emptied edges remain)
      → In n remain
      → (d : Graph) × (edges' : ℕ → List ℕ) × (remain' : List ℕ) × (h' : History) × (remove conv n
            (emptied edges remain)
          ≡ some d)
        × (simplify conv (suc (length d.remain)) d h ≡ some (emptied edges' remain', h'))
        × Queued conv occur (emptied edges' remain')
        × (length remain' < length remain)
        × ((u : ℕ) → In u remain' → In u remain × (u ≢ n))
  round edges remain h n positive q here =
      let few : Fews conv occur edges remain [] = λ u i. absurd i in
      let waits : Waits conv occur edges remain n [] = λ u ne i l. q.waits u i l in
      let d : Graph = gone conv occur n [] edges remain in
      let r1 =
        gone-remain conv occur n [] edges remain q.graph tt (λ i. i) here few waits positive in
      let (g', more, run, order, q', done) =
        simplify_lem conv occur (suc (length d.remain)) d.edges d.queue d.remain h
          (gone-Queued conv occur n [] edges remain q.graph tt (λ i. i) here few waits positive)
          (omega arith) in
      let (len, sub) = Order-remain conv occur d.edges d.remain more g'.edges g'.remain order in
      let size : length d.remain ≡ length (erase n remain) = ap length r1 in
      let less = length-erase_lt n remain here in
      let with_queue : List ℕ → Graph =
        λ l. record { edges = g'.edges; queue = l; remain = g'.remain } in
      let same : g' ≡ emptied g'.edges g'.remain = ap with_queue done in
      (
        d,
        g'.edges,
        g'.remain,
        h ++ more,
        remove_at conv occur n [] edges remain q.graph tt (λ i. i) here few waits positive,
        run ∙ ap (λ g. some (g, h ++ more)) same,
        subst (Queued conv occur) same q',
        omega arith,
        λ u i. In-erase n u remain (subst (In u) r1 (sub u i)),
      )

  -- The loop ends, with nodes to spill or where `choose_spill` finds none.
  pub spill_all_lem :
      (C : Colors → Type 0) (Q : ℕ → Type 0) (fuel : ℕ) (edges : ℕ → List ℕ) (remain : List ℕ)
      (h : History) (ns : List ℕ)
      → 0 < conv.allocable_register_count
      → Queued conv occur (emptied edges remain)
      → length remain < fuel
      → ((u : ℕ) → In u remain → Q u × (¬ In u ns))
      → NoDup ns
      → ((u : ℕ) × (In u ns ⊎ In u remain))
      → ((u : ℕ) → In u ns → Q u × (spilling u ≡ false))
      → (r : Allocation) × (spill_all conv spilling constant fuel (emptied edges remain) h ns
          ≡ some r)
        × Ends spilling C Q r
  unfolding spill_all
  spill_all_lem C Q zero edges remain h ns positive q low known once some_node may =
      absurd (omega arith)
  spill_all_lem C Q (suc fuel) edges [] h ns positive q low known once (u, i) may = (
    Allocation.spilled ns,
    refl,
    record { once = once; some_node = (u, elim i [ inl j ↦ j | inr j ↦ absurd j ]); may = may },
  )
  spill_all_lem C Q (suc fuel) edges (x ∷ xs) h ns positive q low known once some_node may =
      elim (Option-cases (choose_spill conv spilling constant (emptied edges (x ∷ xs)))) [
        | inl e ↦
            let every : Chooses (emptied edges (x ∷ xs)) none =
              subst (Chooses (emptied edges (x ∷ xs))) e
                (choose_spill_lem (emptied edges (x ∷ xs))) in
            (
              Allocation.stuck (x ∷ xs),
              rw e refl,
              record {
                some_node = (x, inl refl);
                all = λ u i. (
                  (known u i).0,
                  elim (Bool-cases (spilling u)) [ inl s ↦ s | inr s ↦ absurd (every u (i, s)) ],
                );
              },
            )
        | inr (n, e) ↦
            let ((here, pick), _) : Chooses (emptied edges (x ∷ xs)) (some n) =
              subst (Chooses (emptied edges (x ∷ xs))) e
                (choose_spill_lem (emptied edges (x ∷ xs))) in
            let (d, edges', remain', h', rem, run, q', less, sub) =
              round edges (x ∷ xs) h n positive q here in
            let (k, out) = known n here in
            let (r, f, ends) =
              spill_all_lem C Q fuel edges' remain' h' (ns ++ (n ∷ [])) positive q' (omega arith)
                (λ u i.
                  let (a, ne) = sub u i in
                  let (b, o) = known u a in
                  (b, λ j. elim ((In-append ns n u).0 j) [ inl m ↦ o m | inr m ↦ ne m ]))
                (NoDup-append ns n once out) (n, inl ((In-append ns n n).1 (inr refl)))
                (λ u i. elim ((In-append ns n u).0 i) [
                  | inl m ↦ may u m
                  | inr m ↦ subst (λ z. Q z × (spilling z ≡ false)) (sym m) (k, pick)
                ]) in
            (r, rw (e, rem, run) f, ends)
      ]
