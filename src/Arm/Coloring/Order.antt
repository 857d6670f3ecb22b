-- ===== src/Arm/Coloring/Order.antt =====
-- The loop `simplify` of src/arm/simple_coloring_alloc.hpp: the order in which the nodes leave the graph.
use helesta.Prelude.{
  ℕ, zero, suc, ◌<◌, ◌≤◌, ◌≡◌, inl, inr, refl, sym, ap, subst, ◌∙◌, Bool, some, List, [], ◌∷◌, ◌++◌,
  ◌==◌, length, Bool-cases, arith,
}
use mathlib.Core.List.{append_assoc, append-nil}
use helesta.Arm.Coloring.{RegConvention, Graph, History, erase, simplify}
use helesta.Arm.Coloring.Sets.{In, In-erase, length-erase_lt, length-erase_le}
use helesta.Arm.Coloring.Remove.{cut}
use helesta.Arm.Coloring.Simplify.{
  Queued, Fews, Waits, gone, gone-edges, gone-remain, gone-Queued, remove_at,
}

module _ (conv : RegConvention) (occur : ℕ → Bool) where
  -- The order in which nodes with few neighbours leave the graph, with their neighbours at that time.
  abbrev pub Order : (ℕ → List ℕ) → List ℕ → History → (ℕ → List ℕ) → List ℕ → Type 0
  Order edges remain [] edges' remain' = (edges ≡ edges') × (remain ≡ remain')
  Order edges remain ((n, vs) ∷ h) edges' remain' =
      (edges n ≡ vs)
      × (length vs < conv.allocable_register_count)
      × In n remain
      × Order (cut edges n) (erase n remain) h edges' remain'

  -- The loop ends where no node with few neighbours is left, and pushes an order of the nodes it removes.
  pub simplify_lem :
      (fuel : ℕ) (edges : ℕ → List ℕ) (queue remain : List ℕ) (h : History)
      → Queued conv occur (record { edges = edges; queue = queue; remain = remain })
      → length remain < fuel
      → (g : Graph) × (more : History) × (simplify conv fuel
            (record { edges = edges; queue = queue; remain = remain })
            h
          ≡ some (g, h ++ more))
        × Order edges remain more g.edges g.remain
        × Queued conv occur g
        × (g.queue ≡ [])
  unfolding simplify
  simplify_lem zero edges queue remain h q low = absurd (omega arith)
  simplify_lem (suc fuel) edges [] remain h q low = (
    record { edges = edges; queue = []; remain = remain },
    [],
    ap (λ l. some (_, l)) (sym (append-nil h)),
    (refl, refl),
    q,
    refl,
  )
  simplify_lem (suc fuel) edges (n ∷ ns) remain h q low =
      let (here, few) = q.few n (inl refl) in
      let fews : Fews conv occur edges remain ns = λ u j. q.few u (inr j) in
      let waits : Waits conv occur edges remain n ns =
        λ u ne i l. elim (q.waits u i l) [ inl e ↦ absurd (ne e) | inr j ↦ j ] in
      let positive : 0 < conv.allocable_register_count = omega arith in
      let g1 : Graph = gone conv occur n ns edges remain in
      let e1 =
        gone-edges conv occur n ns edges remain q.graph q.once.1 q.once.0 here fews waits
          positive in
      let r1 =
        gone-remain conv occur n ns edges remain q.graph q.once.1 q.once.0 here fews waits
          positive in
      let less : length g1.remain < length remain =
        subst (λ l. length l < length remain) (sym r1) (length-erase_lt n remain here) in
      let (g, more, run, order, q', done) =
        simplify_lem fuel g1.edges g1.queue g1.remain (h ++ ((n, edges n) ∷ []))
          (gone-Queued conv occur n ns edges remain q.graph q.once.1 q.once.0 here fews waits
            positive)
          (omega arith) in
      (
        g,
        (n, edges n) ∷ more,
        rw
            (
              simplify,
              remove_at conv occur n ns edges remain q.graph q.once.1 q.once.0 here fews waits
                  positive,
            )
            (run ∙ ap (λ l. some (g, l)) (append_assoc h ((n, edges n) ∷ []) more)),
        (
          refl,
          few,
          here,
          subst (λ e. Order e (erase n remain) more g.edges g.remain) e1
              (subst (λ r. Order g1.edges r more g.edges g.remain) r1 order),
        ),
        q',
        done,
      )

  pub Order-length :
      (edges : ℕ → List ℕ) (remain : List ℕ) (h : History) (edges' : ℕ → List ℕ) (remain' : List ℕ)
      → Order edges remain h edges' remain'
      → (u : ℕ) → length (edges' u) ≤ length (edges u)
  Order-length edges remain [] edges' remain' (p, q) u =
      let same : length (edges u) ≡ length (edges' u) = ap (λ e. length (e u)) p in omega arith
  Order-length edges remain ((n, vs) ∷ h) edges' remain' (p, few, here, o) u =
      let rest = Order-length (cut edges n) (erase n remain) h edges' remain' o u in
      let small = length-erase_le n (edges u) in
      elim (Bool-cases (u == n)) [
        | inl k ↦ let size : length (cut edges n u) ≡ 0 = rw k refl in omega arith
        | inr k ↦
            let size : length (cut edges n u) ≡ length (erase n (edges u)) = rw k refl in
            omega arith
      ]

  pub Order-remain :
      (edges : ℕ → List ℕ) (remain : List ℕ) (h : History) (edges' : ℕ → List ℕ) (remain' : List ℕ)
      → Order edges remain h edges' remain'
      → (length remain' ≤ length remain) × ((u : ℕ) → In u remain' → In u remain)
  Order-remain edges remain [] edges' remain' (p, q) =
      let same : length remain ≡ length remain' = ap length q in
      (omega arith, λ u i. subst (In u) (sym q) i)
  Order-remain edges remain ((n, vs) ∷ h) edges' remain' (p, few, here, o) =
      let (a, b) = Order-remain (cut edges n) (erase n remain) h edges' remain' o in
      let small = length-erase_le n remain in (omega arith, λ u i. (In-erase n u remain (b u i)).0)
