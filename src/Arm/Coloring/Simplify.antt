-- ===== src/Arm/Coloring/Simplify.antt =====
-- A node that leaves the graph of `simplify` of src/arm/simple_coloring_alloc.hpp.
use helesta.Prelude.{
  ℕ, suc, ◌-◌, ◌<◌, ◌≤◌, ◌≡◌, ◌≢◌, ◌⊎◌, ◌↔◌, inl, inr, refl, sym, ap, subst, ◌∙◌, fun_ext, Bool,
  true, some, List, [], ◌==◌, ==_iff, leb, has, if◌then◌else◌, length, update, Bool-cases, arith,
}
use helesta.Arm.Coloring.{RegConvention, Graph, erase, detach, remove}
use helesta.Arm.Coloring.Sets.{
  In, NoDup, In-has, In-cases, In-erase, erase-In, erase_out, NoDup-erase, length-erase,
  length-erase_le,
}
use helesta.Arm.Coloring.Remove.{
  Falls, detach-edges, detach-remain, detach-queue, detach-NoDup, cut,
}

module _ (conv : RegConvention) (occur : ℕ → Bool) where
  -- A register of the machine that occurs, or a node that is left.
  abbrev pub Node : List ℕ → ℕ → Type 0
  Node remain u = ((u < conv.count) × (occur u ≡ true)) ⊎ In u remain

  -- The edges are those of an undirected graph on such nodes.
  pub record IsGraph (edges : ℕ → List ℕ) (remain : List ℕ) : Type 0 where
    pub symmetric : (u v : ℕ) → In v (edges u) → In u (edges v)
    pub irreflexive : (u : ℕ) → ¬ In u (edges u)
    pub sets : (u : ℕ) → NoDup (edges u)
    pub ends : (u v : ℕ) → In v (edges u) → Node remain v
    pub low : (u : ℕ) → In u remain → conv.count ≤ u
    pub once : NoDup remain

  -- The queue holds the nodes with few neighbours.
  pub record Queued (g : Graph) : Type 0 where
    pub graph : IsGraph g.edges g.remain
    pub once : NoDup g.queue
    pub few :
        (u : ℕ)
        → In u g.queue
        → In u g.remain × (length (g.edges u) < conv.allocable_register_count)
    pub waits :
        (u : ℕ) → In u g.remain → length (g.edges u) < conv.allocable_register_count → In u g.queue

  pub cut-IsGraph :
      (edges : ℕ → List ℕ) (remain : List ℕ) (n : ℕ)
      → IsGraph edges remain
      → conv.count ≤ n
      → IsGraph (cut edges n) (erase n remain)
  cut-IsGraph edges remain n g hn = record {
    symmetric = λ u v i.
        let (a, ne, b) = cut-In u v i in
        cut_in v u b (erase-In n u (edges v) (g.symmetric u v a) ne);
    irreflexive = λ u i. let (a, _, _) = cut-In u u i in g.irreflexive u a;
    sets = λ u. elim (Bool-cases (u == n)) [
      | inl k ↦ rw k tt
      | inr k ↦ rw k (NoDup-erase n (edges u) (g.sets u))
    ];
    ends = λ u v i.
        let (a, _, ne) = cut-In u v i in
        elim (g.ends u v a) [ inl p ↦ inl p | inr p ↦ inr (erase-In n v remain p ne) ];
    low = λ u i. g.low u (In-erase n u remain i).0;
    once = NoDup-erase n remain g.once;
  }
    where
      cut-In : (u v : ℕ) → In v (cut edges n u) → In v (edges u) × (u ≢ n) × (v ≢ n)
      cut-In u v i = elim (Bool-cases (u == n)) [
        | inl k ↦ absurd (rw k at i)
        | inr k ↦ let (a, b) = In-erase n v (edges u) (rw k at i) in (a, (λ e. grind arith), b)
      ]

      cut_in : (u v : ℕ) → u ≢ n → In v (erase n (edges u)) → In v (cut edges n u)
      cut_in u v ne i = elim (Bool-cases (u == n)) [
        | inl k ↦ absurd (ne ((==_iff u n).0 k))
        | inr k ↦ rw k i
      ]

  abbrev pub Fews : (ℕ → List ℕ) → List ℕ → List ℕ → Type 0
  Fews edges remain ns =
      (u : ℕ) → In u ns → In u remain × (length (edges u) < conv.allocable_register_count)

  abbrev pub Waits : (ℕ → List ℕ) → List ℕ → ℕ → List ℕ → Type 0
  Waits edges remain n ns =
      (u : ℕ) → u ≢ n → In u remain → length (edges u) < conv.allocable_register_count → In u ns

  -- The node of the queue, or one to spill, that leaves the graph; `ns` is the queue without it.
  module _ (n : ℕ) (ns : List ℕ) (edges : ℕ → List ℕ) (remain : List ℕ) where
    abbrev pub popped : Graph
    popped = record { edges = edges; queue = ns; remain = remain }

    abbrev after : Graph
    after = detach conv n (edges n) popped

    abbrev pub gone : Graph
    gone = record {
      edges = update after.edges n [];
      queue = after.queue;
      remain = erase n after.remain;
    }

    module _ (graph : IsGraph edges remain) (once : NoDup ns) (out : ¬ In n ns) (here : In n remain)
        (few : Fews edges remain ns) (waits : Waits edges remain n ns)
        (positive : 0 < conv.allocable_register_count) where
      n_low : conv.count ≤ n
      n_low = graph.low n here

      pub gone-edges : gone.edges ≡ cut edges n
      gone-edges = fun_ext at
        where
          at : (u : ℕ) → gone.edges u ≡ cut edges n u
          at u = elim (Bool-cases (u == n)) [
            | inl k ↦ rw k refl
            | inr k ↦ rw k (detach-edges conv n (edges n) popped u (graph.sets n) ∙ away u)
          ]
            where
              away :
                  (u : ℕ)
                  → (if has (edges n) u then erase n (edges u) else edges u) ≡ erase n (edges u)
              away u = elim (Bool-cases (has (edges n) u)) [
                | inl k ↦ rw k refl
                | inr k ↦ rw k (
                    sym (
                      erase_out n (edges u)
                        (λ i. let t = In-has (edges n) u (graph.symmetric u n i) in cc)))
              ]

      pub gone-remain : gone.remain ≡ erase n remain
      gone-remain = ap (erase n) (detach-remain conv n (edges n) popped)

      pub remove_at : remove conv n popped ≡ some gone
      unfolding remove
      remove_at = let t : leb conv.count n ≡ true = ground (arith, n_low) in rw t refl

      in_queue : (x : ℕ) → In x gone.queue ↔ (In x ns ⊎ (In x (edges n) × Falls conv n popped x))
      in_queue = detach-queue conv n (edges n) popped (graph.sets n)

      -- A neighbour loses one neighbour, others lose none.
      smaller : (u : ℕ) → In u (edges n) → suc (length (erase n (edges u))) ≡ length (edges u)
      smaller u i = length-erase n (edges u) (graph.sets u) (graph.symmetric n u i)

      same_size : (u : ℕ) → ¬ In u (edges n) → length (erase n (edges u)) ≡ length (edges u)
      same_size u o = ap length (erase_out n (edges u) (λ i. o (graph.symmetric u n i)))

      cut_size : (u : ℕ) → u ≢ n → length (cut edges n u) ≡ length (erase n (edges u))
      cut_size u ne = elim (Bool-cases (u == n)) [
        | inl k ↦ absurd (ne ((==_iff u n).0 k))
        | inr k ↦ rw k refl
      ]

      few_after :
          (u : ℕ)
          → In u gone.queue
          → In u (erase n remain) × (length (cut edges n u) < conv.allocable_register_count)
      few_after u i = elim ((in_queue u).0 i) [
        | inl j ↦
            let (a, b) = few u j in
            let ne : u ≢ n = λ e. out (subst (λ z. In z ns) e j) in
            let small = length-erase_le n (edges u) in
            let size = cut_size u ne in (erase-In n u remain a ne, omega arith)
        | inr (j, (len, hi)) ↦
            let ne : u ≢ n = λ e. graph.irreflexive n (subst (λ z. In z (edges n)) e j) in
            let size = cut_size u ne in
            let left : In u remain = elim (graph.ends n u j) [
              | inl (p, _) ↦ absurd (omega arith)
              | inr p ↦ p
            ] in
            (erase-In n u remain left ne, omega arith)
      ]

      waits_after :
          (u : ℕ)
          → In u (erase n remain)
          → length (cut edges n u) < conv.allocable_register_count
          → In u gone.queue
      waits_after u i low =
          let (a, ne) = In-erase n u remain i in
          let size = cut_size u ne in
          let hi = graph.low u a in
          let queued : length (edges u) < conv.allocable_register_count → In u gone.queue =
            λ l. (in_queue u).1 (inl (waits u ne a l)) in
          elim (In-cases (edges n) u) [
            | inr o ↦ let s = same_size u o in queued (omega arith)
            | inl j ↦
                let s = smaller u j in
                elim (Bool-cases
                  (length (erase n (edges u)) == conv.allocable_register_count - 1)) [
                    | inl k ↦ (in_queue u).1 (
                        inr (
                          j,
                          (
                            (==_iff (length (erase n (edges u)))
                                  (conv.allocable_register_count - 1)).0
                                k,
                            hi,
                          ),
                        ))
                    | inr k ↦
                        let d : length (erase n (edges u)) ≢ conv.allocable_register_count - 1 =
                          λ e. grind arith in
                        queued (omega arith)
                  ]
          ]

      pub gone-Queued : Queued gone
      gone-Queued = record {
        graph =
            subst (λ e. IsGraph e gone.remain) (sym gone-edges)
              (subst (IsGraph (cut edges n)) (sym gone-remain)
                (cut-IsGraph edges remain n graph n_low));
        once =
            detach-NoDup conv n (edges n) popped (graph.sets n) once
              (λ x i (len, hi) j. let (a, b) = few x j in let s = smaller x i in omega arith);
        few = λ u i.
            let (a, b) = few_after u i in
            (
              subst (In u) (sym gone-remain) a,
              subst (λ e. length (e u) < conv.allocable_register_count) (sym gone-edges) b,
            );
        waits = λ u i low.
            waits_after u (subst (In u) gone-remain i)
              (subst (λ e. length (e u) < conv.allocable_register_count) gone-edges low);
      }
