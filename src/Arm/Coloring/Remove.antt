-- ===== src/Arm/Coloring/Remove.antt =====
-- `remove` of src/arm/simple_coloring_alloc.hpp: what is left of the graph.
use helesta.Prelude.{
  ℕ, ◌-◌, ◌≤◌, ◌≡◌, ◌≢◌, ◌⊎◌, ◌↔◌, inl, inr, refl, sym, ap, subst, ◌∙◌, false, ◌&&◌, List, [], ◌∷◌,
  ◌++◌, ◌==◌, ==_iff, leb, has, if◌then◌else◌, length, update, Bool-cases, arith,
}
use helesta.Arm.Coloring.{RegConvention, Graph, erase, detach}
use helesta.Arm.Coloring.Sets.{In, NoDup, has-In, In-append, NoDup-append}

module _ (conv : RegConvention) (n : ℕ) where
  -- The graph after the first round of the loop.
  abbrev once : ℕ → Graph → Graph
  once i g = record g {
    edges = update g.edges i (erase n (g.edges i));
    queue =
        if (length (erase n (g.edges i)) == conv.allocable_register_count - 1) && leb conv.count i
        then g.queue ++ (i ∷ [])
        else g.queue;
  }

  -- The node gets few neighbours now.
  abbrev pub Falls : Graph → ℕ → Type 0
  Falls g x = (length (erase n (g.edges x)) ≡ conv.allocable_register_count - 1) × (conv.count ≤ x)

  pub detach-edges :
      (is : List ℕ) (g : Graph) (u : ℕ)
      → NoDup is
      → (detach conv n is g).edges u ≡ (if has is u then erase n (g.edges u) else g.edges u)
  unfolding detach
  detach-edges [] g u h = refl
  detach-edges (i ∷ is) g u (o, h) = detach-edges is (once i g) u h ∙ first
    where
      out : u ≡ i → has is u ≡ false
      out e = elim (Bool-cases (has is u)) [
        | inl k ↦ absurd (o (subst (λ z. In z is) e (has-In is u k)))
        | inr k ↦ k
      ]

      first :
          (if has is u then erase n ((once i g).edges u) else (once i g).edges u)
          ≡ (if has (i ∷ is) u then erase n (g.edges u) else g.edges u)
      first = elim (Bool-cases (u == i)) [
        | inl k ↦
            let e : u ≡ i = (==_iff u i).0 k in
            rw (out e, k) (ap (λ z. erase n (g.edges z)) (sym e))
        | inr k ↦ rw k refl
      ]

  pub detach-remain : (is : List ℕ) (g : Graph) → (detach conv n is g).remain ≡ g.remain
  unfolding detach
  detach-remain [] g = refl
  detach-remain (i ∷ is) g = detach-remain is (once i g)

  once-queue :
      (i : ℕ) (g : Graph) (x : ℕ) → In x (once i g).queue ↔ (In x g.queue ⊎ ((x ≡ i) × Falls g i))
  once-queue i g x =
      elim (Bool-cases
        ((length (erase n (g.edges i)) == conv.allocable_register_count - 1) && leb conv.count i)) [
          | inl k ↦
              let falls : Falls g i = ground arith in
              let app = In-append g.queue i x in
              rw k (
                (λ j. elim (app.0 j) [ inl q ↦ inl q | inr e ↦ inr (e, falls) ]),
                (λ j. app.1 (elim j [ inl q ↦ inl q | inr (e, _) ↦ inr e ])),
              )
          | inr k ↦
              let fails : ¬ Falls g i = λ (a, b). ground arith in
              rw k ((λ j. inl j), (λ j. elim j [ inl q ↦ q | inr (_, f) ↦ absurd (fails f) ]))
        ]

  once-Falls : (i : ℕ) (g : Graph) (x : ℕ) → x ≢ i → Falls (once i g) x ↔ Falls g x
  once-Falls i g x ne =
      let same : (once i g).edges x ≡ g.edges x = ground arith in
      (
        (λ (a, b). (ap (λ l. length (erase n l)) (sym same) ∙ a, b)),
        (λ (a, b). (ap (λ l. length (erase n l)) same ∙ a, b)),
      )

  pub detach-queue :
      (is : List ℕ) (g : Graph)
      → NoDup is
      → (x : ℕ) → In x (detach conv n is g).queue ↔ (In x g.queue ⊎ (In x is × Falls g x))
  unfolding detach
  detach-queue [] g h x = ((λ j. inl j), (λ j. elim j [ inl q ↦ q | inr (a, _) ↦ absurd a ]))
  detach-queue (i ∷ is) g (o, h) x =
      let rest = detach-queue is (once i g) h x in
      let first = once-queue i g x in
      (
        λ j. elim (rest.0 j) [
          | inl q ↦ elim (first.0 q) [
            | inl p ↦ inl p
            | inr (e, f) ↦ inr (inl e, subst (Falls g) (sym e) f)
          ]
          | inr (a, f) ↦ inr (inr a, (once-Falls i g x (λ e. o (subst (λ z. In z is) e a))).0 f)
        ],
        λ j. rest.1 (elim j [
          | inl q ↦ inl (first.1 (inl q))
          | inr (a, f) ↦ elim a [
            | inl e ↦ inl (first.1 (inr (e, subst (Falls g) e f)))
            | inr b ↦ inr (b, (once-Falls i g x (λ e. o (subst (λ z. In z is) e b))).1 f)
          ]
        ]),
      )

  pub detach-NoDup :
      (is : List ℕ) (g : Graph)
      → NoDup is
      → NoDup g.queue
      → ((x : ℕ) → In x is → Falls g x → ¬ In x g.queue)
      → NoDup (detach conv n is g).queue
  unfolding detach
  detach-NoDup [] g h d f = d
  detach-NoDup (i ∷ is) g (o, h) d f =
      detach-NoDup is (once i g) h
        (elim (Bool-cases (
          (length (erase n (g.edges i)) == conv.allocable_register_count - 1)
          && leb conv.count i)) [
            | inl k ↦ rw k (NoDup-append g.queue i d (f i (inl refl) (ground arith)))
            | inr k ↦ rw k d
          ])
        (λ x a b j.
          let ne : x ≢ i = λ e. o (subst (λ z. In z is) e a) in
          elim ((once-queue i g x).0 j) [
            | inl q ↦ f x (inr a) ((once-Falls i g x ne).0 b) q
            | inr (e, _) ↦ ne e
          ])

-- The graph without the node.
abbrev pub cut : (ℕ → List ℕ) → ℕ → ℕ → List ℕ
cut edges n u = if u == n then [] else erase n (edges u)
