-- ===== src/Arm/Coloring/Most.antt =====
-- The loops of `choose_spill` of src/arm/simple_coloring_alloc.hpp.
use helesta.Prelude.{
  ℕ, ◌≤◌, ◌≡◌, ◌⊎◌, inl, inr, refl, sym, ap, subst, ◌∙◌, Bool, true, false, ◌&&◌, Option, none,
  some, List, [], ◌∷◌, length, Bool-cases, arith,
}
use helesta.Arm.Coloring.{more_edges, most}
use helesta.Arm.Coloring.Sets.{In}

-- The node has the most edges of those of a list that pass a test.
abbrev pub IsMost : (ℕ → Bool) → (ℕ → List ℕ) → List ℕ → ℕ → Type 0
IsMost p edges is n = (u : ℕ) → In u is → p u ≡ true → length (edges u) ≤ length (edges n)

-- The node of a loop of `choose_spill`, or that it passes none.
abbrev pub Picks : (ℕ → Bool) → (ℕ → List ℕ) → List ℕ → Option ℕ → Type 0
Picks p edges is (some n) = In n is × (p n ≡ true) × IsMost p edges is n
Picks p edges is none = (u : ℕ) → In u is → p u ≡ false

-- From a node on, the loop comes to one with as many edges and the most.
record Climbs (p : ℕ → Bool) (edges : ℕ → List ℕ) (is : List ℕ) (b n : ℕ) : Type 0 where
  from : (n ≡ b) ⊎ (In n is × (p n ≡ true))
  up : length (edges b) ≤ length (edges n)
  above : IsMost p edges is n

most_lem :
    (p : ℕ → Bool) (edges : ℕ → List ℕ) (is : List ℕ) (b : ℕ)
    → (n : ℕ) × (most p edges is (some b) ≡ some n) × Climbs p edges is b n
unfolding most
most_lem p edges [] b =
    (b, refl, record { from = inl refl; up = omega arith; above = λ u j. absurd j })
most_lem p edges (i ∷ is) b = elim (Bool-cases (p i && more_edges edges i (some b))) [
  | inl k ↦
      let (n, e, c) = most_lem p edges is i in
      let own : p i ≡ true = ground arith in
      let up = c.up in
      (
        n,
        rw k e,
        record {
          from = inr (elim c.from [ inl s ↦ (inl s, ap p s ∙ own) | inr (j, t) ↦ (inr j, t) ]);
          up = ground arith;
          above = λ u j q. elim j [
            | inl s ↦ subst (λ z. length (edges z) ≤ length (edges n)) (sym s) up
            | inr m ↦ c.above u m q
          ];
        },
      )
  | inr k ↦
      let (n, e, c) = most_lem p edges is b in
      let up = c.up in
      (
        n,
        rw k e,
        record {
          from = elim c.from [ inl s ↦ inl s | inr (j, t) ↦ inr (inr j, t) ];
          up = up;
          above = λ u j q. elim j [
            | inl s ↦
                let own : p i ≡ true = ap p (sym s) ∙ q in
                let le : length (edges i) ≤ length (edges n) = ground arith in
                subst (λ z. length (edges z) ≤ length (edges n)) (sym s) le
            | inr m ↦ c.above u m q
          ];
        },
      )
]

pub most-Picks :
    (p : ℕ → Bool) (edges : ℕ → List ℕ) (is : List ℕ) → Picks p edges is (most p edges is none)
unfolding most
most-Picks p edges [] = λ u j. absurd j
most-Picks p edges (i ∷ is) = elim (Bool-cases (p i)) [
  | inl k ↦
      let (n, e, c) = most_lem p edges is i in
      let up = c.up in
      let q : most p edges (i ∷ is) none ≡ some n = rw k e in
      let (a, b) : In n (i ∷ is) × (p n ≡ true) = elim c.from [
        | inl s ↦ (inl s, ap p s ∙ k)
        | inr (j, t) ↦ (inr j, t)
      ] in
      subst (Picks p edges (i ∷ is)) (sym q) (
        a,
        b,
        λ u j h. elim j [
          | inl s ↦ subst (λ z. length (edges z) ≤ length (edges n)) (sym s) up
          | inr m ↦ c.above u m h
        ],
      )
  | inr k ↦
      let q : most p edges (i ∷ is) none ≡ most p edges is none = rw k refl in
      subst (Picks p edges (i ∷ is)) (sym q)
        (later (most p edges is none) k (most-Picks p edges is))
]
  where
    later : (r : Option ℕ) → p i ≡ false → Picks p edges is r → Picks p edges (i ∷ is) r
    later none k h = λ u j. elim j [ inl s ↦ ap p s ∙ k | inr m ↦ h u m ]
    later (some n) k (j, e, m) =
        (inr j, e, λ u l h. elim l [ inl s ↦ let t = ap p s ∙ k in cc | inr l' ↦ m u l' h ])
