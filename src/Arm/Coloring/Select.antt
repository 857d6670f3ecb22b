-- ===== src/Arm/Coloring/Select.antt =====
-- The loop of `run` of src/arm/simple_coloring_alloc.hpp that gives the registers.
use helesta.Prelude.{
  ℕ, suc, ◌<◌, ◌≡◌, ◌≢◌, ◌⊎◌, inl, inr, refl, sym, ap, subst, ◌∙◌, Bool, true, ◌&&◌, Option, none,
  some, List, [], ◌∷◌, ◌==◌, ==_iff, ltb, if◌then◌else◌, length, update, update_self, update_ne,
  Bool-cases, Option-cases, arith,
}
use helesta.Arm.Coloring.{RegConvention, Colors, History, erase, flags, select_one, select}
use helesta.Arm.Coloring.Sets.{In, In-erase, erase-In}
use helesta.Arm.Coloring.Remove.{cut}
use helesta.Arm.Coloring.Simplify.{IsGraph, cut-IsGraph}
use helesta.Arm.Coloring.Order.{Order}
use helesta.Arm.Coloring.Choose.{IsConvention, Allocable, choose_lem}

flags_lem :
    (ans : ℕ → Option ℕ) (vs : List ℕ)
    → ((v : ℕ) → In v vs → (c : ℕ) × (ans v ≡ some c))
    → (cs : List ℕ) × (flags ans vs ≡ some cs)
      × (length cs ≡ length vs)
      × ((v c : ℕ) → In v vs → ans v ≡ some c → In c cs)
unfolding flags
flags_lem ans [] h = ([], refl, refl, (λ v c i e. absurd i))
flags_lem ans (v ∷ vs) h =
    let (c, e) = h v (inl refl) in
    let (cs, f, l, all) = flags_lem ans vs (λ w i. h w (inr i)) in
    (
      c ∷ cs,
      rw (flags, e, f) refl,
      ap suc l,
      λ w d i g. elim i [
        | inl s ↦ let same : some c ≡ some d = sym e ∙ ap ans (sym s) ∙ g in inl (ground arith)
        | inr j ↦ inr (all w d j g)
      ],
    )

module _ (conv : RegConvention) (occur : ℕ → Bool) where
  -- The registers given to a graph and the nodes that are left in it.
  pub record Colored (edges : ℕ → List ℕ) (remain : List ℕ) (s : Colors) : Type 0 where
    pub differ :
        (u v : ℕ)
        → In v (edges u)
        → (c : ℕ) × (d : ℕ) × (s.ans u ≡ some c) × (s.ans v ≡ some d) × (c ≢ d)
    pub fixed : (u : ℕ) → u < conv.count → occur u ≡ true → s.ans u ≡ some u
    pub all : (u : ℕ) → In u remain → (c : ℕ) × (s.ans u ≡ some c) × Allocable conv c
    pub only : (u c : ℕ) → s.ans u ≡ some c → (u < conv.count) ⊎ In u remain

  module _ (ok : IsConvention conv) where
    first_Colored :
        (edges : ℕ → List ℕ)
        → IsGraph conv occur edges []
        → (s : Colors) × (select conv occur [] ≡ some s) × Colored edges [] s
    unfolding select
    first_Colored edges g = (
      record {
        ans = λ i. if ltb i conv.count && occur i then some i else none;
        used = λ i. ltb i conv.count && occur i;
      },
      refl,
      record {
        differ = λ u v i. (
          u,
          v,
          own u (ends v u (g.symmetric u v i)),
          own v (ends u v i),
          (λ e. g.irreflexive u (subst (λ z. In z (edges u)) (sym e) i)),
        );
        fixed = λ u l o. own u (l, o);
        all = λ u i. absurd i;
        only = λ u c e. inl (ground arith);
      },
    )
      where
        ends : (u v : ℕ) → In v (edges u) → (v < conv.count) × (occur v ≡ true)
        ends u v i = elim (g.ends u v i) [ inl p ↦ p | inr p ↦ absurd p ]

        own :
            (u : ℕ)
            → (u < conv.count) × (occur u ≡ true)
            → (if ltb u conv.count && occur u then some u else none) ≡ some u
        own u (l, o) = rw o (ground arith)

    module _ (edges : ℕ → List ℕ) (remain : List ℕ) (n : ℕ) (g : IsGraph conv occur edges remain)
        (here : In n remain) (few : length (edges n) < conv.allocable_register_count) (s : Colors)
        (c : Colored (cut edges n) (erase n remain) s) where
      free : s.ans n ≡ none
      free = elim (Option-cases (s.ans n)) [
        | inl e ↦ e
        | inr (d, e) ↦ elim (c.only n d e) [
          | inl l ↦ let low = g.low n here in absurd (omega arith)
          | inr i ↦ let (_, ne) = In-erase n n remain i in absurd (ne refl)
        ]
      ]

      neighbour : (v : ℕ) → In v (edges n) → (d : ℕ) × (s.ans v ≡ some d)
      neighbour v i = elim (g.ends n v i) [
        | inl (l, o) ↦ (v, c.fixed v l o)
        | inr r ↦
            let ne : v ≢ n = λ e. g.irreflexive n (subst (λ z. In z (edges n)) e i) in
            let (d, e, _) = c.all v (erase-In n v remain r ne) in (d, e)
      ]

      one_Colored : (t : Colors) × (select_one conv n (edges n) s ≡ some t) × Colored edges remain t
      unfolding select_one
      one_Colored =
          let (cs, e, l, taken) = flags_lem s.ans (edges n) neighbour in
          let (k, f, (a, new)) = choose_lem conv s.used cs ok (omega arith) in
          let t : Colors = record { ans = update s.ans n (some k); used = update s.used k true } in
          let other : (u : ℕ) → u ≢ n → t.ans u ≡ s.ans u =
            λ u ne. update_ne s.ans n (some k) u ne in
          let own : t.ans n ≡ some k = update_self s.ans n (some k) in
          let apart : (v : ℕ) → In v (edges n) → (d : ℕ) × (t.ans v ≡ some d) × (k ≢ d) = λ v i.
            let (d, p) = neighbour v i in
            let ne : v ≢ n = λ q. g.irreflexive n (subst (λ z. In z (edges n)) q i) in
            (d, other v ne ∙ p, (λ q. new (subst (λ z. In z cs) (sym q) (taken v d i p)))) in
          (
            t,
            rw (select_one, free, e, f) refl,
            record {
              differ = λ u v i. elim (Bool-cases (u == n)) [
                | inl p ↦
                    let q : u ≡ n = (==_iff u n).0 p in
                    let (d, x, y) = apart v (subst (λ z. In v (edges z)) q i) in
                    (k, d, ap t.ans q ∙ own, x, y)
                | inr p ↦ elim (Bool-cases (v == n)) [
                  | inl p' ↦
                      let q : v ≡ n = (==_iff v n).0 p' in
                      let (d, x, y) = apart u (g.symmetric u n (subst (λ z. In z (edges u)) q i)) in
                      (d, k, x, ap t.ans q ∙ own, (λ z. y (sym z)))
                  | inr p' ↦
                      let un : u ≢ n = λ z. grind arith in
                      let vn : v ≢ n = λ z. grind arith in
                      let j : In v (cut edges n u) = rw p (erase-In n v (edges u) i vn) in
                      let (x, y, a1, a2, a3) = c.differ u v j in
                      (x, y, other u un ∙ a1, other v vn ∙ a2, a3)
                ]
              ];
              fixed =
                  λ u lt o. let low = g.low n here in other u (λ q. omega arith) ∙ c.fixed u lt o;
              all = λ u i. elim (Bool-cases (u == n)) [
                | inl p ↦ (k, ap t.ans ((==_iff u n).0 p) ∙ own, a)
                | inr p ↦
                    let un : u ≢ n = λ z. grind arith in
                    let (x, y, z) = c.all u (erase-In n u remain i un) in (x, other u un ∙ y, z)
              ];
              only = λ u d e'. elim (Bool-cases (u == n)) [
                | inl p ↦ inr (subst (λ z. In z remain) (sym ((==_iff u n).0 p)) here)
                | inr p ↦
                    let un : u ≢ n = λ z. grind arith in
                    elim (c.only u d (sym (other u un) ∙ e')) [
                      | inl q ↦ inl q
                      | inr q ↦ inr (In-erase n u remain q).0
                    ]
              ];
            },
          )

    pub select_lem :
        (edges : ℕ → List ℕ) (remain : List ℕ) (h : History) (edges' : ℕ → List ℕ)
        → IsGraph conv occur edges remain
        → Order conv occur edges remain h edges' []
        → (s : Colors) × (select conv occur h ≡ some s) × Colored edges remain s
    unfolding select
    select_lem edges remain [] edges' g (p, q) =
        let (s, e, c) = first_Colored edges (subst (IsGraph conv occur edges) q g) in
        (s, e, subst (λ r. Colored edges r s) (sym q) c)
    select_lem edges remain ((n, vs) ∷ h) edges' g (p, few, here, o) =
        let (s, e, c) =
          select_lem (cut edges n) (erase n remain) h edges'
            (cut-IsGraph conv occur edges remain n g (g.low n here)) o in
        let (t, f, d) =
          one_Colored edges remain n g here
            (subst (λ l. length l < conv.allocable_register_count) (sym p) few) s c in
        (t, rw (select, e, sym p) f, d)
