-- ===== src/Arm/Interference/Scan.antt =====
-- The loop over the instructions of a block in `build_graph` of src/arm/simple_coloring_alloc.hpp.
use helesta.Prelude.{
  ℕ, ◌≡◌, inl, inr, refl, sym, ap, subst, Bool, true, false, ◌||◌, List, [], ◌∷◌, ◌==◌, ==_iff,
  if◌then◌else◌, has, Bool-cases, arith,
}
use helesta.Arm.Interference.{Edges, link_all, revive, meet}
use helesta.Arm.Interference.Edges.{
  IsEdges, Extends, Extends-refl, Extends-trans, AllQ, link_all_lem, Clique,
}

module _ (f : Bool) (Q : ℕ → Type 0) where
  -- A live set that is a clique.
  pub record Alive (live : List ℕ) (e : Edges) : Type 0 where
    pub edges : IsEdges Q e
    pub occur : AllQ Q live
    pub clique : Clique Q live e

  pub record Revived (rs live : List ℕ) (e : Edges) (now : List ℕ × Edges) : Type 0 where
    pub extends : Extends Q e now.1
    pub same : (v : ℕ) → has now.0 v ≡ (has live v || has rs v)
    pub alive : Alive now.0 now.1

  new-Alive :
      (r : ℕ) (live : List ℕ) (e : Edges)
      → Q r
      → Alive live e
      → has live r ≡ false
      → Extends Q e (link_all r live e) × Alive (r ∷ live) (link_all r live e)
  new-Alive r live e qr a h =
      let l = link_all_lem Q r live e h qr a.occur in
      let i = l.extends.edges a.edges in
      (
        l.extends,
        record {
          edges = i;
          occur = λ v k. elim (Bool-cases (v == r)) [
            | inl m ↦ subst Q (sym ((==_iff v r).0 m)) qr
            | inr m ↦ a.occur v (ground arith)
          ];
          clique = λ u v hu hv ne. elim (Bool-cases (u == r)) [
            | inl m ↦
                let same : u ≡ r = (==_iff u r).0 m in
                let nv : (r == v) ≡ false = subst (λ z. (z == v) ≡ false) same ne in
                subst (λ z. has (link_all r live e z) v ≡ true) (sym same)
                  (l.linked v (ground arith) nv)
            | inr m ↦ elim (Bool-cases (v == r)) [
              | inl o ↦
                  let same : v ≡ r = (==_iff v r).0 o in
                  let nu : (r == u) ≡ false = ground arith in
                  let j = l.linked u (ground arith) nu in
                  i.symmetric v u (subst (λ z. has (link_all r live e z) u ≡ true) (sym same) j)
              | inr o ↦ l.extends.keeps u v (a.clique u v (ground arith) (ground arith) ne)
            ]
          ];
        },
      )

  pub revive_lem :
      (rs live : List ℕ) (e : Edges)
      → AllQ Q rs
      → Alive live e
      → Revived rs live e (revive f rs live e)
  unfolding revive
  revive_lem [] live e q a = record {
    extends = Extends-refl Q e;
    same = λ v. ground arith;
    alive = a;
  }
  revive_lem (r ∷ rs) live e q a =
      let own : (r == r) ≡ true = (==_iff r r).1 refl in
      let (x, b) = one (has live r) refl (q r (ground arith)) in
      let y =
        revive_lem rs (if has live r then live else r ∷ live)
          (if has live r then e else link_all r live e) (λ v h. q v (ground arith)) b in
      record {
        extends = Extends-trans Q e (if has live r then e else link_all r live e) _ x y.extends;
        same = λ v. let s = y.same v in went v (has live r) refl s;
        alive = y.alive;
      }
    where
      one :
          (k : Bool)
          → has live r ≡ k
          → Q r
          → Extends Q e (if k then e else link_all r live e)
            × Alive (if k then live else r ∷ live) (if k then e else link_all r live e)
      one true k qr = (Extends-refl Q e, a)
      one false k qr = new-Alive r live e qr a k

      went :
          {b : Bool} (v : ℕ) (k : Bool)
          → has live r ≡ k
          → b ≡ (has (if k then live else r ∷ live) v || has rs v)
          → b ≡ (has live v || ((v == r) || has rs v))
      went v true k s = elim (Bool-cases (v == r)) [
        | inl m ↦ let e : has live v ≡ has live r = ap (has live) ((==_iff v r).0 m) in ground arith
        | inr m ↦ ground arith
      ]
      went v false k s = ground arith

  -- Registers that are apart from those of a set.
  abbrev pub Across : List ℕ → List ℕ → Edges → Type 0
  Across ds live e =
      (d v : ℕ) → has ds d ≡ true → has live v ≡ true → (d == v) ≡ false → has (e d) v ≡ true

  pub meet_lem :
      (rs live : List ℕ) (e : Edges)
      → AllQ Q rs
      → Alive live e
      → Extends Q e (meet f rs live e) × Across rs live (meet f rs live e)
  unfolding meet
  meet_lem [] live e q a = (Extends-refl Q e, (λ d v h. cc))
  meet_lem (r ∷ rs) live e q a =
      let own : (r == r) ≡ true = (==_iff r r).1 refl in
      let g : Edges = if has live r then e else link_all r live e in
      let (x, b, c) = one (has live r) refl (q r (ground arith)) in
      let (y, d) = meet_lem rs live g (λ v h. q v (ground arith)) b in
      (
        Extends-trans Q e g _ x y,
        (λ u v hu hv ne. elim (Bool-cases (u == r)) [
          | inl m ↦
              let same : u ≡ r = (==_iff u r).0 m in
              let nv : (r == v) ≡ false = subst (λ z. (z == v) ≡ false) same ne in
              subst (λ z. has (meet f rs live g z) v ≡ true) (sym same) (y.keeps r v (c v hv nv))
          | inr m ↦ d u v (ground arith) hv ne
        ]),
      )
    where
      one :
          (k : Bool)
          → has live r ≡ k
          → Q r
          → Extends Q e (if k then e else link_all r live e)
            × Alive live (if k then e else link_all r live e)
            × ((v : ℕ)
                → has live v ≡ true
                → (r == v) ≡ false
                → has ((if k then e else link_all r live e) r) v ≡ true)
      one true k qr = (Extends-refl Q e, a, (λ v h ne. a.clique r v k h ne))
      one false k qr =
          let (x, b) = new-Alive r live e qr a k in
          let own : (r == r) ≡ true = (==_iff r r).1 refl in
          (
            x,
            record {
              edges = b.edges;
              occur = a.occur;
              clique = λ u v hu hv ne. b.clique u v (ground arith) (ground arith) ne;
            },
            (λ v h ne. b.clique r v (ground arith) (ground arith) ne),
          )
