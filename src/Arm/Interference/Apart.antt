-- ===== src/Arm/Interference/Apart.antt =====
-- What the edges of `build_graph` of src/arm/simple_coloring_alloc.hpp keep apart in a block.
use helesta.Prelude.{
  ℕ, ◌≡◌, inl, inr, refl, sym, subst, ◌∙◌, Bool, true, false, ◌||◌, List, [], ◌∷◌, ◌++◌, ◌==◌, has,
  Bool-cases, arith,
}
use helesta.Arm.Inst.{Inst}
use helesta.Arm.Inst.Sets.{def_reg, use_reg}
use helesta.Arm.Dce.{RegSet}
use helesta.Arm.Live.Transfer.{entry}
use helesta.Arm.Interference.{Edges, link_pairs, ids, kill, revive, meet, scan, last_defs}
use helesta.Arm.Interference.Edges.{
  has-append, Extends, Extends-refl, Extends-trans, AllQ, Clique, link_pairs_lem,
}
use helesta.Arm.Interference.Ids.{reg, has-kill, update_live-ids}
use helesta.Arm.Interference.Scan.{Alive, revive_lem, Across, meet_lem}

module _ (f : Bool) where
  -- A relation holds between each register that an instruction writes and the others that it writes and those that are live
  -- behind it, and between the registers that are live before an instruction.

  abbrev pub Apart : (ℕ → ℕ → Type 0) → RegSet → List Inst → Type 0
  Apart R out [] = Unit {0}
  Apart R out (i ∷ is) =
      ((d v : ℕ)
        → has (ids f (def_reg i)) d ≡ true
        → (entry is out (reg f v) || has (ids f (def_reg i)) v) ≡ true
        → (d == v) ≡ false
        → R d v)
      × ((u v : ℕ)
          → entry (i ∷ is) out (reg f u) ≡ true
          → entry (i ∷ is) out (reg f v) ≡ true
          → (u == v) ≡ false
          → R u v)
      × Apart R out is

  pub Apart-map :
      (R S : ℕ → ℕ → Type 0) (out : RegSet) (is : List Inst)
      → ((u v : ℕ) → R u v → S u v)
      → Apart R out is
      → Apart S out is
  Apart-map R S out [] k a = tt
  Apart-map R S out (i ∷ is) k (a, b, c) = (
    (λ d v h l ne. k d v (a d v h l ne)),
    (λ u v h l ne. k u v (b u v h l ne)),
    Apart-map R S out is k c,
  )

  abbrev pub Joined : Edges → ℕ → ℕ → Type 0
  Joined e u v = has (e u) v ≡ true

  module _ (Q : ℕ → Type 0) where
    -- The registers of the instructions occur.
    abbrev pub InstsQ : List Inst → Type 0
    InstsQ [] = Unit {0}
    InstsQ (i ∷ is) = AllQ Q (ids f (def_reg i)) × AllQ Q (ids f (use_reg i)) × InstsQ is

    abbrev pub or_last : List ℕ → List Inst → List ℕ
    or_last before [] = before
    or_last before (i ∷ is) = last_defs f (i ∷ is)

    pub record Scanned (before : List ℕ) (is : List Inst) (out : RegSet) (e : Edges)
        (now : List ℕ × Edges) : Type 0 where
      pub extends : Extends Q e now.1
      live : (v : ℕ) → has now.0 v ≡ entry is out (reg f v)
      pub alive : Alive f Q now.0 now.1
      across : Across f Q before now.0 now.1
      apart_before : Clique Q before now.1
      pub apart : Apart (Joined now.1) out is

    or_last-last :
        (i : Inst) (is : List Inst) → or_last (ids f (def_reg i)) is ≡ last_defs f (i ∷ is)
    unfolding last_defs
    or_last-last i [] = refl
    or_last-last i (j ∷ is) = refl

    pub scan_lem :
        (before : List ℕ) (is : List Inst) (out : RegSet) (live : List ℕ) (e : Edges)
        → AllQ Q before
        → InstsQ is
        → ((v : ℕ) → has live v ≡ out (reg f v))
        → Alive f Q live e
        → Across f Q (or_last before is) live e
        → Clique Q (or_last before is) e
        → Scanned before is out e (scan f before is live e)
    unfolding scan
    scan_lem before [] out live e qb qs h a c d = record {
      extends = Extends-refl Q e;
      live = h;
      alive = a;
      across = c;
      apart_before = d;
      apart = tt;
    }
    scan_lem before (i ∷ is) out live e qb (qd, qu, qs) h a c d =
        let same = or_last-last i is in
        let s =
          scan_lem (ids f (def_reg i)) is out live e qd qs h a
            (subst (λ z. Across f Q z live e) (sym same) c)
            (subst (λ z. Clique Q z e) (sym same) d) in
        let after = scan f (ids f (def_reg i)) is live e in
        let killed = kill f (ids f (def_reg i)) after.0 in
        let dead = has-kill f (ids f (def_reg i)) after.0 in
        let alive : Alive f Q killed after.1 = record {
          edges = s.alive.edges;
          occur = λ v k. let x = dead v in s.alive.occur v (ground arith);
          clique = λ u v hu hv ne.
              let x = dead u in
              let y = dead v in s.alive.clique u v (ground arith) (ground arith) ne;
        } in
        let r = revive_lem f Q (ids f (use_reg i)) killed after.1 qu alive in
        let now = revive f (ids f (use_reg i)) killed after.1 in
        let (m, across) = meet_lem f Q before now.0 now.1 qb r.alive in
        let met = meet f before now.0 now.1 in
        let new = ids f (use_reg i) ++ before in
        let qn : AllQ Q new = λ v k. elim (Bool-cases (has before v)) [
          | inl x ↦ qb v x
          | inr x ↦ qu v (let y = has-append (ids f (use_reg i)) before v in ground arith)
        ] in
        let (p, clique) = link_pairs_lem Q new met qn (m.edges r.alive.edges) in
        let last = link_pairs new met in
        let most = Extends-trans Q now.1 met last m p in
        let more = Extends-trans Q after.1 now.1 last r.extends most in
        let lives : (v : ℕ) → has now.0 v ≡ entry (i ∷ is) out (reg f v) = λ v.
          let x = r.same v in
          let y = dead v in
          let z = s.live v in let w = update_live-ids f i (entry is out) v in ground arith in
        record {
          extends = Extends-trans Q e after.1 last s.extends more;
          live = lives;
          alive = record {
            edges = most.edges r.alive.edges;
            occur = r.alive.occur;
            clique = λ u v hu hv ne. most.keeps u v (r.alive.clique u v hu hv ne);
          };
          across = λ u v hu hv ne. p.keeps u v (across u v hu hv ne);
          apart_before = λ u v hu hv ne.
              let x = has-append (ids f (use_reg i)) before u in
              let y = has-append (ids f (use_reg i)) before v in
              clique u v (ground arith) (ground arith) ne;
          apart = (
            (λ d v hd hv ne. more.keeps d v (elim (Bool-cases (has (ids f (def_reg i)) v)) [
              | inl k ↦ s.apart_before d v hd k ne
              | inr k ↦ s.across d v hd (let z = s.live v in ground arith) ne
            ])),
            (λ u v hu hv ne. most.keeps u v (r.alive.clique u v (lives u ∙ hu) (lives v ∙ hv) ne)),
            Apart-map (Joined after.1) (Joined last) out is more.keeps s.apart,
          );
        }
