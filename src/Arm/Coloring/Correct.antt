-- ===== src/Arm/Coloring/Correct.antt =====
-- `run` of src/arm/simple_coloring_alloc.hpp on an interference graph.
use helesta.Prelude.{
  ℕ, zero, suc, ◌+◌, ◌-◌, ◌<◌, ◌≤◌, ◌≡◌, ◌≢◌, ◌↔◌, inl, inr, refl, sym, ap, subst, ◌∙◌, Bool, true,
  false, some, List, [], ◌∷◌, ltb, if◌then◌else◌, length, ◌>>=◌, Bool-cases, arith,
}
use helesta.Arm.Coloring.{
  RegConvention, Colors, Graph, History, Allocation, start, select, spill_all, run,
}
use helesta.Arm.Coloring.Sets.{In, NoDup}
use helesta.Arm.Coloring.Simplify.{IsGraph, Queued}
use helesta.Arm.Coloring.Order.{Order, Order-length, Order-remain, simplify_lem}
use helesta.Arm.Coloring.Spill.{Ends, emptied, spill_all_lem}
use helesta.Arm.Coloring.Choose.{IsConvention, Allocable}
use helesta.Arm.Coloring.Select.{Colored, select_lem}

-- The registers that the allocation is for.
abbrev pub Occurs : RegConvention → (ℕ → Bool) → ℕ → ℕ → Type 0
Occurs conv occur reg_n u = (conv.count ≤ u) × (u < reg_n) × (occur u ≡ true)

module _ (conv : RegConvention) (occur : ℕ → Bool) (edges : ℕ → List ℕ) where
  abbrev pub Few : ℕ → Type 0
  Few u = length (edges u) < conv.allocable_register_count

  record Started (i n : ℕ) (r : List ℕ × List ℕ) : Type 0 where
    nodes : (u : ℕ) → In u r.0 ↔ ((i ≤ u) × (u < i + n) × (occur u ≡ true))
    queued : (u : ℕ) → In u r.1 ↔ (In u r.0 × Few u)
    once : NoDup r.0
    queued_once : NoDup r.1

  start_lem : (i n : ℕ) → Started i n (start conv occur edges i n)
  unfolding start
  start_lem i zero = record {
    nodes = λ u. ((λ j. absurd j), (λ (a, b, _). omega arith));
    queued = λ u. ((λ j. absurd j), (λ (a, _). a));
    once = tt;
    queued_once = tt;
  }
  start_lem i (suc n) =
      let rest = start conv occur edges (suc i) n in
      let h = start_lem (suc i) n in
      let out : ¬ In i rest.0 = λ j. let (a, _, _) = (h.nodes i).0 j in omega arith in
      elim (Bool-cases (occur i)) [
        | inl k ↦
            rw k
              (added i n rest k h out (ltb (length (edges i)) conv.allocable_register_count) refl)
        | inr k ↦ rw k (record {
          nodes = λ u. (
            (λ j. let (a, b, c) = (h.nodes u).0 j in (omega arith, omega arith, c)),
            (λ (a, b, c).
                let ne : u ≢ i = λ e. let o : occur i ≡ true = ap occur (sym e) ∙ c in cc in
                (h.nodes u).1 (omega arith, omega arith, c)),
          );
          queued = h.queued;
          once = h.once;
          queued_once = h.queued_once;
        })
      ]
    where
      nodes_added :
          (i n : ℕ) (rest : List ℕ × List ℕ)
          → occur i ≡ true
          → Started (suc i) n rest
          → (u : ℕ) → In u (i ∷ rest.0) ↔ ((i ≤ u) × (u < i + suc n) × (occur u ≡ true))
      nodes_added i n rest k h u = (
        (λ j. elim j [
          | inl e ↦ (omega arith, omega arith, ap occur e ∙ k)
          | inr m ↦ let (a, b, c) = (h.nodes u).0 m in (omega arith, omega arith, c)
        ]),
        (λ (a, b, c). elim (Bool-cases (ltb i u)) [
          | inl l ↦ inr ((h.nodes u).1 (ground arith, omega arith, c))
          | inr l ↦ inl (ground arith)
        ]),
      )

      added :
          (i n : ℕ) (rest : List ℕ × List ℕ)
          → occur i ≡ true
          → Started (suc i) n rest
          → ¬ In i rest.0
          → (b : Bool) → ltb (length (edges i)) conv.allocable_register_count ≡ b
          → Started i (suc n) (i ∷ rest.0, (if b then i ∷ rest.1 else rest.1))
      added i n rest k h out true e = record {
        nodes = nodes_added i n rest k h;
        queued = λ u. (
          (λ j. elim j [
            | inl s ↦ (inl s, subst Few (sym s) (ground arith))
            | inr m ↦ let (a, b) = (h.queued u).0 m in (inr a, b)
          ]),
          (λ (j, few). elim j [ inl s ↦ inl s | inr m ↦ inr ((h.queued u).1 (m, few)) ]),
        );
        once = (out, h.once);
        queued_once = ((λ j. out ((h.queued i).0 j).0), h.queued_once);
      }
      added i n rest k h out false e = record {
        nodes = nodes_added i n rest k h;
        queued = λ u. (
          (λ j. let (a, b) = (h.queued u).0 j in (inr a, b)),
          (λ (j, few). elim j [
            | inl s ↦ let few' : Few i = subst Few s few in absurd (ground arith)
            | inr m ↦ (h.queued u).1 (m, few)
          ]),
        );
        once = (out, h.once);
        queued_once = h.queued_once;
      }

  -- What `build_graph` makes: an undirected graph on the registers that occur.
  pub record IsInterference (reg_n : ℕ) : Type 0 where
    pub symmetric : (u v : ℕ) → In v (edges u) → In u (edges v)
    pub irreflexive : (u : ℕ) → ¬ In u (edges u)
    pub sets : (u : ℕ) → NoDup (edges u)
    pub ends : (u v : ℕ) → In v (edges u) → (v < reg_n) × (occur v ≡ true)

  -- Registers for the whole function.
  pub record Allocates (reg_n : ℕ) (s : Colors) : Type 0 where
    pub differ :
        (u v : ℕ)
        → In v (edges u)
        → (c : ℕ) × (d : ℕ) × (s.ans u ≡ some c) × (s.ans v ≡ some d) × (c ≢ d)
    pub fixed : (u : ℕ) → u < conv.count → occur u ≡ true → s.ans u ≡ some u
    pub all :
        (u : ℕ)
        → conv.count ≤ u
        → u < reg_n
        → occur u ≡ true
        → (c : ℕ) × (s.ans u ≡ some c) × Allocable conv c

  abbrev Nodes : ℕ → List ℕ → Type 0
  Nodes reg_n remain =
      (u : ℕ)
      → In u remain
        ↔ ((conv.count ≤ u) × (u < conv.count + (reg_n - conv.count)) × (occur u ≡ true))

  -- On an undirected graph of the registers that occur, `run` ends, and no assertion fails but perhaps that of
  -- `choose_spill`. If it gives registers, neighbours get different ones, the registers of the machine keep theirs,
  -- and every other one that occurs gets one that may be allocated. If it gives nodes to spill, there is at least one,
  -- they are different, they occur and none of them is in `spilling_reg`. If the assertion of `choose_spill` fails,
  -- a node is left, and all that are left occur and are in `spilling_reg`. It gives registers where no register
  -- has as many neighbours as there are registers to allocate.
  pub run_lem :
      IsConvention conv
      → (spilling constant : ℕ → Bool) (reg_n : ℕ) → conv.count ≤ reg_n
      → IsInterference reg_n
      → (r : Allocation) × (run conv spilling constant occur edges reg_n ≡ some r)
        × Ends spilling (Allocates reg_n) (Occurs conv occur reg_n) r
        × (((u : ℕ) → Few u) → (s : Colors) × (r ≡ Allocation.colored s))
  unfolding run
  run_lem ok spilling constant reg_n hn g =
      let nodes = start conv occur edges conv.count (reg_n - conv.count) in
      let st = start_lem conv.count (reg_n - conv.count) in
      let graph : IsGraph conv occur edges nodes.0 = record {
        symmetric = g.symmetric;
        irreflexive = g.irreflexive;
        sets = g.sets;
        ends = λ u v i.
            let (a, b) = g.ends u v i in
            elim (Bool-cases (ltb v conv.count)) [
              | inl k ↦ inl (ground arith, b)
              | inr k ↦ inr ((st.nodes v).1 (ground arith, omega arith, b))
            ];
        low = λ u i. ((st.nodes u).0 i).0;
        once = st.once;
      } in
      let queued : Queued conv occur (record { edges = edges; queue = nodes.1; remain = nodes.0 }) =
        record {
          graph = graph;
          once = st.queued_once;
          few = λ u i. (st.queued u).0 i;
          waits = λ u i l. (st.queued u).1 (i, l);
        } in
      let (g', h, e, order, q', done) =
        simplify_lem conv occur (suc (length nodes.0)) edges nodes.1 nodes.0 [] queued
          (omega arith) in
      let with_queue : List ℕ → Graph =
        λ l. record { edges = g'.edges; queue = l; remain = g'.remain } in
      let same : g' ≡ with_queue [] = ap with_queue done in
      let (r, f, ends, complete) =
        ended nodes.0 st.nodes graph g'.edges h g'.remain order (subst (Queued conv occur) same q')
          g'.remain refl in
      (r, rw (e ∙ ap (λ x. some (x, h)) same) f, ends, complete)
    where
      allocates :
          (s : Colors) (remain : List ℕ)
          → Nodes reg_n remain
          → Colored conv occur edges remain s
          → Allocates reg_n s
      allocates s remain st c = record {
        differ = c.differ;
        fixed = c.fixed;
        all = λ u lo hi o. c.all u ((st u).1 (lo, omega arith, o));
      }

      ended :
          (remain : List ℕ)
          → Nodes reg_n remain
          → IsGraph conv occur edges remain
          → (edges' : ℕ → List ℕ) (h : History) (left : List ℕ)
          → Order conv occur edges remain h edges' left
          → Queued conv occur (emptied edges' left)
          → (rest : List ℕ) → left ≡ rest
          → (r : Allocation) × (elim rest [
            | [] ↦ (do s ← select conv occur h; some (Allocation.colored s))
            | _ ∷ _ ↦
                spill_all conv spilling constant (suc (length left)) (emptied edges' left) h []
          ]
              ≡ some r)
            × Ends spilling (Allocates reg_n) (Occurs conv occur reg_n) r
            × (((u : ℕ) → Few u) → (s : Colors) × (r ≡ Allocation.colored s))
      ended remain st graph edges' h left order q [] e =
          let (s, p, c) =
            select_lem conv occur ok edges remain h edges' graph
              (subst (Order conv occur edges remain h edges') e order) in
          (Allocation.colored s, rw p refl, allocates s remain st c, (λ _. (s, refl)))
      ended remain st graph edges' h left order q (u ∷ rest) e =
          let (_, sub) = Order-remain conv occur edges remain h edges' left order in
          let here : In u left = subst (In u) (sym e) (inl refl) in
          let (r, f, ends) =
            spill_all_lem conv occur spilling constant (Allocates reg_n) (Occurs conv occur reg_n)
              (suc (length left)) edges' left h [] ok.positive q (omega arith)
              (λ v i. let (a, b, c) = (st v).0 (sub v i) in ((a, omega arith, c), λ j. j)) tt
              (u, inr here) (λ v i. absurd i) in
          (
            r,
            f,
            ends,
            λ few.
                let size = Order-length conv occur edges remain h edges' left order u in
                let enough = few u in absurd (q.waits u here (omega arith)),
          )
