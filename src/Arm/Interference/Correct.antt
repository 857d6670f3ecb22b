-- ===== src/Arm/Interference/Correct.antt =====
-- The graph of `build_graph` and the registers that `run` of src/arm/simple_coloring_alloc.hpp makes of it.
use helesta.Prelude.{
  ℕ, ◌+◌, ◌<◌, ◌≤◌, ◌≡◌, ◌≢◌, refl, subst, Bool, true, false, some, List, [], has, length, arith,
}
use helesta.Arm.Inst.Reads.{has_reg}
use helesta.Arm.Coloring.{Colors, Allocation}
use helesta.Arm.Coloring.Sets.{has-In, In-has}
use helesta.Arm.Coloring.Choose.{IsConvention, int-IsConvention, float-IsConvention}
use helesta.Arm.Coloring.Correct.{IsInterference, Occurs, run_lem}
use helesta.Arm.Coloring.Spill.{Ends, Ends-map}
use helesta.Arm.Live.{Block, Lives, block_at, calc_live}
use helesta.Arm.Live.Correct.{in_edge, calc_live-Ends}
use helesta.Arm.Interference.{Edges, occurs_in, build_blocks, build_graph, registers_of, allocate}
use helesta.Arm.Interference.Edges.{IsEdges}
use helesta.Arm.Interference.Ids.{reg}
use helesta.Arm.Interference.Apart.{Apart, Apart-map, Joined}
use helesta.Arm.Interference.Occurs.{LiveAt-occurs, block_at-occurs, occurs-InstsQ}
use helesta.Arm.Interference.Blocks.{build_blocks_lem}

registers_of-IsConvention : (f : Bool) → IsConvention (registers_of f)
registers_of-IsConvention true = float-IsConvention
registers_of-IsConvention false = int-IsConvention

-- Two registers with different colours.
abbrev pub Differ : Colors → ℕ → ℕ → Type 0
Differ s u v = (c : ℕ) × (d : ℕ) × (s.ans u ≡ some c) × (s.ans v ≡ some d) × (c ≢ d)

-- Each register that an instruction writes gets another one than the others that it writes and those that are
-- live behind it, and registers that are live before an instruction get different ones.
abbrev pub Separates : Bool → List Block → Lives → Colors → Type 0
Separates f blocks l s =
    (b : ℕ) → Apart f (Differ s) (has_reg (l.live_out b)) (block_at blocks b).insts

module _ (f : Bool) (blocks : List Block) (reg_n : ℕ)
    (range : (b p : ℕ) → has (in_edge blocks b) p ≡ true → p < length blocks)
    (small : (v : ℕ) → occurs_in f blocks v ≡ true → v < reg_n) where
  abbrev Known : ℕ → Type 0
  Known v = (v < reg_n) × (occurs_in f blocks v ≡ true)

  no-IsEdges : IsEdges Known (λ v. [])
  no-IsEdges = record {
    symmetric = λ u v h. cc;
    irreflexive = λ u. refl;
    sets = λ u. tt;
    ends = λ u v h. cc;
  }

  pub build_graph_lem :
      (l : Lives) × (e : Edges) × (calc_live blocks ≡ some l)
      × (build_graph f blocks ≡ some e)
      × IsInterference (registers_of f) (occurs_in f blocks) e reg_n
      × ((b : ℕ) → Apart f (Joined f e) (has_reg (l.live_out b)) (block_at blocks b).insts)
  unfolding build_graph
  build_graph_lem =
      let (l, eq, t, _) = calc_live-Ends blocks range in
      let known : (v : ℕ) → occurs_in f blocks v ≡ true → Known v = λ v h. (small v h, h) in
      let (x, apart) =
        build_blocks_lem f Known l 0 blocks (λ v. []) no-IsEdges
          (λ b.
            occurs-InstsQ f Known (block_at blocks b).insts
              (λ v h. known v (block_at-occurs f blocks b v h)))
          (λ b v h.
            let (c, _, live) = t.outs b (reg f v) h in
            let (k, o) = LiveAt-occurs f blocks (in_edge blocks) c v (reg f v) live refl in
            (k, known v o)) in
      let i = x.edges no-IsEdges in
      let e = build_blocks f l 0 blocks (λ v. []) in
      (
        l,
        e,
        eq,
        rw eq refl,
        record {
          symmetric = λ u v h. has-In (e v) u (i.symmetric u v (In-has (e u) v h));
          irreflexive = λ u h. let a = In-has (e u) u h in let b = i.irreflexive u in cc;
          sets = i.sets;
          ends = λ u v h. i.ends u v (In-has (e u) v h);
        },
        (λ b.
            let zeroth : 0 + b ≡ b = omega arith in
            subst (λ z. Apart f (Joined f e) (has_reg (l.live_out z)) (block_at blocks b).insts)
              zeroth (apart b)),
      )

  -- The allocation ends, and no assertion fails but perhaps that of `choose_spill`, where the edges lead to blocks of
  -- the function and the registers are below their number. If it gives registers to those of the type that is
  -- allocated, each register that an instruction writes gets another one than the others that it writes and those that
  -- are live behind it, and registers that are live before an instruction get different ones. If it gives registers to
  -- spill, there is at least one, they are different, they occur and none of them is in `spilling_reg`. If the assertion
  -- of `choose_spill` fails, a register is left, and all that are left occur and are in `spilling_reg`.
  pub allocate_lem :
      (spilling constant : ℕ → Bool)
      → (registers_of f).count ≤ reg_n
      → (l : Lives) × (r : Allocation) × (calc_live blocks ≡ some l)
        × (allocate f spilling constant blocks reg_n ≡ some r)
        × Ends spilling
            (Separates f blocks l)
            (Occurs (registers_of f) (occurs_in f blocks) reg_n)
            r
  unfolding allocate
  allocate_lem spilling constant low =
      let (l, e, eq, g, i, apart) = build_graph_lem in
      let (r, h, ends, _) =
        run_lem (registers_of f) (occurs_in f blocks) e (registers_of-IsConvention f) spilling
          constant reg_n low i in
      (
        l,
        r,
        eq,
        rw g h,
        Ends-map spilling _ _ _
            (λ s colors b.
              Apart-map f (Joined f e) (Differ s) (has_reg (l.live_out b)) (block_at blocks b).insts
                (λ u v k. colors.differ u v (has-In (e u) v k)) (apart b))
            r ends,
      )
