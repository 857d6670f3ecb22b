-- ===== src/Arm/Interference/Blocks.antt =====
-- The loop over the blocks in `build_graph` of src/arm/simple_coloring_alloc.hpp.
use helesta.Prelude.{
  ℕ, zero, suc, ◌+◌, ◌≡◌, refl, sym, subst, Bool, true, false, List, [], ◌∷◌, ◌++◌, ◌==◌, has,
  Bool-cases, inl, inr, arith,
}
use helesta.Arm.Inst.{Reg, Inst}
use helesta.Arm.Inst.Reads.{has_reg}
use helesta.Arm.Dce.{tracked}
use helesta.Arm.Live.{Block, Lives, block_at}
use helesta.Arm.Interference.{Edges, link_pairs, of_type, ids, last_defs, build_block, build_blocks}
use helesta.Arm.Interference.Edges.{
  has-append, IsEdges, Extends, Extends-refl, Extends-trans, AllQ, Clique, link_pairs_lem,
}
use helesta.Arm.Interference.Ids.{reg, has-of_type, has-ids}
use helesta.Arm.Interference.Scan.{Alive}
use helesta.Arm.Interference.Apart.{Apart, Apart-map, Joined, InstsQ, or_last, scan_lem}

module _ (f : Bool) (Q : ℕ → Type 0) where
  last_defs_Q : (is : List Inst) → InstsQ f Q is → AllQ Q (last_defs f is)
  unfolding last_defs
  last_defs_Q [] q v h = cc
  last_defs_Q (i ∷ []) (d, _, _) v h = d v h
  last_defs_Q (i ∷ j ∷ is) (_, _, q) v h = last_defs_Q (j ∷ is) q v h

  or_last-none : (is : List Inst) → or_last f Q [] is ≡ last_defs f is
  unfolding last_defs
  or_last-none [] = refl
  or_last-none (i ∷ is) = refl

  -- Registers that are live at the end of a block.
  abbrev pub Ends : List Reg → Type 0
  Ends out = (v : ℕ) → has_reg out (reg f v) ≡ true → (tracked (reg f v) ≡ true) × Q v

  build_block_lem :
      (is : List Inst) (out : List Reg) (e : Edges)
      → IsEdges Q e
      → InstsQ f Q is
      → Ends out
      → Extends Q e (build_block f is out e)
        × Apart f (Joined f (build_block f is out e)) (has_reg out) is
  unfolding build_block
  build_block_lem is out e i q ends =
      let temp = ids f out ++ last_defs f is in
      let ql = last_defs_Q is q in
      let qt : AllQ Q temp = λ v h. elim (Bool-cases (has (last_defs f is) v)) [
        | inl k ↦ ql v k
        | inr k ↦
            let a = has-append (ids f out) (last_defs f is) v in
            let b = has-ids f out v in (ends v (ground arith)).1
      ] in
      let (x, clique) = link_pairs_lem Q temp e qt i in
      let g = link_pairs temp e in
      let inside : (v : ℕ) → has (of_type f out) v ≡ true → has temp v ≡ true = λ v h.
        let a = has-append (ids f out) (last_defs f is) v in
        let b = has-ids f out v in
        let c = has-of_type f out v in let (t, _) = ends v (ground arith) in ground arith in
      let behind : (v : ℕ) → has (last_defs f is) v ≡ true → has temp v ≡ true =
        λ v h. let a = has-append (ids f out) (last_defs f is) v in ground arith in
      let alive : Alive f Q (of_type f out) g = record {
        edges = x.edges i;
        occur = λ v h. let c = has-of_type f out v in (ends v (ground arith)).1;
        clique = λ u v hu hv ne. clique u v (inside u hu) (inside v hv) ne;
      } in
      let same = sym (or_last-none is) in
      let s =
        scan_lem f Q [] is (has_reg out) (of_type f out) g (λ v h. cc) q (has-of_type f out) alive
          (subst
            (λ z.
              (d v : ℕ)
              → has z d ≡ true
              → has (of_type f out) v ≡ true
              → (d == v) ≡ false
              → has (g d) v ≡ true)
            same (λ d v hd hv ne. clique d v (behind d hd) (inside v hv) ne))
          (subst (λ z. Clique Q z g) same
            (λ u v hu hv ne. clique u v (behind u hu) (behind v hv) ne)) in
      (Extends-trans Q e g _ x s.extends, s.apart)

  pub build_blocks_lem :
      (s : Lives) (i : ℕ) (bs : List Block) (e : Edges)
      → IsEdges Q e
      → ((b : ℕ) → InstsQ f Q (block_at bs b).insts)
      → ((b : ℕ) → Ends (s.live_out b))
      → Extends Q e (build_blocks f s i bs e)
        × ((b : ℕ)
            → Apart f
                (Joined f (build_blocks f s i bs e))
                (has_reg (s.live_out (i + b)))
                (block_at bs b).insts)
  unfolding build_blocks
  build_blocks_lem s i [] e g q ends = (Extends-refl Q e, (λ b. tt))
  build_blocks_lem s i (x ∷ bs) e g q ends =
      let (a, apart) = build_block_lem x.insts (s.live_out i) e g (q 0) (ends i) in
      let h = build_block f x.insts (s.live_out i) e in
      let (c, rest) = build_blocks_lem s (suc i) bs h (a.edges g) (λ b. q (suc b)) ends in
      let whole = build_blocks f s (suc i) bs h in
      let later =
        Apart-map f (Joined f h) (Joined f whole) (has_reg (s.live_out i)) x.insts c.keeps apart in
      (Extends-trans Q e h whole a c, at x bs s i whole later rest)
    where
      at :
          (x : Block) (bs : List Block) (s : Lives) (i : ℕ) (whole : Edges)
          → Apart f (Joined f whole) (has_reg (s.live_out i)) x.insts
          → ((b : ℕ)
              → Apart f (Joined f whole) (has_reg (s.live_out (suc i + b))) (block_at bs b).insts)
          → (b : ℕ)
          → Apart f (Joined f whole) (has_reg (s.live_out (i + b))) (block_at (x ∷ bs) b).insts
      at x bs s i whole here rest zero =
          let e : i ≡ i + 0 = omega arith in
          subst (λ z. Apart f (Joined f whole) (has_reg (s.live_out z)) x.insts) e here
      at x bs s i whole here rest (suc b) =
          let e : suc i + b ≡ i + suc b = omega arith in
          subst (λ z. Apart f (Joined f whole) (has_reg (s.live_out z)) (block_at bs b).insts) e
            (rest b)
