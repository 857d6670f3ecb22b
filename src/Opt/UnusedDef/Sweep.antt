-- ===== src/Opt/UnusedDef/Sweep.antt =====
-- The removal of src/ir/opt/remove_unused_def.cpp, block by block.
use helesta.Prelude.{
  ℕ, zero, suc, ◌≡◌, refl, subst, Bool, true, false, some, List, [], ◌∷◌, ◌++◌, length, get_elem?,
  arith,
}
use helesta.Ir.Exec.{Instr}
use helesta.Opt.UnusedDef.{concat, sweep_block, sweep}
use helesta.Opt.UnusedDef.Swept.{Fits, Swept, SweptBlocks, done, keep, drop}

module _ (Live : ℕ → Type 0) where
  -- Each instruction fits its mark.
  abbrev pub Fitted : List Bool → List Instr → Type 0
  Fitted [] [] = Unit {0}
  Fitted (u ∷ us) (i ∷ is) = Fits Live u i × Fitted us is
  Fitted _ _ = ⊥

  pub Fitted-all :
      (us : List Bool) (is : List Instr)
      → length us ≡ length is
      → ((k : ℕ) (u : Bool) (i : Instr)
          → get_elem? us k ≡ some u
          → get_elem? is k ≡ some i
          → Fits Live u i)
      → Fitted us is
  Fitted-all [] [] h f = tt
  Fitted-all [] (i ∷ is) h f = absurd (omega arith)
  Fitted-all (u ∷ us) [] h f = absurd (omega arith)
  Fitted-all (u ∷ us) (i ∷ is) h f =
      (f 0 u i refl refl, Fitted-all us is (omega arith) (λ k. f (suc k)))

  sweep_block-Swept :
      (us : List Bool) (is rest : List Instr)
      → Fitted us (is ++ rest)
      → Swept Live is (sweep_block us is).0 × Fitted (sweep_block us is).1 rest
  unfolding sweep_block
  sweep_block-Swept us [] rest h = (done, h)
  sweep_block-Swept [] (i ∷ is) rest h = absurd h
  sweep_block-Swept (true ∷ us) (i ∷ is) rest (f, h) =
      let (w, k) = sweep_block-Swept us is rest h in (keep f w, k)
  sweep_block-Swept (false ∷ us) (i ∷ is) rest (f, h) =
      let (w, k) = sweep_block-Swept us is rest h in (drop f w, k)

  pub sweep-SweptBlocks :
      (us : List Bool) (bs : List (List Instr))
      → Fitted us (concat bs)
      → SweptBlocks Live bs (sweep us bs)
  unfolding sweep
  sweep-SweptBlocks us [] h k is q = cc
  sweep-SweptBlocks us (b ∷ bs) h zero is q =
      let (w, r) = sweep_block-Swept us b (concat bs) h in
      let same : b ≡ is = ground arith in
      ((sweep_block us b).0, refl, subst (λ l. Swept Live l (sweep_block us b).0) same w)
  sweep-SweptBlocks us (b ∷ bs) h (suc k) is q =
      let (w, r) = sweep_block-Swept us b (concat bs) h in
      sweep-SweptBlocks (sweep_block us b).1 bs r k is q
