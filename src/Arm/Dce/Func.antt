-- ===== src/Arm/Dce/Func.antt =====
-- `dce` of src/arm/opt/dce.cpp over a function: the live registers of `calc_live`, and each block by itself.
use helesta.Prelude.{ℕ, suc, Option, some, List, [], ◌∷◌, ◌>>=◌}
use helesta.Arm.Inst.Reads.{has_reg}
use helesta.Arm.Dce.{dce}
use helesta.Arm.Live.{Block, Lives, calc_live}

unfoldable pub prune : Lives → ℕ → List Block → List Block
unfolding dce
prune s i [] = []
prune s i (b ∷ bs) =
    record b { insts = (dce (has_reg (s.live_out i)) b.insts).insts } ∷ prune s (suc i) bs

unfoldable pub dce_func : List Block → Option (List Block)
unfolding calc_live prune
dce_func blocks = do s ← calc_live blocks; some (prune s 0 blocks)
