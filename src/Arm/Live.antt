-- ===== src/Arm/Live.antt =====
-- `Func::calc_live` of src/arm/program.cpp: the registers that are live at the ends of the blocks. A set is a list;
-- blocks are their places. `none` is the end of the fuel.
pub mod Transfer
pub mod Measure
pub mod Pull
pub mod Spread
pub mod Correct
pub mod Tests
use helesta.Prelude.{
  ℕ, zero, suc, ◌+◌, ◌*◌, Bool, true, false, not, ◌&&◌, ◌||◌, Option, none, some, List, [], ◌∷◌,
  ◌++◌, if◌then◌else◌, length, get_elem?, update, ◌>>=◌,
}
use helesta.Arm.Inst.{Reg, same_reg, Inst}
use helesta.Arm.Inst.Sets.{def_reg, use_reg}
use helesta.Arm.Inst.Reads.{has_reg}
use helesta.Arm.Dce.{tracked}

pub record Block : Type 0 where
  pub insts : List Inst
  pub in_edge : List ℕ

abbrev pub add : Reg → List Reg → List Reg
add r rs = if has_reg rs r then rs else r ∷ rs

abbrev pub erase_reg : Reg → List Reg → List Reg
erase_reg r [] = []
erase_reg r (q ∷ qs) = let rest = erase_reg r qs in if same_reg r q then rest else q ∷ rest

-- `live_use` and `def`.
pub record Local : Type 0 where
  pub live_use : List Reg
  pub def : List Reg

unfoldable pub add_defs : List Reg → Local → Local
add_defs [] l = l
add_defs (r ∷ rs) l =
    add_defs rs
      (if tracked r then record { live_use = erase_reg r l.live_use; def = add r l.def } else l)

unfoldable pub add_uses : List Reg → Local → Local
add_uses [] l = l
add_uses (r ∷ rs) l =
    add_uses rs
      (if tracked r then record { live_use = add r l.live_use; def = erase_reg r l.def } else l)

-- The loop over the instructions of a block, from the last one.
unfoldable pub local : List Inst → Local
unfolding add_defs add_uses def_reg use_reg
local [] = record { live_use = []; def = [] }
local (i ∷ is) = add_uses (use_reg i) (add_defs (def_reg i) (local is))

-- `live_in`, `live_out` and `update`.
pub record Lives : Type 0 where
  pub live_in : ℕ → List Reg
  pub live_out : ℕ → List Reg
  pub queue : List (ℕ × Reg)

abbrev pub pairs : ℕ → List Reg → List (ℕ × Reg)
pairs b [] = []
pairs b (r ∷ rs) = (b, r) ∷ pairs b rs

module _ (in_edge : ℕ → List ℕ) (uses defs : ℕ → List Reg) where
  -- A register that is found live at the end of a block.
  abbrev pub reach : ℕ → Reg → Lives → Lives
  reach p r s =
      let fresh : Bool = not (has_reg (defs p) r) && not (has_reg (s.live_in p) r) in
      record {
        live_in = if fresh then update s.live_in p (r ∷ s.live_in p) else s.live_in;
        live_out = update s.live_out p (r ∷ s.live_out p);
        queue = if fresh then s.queue ++ ((p, r) ∷ []) else s.queue;
      }

  -- The loop over the blocks before one.
  unfoldable pub pull : Reg → List ℕ → Lives → Lives
  pull r [] s = s
  pull r (p ∷ ps) s = pull r ps (if has_reg (s.live_out p) r then s else reach p r s)

  -- The loop over `update`.
  unfoldable pub spread : ℕ → Lives → Option Lives
  unfolding pull
  spread zero s = none
  spread (suc fuel) s = elim s.queue [
    | [] ↦ some s
    | (b, r) ∷ q ↦ spread fuel (pull r (in_edge b) (record s { queue = q }))
  ]

abbrev pub block_at : List Block → ℕ → Block
block_at [] i = record { insts = []; in_edge = [] }
block_at (b ∷ bs) zero = b
block_at (b ∷ bs) (suc i) = block_at bs i

abbrev pub first_queue : ℕ → List Block → List (ℕ × Reg)
unfolding local
first_queue i [] = []
first_queue i (b ∷ bs) = pairs i (local b.insts).live_use ++ first_queue (suc i) bs

unfoldable pub calc_live : List Block → Option Lives
unfolding local spread
calc_live blocks =
    let queue = first_queue 0 blocks in
    let uses : ℕ → List Reg = λ b. (local (block_at blocks b).insts).live_use in
    let defs : ℕ → List Reg = λ b. (local (block_at blocks b).insts).def in
    spread (λ b. (block_at blocks b).in_edge) uses defs
      (suc (length queue + length blocks * length queue))
      (record { live_in = uses; live_out = λ b. []; queue = queue })
