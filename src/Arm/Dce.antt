-- ===== src/Arm/Dce.antt =====
-- `dce` of src/arm/opt/dce.cpp over one block, and `update_live` of src/arm/inst.hpp. A set of registers is its
-- membership test.
pub mod Live
pub mod Correct
pub mod Func
pub mod Walks
pub mod Tests
use helesta.Prelude.{Bool, true, false, not, ◌&&◌, ◌||◌, List, [], ◌∷◌, if◌then◌else◌}
use helesta.Arm.Inst.{Reg, same_reg, is_pseudo, is_machine, is_allocable, Inst}
use helesta.Arm.Inst.Sets.{def_reg, use_reg, use_cpsr, change_cpsr, side_effect}

abbrev pub RegSet : Type 0
RegSet = Reg → Bool

-- The registers whose life is followed.
abbrev pub tracked : Reg → Bool
tracked r = is_pseudo r || is_allocable r

unfoldable pub erase_all : List Reg → RegSet → RegSet
erase_all [] live = live
erase_all (r ∷ rs) live =
    erase_all rs (if tracked r then (λ q. if same_reg r q then false else live q) else live)

unfoldable pub insert_all : List Reg → RegSet → RegSet
insert_all [] live = live
insert_all (r ∷ rs) live =
    insert_all rs (if tracked r then (λ q. if same_reg r q then true else live q) else live)

unfoldable pub update_live : Inst → RegSet → RegSet
unfolding erase_all insert_all def_reg use_reg
update_live i live = insert_all (use_reg i) (erase_all (def_reg i) live)

unfoldable pub writes_used : List Reg → RegSet → Bool
writes_used [] live = false
writes_used (r ∷ rs) live =
    ((is_machine r && not (is_allocable r)) || live r) || writes_used rs live

-- What the loop keeps: the instructions behind, the live registers and whether the flags are read.
pub record Kept : Type 0 where
  pub insts : List Inst
  pub live : RegSet
  pub cpsr : Bool

unfoldable pub dce : RegSet → List Inst → Kept
unfolding update_live writes_used def_reg change_cpsr side_effect
dce live_out [] = record { insts = []; live = live_out; cpsr = false }
dce live_out (i ∷ is) =
    let k = dce live_out is in
    let used : Bool =
      (side_effect i.form || (change_cpsr i.form && k.cpsr)) || writes_used (def_reg i) k.live in
    if used
    then record {
      insts = i ∷ k.insts;
      live = update_live i k.live;
      cpsr = (k.cpsr && not (change_cpsr i.form)) || use_cpsr i.cond;
    }
    else k
