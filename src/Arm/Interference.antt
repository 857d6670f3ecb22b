-- ===== src/Arm/Interference.antt =====
-- `build_graph` of src/arm/simple_coloring_alloc.hpp: the interference graph of the registers of one type, from the
-- live registers. Registers of one type are their numbers.
pub mod Edges
pub mod Ids
pub mod Scan
pub mod Apart
pub mod Occurs
pub mod Blocks
pub mod Correct
pub mod Tests
use helesta.Prelude.{
  ℕ, zero, suc, ◌+◌, Bool, true, false, not, ◌&&◌, ◌||◌, Option, none, some, List, [], ◌∷◌, ◌++◌,
  ◌==◌, ltb, if◌then◌else◌, has, update, ◌>>=◌,
}
use helesta.Arm.Inst.{Reg, same_type, Inst}
use helesta.Arm.Inst.Sets.{def_reg, use_reg}
use helesta.Arm.Dce.{tracked}
use helesta.Arm.Live.{Block, Lives, calc_live}
use helesta.Arm.Coloring.{RegConvention, Allocation, int_registers, float_registers, erase, run}

-- `interfere_edge`
abbrev pub Edges : Type 0
Edges = ℕ → List ℕ

abbrev pub insert_ascending : ℕ → List ℕ → List ℕ
insert_ascending v [] = v ∷ []
insert_ascending v (x ∷ xs) =
    let rest = insert_ascending v xs in if ltb v x then v ∷ x ∷ xs else x ∷ rest

-- `insert` of a `std::set`, which is in ascending order.
abbrev pub put : ℕ → List ℕ → List ℕ
put v xs = if has xs v then xs else insert_ascending v xs

-- Both insertions of an edge.
unfoldable pub link : ℕ → ℕ → Edges → Edges
link a b e = let f = update e a (put b (e a)) in update f b (put a (f b))

unfoldable pub link_all : ℕ → List ℕ → Edges → Edges
unfolding link
link_all a [] e = e
link_all a (b ∷ bs) e = link_all a bs (link a b e)

unfoldable pub link_others : ℕ → List ℕ → Edges → Edges
unfolding link
link_others a [] e = e
link_others a (b ∷ bs) e = link_others a bs (if a == b then e else link a b e)

-- The two loops over `temp`, and those over `new_nodes`.
unfoldable pub link_pairs : List ℕ → Edges → Edges
unfolding link_others
link_pairs [] e = e
link_pairs (a ∷ bs) e = link_pairs bs (link_others a bs e)

module _ (is_float : Bool) where
  -- The registers of the type, and those of them that are followed.
  abbrev pub of_type : List Reg → List ℕ
  of_type [] = []
  of_type (r ∷ rs) =
      let rest = of_type rs in if same_type r.is_float is_float then r.id ∷ rest else rest

  abbrev pub ids : List Reg → List ℕ
  ids [] = []
  ids (r ∷ rs) =
      let rest = ids rs in if same_type r.is_float is_float && tracked r then r.id ∷ rest else rest

  -- The loops over `def_reg` and over `use_reg` of an instruction, and the one over `def_reg` of the one before it.
  unfoldable pub kill : List ℕ → List ℕ → List ℕ
  kill [] live = live
  kill (d ∷ ds) live = kill ds (erase d live)

  unfoldable pub revive : List ℕ → List ℕ → Edges → List ℕ × Edges
  unfolding link_all
  revive [] live e = (live, e)
  revive (r ∷ rs) live e =
      let k = has live r in
      revive rs (if k then live else r ∷ live) (if k then e else link_all r live e)

  unfoldable pub meet : List ℕ → List ℕ → Edges → Edges
  unfolding link_all
  meet [] live e = e
  meet (r ∷ rs) live e = meet rs live (if has live r then e else link_all r live e)

  -- The loop over the instructions, from the last one, with what the instruction before the first of them writes.
  unfoldable pub scan : List ℕ → List Inst → List ℕ → Edges → List ℕ × Edges
  unfolding kill revive meet link_pairs use_reg def_reg
  scan before [] live e = (live, e)
  scan before (i ∷ is) live e =
      let after = scan (ids (def_reg i)) is live e in
      let now = revive (ids (use_reg i)) (kill (ids (def_reg i)) after.0) after.1 in
      (now.0, link_pairs (ids (use_reg i) ++ before) (meet before now.0 now.1))

  unfoldable pub last_defs : List Inst → List ℕ
  unfolding def_reg
  last_defs [] = []
  last_defs (i ∷ []) = ids (def_reg i)
  last_defs (i ∷ j ∷ is) = last_defs (j ∷ is)

  unfoldable pub build_block : List Inst → List Reg → Edges → Edges
  unfolding scan link_pairs last_defs
  build_block insts live_out e =
      (scan [] insts (of_type live_out) (link_pairs (ids live_out ++ last_defs insts) e)).1

  unfoldable pub build_blocks : Lives → ℕ → List Block → Edges → Edges
  unfolding build_block
  build_blocks s i [] e = e
  build_blocks s i (b ∷ bs) e = build_blocks s (suc i) bs (build_block b.insts (s.live_out i) e)

  -- `occur`
  unfoldable pub occurs : List Inst → ℕ → Bool
  unfolding def_reg use_reg
  occurs [] v = false
  occurs (i ∷ is) v = (has (ids (def_reg i)) v || has (ids (use_reg i)) v) || occurs is v

  abbrev pub occurs_in : List Block → ℕ → Bool
  unfolding occurs
  occurs_in [] v = false
  occurs_in (b ∷ bs) v = occurs b.insts v || occurs_in bs v

  unfoldable pub build_graph : List Block → Option Edges
  unfolding calc_live build_blocks
  build_graph blocks = do s ← calc_live blocks; some (build_blocks s 0 blocks (λ v. []))

abbrev pub registers_of : Bool → RegConvention
registers_of is_float = if is_float then float_registers else int_registers

-- `run` from the instructions on.
unfoldable pub allocate : Bool → (ℕ → Bool) → (ℕ → Bool) → List Block → ℕ → Option Allocation
unfolding build_graph occurs_in run
allocate is_float spilling constant blocks reg_n = do
  e ← build_graph is_float blocks
  run (registers_of is_float) spilling constant (occurs_in is_float blocks) e reg_n
