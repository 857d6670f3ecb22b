-- ===== src/Arm/Dce/Walks.antt =====
-- Walks through a function, before and after `dce` of src/arm/opt/dce.cpp.
use helesta.Prelude.{
  ℕ, zero, suc, ◌+◌, ◌<◌, ◌≡◌, refl, sym, ap, subst, ◌∙◌, Bool, true, false, not, ◌&&◌, ◌||◌, some,
  List, [], ◌∷◌, All, has, length, if◌then◌else◌, Bool-cases, inl, inr, arith,
}
use helesta.Arm.Cond.{InstCond}
use helesta.Arm.Inst.{Reg, Form, Inst, same_reg}
use helesta.Arm.Inst.Sets.{def_reg, use_reg, use_cpsr, change_cpsr, side_effect}
use helesta.Arm.Inst.Reads.{has_reg}
use helesta.Arm.Dce.{RegSet, tracked, erase_all, insert_all, update_live, writes_used, Kept, dce}
use helesta.Arm.Dce.Live.{update_live-stays, writes_used_lem}
use helesta.Arm.Dce.Correct.{State, IsMachine, Agree, IsRegular, execute, dce_lem}
use helesta.Arm.Dce.Func.{prune, dce_func}
use helesta.Arm.Live.{Block, Lives, block_at, calc_live}
use helesta.Arm.Live.Transfer.{entry}
use helesta.Arm.Live.Correct.{Solves, in_edge, calc_live_lem}

-- A block reads flags that it has not set.
abbrev pub flags_read : List Inst → Bool
flags_read [] = false
flags_read (i ∷ is) = (flags_read is && not (change_cpsr i.form)) || use_cpsr i.cond

abbrev Within : RegSet → RegSet → Type 0
Within a b = (q : Reg) → a q ≡ true → b q ≡ true

erase_all-Within :
    (rs : List Reg) (a b : RegSet) → Within a b → Within (erase_all rs a) (erase_all rs b)
unfolding erase_all
erase_all-Within [] a b h = h
erase_all-Within (r ∷ rs) a b h =
    erase_all-Within rs (if tracked r then (λ q. if same_reg r q then false else a q) else a)
      (if tracked r then (λ q. if same_reg r q then false else b q) else b) (go (tracked r))
  where
    go :
        (t : Bool)
        → Within
            (if t then (λ q. if same_reg r q then false else a q) else a)
            (if t then (λ q. if same_reg r q then false else b q) else b)
    go false q k = h q k
    go true q k = ground (arith, h q)

insert_all-Within :
    (rs : List Reg) (a b : RegSet) → Within a b → Within (insert_all rs a) (insert_all rs b)
unfolding insert_all
insert_all-Within [] a b h = h
insert_all-Within (r ∷ rs) a b h =
    insert_all-Within rs (if tracked r then (λ q. if same_reg r q then true else a q) else a)
      (if tracked r then (λ q. if same_reg r q then true else b q) else b) (go (tracked r))
  where
    go :
        (t : Bool)
        → Within
            (if t then (λ q. if same_reg r q then true else a q) else a)
            (if t then (λ q. if same_reg r q then true else b q) else b)
    go false q k = h q k
    go true q k = ground (arith, h q)

update_live-Within :
    (i : Inst) (a b : RegSet) → Within a b → Within (update_live i a) (update_live i b)
unfolding update_live
update_live-Within i a b h =
    insert_all-Within (use_reg i) (erase_all (def_reg i) a) (erase_all (def_reg i) b)
      (erase_all-Within (def_reg i) a b h)

-- What the pass finds live at the start of a block is live there.
dce-Within :
    (out : RegSet) (is : List Inst)
    → Within (dce out is).live (entry is out) × ((dce out is).cpsr ≡ true → flags_read is ≡ true)
unfolding dce
dce-Within out [] = ((λ q h. h), (λ h. cc))
dce-Within out (i ∷ is) =
    let (a, b) = dce-Within out is in
    go (dce out is) a b
      ((side_effect i.form || (change_cpsr i.form && (dce out is).cpsr))
        || writes_used (def_reg i) (dce out is).live)
      refl
  where
    go :
        (k : Kept)
        → Within k.live (entry is out)
        → (k.cpsr ≡ true → flags_read is ≡ true)
        → (used : Bool)
        → ((side_effect i.form || (change_cpsr i.form && k.cpsr)) || writes_used (def_reg i) k.live)
          ≡ used
        → let k' : Kept =
            (if used
              then record {
                insts = i ∷ k.insts;
                live = update_live i k.live;
                cpsr = (k.cpsr && not (change_cpsr i.form)) || use_cpsr i.cond;
              }
              else k) in
          Within k'.live (entry (i ∷ is) out) × (k'.cpsr ≡ true → flags_read (i ∷ is) ≡ true)
    go k a b true u = (update_live-Within i k.live (entry is out) a, (λ h. ground arith))
    go k a b false u = (
      (λ q h.
          let other : has_reg (def_reg i) q ≡ false = elim (Bool-cases (has_reg (def_reg i) q)) [
            | inl d ↦ let (_, n) = writes_used_lem (def_reg i) k.live q (ground arith) d in cc
            | inr d ↦ d
          ] in
          update_live-stays i (entry is out) q other (a q h)),
      (λ h. ground arith),
    )

block_at-prune :
    (s : Lives) (i j : ℕ) (bs : List Block)
    → (block_at (prune s i bs) j).insts
      ≡ (dce (has_reg (s.live_out (i + j))) (block_at bs j).insts).insts
unfolding prune dce
block_at-prune s i j [] = refl
block_at-prune s i zero (b ∷ bs) =
    let e : i ≡ i + 0 = omega arith in ap (λ x. (dce (has_reg (s.live_out x)) b.insts).insts) e
block_at-prune s i (suc j) (b ∷ bs) =
    let e : suc i + j ≡ i + suc j = omega arith in
    block_at-prune s (suc i) j bs
    ∙ ap (λ x. (dce (has_reg (s.live_out x)) (block_at bs j).insts).insts) e

-- The blocks of a walk after its first one.
abbrev pub IsWalk : (ℕ → List ℕ) → ℕ → List ℕ → Type 0
IsWalk edges b [] = Unit {0}
IsWalk edges b (c ∷ cs) = (has (edges c) b ≡ true) × IsWalk edges c cs

abbrev pub end_of : ℕ → List ℕ → ℕ
end_of b [] = b
end_of b (c ∷ cs) = end_of c cs

module _ (Val Flags Mem : Type 0) (holds : InstCond → Flags → Bool)
    (effect : Form → State Val Flags Mem → State Val Flags Mem) where
  abbrev Run : List Inst → State Val Flags Mem → State Val Flags Mem
  Run = execute Val Flags Mem holds effect

  abbrev Same : List Reg → State Val Flags Mem → State Val Flags Mem → Type 0
  Same live = Agree Val Flags Mem (has_reg live) false

  -- The blocks of a walk, one after the other.
  unfoldable pub run_walk : List Block → ℕ → List ℕ → State Val Flags Mem → State Val Flags Mem
  run_walk blocks b [] s = Run (block_at blocks b).insts s
  run_walk blocks b (c ∷ cs) s = run_walk blocks c cs (Run (block_at blocks b).insts s)

  module _ (machine : IsMachine Val Flags Mem holds effect) (blocks : List Block)
      (regular : (b : ℕ) → All (IsRegular Val Flags Mem) (block_at blocks b).insts)
      (quiet : (b : ℕ) → flags_read (block_at blocks b).insts ≡ false) where
    block_lem :
        (l : Lives) (b : ℕ) (s t : State Val Flags Mem)
        → Solves blocks (λ b. has_reg (l.live_in b)) (λ b. has_reg (l.live_out b))
        → Same (l.live_in b) s t
        → Same
            (l.live_out b)
            (Run (block_at blocks b).insts s)
            (Run (block_at (prune l 0 blocks) b).insts t)
    block_lem l b s t v a =
        let insts = (block_at blocks b).insts in
        let out : RegSet = has_reg (l.live_out b) in
        let zeroth : 0 + b ≡ b = omega arith in
        let (inside, cpsr) = dce-Within out insts in
        subst (λ is. Same (l.live_out b) (Run insts s) (Run is t))
          (sym (
            block_at-prune l 0 b blocks
            ∙ ap (λ x. (dce (has_reg (l.live_out x)) insts).insts) zeroth))
          (dce_lem Val Flags Mem holds effect machine out insts (regular b) s t (record {
            lives = λ q h. a.lives q (v.block b q ∙ inside q h);
            fixed = a.fixed;
            mem = a.mem;
            flags = λ c. let r = cpsr c in let n = quiet b in cc;
          }))

    walk_lem :
        (l : Lives) (b : ℕ) (cs : List ℕ) (s t : State Val Flags Mem)
        → Solves blocks (λ b. has_reg (l.live_in b)) (λ b. has_reg (l.live_out b))
        → IsWalk (in_edge blocks) b cs
        → Same (l.live_in b) s t
        → Same
            (l.live_out (end_of b cs))
            (run_walk blocks b cs s)
            (run_walk (prune l 0 blocks) b cs t)
    unfolding run_walk
    walk_lem l b [] s t v w a = block_lem l b s t v a
    walk_lem l b (c ∷ cs) s t v (e, w) a =
        let n = block_lem l b s t v a in
        walk_lem l c cs (Run (block_at blocks b).insts s)
          (Run (block_at (prune l 0 blocks) b).insts t) v w
          (record {
            lives = λ q h. n.lives q (v.edge b c q e h);
            fixed = n.fixed;
            mem = n.mem;
            flags = n.flags;
          })

    -- Where the edges lead to blocks of the function, no instruction is an F2D0, an F2D1 or a conditional FRegInst or
    -- SIMD, no block reads flags that it has not set, and the machine reads and writes only what `use_reg` and
    -- `def_reg` say, the pass ends. Then each walk through the blocks, from states that agree on the registers live at its start, ends in
    -- states that agree on those live at its end, whether the blocks are those before the pass or those after it;
    -- both states also agree on the registers that are never allocated and on the memory.
    pub dce_func_lem :
        ((b p : ℕ) → has (in_edge blocks b) p ≡ true → p < length blocks)
        → (l : Lives) × (after : List Block) × (calc_live blocks ≡ some l)
          × (dce_func blocks ≡ some after)
          × ((b : ℕ) (cs : List ℕ) (s t : State Val Flags Mem)
              → IsWalk (in_edge blocks) b cs
              → Same (l.live_in b) s t
              → Same (l.live_out (end_of b cs)) (run_walk blocks b cs s) (run_walk after b cs t))
    unfolding dce_func
    dce_func_lem range =
        let (l, e, v, _, _) = calc_live_lem blocks range in
        (l, prune l 0 blocks, e, rw e refl, (λ b cs s t w a. walk_lem l b cs s t v w a))
