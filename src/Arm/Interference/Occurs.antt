-- ===== src/Arm/Interference/Occurs.antt =====
-- The registers that occur in a function, for `build_graph` of src/arm/simple_coloring_alloc.hpp.
use helesta.Prelude.{
  ℕ, zero, suc, ◌≡◌, subst, Bool, true, false, ◌||◌, List, [], ◌∷◌, Bool-cases, inl, inr, arith,
}
use helesta.Arm.Inst.{Reg, Inst}
use helesta.Arm.Inst.Sets.{def_reg, use_reg}
use helesta.Arm.Inst.Reads.{has_reg}
use helesta.Arm.Dce.{RegSet, tracked, erase_all, update_live}
use helesta.Arm.Live.{Block, block_at, local}
use helesta.Arm.Live.Transfer.{entry, entry-through}
use helesta.Arm.Live.Pull.{LiveAt, here, back}
use helesta.Arm.Interference.{occurs, occurs_in}
use helesta.Arm.Interference.Ids.{reg, has-ids, erase_all_has, insert_all_has}
use helesta.Arm.Interference.Apart.{InstsQ}

abbrev reads : List Inst → Reg → Bool
reads [] r = false
reads (i ∷ is) r = has_reg (use_reg i) r || reads is r

abbrev nothing : RegSet
nothing r = false

-- What is live before a block with nothing live behind it is read there.
entry-reads :
    (is : List Inst) (r : Reg)
    → entry is nothing r ≡ true
    → (tracked r ≡ true) × (reads is r ≡ true)
unfolding update_live
entry-reads [] r h = cc
entry-reads (i ∷ is) r h =
    let a = insert_all_has (use_reg i) (erase_all (def_reg i) (entry is nothing)) r in
    let b = erase_all_has (def_reg i) (entry is nothing) r in
    elim (Bool-cases (entry is nothing r)) [
      | inl k ↦ let (x, y) = entry-reads is r k in (x, ground arith)
      | inr k ↦ (ground arith, ground arith)
    ]

local-reads :
    (is : List Inst) (r : Reg)
    → has_reg (local is).live_use r ≡ true
    → (tracked r ≡ true) × (reads is r ≡ true)
local-reads is r h = let e = entry-through nothing is r in entry-reads is r (ground arith)

module _ (f : Bool) where
  reads-occurs :
      (is : List Inst) (v : ℕ)
      → tracked (reg f v) ≡ true
      → reads is (reg f v) ≡ true
      → occurs f is v ≡ true
  unfolding occurs
  reads-occurs [] v t h = cc
  reads-occurs (i ∷ is) v t h =
      let a = has-ids f (use_reg i) v in
      elim (Bool-cases (has_reg (use_reg i) (reg f v))) [
        | inl k ↦ ground arith
        | inr k ↦ let r = reads-occurs is v t (ground arith) in ground arith
      ]

  pub block_at-occurs :
      (blocks : List Block) (b v : ℕ)
      → occurs f (block_at blocks b).insts v ≡ true
      → occurs_in f blocks v ≡ true
  unfolding occurs occurs_in
  block_at-occurs [] b v h = cc
  block_at-occurs (x ∷ blocks) zero v h = ground arith
  block_at-occurs (x ∷ blocks) (suc b) v h = ground (arith, block_at-occurs blocks b v)

  -- A live register occurs.
  pub LiveAt-occurs :
      (blocks : List Block) (in_edge : ℕ → List ℕ) (b v : ℕ) (r : Reg)
      → LiveAt in_edge
          (λ b. (local (block_at blocks b).insts).live_use)
          (λ b. (local (block_at blocks b).insts).def)
          b
          r
      → r ≡ reg f v
      → (tracked (reg f v) ≡ true) × (occurs_in f blocks v ≡ true)
  LiveAt-occurs blocks in_edge b v r (here _ _ h) e =
      let (t, k) =
        local-reads (block_at blocks b).insts (reg f v)
          (subst (λ z. has_reg (local (block_at blocks b).insts).live_use z ≡ true) e h) in
      (t, block_at-occurs blocks b v (reads-occurs (block_at blocks b).insts v t k))
  LiveAt-occurs blocks in_edge p v r (back _ b _ h d l) e = LiveAt-occurs blocks in_edge b v r l e

  -- The registers of the instructions of a block that occur in it.
  pub occurs-InstsQ :
      (Q : ℕ → Type 0) (is : List Inst) → ((v : ℕ) → occurs f is v ≡ true → Q v) → InstsQ f Q is
  unfolding occurs
  occurs-InstsQ Q [] h = tt
  occurs-InstsQ Q (i ∷ is) h = (
    (λ v k. h v (ground arith)),
    (λ v k. h v (ground arith)),
    occurs-InstsQ Q is (λ v k. h v (ground arith)),
  )
