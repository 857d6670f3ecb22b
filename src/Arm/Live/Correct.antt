-- ===== src/Arm/Live/Correct.antt =====
-- The sets that `calc_live` of src/arm/program.cpp ends with, against the equations for live registers.
use helesta.Prelude.{
  ℕ, zero, suc, ◌+◌, ◌*◌, ◌<◌, ◌≡◌, inl, inr, refl, sym, ap, subst, ◌∙◌, Bool, true, false, ◌&&◌,
  some, List, [], ◌∷◌, ◌==◌, length, has, Bool-cases, arith,
}
use helesta.Arm.Inst.{Reg}
use helesta.Arm.Inst.Reads.{has_reg}
use helesta.Arm.Dce.{RegSet}
use helesta.Arm.Live.{Block, Lives, local, pairs, block_at, first_queue, calc_live}
use helesta.Arm.Live.Measure.{missing, missing_all, sum_bound}
use helesta.Arm.Live.Transfer.{entry, through, entry-through}
use helesta.Arm.Live.Pull.{has_pair, has_pair-append, LiveAt, here, back, Spreads}
use helesta.Arm.Live.Spread.{Closed, Ends, spread_lem}

abbrev registers : List (ℕ × Reg) → List Reg
registers [] = []
registers ((b, r) ∷ ps) = r ∷ registers ps

length-registers : (ps : List (ℕ × Reg)) → length (registers ps) ≡ length ps
length-registers [] = refl
length-registers (p ∷ ps) = ap suc (length-registers ps)

registers-has :
    (ps : List (ℕ × Reg)) (b : ℕ) (r : Reg)
    → has_pair ps b r ≡ true
    → has_reg (registers ps) r ≡ true
registers-has [] b r h = cc
registers-has ((c, q) ∷ ps) b r h = ground (arith, registers-has ps b r)

pairs-has :
    (b : ℕ) (rs : List Reg) (c : ℕ) (r : Reg)
    → has_pair (pairs b rs) c r ≡ ((b == c) && has_reg rs r)
pairs-has b [] c r = ground arith
pairs-has b (q ∷ rs) c r = ground (arith, pairs-has b rs c r)

abbrev uses_at : List Block → ℕ → List Reg
uses_at blocks b = (local (block_at blocks b).insts).live_use

abbrev defs_at : List Block → ℕ → List Reg
defs_at blocks b = (local (block_at blocks b).insts).def

first_queue-low :
    (bs : List Block) (i c : ℕ) (r : Reg) → c < i → has_pair (first_queue i bs) c r ≡ false
unfolding first_queue
first_queue-low [] i c r h = refl
first_queue-low (b ∷ bs) i c r h =
    let a = has_pair-append (pairs i (local b.insts).live_use) (first_queue (suc i) bs) c r in
    let d = pairs-has i (local b.insts).live_use c r in
    let e = first_queue-low bs (suc i) c r (omega arith) in ground arith

-- The queue at the start has what the blocks read.
first_queue-has :
    (bs : List Block) (i j : ℕ) (r : Reg)
    → has_pair (first_queue i bs) (i + j) r ≡ has_reg (uses_at bs j) r
unfolding first_queue
first_queue-has [] i j r = refl
first_queue-has (b ∷ bs) i zero r =
    let a = has_pair-append (pairs i (uses_at (b ∷ bs) 0)) (first_queue (suc i) bs) (i + 0) r in
    let d = pairs-has i (uses_at (b ∷ bs) 0) (i + 0) r in
    let e = first_queue-low bs (suc i) (i + 0) r (omega arith) in ground arith
first_queue-has (b ∷ bs) i (suc j) r =
    let a = has_pair-append (pairs i (uses_at (b ∷ bs) 0)) (first_queue (suc i) bs) (i + suc j) r in
    let d = pairs-has i (uses_at (b ∷ bs) 0) (i + suc j) r in
    let next : suc i + j ≡ i + suc j = omega arith in
    let e : has_pair (first_queue (suc i) bs) (i + suc j) r ≡ has_reg (uses_at bs j) r =
      subst (λ z. has_pair (first_queue (suc i) bs) z r ≡ has_reg (uses_at bs j) r) next
        (first_queue-has bs (suc i) j r) in
    ground arith

-- Sets of live registers at the starts and the ends of the blocks that fit together.
pub record Solves (blocks : List Block) (ins outs : ℕ → RegSet) : Type 0 where
  pub block : (b : ℕ) (r : Reg) → ins b r ≡ entry (block_at blocks b).insts (outs b) r
  pub edge :
      (p b : ℕ) (r : Reg)
      → has (block_at blocks b).in_edge p ≡ true
      → ins b r ≡ true
      → outs p r ≡ true

module _ (blocks : List Block) where
  abbrev pub in_edge : ℕ → List ℕ
  in_edge b = (block_at blocks b).in_edge

  LiveAt-Solves :
      (ins outs : ℕ → RegSet)
      → Solves blocks ins outs
      → (b : ℕ) (r : Reg) → LiveAt in_edge (uses_at blocks) (defs_at blocks) b r
      → ins b r ≡ true
  LiveAt-Solves ins outs s b r (here _ _ h) =
      let a = s.block b r in
      let e = entry-through (outs b) (block_at blocks b).insts r in ground arith
  LiveAt-Solves ins outs s p r (back _ b _ h d l) =
      let o = s.edge p b r h (LiveAt-Solves ins outs s b r l) in
      let a = s.block p r in
      let e = entry-through (outs p) (block_at blocks p).insts r in ground arith

  -- The search ends, with the registers for which there is a way to an instruction that reads them.
  pub calc_live-Ends :
      (range : (b p : ℕ) → has (in_edge b) p ≡ true → p < length blocks)
      → Ends in_edge
          (uses_at blocks)
          (defs_at blocks)
          (length blocks)
          (registers (first_queue 0 blocks))
          range
          (calc_live blocks)
  unfolding calc_live
  calc_live-Ends range =
      let uses = uses_at blocks in
      let defs = defs_at blocks in
      let queue = first_queue 0 blocks in
      let all = registers queue in
      let first : Lives = record { live_in = uses; live_out = λ b. []; queue = queue } in
      let i : Spreads in_edge uses defs all first = record {
        ins = λ b r h. here b r h;
        outs = λ p r h. cc;
        reads = λ b r h. h;
        passes = λ p r h d. cc;
        waits = λ b r h. let e = first_queue-has blocks 0 b r in ground arith;
        known =
            λ b r h. registers-has queue b r (let e = first_queue-has blocks 0 b r in ground arith);
      } in
      let bound =
        sum_bound (length blocks) (length all) (λ p. missing (uses p) all)
          (λ p. missing_all (uses p) all) in
      let size = length-registers queue in
      let same : length blocks * length all ≡ length blocks * length queue =
        ap (λ z. length blocks * z) size in
      spread_lem in_edge uses defs (length blocks) all range
        (suc (length queue + length blocks * length queue)) first i
        (λ b r h. inl (let e = first_queue-has blocks 0 b r in ground arith)) (omega arith)

  -- Where the edges lead to blocks of the list, the search ends, and its sets are the least that fit together: a
  -- register is live at the end of a block only where it is live at the start of one after it.
  pub calc_live_lem :
      ((b p : ℕ) → has (in_edge b) p ≡ true → p < length blocks)
      → (s : Lives) × (calc_live blocks ≡ some s)
        × Solves blocks (λ b. has_reg (s.live_in b)) (λ b. has_reg (s.live_out b))
        × ((p : ℕ) (r : Reg)
            → has_reg (s.live_out p) r ≡ true
            → (b : ℕ) × (has (in_edge b) p ≡ true) × (has_reg (s.live_in b) r ≡ true))
        × ((ins outs : ℕ → RegSet)
            → Solves blocks ins outs
            → (b : ℕ) (r : Reg) → has_reg (s.live_in b) r ≡ true
            → ins b r ≡ true)
  calc_live_lem range =
      let (s, e, t, closed) = calc_live-Ends range in
      (
        s,
        e,
        record {
          block = λ b r. equation s t closed b r (has_reg (s.live_in b) r) refl;
          edge = λ p b r h l. closed b r l p h;
        },
        (λ p r h. let (b, k, l) = t.outs p r h in (b, k, live s t closed b r l)),
        (λ ins outs v b r h. LiveAt-Solves ins outs v b r (t.ins b r h)),
      )
    where
      live :
          (s : Lives)
          → Spreads in_edge (uses_at blocks) (defs_at blocks) (registers (first_queue 0 blocks)) s
          → ((c : ℕ) (q : Reg)
              → has_reg (s.live_in c) q ≡ true
              → Closed in_edge (uses_at blocks) (defs_at blocks) s c q)
          → (b : ℕ) (r : Reg) → LiveAt in_edge (uses_at blocks) (defs_at blocks) b r
          → has_reg (s.live_in b) r ≡ true
      live s t c b r (here _ _ h) = t.reads b r h
      live s t c p r (back _ b _ h d l) = t.passes p r (c b r (live s t c b r l) p h) d

      ahead :
          (s : Lives)
          → Spreads in_edge (uses_at blocks) (defs_at blocks) (registers (first_queue 0 blocks)) s
          → ((c : ℕ) (q : Reg)
              → has_reg (s.live_in c) q ≡ true
              → Closed in_edge (uses_at blocks) (defs_at blocks) s c q)
          → (b : ℕ) (r : Reg) → LiveAt in_edge (uses_at blocks) (defs_at blocks) b r
          → through (local (block_at blocks b).insts) (has_reg (s.live_out b)) r ≡ true
      ahead s t c b r (here _ _ h) = ground arith
      ahead s t c p r (back _ b _ h d l) = let o = c b r (live s t c b r l) p h in ground arith

      equation :
          (s : Lives)
          → Spreads in_edge (uses_at blocks) (defs_at blocks) (registers (first_queue 0 blocks)) s
          → ((c : ℕ) (q : Reg)
              → has_reg (s.live_in c) q ≡ true
              → Closed in_edge (uses_at blocks) (defs_at blocks) s c q)
          → (b : ℕ) (r : Reg) (v : Bool) → has_reg (s.live_in b) r ≡ v
          → v ≡ entry (block_at blocks b).insts (has_reg (s.live_out b)) r
      equation s t c b r true h = sym (
          entry-through (has_reg (s.live_out b)) (block_at blocks b).insts r
          ∙ ahead s t c b r (t.ins b r h))
      equation s t c b r false h =
          let e = entry-through (has_reg (s.live_out b)) (block_at blocks b).insts r in
          let unread : has_reg (uses_at blocks b) r ≡ false =
            elim (Bool-cases (has_reg (uses_at blocks b) r)) [
              | inl k ↦ let l = t.reads b r k in cc
              | inr k ↦ k
            ] in
          elim (Bool-cases (has_reg (s.live_out b) r)) [
            | inr o ↦ ground arith
            | inl o ↦ elim (Bool-cases (has_reg (defs_at blocks b) r)) [
              | inl d ↦ ground arith
              | inr d ↦ let l = t.passes b r o d in cc
            ]
          ]
