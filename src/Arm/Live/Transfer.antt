-- ===== src/Arm/Live/Transfer.antt =====
-- `live_use` and `def` of a block, from `calc_live` of src/arm/program.cpp, against `update_live` of src/arm/inst.hpp.
use helesta.Prelude.{
  ◌≡◌, ap, Bool, true, false, not, ◌&&◌, ◌||◌, List, [], ◌∷◌, if◌then◌else◌, Bool-cases, inl, inr,
  arith,
}
use helesta.Arm.Inst.{Reg, same_reg, Inst}
use helesta.Arm.Inst.Sets.{def_reg, use_reg}
use helesta.Arm.Inst.Reads.{has_reg}
use helesta.Arm.Inst.Renamed.{same_reg_lem}
use helesta.Arm.Dce.{RegSet, tracked, erase_all, insert_all, update_live}
use helesta.Arm.Live.{Local, add, erase_reg, add_defs, add_uses, local}

pub has_reg-same : (rs : List Reg) (r q : Reg) → same_reg r q ≡ true → has_reg rs r ≡ has_reg rs q
has_reg-same rs r q k = ap (has_reg rs) (same_reg_lem r q k)

pub has_reg-add :
    (rs : List Reg) (r q : Reg) → has_reg (add r rs) q ≡ (same_reg r q || has_reg rs q)
has_reg-add rs r q = elim (Bool-cases (same_reg r q)) [
  | inl k ↦ let e = has_reg-same rs r q k in ground arith
  | inr k ↦ ground arith
]

pub has_reg-erase_reg :
    (rs : List Reg) (r q : Reg) → has_reg (erase_reg r rs) q ≡ (not (same_reg r q) && has_reg rs q)
has_reg-erase_reg [] r q = ground arith
has_reg-erase_reg (s ∷ rs) r q = elim (Bool-cases (same_reg r s)) [
  | inl k ↦
      let i = has_reg-erase_reg rs r q in
      let e : same_reg r q ≡ same_reg s q = ap (λ x. same_reg x q) (same_reg_lem r s k) in
      rw k (ground arith)
  | inr k ↦
      let i = has_reg-erase_reg rs r q in
      elim (Bool-cases (same_reg s q)) [
        | inl m ↦
            let e : same_reg r s ≡ same_reg r q = ap (same_reg r) (same_reg_lem s q m) in
            rw k (ground arith)
        | inr m ↦ rw k (ground arith)
      ]
]

-- The live registers at the start of a block, from those at its end.
abbrev pub entry : List Inst → RegSet → RegSet
entry [] live = live
entry (i ∷ is) live = update_live i (entry is live)

-- What `live_use` and `def` say of them.
abbrev pub through : Local → RegSet → RegSet
through l live q = has_reg l.live_use q || (live q && not (has_reg l.def q))

module _ (out : RegSet) where
  erased_one :
      (r : Reg) (live : RegSet) (l : Local) (b : Bool)
      → ((q : Reg) → live q ≡ through l out q)
      → (q : Reg)
      → (if b then (λ s. if same_reg r s then false else live s) else live) q
        ≡ through
            (if b then record { live_use = erase_reg r l.live_use; def = add r l.def } else l)
            out
            q
  erased_one r live l false h q = h q
  erased_one r live l true h q =
      let a = has_reg-erase_reg l.live_use r q in
      let b = has_reg-add l.def r q in let c = h q in ground arith

  inserted_one :
      (r : Reg) (live : RegSet) (l : Local) (b : Bool)
      → ((q : Reg) → live q ≡ through l out q)
      → (q : Reg)
      → (if b then (λ s. if same_reg r s then true else live s) else live) q
        ≡ through
            (if b then record { live_use = add r l.live_use; def = erase_reg r l.def } else l)
            out
            q
  inserted_one r live l false h q = h q
  inserted_one r live l true h q =
      let a = has_reg-add l.live_use r q in
      let b = has_reg-erase_reg l.def r q in let c = h q in ground arith

  erase_all-through :
      (rs : List Reg) (live : RegSet) (l : Local)
      → ((q : Reg) → live q ≡ through l out q)
      → (q : Reg) → erase_all rs live q ≡ through (add_defs rs l) out q
  unfolding erase_all add_defs
  erase_all-through [] live l h q = h q
  erase_all-through (r ∷ rs) live l h q =
      erase_all-through rs
        (if tracked r then (λ s. if same_reg r s then false else live s) else live)
        (if tracked r then record { live_use = erase_reg r l.live_use; def = add r l.def } else l)
        (erased_one r live l (tracked r) h) q

  insert_all-through :
      (rs : List Reg) (live : RegSet) (l : Local)
      → ((q : Reg) → live q ≡ through l out q)
      → (q : Reg) → insert_all rs live q ≡ through (add_uses rs l) out q
  unfolding insert_all add_uses
  insert_all-through [] live l h q = h q
  insert_all-through (r ∷ rs) live l h q =
      insert_all-through rs
        (if tracked r then (λ s. if same_reg r s then true else live s) else live)
        (if tracked r then record { live_use = add r l.live_use; def = erase_reg r l.def } else l)
        (inserted_one r live l (tracked r) h) q

  -- A block makes live what its `live_use` has, and lets through what its `def` has not.
  pub entry-through : (is : List Inst) (q : Reg) → entry is out q ≡ through (local is) out q
  unfolding local update_live
  entry-through [] q = ground arith
  entry-through (i ∷ is) q =
      insert_all-through (use_reg i) (erase_all (def_reg i) (entry is out))
        (add_defs (def_reg i) (local is))
        (erase_all-through (def_reg i) (entry is out) (local is) (entry-through is)) q
