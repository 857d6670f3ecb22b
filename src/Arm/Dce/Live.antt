-- ===== src/Arm/Dce/Live.antt =====
-- The sets of src/arm/opt/dce.cpp.
use helesta.Prelude.{
  ◌≡◌, refl, sym, ap, ◌∙◌, true, false, List, [], ◌∷◌, if◌then◌else◌, Bool-cases, inl, inr, arith,
}
use helesta.Arm.Inst.{Reg, same_reg, Inst}
use helesta.Arm.Inst.Sets.{def_reg, use_reg}
use helesta.Arm.Inst.Reads.{has_reg}
use helesta.Arm.Inst.Renamed.{same_reg_lem}
use helesta.Arm.Dce.{RegSet, tracked, erase_all, insert_all, update_live, writes_used}

-- A register that is not erased stays, and one that is inserted is there.
erase_other :
    (rs : List Reg) (live : RegSet) (q : Reg)
    → has_reg rs q ≡ false
    → live q ≡ true
    → erase_all rs live q ≡ true
unfolding erase_all
erase_other [] live q h l = l
erase_other (r ∷ rs) live q h l = elim (Bool-cases (tracked r)) [
  | inl k ↦
      rw k (
        erase_other rs (λ q. if same_reg r q then false else live q) q (ground arith)
          (ground arith))
  | inr k ↦ rw k (erase_other rs live q (ground arith) l)
]

insert_other :
    (rs : List Reg) (live : RegSet) (q : Reg) → live q ≡ true → insert_all rs live q ≡ true
unfolding insert_all
insert_other [] live q l = l
insert_other (r ∷ rs) live q l = elim (Bool-cases (tracked r)) [
  | inl k ↦ rw k (insert_other rs (λ q. if same_reg r q then true else live q) q (ground arith))
  | inr k ↦ rw k (insert_other rs live q l)
]

insert_own :
    (rs : List Reg) (live : RegSet) (q : Reg)
    → tracked q ≡ true
    → has_reg rs q ≡ true
    → insert_all rs live q ≡ true
unfolding insert_all
insert_own [] live q t h = cc
insert_own (r ∷ rs) live q t h = elim (Bool-cases (same_reg r q)) [
  | inl k ↦
      let e : tracked r ≡ true = ap tracked (same_reg_lem r q k) ∙ t in
      rw e (insert_other rs (λ q. if same_reg r q then true else live q) q (rw k refl))
  | inr k ↦
      insert_own rs (if tracked r then (λ q. if same_reg r q then true else live q) else live) q t
        (ground arith)
]

pub update_live-stays :
    (i : Inst) (live : RegSet) (q : Reg)
    → has_reg (def_reg i) q ≡ false
    → live q ≡ true
    → update_live i live q ≡ true
unfolding update_live
update_live-stays i live q h l =
    insert_other (use_reg i) (erase_all (def_reg i) live) q (erase_other (def_reg i) live q h l)

pub update_live-reads :
    (i : Inst) (live : RegSet) (q : Reg)
    → tracked q ≡ true
    → has_reg (use_reg i) q ≡ true
    → update_live i live q ≡ true
unfolding update_live
update_live-reads i live q t h = insert_own (use_reg i) (erase_all (def_reg i) live) q t h

-- A register that no one needs.
pub writes_used_lem :
    (rs : List Reg) (live : RegSet) (q : Reg)
    → writes_used rs live ≡ false
    → has_reg rs q ≡ true
    → (tracked q ≡ true) × (live q ≡ false)
unfolding writes_used
writes_used_lem [] live q w h = cc
writes_used_lem (r ∷ rs) live q w h = elim (Bool-cases (same_reg r q)) [
  | inl k ↦
      let e = same_reg_lem r q k in
      let a : tracked r ≡ true = ground arith in
      let b : live r ≡ false = ground arith in (ap tracked (sym e) ∙ a, ap live (sym e) ∙ b)
  | inr k ↦ writes_used_lem rs live q (ground arith) (ground arith)
]
