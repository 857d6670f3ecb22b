-- ===== src/Arm/Interference/Ids.antt =====
-- The live registers that `build_graph` of src/arm/simple_coloring_alloc.hpp follows, against `update_live` of
-- src/arm/inst.hpp.
use helesta.Prelude.{
  ℕ, ◌≡◌, refl, sym, ap, ◌∙◌, Bool, true, false, not, ◌&&◌, ◌||◌, List, [], ◌∷◌, ◌==◌,
  if◌then◌else◌, has, Bool-cases, inl, inr, arith,
}
use helesta.Arm.Inst.{Reg, same_type, same_reg, Inst}
use helesta.Arm.Inst.Sets.{def_reg, use_reg}
use helesta.Arm.Inst.Reads.{has_reg}
use helesta.Arm.Inst.Renamed.{same_reg_lem}
use helesta.Arm.Dce.{RegSet, tracked, erase_all, insert_all, update_live}
use helesta.Arm.Coloring.{erase}
use helesta.Arm.Interference.{of_type, ids, kill}

pub erase_all_has :
    (rs : List Reg) (live : RegSet) (q : Reg)
    → erase_all rs live q ≡ (live q && not (has_reg rs q && tracked q))
unfolding erase_all
erase_all_has [] live q = ground arith
erase_all_has (r ∷ rs) live q =
    let x =
      erase_all_has rs (if tracked r then (λ s. if same_reg r s then false else live s) else live)
        q in
    x ∙ go (tracked r) refl (same_reg r q) refl
  where
    go :
        (t : Bool)
        → tracked r ≡ t
        → (k : Bool) → same_reg r q ≡ k
        → ((if t then (λ s. if same_reg r s then false else live s) else live) q
            && not (has_reg rs q && tracked q))
          ≡ (live q && not ((k || has_reg rs q) && tracked q))
    go t a true b =
        let e : tracked r ≡ tracked q = ap tracked (same_reg_lem r q b) in go2 t a b (sym a ∙ e)
      where
        go2 :
            (t : Bool)
            → tracked r ≡ t
            → same_reg r q ≡ true
            → t ≡ tracked q
            → ((if t then (λ s. if same_reg r s then false else live s) else live) q
                && not (has_reg rs q && tracked q))
              ≡ (live q && not ((true || has_reg rs q) && tracked q))
        go2 true a b c = ground arith
        go2 false a b c = ground arith
    go true a false b = ground arith
    go false a false b = ground arith

pub insert_all_has :
    (rs : List Reg) (live : RegSet) (q : Reg)
    → insert_all rs live q ≡ (live q || (has_reg rs q && tracked q))
unfolding insert_all
insert_all_has [] live q = ground arith
insert_all_has (r ∷ rs) live q =
    let x =
      insert_all_has rs (if tracked r then (λ s. if same_reg r s then true else live s) else live)
        q in
    x ∙ go (tracked r) refl (same_reg r q) refl
  where
    go :
        (t : Bool)
        → tracked r ≡ t
        → (k : Bool) → same_reg r q ≡ k
        → ((if t then (λ s. if same_reg r s then true else live s) else live) q
            || (has_reg rs q && tracked q))
          ≡ (live q || ((k || has_reg rs q) && tracked q))
    go t a true b =
        let e : tracked r ≡ tracked q = ap tracked (same_reg_lem r q b) in go2 t a b (sym a ∙ e)
      where
        go2 :
            (t : Bool)
            → tracked r ≡ t
            → same_reg r q ≡ true
            → t ≡ tracked q
            → ((if t then (λ s. if same_reg r s then true else live s) else live) q
                || (has_reg rs q && tracked q))
              ≡ (live q || ((true || has_reg rs q) && tracked q))
        go2 true a b c = ground arith
        go2 false a b c = ground arith
    go true a false b = ground arith
    go false a false b = ground arith

has-erase : (m : ℕ) (xs : List ℕ) (v : ℕ) → has (erase m xs) v ≡ (not (m == v) && has xs v)
has-erase m [] v = ground arith
has-erase m (x ∷ xs) v =
    let i = has-erase m xs v in
    elim (Bool-cases (m == x)) [ inl k ↦ rw k (ground arith) | inr k ↦ rw k (ground arith) ]

module _ (f : Bool) where
  abbrev pub reg : ℕ → Reg
  reg v = record { id = v; is_float = f }

  pub has-kill :
      (ds live : List ℕ) (v : ℕ) → has (kill f ds live) v ≡ (has live v && not (has ds v))
  unfolding kill
  has-kill [] live v = ground arith
  has-kill (d ∷ ds) live v =
      let a = has-kill ds (erase d live) v in let b = has-erase d live v in ground arith

  pub has-of_type : (rs : List Reg) (v : ℕ) → has (of_type f rs) v ≡ has_reg rs (reg v)
  has-of_type [] v = refl
  has-of_type (r ∷ rs) v =
      let i = has-of_type rs v in
      elim (Bool-cases (same_type r.is_float f)) [
        | inl k ↦ rw k (ground arith)
        | inr k ↦ rw k (ground arith)
      ]

  pub has-ids : (rs : List Reg) (v : ℕ) → has (ids f rs) v ≡ (has_reg rs (reg v) && tracked (reg v))
  has-ids [] v = refl
  has-ids (r ∷ rs) v =
      let i = has-ids rs v in
      elim (Bool-cases (same_reg r (reg v))) [
        | inl k ↦
            let e : tracked r ≡ tracked (reg v) = ap tracked (same_reg_lem r (reg v) k) in
            elim (Bool-cases (tracked r)) [
              | inl t ↦ let t' : tracked (reg v) ≡ true = sym e ∙ t in rw (t, t') (ground arith)
              | inr t ↦ let t' : tracked (reg v) ≡ false = sym e ∙ t in rw (t, t') (ground arith)
            ]
        | inr k ↦ elim (Bool-cases (tracked r)) [
          | inl t ↦ rw t (ground arith)
          | inr t ↦ rw t (ground arith)
        ]
      ]

  -- One instruction further up.
  pub update_live-ids :
      (i : Inst) (live : RegSet) (v : ℕ)
      → update_live i live (reg v)
        ≡ ((live (reg v) && not (has (ids f (def_reg i)) v)) || has (ids f (use_reg i)) v)
  unfolding update_live
  update_live-ids i live v =
      let a = insert_all_has (use_reg i) (erase_all (def_reg i) live) (reg v) in
      let b = erase_all_has (def_reg i) live (reg v) in
      let c = has-ids (def_reg i) v in let d = has-ids (use_reg i) v in ground arith
