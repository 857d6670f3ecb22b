-- ===== src/Arm/Live/Spread.antt =====
-- The loop of `calc_live` of src/arm/program.cpp.
use helesta.Prelude.{
  ℕ, zero, suc, ◌<◌, ◌≡◌, ◌⊎◌, inl, inr, refl, sym, ap, subst, true, ◌&&◌, Option, some, List, [],
  ◌∷◌, ◌==◌, ==_iff, length, has, Bool-cases, arith,
}
use helesta.Arm.Inst.{Reg, same_reg}
use helesta.Arm.Inst.Reads.{has_reg}
use helesta.Arm.Inst.Renamed.{same_reg_lem, same_reg_refl}
use helesta.Arm.Live.{Lives, pull, spread}
use helesta.Arm.Live.Pull.{has_pair, Spreads, left, pull_lem}

module _ (in_edge : ℕ → List ℕ) (uses defs : ℕ → List Reg) where
  abbrev pub Closed : Lives → ℕ → Reg → Type 0
  Closed s c q = (p : ℕ) → has (in_edge c) p ≡ true → has_reg (s.live_out p) q ≡ true

  abbrev pub Processed : Lives → Type 0
  Processed s =
      (c : ℕ) (q : Reg)
      → has_reg (s.live_in c) q ≡ true
      → (has_pair s.queue c q ≡ true) ⊎ Closed s c q

  module _ (n : ℕ) (all : List Reg) (range : (b p : ℕ) → has (in_edge b) p ≡ true → p < n) where
    popped :
        (s : Lives) (b : ℕ) (r : Reg) (qs : List (ℕ × Reg))
        → s.queue ≡ (b, r) ∷ qs
        → Spreads in_edge uses defs all s
        → Spreads in_edge uses defs all (record s { queue = qs })
    popped s b r qs e i = record {
      ins = i.ins;
      outs = i.outs;
      reads = i.reads;
      passes = i.passes;
      waits = λ c q h. i.waits c q (rw e (ground arith));
      known = i.known;
    }

    abbrev pub Ends : Option Lives → Type 0
    Ends o =
        (t : Lives) × (o ≡ some t)
        × Spreads in_edge uses defs all t
        × ((c : ℕ) (q : Reg) → has_reg (t.live_in c) q ≡ true → Closed t c q)

    pub spread_lem :
        (fuel : ℕ) (s : Lives)
        → Spreads in_edge uses defs all s
        → Processed s
        → left in_edge uses defs n all s < fuel
        → Ends (spread in_edge uses defs fuel s)
    unfolding spread
    spread_lem zero s i c low = absurd (omega arith)
    spread_lem (suc fuel) s i c low = go (λ t. spread_lem fuel t) s.queue refl
      where
        go :
            ((t : Lives)
              → Spreads in_edge uses defs all t
              → Processed t
              → left in_edge uses defs n all t < fuel
              → Ends (spread in_edge uses defs fuel t))
            → (queue : List (ℕ × Reg)) → s.queue ≡ queue
            → Ends (elim queue [
              | [] ↦ some s
              | (b, r) ∷ q ↦
                  spread in_edge uses defs fuel
                    (pull in_edge uses defs r (in_edge b) (record s { queue = q }))
            ])
        go rest [] e =
            (s, refl, i, (λ b q h. elim (c b q h) [ inl k ↦ absurd (ground arith) | inr k ↦ k ]))
        go rest ((b, r) ∷ qs) e =
            let own : (b == b) ≡ true = (==_iff b b).1 refl in
            let self = same_reg_refl r in
            let m : has_reg (s.live_in b) r ≡ true = i.waits b r (rw e (ground arith)) in
            let before : Lives = record s { queue = qs } in
            let x =
              pull_lem in_edge uses defs n all b r (i.ins b r m) (i.known b r m) (in_edge b) before
                (popped s b r qs e i) (λ p k. (k, range b p k)) in
            let t : Lives = pull in_edge uses defs r (in_edge b) before in
            let processed : Processed t = λ d q h. elim (x.fresh d q h) [
              | inr k ↦ inl k
              | inl k ↦ elim (c d q k) [
                | inr o ↦ inr (λ p l. x.grows p q (o p l))
                | inl w ↦ elim (Bool-cases ((b == d) && same_reg r q)) [
                  | inl y ↦
                      let same : b ≡ d = (==_iff b d).0 (ground arith) in
                      let equal : r ≡ q = same_reg_lem r q (ground arith) in
                      inr (λ p l.
                        subst (λ z. has_reg (t.live_out p) z ≡ true) equal
                          (x.all_out p (subst (λ z. has (in_edge z) p ≡ true) (sym same) l)))
                  | inr y ↦ inl (
                      x.keeps d q
                        (let v : has_pair ((b, r) ∷ qs) d q ≡ true = rw e at w in ground arith))
                ]
              ]
            ] in
            let shorter : length s.queue ≡ suc (length qs) = ap length e in
            rest t x.spreads processed (let l = x.less in omega arith)
