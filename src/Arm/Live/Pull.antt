-- ===== src/Arm/Live/Pull.antt =====
-- One round of the loop of `calc_live` of src/arm/program.cpp.
use helesta.Prelude.{
  ℕ, ◌+◌, ◌≤◌, ◌<◌, ◌≡◌, ◌⊎◌, inl, inr, refl, sym, ap, ap₂, subst, Bool, true, false, not, ◌&&◌,
  ◌||◌, List, [], ◌∷◌, ◌++◌, ◌==◌, ==_iff, if◌then◌else◌, length, length-append, has, update,
  Bool-cases, arith,
}
use helesta.Arm.Inst.{Reg, same_reg}
use helesta.Arm.Inst.Reads.{has_reg}
use helesta.Arm.Inst.Renamed.{same_reg_lem, same_reg_refl}
use helesta.Arm.Live.{Lives, reach, pull}
use helesta.Arm.Live.Measure.{missing, missing_le, missing_lt, sum, sum_lt}

abbrev pub has_pair : List (ℕ × Reg) → ℕ → Reg → Bool
has_pair [] b r = false
has_pair ((c, q) ∷ ps) b r = ((c == b) && same_reg q r) || has_pair ps b r

pub has_pair-append :
    (ps qs : List (ℕ × Reg)) (b : ℕ) (r : Reg)
    → has_pair (ps ++ qs) b r ≡ (has_pair ps b r || has_pair qs b r)
has_pair-append [] qs b r = refl
has_pair-append (p ∷ ps) qs b r = ground (arith, has_pair-append ps qs b r)

-- A set with one more register.
module _ (f : ℕ → List Reg) (p : ℕ) (r : Reg) where
  put_has :
      (c : ℕ) (q : Reg)
      → has_reg (update f p (r ∷ f p) c) q ≡ (((c == p) && same_reg r q) || has_reg (f c) q)
  put_has c q = elim (Bool-cases (c == p)) [
    | inl k ↦
        let e : has_reg (f c) q ≡ has_reg (f p) q = ap (λ x. has_reg (f x) q) ((==_iff c p).0 k) in
        rw k (rw e refl)
    | inr k ↦ rw k refl
  ]

  put_cases :
      (c : ℕ) (q : Reg)
      → has_reg (update f p (r ∷ f p) c) q ≡ true
      → ((c ≡ p) × (r ≡ q)) ⊎ (has_reg (f c) q ≡ true)
  put_cases c q h =
      let e = put_has c q in
      elim (Bool-cases (has_reg (f c) q)) [
        | inl k ↦ inr k
        | inr k ↦
            let a : (c == p) ≡ true = ground arith in
            let b : same_reg r q ≡ true = ground arith in inl ((==_iff c p).0 a, same_reg_lem r q b)
      ]

  put_old : (c : ℕ) (q : Reg) → has_reg (f c) q ≡ true → has_reg (update f p (r ∷ f p) c) q ≡ true
  put_old c q h = let e = put_has c q in ground arith

  put_new : (c : ℕ) → c ≡ p → has_reg (update f p (r ∷ f p) c) r ≡ true
  put_new c e =
      let a = put_has c r in let b = (==_iff c p).1 e in let k = same_reg_refl r in ground arith

module _ (in_edge : ℕ → List ℕ) (uses defs : ℕ → List Reg) where
  -- A way from the start of a block to an instruction that reads the register, and none before it writes it.
  pub data LiveAt : ℕ → Reg → Type 0 where
    here : (b : ℕ) (r : Reg) → has_reg (uses b) r ≡ true → LiveAt b r
    back :
        (p b : ℕ) (r : Reg)
        → has (in_edge b) p ≡ true
        → has_reg (defs p) r ≡ false
        → LiveAt b r
        → LiveAt p r

  -- The same from the end of a block.
  abbrev pub LiveAfter : ℕ → Reg → Type 0
  LiveAfter p r = (b : ℕ) × (has (in_edge b) p ≡ true) × LiveAt b r

  pub record Spreads (all : List Reg) (s : Lives) : Type 0 where
    pub ins : (b : ℕ) (r : Reg) → has_reg (s.live_in b) r ≡ true → LiveAt b r
    pub outs : (p : ℕ) (r : Reg) → has_reg (s.live_out p) r ≡ true → LiveAfter p r
    pub reads : (b : ℕ) (r : Reg) → has_reg (uses b) r ≡ true → has_reg (s.live_in b) r ≡ true
    pub passes :
        (p : ℕ) (r : Reg)
        → has_reg (s.live_out p) r ≡ true
        → has_reg (defs p) r ≡ false
        → has_reg (s.live_in p) r ≡ true
    pub waits : (b : ℕ) (r : Reg) → has_pair s.queue b r ≡ true → has_reg (s.live_in b) r ≡ true
    pub known : (b : ℕ) (r : Reg) → has_reg (s.live_in b) r ≡ true → has_reg all r ≡ true

  abbrev pub left : ℕ → List Reg → Lives → ℕ
  left n all s = length s.queue + sum n (λ p. missing (s.live_in p) all)

  pub record Pulled (n : ℕ) (all : List Reg) (r : Reg) (ps : List ℕ) (s t : Lives) : Type 0 where
    pub spreads : Spreads all t
    pub grows :
        (p : ℕ) (q : Reg) → has_reg (s.live_out p) q ≡ true → has_reg (t.live_out p) q ≡ true
    pub keeps : (b : ℕ) (q : Reg) → has_pair s.queue b q ≡ true → has_pair t.queue b q ≡ true
    pub fresh :
        (b : ℕ) (q : Reg)
        → has_reg (t.live_in b) q ≡ true
        → (has_reg (s.live_in b) q ≡ true) ⊎ (has_pair t.queue b q ≡ true)
    pub all_out : (p : ℕ) → has ps p ≡ true → has_reg (t.live_out p) r ≡ true
    pub less : left n all t ≤ left n all s

  module _ (n : ℕ) (all : List Reg) (b : ℕ) (r : Reg) (live : LiveAt b r)
      (known : has_reg all r ≡ true) where
    reach_lem :
        (p : ℕ) (s : Lives)
        → Spreads all s
        → has (in_edge b) p ≡ true
        → p < n
        → Pulled n all r (p ∷ []) s (reach in_edge uses defs p r s)
    reach_lem p s i e l =
        elim (Bool-cases (not (has_reg (defs p) r) && not (has_reg (s.live_in p) r))) [
          | inl k ↦
              let free : has_reg (defs p) r ≡ false = ground arith in
              let out : has_reg (s.live_in p) r ≡ false = ground arith in
              rw k (record {
                spreads = record {
                  ins = λ c q h. elim (put_cases s.live_in p r c q h) [
                    | inl (a, d) ↦
                        subst (λ x. LiveAt x q) (sym a)
                          (subst (LiveAt p) d (back p b r e free live))
                    | inr m ↦ i.ins c q m
                  ];
                  outs = λ c q h. out_live c q (put_cases s.live_out p r c q h);
                  reads = λ c q h. put_old s.live_in p r c q (i.reads c q h);
                  passes = λ c q h m. elim (put_cases s.live_out p r c q h) [
                    | inl (a, d) ↦
                        subst (λ x. has_reg (update s.live_in p (r ∷ s.live_in p) c) x ≡ true) d
                          (put_new s.live_in p r c a)
                    | inr o ↦ put_old s.live_in p r c q (i.passes c q o m)
                  ];
                  waits = λ c q h. elim (last c q h) [
                    | inl (a, d) ↦
                        subst (λ x. has_reg (update s.live_in p (r ∷ s.live_in p) c) x ≡ true) d
                          (put_new s.live_in p r c a)
                    | inr o ↦ put_old s.live_in p r c q (i.waits c q o)
                  ];
                  known = λ c q h. elim (put_cases s.live_in p r c q h) [
                    | inl (a, d) ↦ subst (λ x. has_reg all x ≡ true) d known
                    | inr m ↦ i.known c q m
                  ];
                };
                grows = λ c q h. put_old s.live_out p r c q h;
                keeps = λ c q h. let a = has_pair-append s.queue ((p, r) ∷ []) c q in ground arith;
                fresh = λ c q h. elim (put_cases s.live_in p r c q h) [
                  | inl (a, d) ↦
                      inr
                        (subst (λ x. has_pair (s.queue ++ ((p, r) ∷ [])) c x ≡ true) d (queued c a))
                  | inr m ↦ inl m
                ];
                all_out = λ c h. put_new s.live_out p r c ((==_iff c p).0 (ground arith));
                less =
                    let a = length-append s.queue ((p, r) ∷ []) in
                    let d =
                      sum_lt n p (λ x. missing (update s.live_in p (r ∷ s.live_in p) x) all)
                        (λ x. missing (s.live_in x) all) (λ x. lower x) l (at_place out) in
                    omega arith;
              })
          | inr k ↦ rw k (record {
            spreads = record {
              ins = i.ins;
              outs = λ c q h. out_live c q (put_cases s.live_out p r c q h);
              reads = i.reads;
              passes = λ c q h m. elim (put_cases s.live_out p r c q h) [
                | inl (a, d) ↦
                    let x : has_reg (defs c) q ≡ has_reg (defs p) r =
                      ap₂ (λ y z. has_reg (defs y) z) a (sym d) in
                    let y : has_reg (s.live_in c) q ≡ has_reg (s.live_in p) r =
                      ap₂ (λ y z. has_reg (s.live_in y) z) a (sym d) in
                    ground arith
                | inr o ↦ i.passes c q o m
              ];
              waits = i.waits;
              known = i.known;
            };
            grows = λ c q h. put_old s.live_out p r c q h;
            keeps = λ c q h. h;
            fresh = λ c q h. inl h;
            all_out = λ c h. put_new s.live_out p r c ((==_iff c p).0 (ground arith));
            less = omega arith;
          })
        ]
      where
        out_live :
            (c : ℕ) (q : Reg)
            → ((c ≡ p) × (r ≡ q)) ⊎ (has_reg (s.live_out c) q ≡ true)
            → LiveAfter c q
        out_live c q (inl (a, d)) =
            (b, subst (λ x. has (in_edge b) x ≡ true) (sym a) e, subst (LiveAt b) d live)
        out_live c q (inr h) = i.outs c q h

        last :
            (c : ℕ) (q : Reg)
            → has_pair (s.queue ++ ((p, r) ∷ [])) c q ≡ true
            → ((c ≡ p) × (r ≡ q)) ⊎ (has_pair s.queue c q ≡ true)
        last c q h =
            let a = has_pair-append s.queue ((p, r) ∷ []) c q in
            elim (Bool-cases (has_pair s.queue c q)) [
              | inl k ↦ inr k
              | inr k ↦
                  let x : (p == c) ≡ true = ground arith in
                  let y : same_reg r q ≡ true = ground arith in
                  inl (sym ((==_iff p c).0 x), same_reg_lem r q y)
            ]

        queued : (c : ℕ) → c ≡ p → has_pair (s.queue ++ ((p, r) ∷ [])) c r ≡ true
        queued c a =
            let x = has_pair-append s.queue ((p, r) ∷ []) c r in
            let y = (==_iff p c).1 (sym a) in let z = same_reg_refl r in ground arith

        lower :
            (x : ℕ)
            → missing (update s.live_in p (r ∷ s.live_in p) x) all ≤ missing (s.live_in x) all
        lower x = elim (Bool-cases (x == p)) [
          | inl k ↦
              let w : s.live_in x ≡ s.live_in p = ap s.live_in ((==_iff x p).0 k) in
              rw k (rw w (missing_le r (s.live_in p) all))
          | inr k ↦ rw k (omega arith)
        ]

        at_place :
            has_reg (s.live_in p) r ≡ false
            → missing (update s.live_in p (r ∷ s.live_in p) p) all < missing (s.live_in p) all
        at_place h =
            let k : (p == p) ≡ true = (==_iff p p).1 refl in
            rw k (missing_lt r (s.live_in p) all known h)

    Pulled-none : (s : Lives) → Spreads all s → Pulled n all r [] s s
    Pulled-none s i = record {
      spreads = i;
      grows = λ p q h. h;
      keeps = λ c q h. h;
      fresh = λ c q h. inl h;
      all_out = λ p h. cc;
      less = omega arith;
    }

    Pulled-more :
        (p : ℕ) (ps : List ℕ) (s t u : Lives)
        → Pulled n all r (p ∷ []) s t
        → Pulled n all r ps t u
        → Pulled n all r (p ∷ ps) s u
    Pulled-more p ps s t u x y = record {
      spreads = y.spreads;
      grows = λ c q h. y.grows c q (x.grows c q h);
      keeps = λ c q h. y.keeps c q (x.keeps c q h);
      fresh = λ c q h. elim (y.fresh c q h) [
        | inl m ↦ elim (x.fresh c q m) [ inl o ↦ inl o | inr o ↦ inr (y.keeps c q o) ]
        | inr m ↦ inr m
      ];
      all_out = λ c h. elim (Bool-cases (c == p)) [
        | inl k ↦ y.grows c r (x.all_out c (ground arith))
        | inr k ↦ y.all_out c (ground arith)
      ];
      less = omega (arith, x.less, y.less);
    }

    pub pull_lem :
        (ps : List ℕ) (s : Lives)
        → Spreads all s
        → ((p : ℕ) → has ps p ≡ true → (has (in_edge b) p ≡ true) × (p < n))
        → Pulled n all r ps s (pull in_edge uses defs r ps s)
    unfolding pull
    pull_lem [] s i h = Pulled-none s i
    pull_lem (p ∷ ps) s i h =
        let self : (p == p) ≡ true = (==_iff p p).1 refl in
        let (e, l) = h p (ground arith) in
        let t = if has_reg (s.live_out p) r then s else reach in_edge uses defs p r s in
        let x = first p s i e l (has_reg (s.live_out p) r) refl in
        Pulled-more p ps s t (pull in_edge uses defs r ps t) x
          (pull_lem ps t x.spreads (λ q k. h q (ground arith)))
      where
        first :
            (p : ℕ) (s : Lives)
            → Spreads all s
            → has (in_edge b) p ≡ true
            → p < n
            → (o : Bool) → has_reg (s.live_out p) r ≡ o
            → Pulled n all r (p ∷ []) s (if o then s else reach in_edge uses defs p r s)
        first p s i e l false k = reach_lem p s i e l
        first p s i e l true k =
            let z = Pulled-none s i in
            record {
              spreads = i;
              grows = z.grows;
              keeps = z.keeps;
              fresh = z.fresh;
              all_out = λ c h.
                  let q : c ≡ p = (==_iff c p).0 (ground arith) in
                  subst (λ x. has_reg (s.live_out x) r ≡ true) (sym q) k;
              less = z.less;
            }
