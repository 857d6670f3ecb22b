-- ===== src/Opt/UnusedDef/Runs.antt =====
-- Runs of src/ir/ir.cpp over blocks of which instructions with dead results are removed.
use helesta.Prelude.{
  ℕ, zero, suc, ◌+◌, ◌≡◌, ◌⊎◌, inl, inr, refl, sym, ap, subst, ◌∙◌, Bool, true, false, Option, none,
  some, List, [], ◌∷◌, ◌==◌, All, map, if◌then◌else◌, get_elem?, update, update_ne, >>=-eq-some,
  Bool-cases, Option-cases, arith,
}
use mathlib.Core.Option
use helesta.Ir.Exec.{
  Instr, Env, State, Outcome, next, goto, returned, read_reg, phi_uses, phi_tmps, step, steps, run,
}
use helesta.Ir.Instr.{dest, uses}
use helesta.Opt.UnusedDef.Swept.{
  Fits, Swept, SweptBlocks, done, keep, drop, Same, SameOutcome, Follows, read-Same, step-Same,
}
use helesta.Opt.UnusedDef.Sets.{step-Sets}

module _ (Live : ℕ → Type 0) (e : Env) where
  abbrev Alike : State → State → Type 0
  Alike = Same Live

  abbrev Agree : (ℕ → Option ℕ) → (ℕ → Option ℕ) → Type 0
  Agree T T' = (d : ℕ) → Live d → T d ≡ T' d

  phi_uses-Same :
      (s t : State) (last : ℕ) (us : List (ℕ × ℕ)) (v : Option ℕ) (o : Option ℕ)
      → Alike s t
      → All Live (map (λ u. u.0) us)
      → phi_uses e s last us v ≡ some o
      → phi_uses e t last us v ≡ some o
  unfolding phi_uses
  phi_uses-Same s t last [] v o h ls q = q
  phi_uses-Same s t last ((r, b) ∷ us) v o h (l, ls) q = elim (Bool-cases (b == last)) [
    | inl k ↦
        let (x, p, q1) = >>=-eq-some (Option.map some (read_reg e s r)) _ (rw k at q) in
        let p' : Option.map some (read_reg e t r) ≡ some x = read_some s t r x h l p in
        rw (k, p') (phi_uses-Same s t last us x o h ls q1)
    | inr k ↦ rw k (phi_uses-Same s t last us v o h ls (rw k at q))
  ]
    where
      read_some :
          (s t : State) (r : ℕ) (x : Option ℕ)
          → Alike s t
          → Live r
          → Option.map some (read_reg e s r) ≡ some x
          → Option.map some (read_reg e t r) ≡ some x
      read_some s t r x h l p = elim (Option-cases (read_reg e s r)) [
        | inl k ↦ absurd (ground arith)
        | inr (v, k) ↦ let k' = read-Same Live e s t r v h l k in ground arith
      ]

  -- An instruction is a phi function, or `phi_tmps` passes it.
  phi_or_not :
      (i : Instr)
      → ((d : ℕ) × (us : List (ℕ × ℕ)) × (i ≡ Instr.phi d us))
        ⊎ ((s : State) (last : ℕ) (is : List Instr) (T : ℕ → Option ℕ)
            → phi_tmps e s last (i ∷ is) T ≡ phi_tmps e s last is T)
  unfolding phi_tmps
  phi_or_not (Instr.phi d us) = inl (d, us, refl)
  phi_or_not (Instr.load_addr _ _ _) = inr (λ s last is T. refl)
  phi_or_not (Instr.load_const _ _ _) = inr (λ s last is T. refl)
  phi_or_not (Instr.load_arg _ _) = inr (λ s last is T. refl)
  phi_or_not (Instr.unary_op _ _ _) = inr (λ s last is T. refl)
  phi_or_not (Instr.binary_op _ _ _ _) = inr (λ s last is T. refl)
  phi_or_not (Instr.array_index _ _ _ _) = inr (λ s last is T. refl)
  phi_or_not (Instr.load _ _ _ _) = inr (λ s last is T. refl)
  phi_or_not (Instr.store _ _ _ _) = inr (λ s last is T. refl)
  phi_or_not (Instr.jump _) = inr (λ s last is T. refl)
  phi_or_not (Instr.branch _ _ _) = inr (λ s last is T. refl)
  phi_or_not (Instr.return _) = inr (λ s last is T. refl)

  abbrev Enters : List Instr → List Instr → Type 0
  Enters is js =
      (s t : State) (last : ℕ) (T T' U : ℕ → Option ℕ)
      → Alike s t
      → Agree T T'
      → phi_tmps e s last is T ≡ some U
      → (U' : ℕ → Option ℕ) × (phi_tmps e t last js T' ≡ some U') × Agree U U'

  Agree-update :
      (T T' : ℕ → Option ℕ) (d : ℕ) (v : Option ℕ)
      → Agree T T'
      → Agree (update T d v) (update T' d v)
  Agree-update T T' d v a z l = ground (arith, a z l)

  kept :
      (i : Instr) (is js : List Instr) → Fits Live true i → Enters is js → Enters (i ∷ is) (i ∷ js)
  unfolding phi_tmps uses dest
  kept i is js f rec s t last T T' U h a q = elim (phi_or_not i) [
    | inr other ↦
        let (U', r, b) = rec s t last T T' U h a (sym (other s last is T) ∙ q) in
        (U', other t last js T' ∙ r, b)
    | inl (d, us, p) ↦
        let f' : Fits Live true (Instr.phi d us) = subst (Fits Live true) p f in
        let (v, q1, q2) = >>=-eq-some (phi_uses e s last us (T d)) _ (rw p at q) in
        let q1' : phi_uses e t last us (T' d) ≡ some v =
          phi_uses-Same s t last us (T' d) v h f'.0
            (subst (λ z. phi_uses e s last us z ≡ some v) (a d (f'.1 d refl)) q1) in
        let (U', r, b) =
          rec s t last (update T d v) (update T' d v) U h (Agree-update T T' d v a) q2 in
        (U', rw (p, phi_tmps, q1') r, b)
  ]

  dropped : (i : Instr) (is js : List Instr) → Fits Live false i → Enters is js → Enters (i ∷ is) js
  unfolding phi_tmps dest
  dropped i is js (d, k, dead) rec s t last T T' U h a q = elim (phi_or_not i) [
    | inr other ↦ rec s t last T T' U h a (sym (other s last is T) ∙ q)
    | inl (x, us, p) ↦
        let (v, q1, q2) = >>=-eq-some (phi_uses e s last us (T x)) _ (rw p at q) in
        let k' : some x ≡ some d = rw p at k in
        let same : x ≡ d = ground arith in
        let b : Agree (update T x v) T' =
          λ z l. update_ne T x v z (λ m. dead (subst Live (m ∙ same) l)) ∙ a z l in
        rec s t last (update T x v) T' U h b q2
  ]

  phi_tmps-Same : {is js : List Instr} → Swept Live is js → Enters is js
  unfolding phi_tmps
  phi_tmps-Same done = λ s t last T T' U h a q.
      let same : T ≡ U = ground arith in (T', refl, λ d l. sym (ap (λ f. f d) same) ∙ a d l)
  phi_tmps-Same (keep {i} {is} {js} f w) = kept i is js f (phi_tmps-Same w)
  phi_tmps-Same (drop {i} {is} {js} f w) = dropped i is js f (phi_tmps-Same w)

  abbrev Goes : List Instr → List Instr → Type 0
  Goes is js =
      (T T' : ℕ → Option ℕ) (cur : ℕ) (s t : State) (o : Outcome)
      → Alike s t
      → Agree T T'
      → steps e T cur is s ≡ some o
      → Follows Live e (steps e T' cur js t) o

  continued :
      (is js : List Instr) (T T' : ℕ → Option ℕ) (cur : ℕ) (o o1 o1' : Outcome)
      → Goes is js
      → Agree T T'
      → SameOutcome Live o1 o1'
      → elim o1 [
        | next t ↦ steps e T cur is t
        | goto b t ↦ some (goto b t)
        | returned v t ↦ some (returned v t)
      ]
        ≡ some o
      → Follows Live e
          (elim o1' [
            | next t ↦ steps e T' cur js t
            | goto b t ↦ some (goto b t)
            | returned v t ↦ some (returned v t)
          ])
          o
  continued is js T T' cur o (next s) (next t) rec a h q = rec T T' cur s t o h a q
  continued is js T T' cur o (goto b s) (goto c t) rec a h q =
      let same : goto b s ≡ o = ground arith in
      (goto c t, refl, subst (λ z. SameOutcome Live z (goto c t)) same h)
  continued is js T T' cur o (returned v s) (returned w t) rec a h q =
      let same : returned v s ≡ o = ground arith in
      (returned w t, refl, subst (λ z. SameOutcome Live z (returned w t)) same h)
  continued is js T T' cur o (next s) (goto c t) rec a h q = absurd h
  continued is js T T' cur o (next s) (returned w t) rec a h q = absurd h
  continued is js T T' cur o (goto b s) (next t) rec a h q = absurd h
  continued is js T T' cur o (goto b s) (returned w t) rec a h q = absurd h
  continued is js T T' cur o (returned v s) (next t) rec a h q = absurd h
  continued is js T T' cur o (returned v s) (goto c t) rec a h q = absurd h

  steps-Same : {is js : List Instr} → Swept Live is js → Goes is js
  unfolding steps
  steps-Same done = λ T T' cur s t o h a q.
      let same : next s ≡ o = ground arith in
      (next t, refl, subst (λ z. SameOutcome Live z (next t)) same h)
  steps-Same (keep {i} {is} {js} f w) = λ T T' cur s t o h a q.
      let s' : State = record s { instr_cnt = s.instr_cnt + 1 } in
      let t' : State = record t { instr_cnt = t.instr_cnt + 1 } in
      let (o1, q1, q2) = >>=-eq-some (step e T cur i s') _ q in
      let (o1', r, so) =
        step-Same Live e T T' cur i s' t' o1 f a (record { mem = h.mem; regs = h.regs }) q1 in
      let (o', r', so') = continued is js T T' cur o o1 o1' (steps-Same w) a so q2 in
      (o', rw r r', so')
  steps-Same (drop {i} {is} {js} (d, k, dead) w) = λ T T' cur s t o h a q.
      let s' : State = record s { instr_cnt = s.instr_cnt + 1 } in
      let (o1, q1, q2) = >>=-eq-some (step e T cur i s') _ q in
      let (s1, p, m, rs) = step-Sets e T cur i s' d o1 k q1 in
      let same : Alike s1 t = record {
        mem = m ∙ h.mem;
        regs = λ r l. rs r (λ z. dead (subst Live z l)) ∙ h.regs r l;
      } in
      steps-Same w T T' cur s1 t o same a (rw p at q2)

  abbrev RunsAlike : List (List Instr) → List (List Instr) → ℕ → Type 0
  RunsAlike bs cs fuel =
      (last cur : ℕ) (s t : State) (v : ℕ) (s' : State)
      → Alike s t
      → run e bs fuel last cur s ≡ some (v, s')
      → (t' : State) × (run e cs fuel last cur t ≡ some (v, t')) × Alike s' t'

  left :
      (bs cs : List (List Instr)) (fuel last cur : ℕ) (o o' : Outcome) (v : ℕ) (s' : State)
      → RunsAlike bs cs fuel
      → SameOutcome Live o o'
      → elim o [
        | next t ↦ run e bs fuel last cur t
        | goto b t ↦ run e bs fuel cur b t
        | returned x t ↦ some (x, t)
      ]
        ≡ some (v, s')
      → (t' : State) × (elim o' [
        | next t ↦ run e cs fuel last cur t
        | goto b t ↦ run e cs fuel cur b t
        | returned x t ↦ some (x, t)
      ]
          ≡ some (v, t'))
        × Alike s' t'
  left bs cs fuel last cur (next x) (next y) v s' rec so q = rec last cur x y v s' so q
  left bs cs fuel last cur (goto b x) (goto c y) v s' rec (p, h) q =
      let (t', r, h') = rec cur b x y v s' h q in (t', rw (sym p) r, h')
  left bs cs fuel last cur (returned a x) (returned c y) v s' rec (p, h) q =
      let same : v ≡ a = ground arith in
      let end : x ≡ s' = ground arith in (y, rw (same, p) refl, subst (λ z. Alike z y) end h)
  left bs cs fuel last cur (next x) (goto c y) v s' rec so q = absurd so
  left bs cs fuel last cur (next x) (returned c y) v s' rec so q = absurd so
  left bs cs fuel last cur (goto b x) (next y) v s' rec so q = absurd so
  left bs cs fuel last cur (goto b x) (returned c y) v s' rec so q = absurd so
  left bs cs fuel last cur (returned a x) (next y) v s' rec so q = absurd so
  left bs cs fuel last cur (returned a x) (goto c y) v s' rec so q = absurd so

  entry_tmps :
      {is js : List Instr} (enabled : Bool) (s t : State) (last : ℕ) (T : ℕ → Option ℕ)
      → Swept Live is js
      → Alike s t
      → (if enabled then phi_tmps e s last is (λ _. none) else some (λ _. none)) ≡ some T
      → (T' : ℕ → Option ℕ) × ((if enabled
            then phi_tmps e t last js (λ _. none)
            else some (λ _. none))
          ≡ some T')
        × Agree T T'
  entry_tmps true s t last T w h q =
      phi_tmps-Same w s t last (λ _. none) (λ _. none) T h (λ d l. refl) q
  entry_tmps false s t last T w h q = (T, q, λ d l. refl)

  pub run-Same :
      (bs cs : List (List Instr)) (fuel : ℕ) → SweptBlocks Live bs cs → RunsAlike bs cs fuel
  unfolding run
  run-Same bs cs zero w last cur s t v s' h q = cc
  run-Same bs cs (suc fuel) w last cur s t v s' h q =
      let (is, q1, q2) = >>=-eq-some (get_elem? bs cur) _ q in
      let (T, q3, q4) =
        >>=-eq-some (if e.enable_phi then phi_tmps e s last is (λ _. none) else some (λ _. none)) _
          q2 in
      let (o, q5, q6) = >>=-eq-some (steps e T cur is s) _ q4 in
      let (js, r1, sw) = w cur is q1 in
      let (T', r3, a) = entry_tmps e.enable_phi s t last T sw h q3 in
      let (o', r5, so) = steps-Same sw T T' cur s t o h a q5 in
      let (t', r6, h') = left bs cs fuel last cur o o' v s' (run-Same bs cs fuel w) so q6 in
      (t', rw (run, r1, r3, r5) r6, h')
