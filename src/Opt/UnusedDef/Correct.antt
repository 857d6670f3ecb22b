-- ===== src/Opt/UnusedDef/Correct.antt =====
-- The pass of src/ir/opt/remove_unused_def.cpp and the runs of src/ir/ir.cpp.
use helesta.Prelude.{
  ℕ, zero, suc, ◌+◌, ◌≡◌, inl, inr, refl, ap, subst, ◌∙◌, Bool, true, false, none, some, List, [],
  ◌∷◌, All, length, get_elem?, arith,
}
use helesta.Ir.Exec.{Instr, Env, State, run}
use helesta.Ir.Instr.{dest, uses}
use helesta.Opt.UnusedDef.{
  Defs, concat, construct_def_vec, roots, sweep, unmarked, count_uses, remove_unused_def,
}
use helesta.Opt.UnusedDef.Places.{def_vec_lem, roots_lt, roots_all, look_up-All, effect_or_dest}
use helesta.Opt.UnusedDef.Marks.{Used, Marking, mark_lem, pending, Defined, mark_ends}
use helesta.Opt.UnusedDef.Swept.{Fits}
use helesta.Opt.UnusedDef.Sweep.{Fitted, Fitted-all, sweep-SweptBlocks}
use helesta.Opt.UnusedDef.Runs.{run-Same}

-- The registers whose definition, if there is one, is used.
abbrev Live : Defs → List Bool → ℕ → Type 0
Live defs used r = (j : ℕ) → defs r ≡ some j → Used used j

unmarked-none : (is : List Instr) (k : ℕ) → ¬ Used (unmarked is) k
unmarked-none [] k p = cc
unmarked-none (i ∷ is) zero p = cc
unmarked-none (i ∷ is) (suc k) p = unmarked-none is k p

unmarked-length : (is : List Instr) → length (unmarked is) ≡ length is
unmarked-length [] = refl
unmarked-length (i ∷ is) = ap suc (unmarked-length is)

unmarked-pending :
    (code : List Instr) (defs : Defs) (is : List Instr)
    → pending code defs is (unmarked is) ≡ count_uses is
unmarked-pending code defs [] = refl
unmarked-pending code defs (i ∷ is) = omega (arith, unmarked-pending code defs is)

module _ (max : ℕ) (code : List Instr) (defs : Defs)
    (made : construct_def_vec max 0 code (λ _. none) ≡ some defs) (used : List Bool)
    (m : Marking code defs (roots 0 code) (unmarked code) used) where
  place :
      (k : ℕ) (i : Instr) (d : ℕ) → get_elem? code k ≡ some i → dest i ≡ some d → defs d ≡ some k
  place k i d q e =
      let start : 0 + k ≡ k = omega arith in
      (def_vec_lem max 0 code (λ _. none) defs made).1 k i d q e ∙ ap some start

  fits :
      (k : ℕ) (u : Bool) (i : Instr)
      → get_elem? used k ≡ some u
      → get_elem? code k ≡ some i
      → Fits (Live defs used) u i
  fits k true i p q = elim (m.closed k p) [
    | inl n ↦ absurd (unmarked-none code k n)
    | inr (i', js, q', l, h) ↦
        let same : i' ≡ i = ground arith in
        (
          subst (λ z. All (Live defs used) (uses z)) same
              (look_up-All defs (Used used) (uses i') js l h),
          λ d e j r.
              let mine = place k i d q e in
              let here : k ≡ j = ground arith in subst (Used used) here p,
        )
  ]
  fits k false i p q = elim (effect_or_dest i) [
    | inl e ↦
        let start : 0 + k ≡ k = omega arith in
        let marked : Used used k =
          subst (Used used) start (roots_all (Used used) 0 code m.queued k i q e) in
        absurd (ground arith)
    | inr (d, e) ↦
        (d, e, λ live. let mine = place k i d q e in let marked = live k mine in ground arith)
  ]

-- In a function whose registers are defined once, in the range of the vector, and in which every operand
-- has a definition, the pass ends, and what it leaves of the function returns the same value with the same
-- memory, from any block and state from which the function returns.
pub remove_unused_def_correct :
    (max : ℕ) (blocks : List (List Instr)) (defs : Defs)
    → construct_def_vec max 0 (concat blocks) (λ _. none) ≡ some defs
    → Defined (concat blocks) defs
    → (blocks' : List (List Instr)) × (remove_unused_def max blocks ≡ some blocks')
      × ((e : Env) (fuel last cur : ℕ) (s : State) (v : ℕ) (s' : State)
          → run e blocks fuel last cur s ≡ some (v, s')
          → (t : State) × (run e blocks' fuel last cur s ≡ some (v, t)) × (s'.mem ≡ t.mem))
unfolding remove_unused_def
remove_unused_def_correct max blocks defs made defined =
    let code : List Instr = concat blocks in
    let size = unmarked-length code in
    let total = unmarked-pending code defs code in
    let (used, q) =
      mark_ends code defs defined (suc (length (roots 0 code) + count_uses code)) (roots 0 code)
        (unmarked code) (roots_lt 0 code (length code) (omega arith)) size (omega arith) in
    let m =
      mark_lem code defs (suc (length (roots 0 code) + count_uses code)) (roots 0 code)
        (unmarked code) used q in
    let fitted : Fitted (Live defs used) used code =
      Fitted-all (Live defs used) used code (m.sized ∙ size) (fits max code defs made used m) in
    (
      sweep used blocks,
      rw (remove_unused_def, made, q) refl,
      λ e fuel last cur s v s' r.
          let (t, r', same) =
            run-Same (Live defs used) e blocks (sweep used blocks) fuel
              (sweep-SweptBlocks (Live defs used) used blocks fitted) last cur s s v s'
              (record { mem = refl; regs = λ x l. refl }) r in
          (t, r', same.mem),
    )
