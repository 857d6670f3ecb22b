-- ===== src/Opt/UnusedDef/Tests.antt =====
-- Runs of src/ir/opt/remove_unused_def.cpp.
use helesta.Prelude.{
  ℕ, ◌<◌, ◌≡◌, refl, none, some, List, [], ◌∷◌, All, All-at, get_elem?, update, arith,
}
use helesta.Ir.Op.{ScalarType}
use helesta.Ir.Scalar.{BinaryCompute}
use helesta.Ir.Exec.{Instr, Env, State, run}
use helesta.Ir.Instr.{dest, uses}
use helesta.Opt.UnusedDef.{
  Defs, concat, construct_def_vec, has_effect, roots, look_up, mark, sweep_block, sweep,
  remove_unused_def,
}
use helesta.Opt.UnusedDef.Marks.{Defined}
use helesta.Opt.UnusedDef.Correct.{remove_unused_def_correct}
use helesta.Opt.UnusedDef.Needed.{Needed, remove_unused_def-Needed}

-- Two constants and their sum, of which the next block returns the first.
abbrev sample : List (List Instr)
sample =
    (Instr.load_const ScalarType.int 1 5
      ∷ Instr.load_const ScalarType.int 2 7
      ∷ Instr.binary_op 3 1 2 BinaryCompute.add
      ∷ Instr.jump 1
      ∷ [])
    ∷ (Instr.return 1 ∷ [])
    ∷ []

abbrev swept_sample : List (List Instr)
swept_sample =
    (Instr.load_const ScalarType.int 1 5 ∷ Instr.jump 1 ∷ []) ∷ (Instr.return 1 ∷ []) ∷ []

abbrev sample_defs : Defs
sample_defs = update (update (update (λ _. none) 1 (some 0)) 2 (some 1)) 3 (some 2)

sample_made : construct_def_vec 3 0 (concat sample) (λ _. none) ≡ some sample_defs
unfolding construct_def_vec dest
sample_made = refl

sample_removed : remove_unused_def 3 sample ≡ some swept_sample
unfolding remove_unused_def construct_def_vec dest roots has_effect mark look_up uses sweep
    sweep_block
sample_removed = refl

sample-Defined : Defined (concat sample) sample_defs
unfolding look_up uses
sample-Defined k i q =
    All-at (λ x. (js : List ℕ) × (look_up sample_defs (uses x) ≡ some js) × All (λ j. j < 5) js)
      (concat sample) k i
      (
        ([], refl, tt),
        (
          ([], refl, tt),
          (
            (0 ∷ 1 ∷ [], refl, (omega arith, (omega arith, tt))),
            (([], refl, tt), ((0 ∷ [], refl, (omega arith, tt)), tt)),
          ),
        ),
      )
      q

remove_unused_def_correct_example :
    (blocks' : List (List Instr)) × (remove_unused_def 3 sample ≡ some blocks')
    × ((e : Env) (fuel last cur : ℕ) (s : State) (v : ℕ) (s' : State)
        → run e sample fuel last cur s ≡ some (v, s')
        → (t : State) × (run e blocks' fuel last cur s ≡ some (v, t)) × (s'.mem ≡ t.mem))
remove_unused_def_correct_example =
    remove_unused_def_correct 3 sample sample_defs sample_made sample-Defined

remove_unused_def-Needed_example :
    (defs : Defs) × (construct_def_vec 3 0 (concat sample) (λ _. none) ≡ some defs)
    × ((k : ℕ) × (get_elem? (concat sample) k ≡ some (Instr.load_const ScalarType.int 1 5))
        × Needed (concat sample) defs k)
remove_unused_def-Needed_example =
    remove_unused_def-Needed 3 sample swept_sample sample_removed 0
      (Instr.load_const ScalarType.int 1 5) refl
