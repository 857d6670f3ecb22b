-- ===== src/Opt/TypeCheck/Tests.antt =====
-- Checked instructions.
use helesta.Prelude.{ℕ, ◌≡◌, ◌↔◌, refl, true, false, some, List, [], ◌∷◌, All}
use helesta.Ir.Scalar.{UnaryCompute}
use helesta.Ir.Op.{ScalarType, unary_ret_type, unary_input_type}
use helesta.Opt.TypeCheck.{Instr, Verdict, type_check}
use helesta.Opt.TypeCheck.Classes.{Kind}
use helesta.Opt.TypeCheck.Rules.{WellTyped, type_check_lem}

abbrev good : List Instr
good =
    Instr.load_addr 0
    ∷ Instr.load_arg_int 1
    ∷ Instr.unary_op 2 1 UnaryCompute.i2f
    ∷ Instr.array_index 3 0 1
    ∷ Instr.store 3 2
    ∷ Instr.call 4 ((2, ScalarType.float) ∷ []) ScalarType.int
    ∷ Instr.phi 5 (1 ∷ 4 ∷ [])
    ∷ Instr.return_int 5
    ∷ []

abbrev bad : List Instr
bad = Instr.load_const_float 0 ∷ Instr.phi 1 (0 ∷ []) ∷ Instr.branch 1 ∷ []

-- An address in a condition is no failed assertion.
abbrev mixed : List Instr
mixed = Instr.load_addr 0 ∷ Instr.branch 0 ∷ []

checks :
    (type_check good ≡ some (Verdict.checked true))
    × (type_check bad ≡ some Verdict.aborted)
    × (type_check mixed ≡ some (Verdict.checked false))
unfolding type_check unary_ret_type unary_input_type
checks = (refl, refl, refl)

type_check_lem_example :
    (v : Verdict) × (type_check good ≡ some v)
    × ((v ≡ Verdict.checked true) ↔ ((τ : ℕ → Kind) × All (WellTyped τ) good))
type_check_lem_example = type_check_lem good
