-- ===== src/Opt/UnusedDef.antt =====
-- src/ir/opt/remove_unused_def.cpp: instructions whose results nothing needs are removed. An instruction
-- is known by its place in the order in which `for_each` goes over the function; `none` is a failed
-- assertion, an access out of range or the end of the fuel. Calls are not in the model of the IR.
pub mod Marks
pub mod Places
pub mod Swept
pub mod Sets
pub mod Runs
pub mod Sweep
pub mod Correct
pub mod Needed
pub mod Tests
use helesta.Prelude.{
  ℕ, zero, suc, ◌+◌, Bool, true, false, Option, none, some, List, [], ◌∷◌, ◌++◌, leb, if◌then◌else◌,
  length, get_elem?, set_at, update, ◌>>=◌,
}
use helesta.Ir.Exec.{Instr}
use helesta.Ir.Instr.{dest, uses}

-- `def_vec`: the place of the instruction that writes a register.
abbrev pub Defs : Type 0
Defs = ℕ → Option ℕ

abbrev pub concat : List (List Instr) → List Instr
concat [] = []
concat (b ∷ bs) = b ++ concat bs

-- A register is defined once, and is in the range of the vector.
unfoldable pub construct_def_vec : ℕ → ℕ → List Instr → Defs → Option Defs
construct_def_vec max_reg_id n [] defs = some defs
construct_def_vec max_reg_id n (i ∷ is) defs = elim (dest i) [
  | none ↦ construct_def_vec max_reg_id (suc n) is defs
  | some d ↦ elim (leb d max_reg_id) [
    | false ↦ none
    | true ↦ elim (defs d) [
      | some _ ↦ none
      | none ↦ construct_def_vec max_reg_id (suc n) is (update defs d (some n))
    ]
  ]
]

-- A `ControlInstr` or a `StoreInstr`.
unfoldable pub has_effect : Instr → Bool
has_effect (Instr.store _ _ _ _) = true
has_effect (Instr.jump _) = true
has_effect (Instr.branch _ _ _) = true
has_effect (Instr.return _) = true
has_effect _ = false

unfoldable pub roots : ℕ → List Instr → List ℕ
roots n [] = []
roots n (i ∷ is) = if has_effect i then n ∷ roots (suc n) is else roots (suc n) is

-- The places to be queued for the registers that an instruction reads.
unfoldable pub look_up : Defs → List ℕ → Option (List ℕ)
look_up defs [] = some []
look_up defs (r ∷ rs) = do j ← defs r; js ← look_up defs rs; some (j ∷ js)

-- The loop over the queue, with the members of `used_instrs` marked.
unfoldable pub mark : List Instr → Defs → ℕ → List ℕ → List Bool → Option (List Bool)
mark code defs zero q used = none
mark code defs (suc fuel) [] used = some used
mark code defs (suc fuel) (n ∷ q) used = do
  u ← get_elem? used n
  i ← get_elem? code n
  elim u [
    | true ↦ mark code defs fuel q used
    | false ↦ do js ← look_up defs (uses i); mark code defs fuel (q ++ js) (set_at used n true)
  ]

-- `remove_if` in one block, and the marks of the instructions after it.
unfoldable pub sweep_block : List Bool → List Instr → List Instr × List Bool
sweep_block used [] = ([], used)
sweep_block [] (i ∷ is) = ([], [])
sweep_block (u ∷ used) (i ∷ is) =
    let rest = sweep_block used is in ((if u then i ∷ rest.0 else rest.0), rest.1)

unfoldable pub sweep : List Bool → List (List Instr) → List (List Instr)
unfolding sweep_block
sweep used [] = []
sweep used (b ∷ bs) = let out = sweep_block used b in out.0 ∷ sweep out.1 bs

abbrev pub unmarked : List Instr → List Bool
unmarked [] = []
unmarked (_ ∷ is) = false ∷ unmarked is

abbrev pub count_uses : List Instr → ℕ
count_uses [] = 0
count_uses (i ∷ is) = length (uses i) + count_uses is

unfoldable pub remove_unused_def : ℕ → List (List Instr) → Option (List (List Instr))
unfolding construct_def_vec roots mark sweep
remove_unused_def max_reg_id blocks = do
  let code = concat blocks
  defs ← construct_def_vec max_reg_id 0 code (λ _. none)
  let q = roots 0 code
  used ← mark code defs (suc (length q + count_uses code)) q (unmarked code)
  some (sweep used blocks)
