-- ===== src/Opt/TypeCheck.antt =====
-- `TypeCheck` of src/ir/opt/typecheck.cpp: the kinds of the registers by union-find. The instructions are
-- those that `DAG_IR::visit` hands over, in its order.
pub mod Classes
pub mod Correct
pub mod Rules
pub mod Tests
use helesta.Prelude.{
  ℕ, zero, suc, ◌+◌, Bool, true, false, ◌||◌, Option, none, some, List, [], ◌∷◌, ◌++◌, ◌==◌,
  if◌then◌else◌, length, map, ◌>>=◌,
}
use helesta.Common.UnionFind.{UnionFind, find, merge}
use helesta.Ir.Scalar.{UnaryCompute, BinaryCompute}
use helesta.Ir.Op.{ScalarType, unary_input_type, unary_ret_type, binary_input_type, binary_ret_type}

-- What `visit` reads of an instruction.
pub data Instr : Type 0 where
  load_addr : ℕ → Instr
  load_const_int load_const_float : ℕ → Instr
  load_arg_int load_arg_float : ℕ → Instr
  unary_op : ℕ → ℕ → UnaryCompute → Instr
  binary_op : ℕ → ℕ → ℕ → BinaryCompute → Instr
  array_index : ℕ → ℕ → ℕ → Instr
  load : ℕ → ℕ → Instr
  store : ℕ → ℕ → Instr
  jump : Instr
  branch : ℕ → Instr
  return_int return_float : ℕ → Instr
  call : ℕ → List (ℕ × ScalarType) → ScalarType → Instr
  phi : ℕ → List ℕ → Instr

-- `node_t`: a type or a register.
abbrev pub int_node : ℕ
int_node = 0

abbrev pub float_node : ℕ
float_node = 1

abbrev pub addr_node : ℕ
addr_node = 2

abbrev pub reg_node : ℕ → ℕ
reg_node r = suc (suc (suc r))

-- `type`: no operator has another type.
abbrev pub scalar_node : ScalarType → ℕ
scalar_node ScalarType.float = float_node
scalar_node _ = int_node

abbrev pub float_args : List (ℕ × ScalarType) → List (ℕ × ℕ)
float_args [] = []
float_args ((r, ScalarType.float) ∷ args) = (reg_node r, float_node) ∷ float_args args
float_args (_ ∷ args) = float_args args

abbrev pub phi_merges : ℕ → List ℕ → List (ℕ × ℕ)
phi_merges d [] = []
phi_merges d (r ∷ rs) = (reg_node d, reg_node r) ∷ phi_merges d rs

-- The merges that `visit` asks for.
unfoldable pub merges : Instr → List (ℕ × ℕ)
merges (Instr.load_addr d) = (reg_node d, addr_node) ∷ []
merges (Instr.load_const_int d) = (reg_node d, int_node) ∷ []
merges (Instr.load_const_float d) = (reg_node d, float_node) ∷ []
merges (Instr.load_arg_int d) = []
merges (Instr.load_arg_float d) = (reg_node d, float_node) ∷ []
merges (Instr.unary_op d s UnaryCompute.id) = (reg_node d, reg_node s) ∷ []
merges (Instr.unary_op d s op) =
    (reg_node d, scalar_node (unary_ret_type op))
    ∷ (reg_node s, scalar_node (unary_input_type op))
    ∷ []
merges (Instr.binary_op d a b op) =
    (reg_node d, scalar_node (binary_ret_type op))
    ∷ (reg_node a, scalar_node (binary_input_type op))
    ∷ (reg_node b, scalar_node (binary_input_type op))
    ∷ []
merges (Instr.array_index d a b) =
    (reg_node d, addr_node) ∷ (reg_node a, addr_node) ∷ (reg_node b, int_node) ∷ []
merges (Instr.load d a) = (reg_node a, addr_node) ∷ []
merges (Instr.store a s) = (reg_node a, addr_node) ∷ []
merges Instr.jump = []
merges (Instr.branch c) = (reg_node c, int_node) ∷ []
merges (Instr.return_int s) = (reg_node s, int_node) ∷ []
merges (Instr.return_float s) = (reg_node s, float_node) ∷ []
merges (Instr.call d args ScalarType.float) = float_args args ++ ((reg_node d, float_node) ∷ [])
merges (Instr.call d args ScalarType.int) = float_args args ++ ((reg_node d, int_node) ∷ [])
merges (Instr.call d args _) = float_args args
merges (Instr.phi d rs) = phi_merges d rs

abbrev pub all_merges : List Instr → List (ℕ × ℕ)
all_merges [] = []
all_merges (i ∷ is) = merges i ++ all_merges is

-- A failed assertion ends the program.
pub data Verdict : Type 0 where
  aborted : Verdict
  checked : Bool → Verdict

-- `mp[x] == mp[y]`
unfoldable pub same_class : ℕ → UnionFind → ℕ → ℕ → Option (Bool × UnionFind)
unfolding find
same_class fuel u x y = do (r, u1) ← find fuel u x; (s, u2) ← find fuel u1 y; some (r == s, u2)

-- `success`
unfoldable pub success : ℕ → UnionFind → Option Bool
unfolding same_class
success fuel u = do
  (a, u1) ← same_class fuel u int_node float_node
  (b, u2) ← same_class fuel u1 int_node addr_node
  (c, u3) ← same_class fuel u2 float_node addr_node
  some (if a || b then false else if c then false else true)

-- The merges with the check after each of them, and `success` at the end.
unfoldable pub check_all : ℕ → UnionFind → List (ℕ × ℕ) → Option Verdict
unfolding merge same_class success
check_all fuel u [] = do b ← success fuel u; some (Verdict.checked b)
check_all fuel u ((x, y) ∷ ms) = do
  u1 ← merge fuel u x y
  (a, u2) ← same_class fuel u1 int_node float_node
  (b, u3) ← same_class fuel u2 addr_node float_node
  let rest = check_all fuel u3 ms
  if a || b then some Verdict.aborted else rest

unfoldable pub type_check : List Instr → Option Verdict
unfolding check_all merges
type_check code = check_all (suc (length (all_merges code))) (λ _. none) (all_merges code)
