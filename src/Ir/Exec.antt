-- ===== src/Ir/Exec.antt =====
-- The instructions of src/ir/ir.hpp and `exec` of src/ir/ir.cpp, which runs a function of the IR.
-- Calls, the vector instructions and the simulated threads are not in this model. `none` is a
-- failed assertion; registers and memory hold 32-bit words, memory indexed by `addr / 4`.
pub mod Lines
use helesta.Prelude.{
  ℕ, zero, suc, ◌+◌, ◌/◌, ◌%◌, ◌^◌, Bool, true, false, ◌&&◌, Option, none, some, List, [], ◌∷◌, ltb,
  leb, ◌==◌, if◌then◌else◌, get_elem?, update, ◌>>=◌, ◌>>◌, require,
}
use mathlib.Core.Option
use helesta.Prelude.Word.{add32, mul32}
use helesta.Ir.Scalar.{FloatUnit, UnaryCompute, BinaryCompute, compute_unary, compute_binary}
use helesta.Ir.Op.{ScalarType}

-- A register is its id; a block is named by its place in the function.
pub data Instr : Type 0 where
  load_addr : ℕ → Bool → ℕ → Instr
  load_const : ScalarType → ℕ → ℕ → Instr
  load_arg : ℕ → ℕ → Instr
  unary_op : ℕ → ℕ → UnaryCompute → Instr
  binary_op : ℕ → ℕ → ℕ → BinaryCompute → Instr
  array_index : ℕ → ℕ → ℕ → ℕ → Instr
  load : ℕ → ℕ → ℕ → Option ℕ → Instr
  store : ℕ → ℕ → ℕ → Option ℕ → Instr
  phi : ℕ → List (ℕ × ℕ) → Instr
  jump : ℕ → Instr
  branch : ℕ → ℕ → ℕ → Instr
  return : ℕ → Instr

-- What a run of a function does not change.
pub record Env : Type 0 where
  pub unit : FloatUnit
  pub args : List ℕ
  pub sp : ℕ
  pub mem_limit : ℕ
  pub max_reg_id : ℕ
  pub enable_phi : Bool

pub record State : Type 0 where
  pub regs : ℕ → ℕ
  pub mem : ℕ → ℕ
  pub instr_cnt : ℕ
  pub mem_r_cnt : ℕ
  pub mem_w_cnt : ℕ
  pub jump_cnt : ℕ

pub data Outcome : Type 0 where
  next : State → Outcome
  goto : ℕ → State → Outcome
  returned : ℕ → State → Outcome

module _ (e : Env) where
  abbrev pub is_reg : ℕ → Bool
  is_reg x = leb 1 x && leb x e.max_reg_id

  unfoldable pub write_reg : State → ℕ → ℕ → Option State
  write_reg s x v = do require (is_reg x); some (record s { regs = update s.regs x v })

  unfoldable pub read_reg : State → ℕ → Option ℕ
  read_reg s x = do require (is_reg x); some (s.regs x)

  -- `0 <= addr && addr < mem_limit && !(addr % 4)` on an `int`.
  abbrev pub is_addr : ℕ → Bool
  is_addr a = ltb a (2 ^ 31) && ltb a e.mem_limit && (a % 4 == 0)

  unfoldable pub write_mem : State → ℕ → ℕ → Option State
  write_mem s a v = do
    require (is_addr a)
    some (record s { mem = update s.mem (a / 4) v; mem_w_cnt = s.mem_w_cnt + 1 })

  unfoldable pub read_mem : State → ℕ → Option (ℕ × State)
  read_mem s a = do
    require (is_addr a)
    some (s.mem (a / 4), record s { mem_r_cnt = s.mem_r_cnt + 1 })

  unfoldable pub address : State → ℕ → ℕ → Option ℕ → Option ℕ
  unfolding read_reg
  address s base offset none = do b ← read_reg s base; some (add32 b offset)
  address s base offset (some r) = do
    b ← read_reg s base
    i ← read_reg s r
    some (add32 (add32 b offset) (mul32 i 4))

  -- The values that the φ-functions of a block take, by the block that was left.
  unfoldable pub phi_uses : State → ℕ → List (ℕ × ℕ) → Option ℕ → Option (Option ℕ)
  unfolding read_reg
  phi_uses s last [] tmp = some tmp
  phi_uses s last ((r, b) ∷ uses) tmp = do
    v ← if b == last then Option.map some (read_reg s r) else some tmp
    phi_uses s last uses v

  unfoldable pub phi_tmps : State → ℕ → List Instr → (ℕ → Option ℕ) → Option (ℕ → Option ℕ)
  unfolding phi_uses
  phi_tmps s last [] tmps = some tmps
  phi_tmps s last (phi d uses ∷ is) tmps = do
    t ← phi_uses s last uses (tmps d)
    phi_tmps s last is (update tmps d t)
  phi_tmps s last (i ∷ is) tmps = phi_tmps s last is tmps

  unfoldable pub next_reg : State → ℕ → ℕ → Option Outcome
  unfolding write_reg
  next_reg s d v = Option.map next (write_reg s d v)

  -- Leaving block `cur` for `target`.
  unfoldable pub leave : State → ℕ → ℕ → Outcome
  leave s cur target =
      goto target (if cur + 1 == target then s else record s { jump_cnt = s.jump_cnt + 1 })

  unfoldable pub step : (ℕ → Option ℕ) → ℕ → Instr → State → Option Outcome
  unfolding read_reg next_reg read_mem write_mem address leave
  step tmps cur (phi d uses) s = if e.enable_phi then (do v ← tmps d; next_reg s d v) else none
  step tmps cur (load_addr d global offset) s =
      next_reg s d (add32 (if global then 0 else e.sp) offset)
  step tmps cur (load_const _ d v) s = next_reg s d v
  step tmps cur (load_arg d i) s = do v ← get_elem? e.args i; next_reg s d v
  step tmps cur (unary_op d s1 op) s = do
    a ← read_reg s s1
    next_reg s d (compute_unary e.unit op a)
  step tmps cur (binary_op d s1 s2 op) s = do
    a ← read_reg s s1
    b ← read_reg s s2
    v ← compute_binary e.unit op a b
    next_reg s d v
  step tmps cur (array_index d s1 s2 size) s = do
    a ← read_reg s s1
    i ← read_reg s s2
    next_reg s d (add32 a (mul32 i size))
  step tmps cur (load d base offset reg_offset) s = do
    a ← address s base offset reg_offset
    (v, t) ← read_mem s a
    next_reg t d v
  step tmps cur (store base s1 offset reg_offset) s = do
    a ← address s base offset reg_offset
    v ← read_reg s s1
    Option.map next (write_mem s a v)
  step tmps cur (jump target) s = some (leave s cur target)
  step tmps cur (branch cond target1 target0) s = do
    c ← read_reg s cond
    some (leave s cur (if c == 0 then target0 else target1))
  step tmps cur (return s1) s = do
    v ← read_reg s s1
    some (returned v (record s { jump_cnt = s.jump_cnt + 2 }))

  -- The instructions of a block up to one that leaves it.
  unfoldable pub steps : (ℕ → Option ℕ) → ℕ → List Instr → State → Option Outcome
  unfolding step
  steps tmps cur [] s = some (next s)
  steps tmps cur (i ∷ is) s = do
    o ← step tmps cur i (record s { instr_cnt = s.instr_cnt + 1 })
    elim o [
      | next t ↦ steps tmps cur is t
      | goto b t ↦ some (goto b t)
      | returned v t ↦ some (returned v t)
    ]

  -- `while (cur)`: a block that nothing leaves is entered again, as the source does.
  unfoldable pub run : List (List Instr) → ℕ → ℕ → ℕ → State → Option (ℕ × State)
  unfolding steps phi_tmps
  run blocks zero last cur s = none
  run blocks (suc fuel) last cur s = do
    is ← get_elem? blocks cur
    tmps ← if e.enable_phi then phi_tmps s last is (λ _. none) else some (λ _. none)
    o ← steps tmps cur is s
    elim o [
      | next t ↦ run blocks fuel last cur t
      | goto b t ↦ run blocks fuel cur b t
      | returned v t ↦ some (v, t)
    ]
