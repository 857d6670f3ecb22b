-- ===== src/Arm/Inst/Reads.antt =====
-- Instructions of src/arm/inst.hpp under a condition: `set_cond` may make any instruction conditional.
use helesta.Prelude.{
  ℕ, zero, suc, Bool-cases, inl, inr, ◌≡◌, refl, Bool, true, false, ◌||◌, List, [], ◌∷◌, ◌++◌,
  if◌then◌else◌, arith,
}
use helesta.Arm.Cond.{InstCond}
use helesta.Arm.Inst.{Reg, same_reg, Arith, Constant, Memory, Control, Form}
use helesta.Arm.Inst.Sets.{
  arith_def, arith_use, constant_use, memory_def, memory_use, control_def, control_use, call_def,
  argument_registers, first, arguments, use_cpsr, def_reg, use_reg,
}

-- `Inst::def` and `Inst::use` on the lists.
abbrev pub has_reg : List Reg → Reg → Bool
has_reg [] q = false
has_reg (r ∷ rs) q = same_reg r q || has_reg rs q

-- The forms that read what they write, under a condition.
abbrev pub keeps : Form → Bool
keeps (Form.arith (Arith.f_reg op d a)) = false
keeps (Form.control (Control.simd r v)) = false
keeps _ = true

-- Under a condition, an instruction reads what it writes, but for `FRegInst` and `SIMD`.
pub keeps_lem :
    (m : Form) (c : InstCond) (q : Reg)
    → use_cpsr c ≡ true
    → keeps m ≡ true
    → has_reg (def_reg (record { cond = c; form = m })) q ≡ true
    → has_reg (use_reg (record { cond = c; form = m })) q ≡ true
unfolding def_reg use_reg arith_def arith_use constant_use memory_def memory_use control_def
    control_use
keeps_lem (Form.arith (Arith.reg_reg op d a b s)) cond q k h j = rw k (ground arith)
keeps_lem (Form.arith (Arith.f_reg_reg op d a b)) cond q k h j = rw k (ground arith)
keeps_lem (Form.arith (Arith.ml op d a b c)) cond q k h j = rw k (ground arith)
keeps_lem (Form.arith (Arith.smull d e a b)) cond q k h j = rw k (ground arith)
keeps_lem (Form.arith (Arith.reg_imm op d a n)) cond q k h j = rw k (ground arith)
keeps_lem (Form.arith (Arith.move_reg d a)) cond q k h j = rw k (ground arith)
keeps_lem (Form.arith (Arith.f_reg op d a)) cond q k h j = cc
keeps_lem (Form.arith (Arith.shift_inst d a s)) cond q k h j = rw k (ground arith)
keeps_lem (Form.constant (Constant.move_imm op d n)) cond q k h j = rw k (ground arith)
keeps_lem (Form.constant (Constant.move_w d n)) cond q k h j = rw k (ground arith)
keeps_lem (Form.constant (Constant.move_t d n)) cond q k h j = ground arith
keeps_lem (Form.constant (Constant.load_symbol_addr_lower16 d n)) cond q k h j = rw k (ground arith)
keeps_lem (Form.constant (Constant.load_symbol_addr_upper16 d n)) cond q k h j = ground arith
keeps_lem (Form.memory (Memory.load d a n)) cond q k h j = ground (arith, k)
keeps_lem (Form.memory (Memory.store r a n)) cond q k h j = ground (arith, k)
keeps_lem (Form.memory (Memory.complex_load d a o s)) cond q k h j = ground (arith, k)
keeps_lem (Form.memory (Memory.complex_store r a o s)) cond q k h j = ground (arith, k)
keeps_lem (Form.memory (Memory.load_stack d n p)) cond q k h j = ground (arith, k)
keeps_lem (Form.memory (Memory.store_stack r n p)) cond q k h j = ground (arith, k)
keeps_lem (Form.memory (Memory.push rs)) cond q k h j = ground (arith, k)
keeps_lem (Form.memory (Memory.change_sp n)) cond q k h j = ground (arith, k)
keeps_lem (Form.memory (Memory.load_stack_addr d n p)) cond q k h j = ground (arith, k)
keeps_lem (Form.memory (Memory.load_stack_offset d n p)) cond q k h j = ground (arith, k)
keeps_lem (Form.control (Control.reg_reg_cmp op a b)) cond q k h j = ground (arith, k)
keeps_lem (Form.control (Control.f_reg_reg_cmp a b)) cond q k h j = ground (arith, k)
keeps_lem (Form.control (Control.reg_imm_cmp op a n)) cond q k h j = ground (arith, k)
keeps_lem (Form.control (Control.simd r v)) cond q k h j = cc
keeps_lem (Form.control (Control.branch b)) cond q k h j = ground (arith, k)
keeps_lem (Form.control (Control.func_call f n m)) cond q k h j = ground (arith, k)
keeps_lem (Form.control (Control.return t)) cond q k h j = ground (arith, k)

has_reg-append :
    (rs ss : List Reg) (q : Reg) → has_reg (rs ++ ss) q ≡ (has_reg rs q || has_reg ss q)
has_reg-append [] ss q = refl
has_reg-append (r ∷ rs) ss q = ground (arith, has_reg-append rs ss q)

has_reg-first :
    (n : ℕ) (rs : List Reg) (q : Reg) → has_reg (first n rs) q ≡ true → has_reg rs q ≡ true
has_reg-first zero rs q h = cc
has_reg-first (suc n) [] q h = cc
has_reg-first (suc n) (r ∷ rs) q h = ground (arith, has_reg-first n rs q)

argument_change :
    (f : Bool) (q : Reg) → has_reg (argument_registers f) q ≡ true → has_reg call_def q ≡ true
argument_change true q h = ground arith
argument_change false q h = ground arith

call_def-has :
    (n m : ℕ) (k : Bool) (q : Reg)
    → has_reg (arguments false n ++ arguments true m) q ≡ true
    → has_reg (if k then call_def else arguments false n ++ arguments true m) q ≡ true
call_def-has n m false q h = h
call_def-has n m true q h =
    let both = has_reg-append (arguments false n) (arguments true m) q in
    elim (Bool-cases (has_reg (arguments false n) q)) [
      | inl k ↦ argument_change false q (has_reg-first n (argument_registers false) q k)
      | inr k ↦ argument_change true q (has_reg-first m (argument_registers true) q (cc))
    ]

-- What an instruction reads, it also reads under a condition.
pub use_cond :
    (m : Form) (c : InstCond) (q : Reg)
    → has_reg (use_reg (record { cond = InstCond.always; form = m })) q ≡ true
    → has_reg (use_reg (record { cond = c; form = m })) q ≡ true
unfolding use_reg arith_use constant_use memory_use control_use
use_cond (Form.arith (Arith.reg_reg op d a b s)) cond q j = ground arith
use_cond (Form.arith (Arith.f_reg_reg op d a b)) cond q j = ground arith
use_cond (Form.arith (Arith.ml op d a b c)) cond q j = ground arith
use_cond (Form.arith (Arith.smull d e a b)) cond q j = ground arith
use_cond (Form.arith (Arith.reg_imm op d a n)) cond q j = ground arith
use_cond (Form.arith (Arith.move_reg d a)) cond q j = ground arith
use_cond (Form.arith (Arith.f_reg op d a)) cond q j = ground arith
use_cond (Form.arith (Arith.shift_inst d a s)) cond q j = ground arith
use_cond (Form.constant (Constant.move_imm op d n)) cond q j = ground arith
use_cond (Form.constant (Constant.move_w d n)) cond q j = ground arith
use_cond (Form.constant (Constant.move_t d n)) cond q j = ground arith
use_cond (Form.constant (Constant.load_symbol_addr_lower16 d n)) cond q j = ground arith
use_cond (Form.constant (Constant.load_symbol_addr_upper16 d n)) cond q j = ground arith
use_cond (Form.memory (Memory.load d a n)) cond q j = ground arith
use_cond (Form.memory (Memory.store r a n)) cond q j = ground arith
use_cond (Form.memory (Memory.complex_load d a o s)) cond q j = ground arith
use_cond (Form.memory (Memory.complex_store r a o s)) cond q j = ground arith
use_cond (Form.memory (Memory.load_stack d n p)) cond q j = ground arith
use_cond (Form.memory (Memory.store_stack r n p)) cond q j = ground arith
use_cond (Form.memory (Memory.push rs)) cond q j = ground arith
use_cond (Form.memory (Memory.change_sp n)) cond q j = ground arith
use_cond (Form.memory (Memory.load_stack_addr d n p)) cond q j = ground arith
use_cond (Form.memory (Memory.load_stack_offset d n p)) cond q j = ground arith
use_cond (Form.control (Control.reg_reg_cmp op a b)) cond q j = ground arith
use_cond (Form.control (Control.f_reg_reg_cmp a b)) cond q j = ground arith
use_cond (Form.control (Control.reg_imm_cmp op a n)) cond q j = ground arith
use_cond (Form.control (Control.simd r v)) cond q j = ground arith
use_cond (Form.control (Control.branch b)) cond q j = ground arith
use_cond (Form.control (Control.func_call f n m)) cond q j = call_def-has n m (use_cpsr cond) q j
use_cond (Form.control (Control.return t)) cond q j = ground arith
