-- ===== src/Arm/Immediate/Tests.antt =====
-- A processor with the instructions of the model, and constants that are loaded into it.
use helesta.Prelude.{
  ℕ, ◌+◌, ◌*◌, ◌%◌, ◌^◌, ◌≡◌, refl, true, false, arith, update, ◌==◌, if◌then◌else◌, ◌||◌, ◌↔◌,
}
use helesta.Prelude.Word.{add32, sub32, neg32}
use helesta.Arm.Immediate.{
  Inst, mov, mvn, move_w, move_t, reg_imm_add, reg_imm_sub, reg_reg_add, is_legal_immediate, not32,
  load_imm, reg_imm_sum, fits_rotated, rotate_left,
}
use helesta.Arm.Immediate.Load.{destination, IsArm, Sets, load_imm_lem, reg_imm_sum_lem}
use helesta.Arm.Immediate.Rotate.{Encodable, is_legal_immediate_iff}

abbrev Cpu : Type 0
Cpu = ℕ → ℕ

abbrev reg : Cpu → ℕ → ℕ
reg s r = s r % 2 ^ 32

unfoldable result : Inst → Cpu → ℕ
result (mov d v) s = v
result (mvn d v) s = not32 v
result (move_w d v) s = v
result (move_t d v) s = v * 2 ^ 16 + reg s d % 2 ^ 16
result (reg_imm_add d l v) s = add32 (reg s l) v
result (reg_imm_sub d l v) s = sub32 (reg s l) v
result (reg_reg_add d l r) s = add32 (reg s l) (reg s r)

abbrev exec : Inst → Cpu → Cpu
exec i s = update s (destination i) (result i s)

cpu-IsArm : IsArm reg exec
unfolding result add32 sub32
cpu-IsArm = record {
  words = λ s r. omega arith;
  others = λ i s r n. ground arith;
  mov_law = λ d v s w h. ground arith;
  mvn_law = λ d v s h. ground arith;
  move_w_law = λ d v s h. ground arith;
  move_t_law = λ d v s h. ground arith;
  add_imm_law = λ d l v s h. ground arith;
  sub_imm_law = λ d l v s h. ground arith;
  add_reg_law = λ d l r s. ground arith;
}

legal : is_legal_immediate 0xff000000 ≡ true
unfolding is_legal_immediate fits_rotated rotate_left
legal = refl

not_legal : is_legal_immediate 0x101 ≡ false
unfolding is_legal_immediate fits_rotated rotate_left
not_legal = refl

abbrev start : Cpu
start r = r

load_imm_lem_example : Sets reg exec cpu-IsArm (load_imm 3 0x12345678) 3 0x12345678 start
load_imm_lem_example = load_imm_lem reg exec cpu-IsArm 3 0x12345678 start (omega arith)

-- The operand is doubled when its register is the destination.
reg_imm_sum_lem_example :
    Sets reg exec cpu-IsArm
      (reg_imm_sum 3 3 0x12345)
      3
      (if is_legal_immediate 0x12345 || is_legal_immediate (neg32 0x12345)
        then add32 (reg start 3) 0x12345
        else if 3 == 3
        then add32 0x12345 0x12345
        else add32 (reg start 3) 0x12345)
      start
reg_imm_sum_lem_example = reg_imm_sum_lem reg exec cpu-IsArm 3 3 0x12345 start (omega arith)

is_legal_immediate_iff_example : (is_legal_immediate 0xff000000 ≡ true) ↔ Encodable 0xff000000
is_legal_immediate_iff_example = is_legal_immediate_iff 0xff000000 (omega arith)
