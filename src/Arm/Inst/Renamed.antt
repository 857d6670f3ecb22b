-- ===== src/Arm/Inst/Renamed.antt =====
-- What `replace_reg` of src/arm/inst.hpp changes of an instruction.
use helesta.Prelude.{
  ℕ, zero, suc, ◌≡◌, refl, sym, ap, ap₂, ◌∙◌, Bool, true, false, ◌&&◌, none, some, List, [], ◌∷◌,
  ◌++◌, ==_iff, map, Bool-cases, inl, inr, arith,
}
use helesta.Ir.Op.{ScalarType}
use helesta.Arm.Inst.{
  Reg, int_reg, float_reg, same_reg, same_type, is_pseudo, is_machine, Arith, Constant, Memory,
  Control, Form, Inst,
}
use helesta.Arm.Inst.Sets.{
  arith_def, arith_use, constant_dst, constant_use, memory_def, memory_use, control_def,
  control_use, call_def, argument_registers, first, arguments, use_cpsr, def_reg, use_reg,
}
use helesta.Arm.Inst.Replace.{
  renamed, arith_map, constant_map, memory_map, control_map, replace_reg,
}

arith_def-arith_map : (f : Reg → Reg) (a : Arith) → arith_def (arith_map f a) ≡ map f (arith_def a)
unfolding arith_def arith_map
arith_def-arith_map f (Arith.reg_reg op d a b s) = refl
arith_def-arith_map f (Arith.f_reg_reg op d a b) = refl
arith_def-arith_map f (Arith.ml op d a b c) = refl
arith_def-arith_map f (Arith.smull d e a b) = refl
arith_def-arith_map f (Arith.reg_imm op d a n) = refl
arith_def-arith_map f (Arith.move_reg d a) = refl
arith_def-arith_map f (Arith.f_reg op d a) = refl
arith_def-arith_map f (Arith.shift_inst d a s) = refl

arith_use-arith_map :
    (f : Reg → Reg) (k : Bool) (a : Arith) → arith_use k (arith_map f a) ≡ map f (arith_use k a)
unfolding arith_use arith_map
arith_use-arith_map f true (Arith.reg_reg op d a b s) = refl
arith_use-arith_map f false (Arith.reg_reg op d a b s) = refl
arith_use-arith_map f true (Arith.f_reg_reg op d a b) = refl
arith_use-arith_map f false (Arith.f_reg_reg op d a b) = refl
arith_use-arith_map f true (Arith.ml op d a b c) = refl
arith_use-arith_map f false (Arith.ml op d a b c) = refl
arith_use-arith_map f true (Arith.smull d e a b) = refl
arith_use-arith_map f false (Arith.smull d e a b) = refl
arith_use-arith_map f true (Arith.reg_imm op d a n) = refl
arith_use-arith_map f false (Arith.reg_imm op d a n) = refl
arith_use-arith_map f true (Arith.move_reg d a) = refl
arith_use-arith_map f false (Arith.move_reg d a) = refl
arith_use-arith_map f true (Arith.f_reg op d a) = refl
arith_use-arith_map f false (Arith.f_reg op d a) = refl
arith_use-arith_map f true (Arith.shift_inst d a s) = refl
arith_use-arith_map f false (Arith.shift_inst d a s) = refl

constant_dst-constant_map :
    (f : Reg → Reg) (c : Constant) → constant_dst (constant_map f c) ≡ f (constant_dst c)
unfolding constant_map
constant_dst-constant_map f (Constant.move_imm op d n) = refl
constant_dst-constant_map f (Constant.move_w d n) = refl
constant_dst-constant_map f (Constant.move_t d n) = refl
constant_dst-constant_map f (Constant.load_symbol_addr_lower16 d n) = refl
constant_dst-constant_map f (Constant.load_symbol_addr_upper16 d n) = refl

constant_use-constant_map :
    (f : Reg → Reg) (k : Bool) (c : Constant)
    → constant_use k (constant_map f c) ≡ map f (constant_use k c)
unfolding constant_use constant_map
constant_use-constant_map f true (Constant.move_imm op d n) = refl
constant_use-constant_map f false (Constant.move_imm op d n) = refl
constant_use-constant_map f true (Constant.move_w d n) = refl
constant_use-constant_map f false (Constant.move_w d n) = refl
constant_use-constant_map f true (Constant.move_t d n) = refl
constant_use-constant_map f false (Constant.move_t d n) = refl
constant_use-constant_map f true (Constant.load_symbol_addr_lower16 d n) = refl
constant_use-constant_map f false (Constant.load_symbol_addr_lower16 d n) = refl
constant_use-constant_map f true (Constant.load_symbol_addr_upper16 d n) = refl
constant_use-constant_map f false (Constant.load_symbol_addr_upper16 d n) = refl

memory_def-memory_map :
    (f : Reg → Reg) (m : Memory) → memory_def (memory_map f m) ≡ map f (memory_def m)
unfolding memory_def memory_map
memory_def-memory_map f (Memory.load d a n) = refl
memory_def-memory_map f (Memory.store r a n) = refl
memory_def-memory_map f (Memory.complex_load d a o s) = refl
memory_def-memory_map f (Memory.complex_store r a o s) = refl
memory_def-memory_map f (Memory.load_stack d n p) = refl
memory_def-memory_map f (Memory.store_stack r n p) = refl
memory_def-memory_map f (Memory.push rs) = refl
memory_def-memory_map f (Memory.change_sp n) = refl
memory_def-memory_map f (Memory.load_stack_addr d n p) = refl
memory_def-memory_map f (Memory.load_stack_offset d n p) = refl

memory_use-memory_map :
    (f : Reg → Reg) (k : Bool) (m : Memory) → memory_use k (memory_map f m) ≡ map f (memory_use k m)
unfolding memory_use memory_map
memory_use-memory_map f true (Memory.load d a n) = refl
memory_use-memory_map f false (Memory.load d a n) = refl
memory_use-memory_map f true (Memory.store r a n) = refl
memory_use-memory_map f false (Memory.store r a n) = refl
memory_use-memory_map f true (Memory.complex_load d a o s) = refl
memory_use-memory_map f false (Memory.complex_load d a o s) = refl
memory_use-memory_map f true (Memory.complex_store r a o s) = refl
memory_use-memory_map f false (Memory.complex_store r a o s) = refl
memory_use-memory_map f true (Memory.load_stack d n p) = refl
memory_use-memory_map f false (Memory.load_stack d n p) = refl
memory_use-memory_map f true (Memory.store_stack r n p) = refl
memory_use-memory_map f false (Memory.store_stack r n p) = refl
memory_use-memory_map f true (Memory.push rs) = refl
memory_use-memory_map f false (Memory.push rs) = refl
memory_use-memory_map f true (Memory.change_sp n) = refl
memory_use-memory_map f false (Memory.change_sp n) = refl
memory_use-memory_map f true (Memory.load_stack_addr d n p) = refl
memory_use-memory_map f false (Memory.load_stack_addr d n p) = refl
memory_use-memory_map f true (Memory.load_stack_offset d n p) = refl
memory_use-memory_map f false (Memory.load_stack_offset d n p) = refl

abbrev all_machine : List Reg → Bool
all_machine [] = true
all_machine (r ∷ rs) = is_machine r && all_machine rs

all_machine-append :
    (xs ys : List Reg)
    → all_machine xs ≡ true
    → all_machine ys ≡ true
    → all_machine (xs ++ ys) ≡ true
all_machine-append [] ys h k = k
all_machine-append (x ∷ xs) ys h k = ground (arith, all_machine-append xs ys)

same_type_refl : (f : Bool) → same_type f f ≡ true
same_type_refl true = refl
same_type_refl false = refl

same_type_lem : (f g : Bool) → same_type f g ≡ true → f ≡ g
same_type_lem true g e = sym e
same_type_lem false true e = cc
same_type_lem false false e = refl

pub same_reg_refl : (r : Reg) → same_reg r r ≡ true
same_reg_refl r = ground (arith, same_type_refl r.is_float)

pub same_reg_lem : (a b : Reg) → same_reg a b ≡ true → a ≡ b
same_reg_lem a b e =
    let types : a.is_float ≡ b.is_float = same_type_lem a.is_float b.is_float (ground arith) in
    let ids : a.id ≡ b.id = (==_iff a.id b.id).0 (ground arith) in
    ap₂ (λ n f. record { id = n; is_float = f }) ids types

first-machine : (n : ℕ) (rs : List Reg) → all_machine rs ≡ true → all_machine (first n rs) ≡ true
first-machine zero rs h = refl
first-machine (suc n) [] h = refl
first-machine (suc n) (r ∷ rs) h = ground (arith, first-machine n rs)

four-machine : (f : Bool) → all_machine (argument_registers f) ≡ true
four-machine true = refl
four-machine false = refl

module _ (before after : Reg) (pseudo : is_pseudo before ≡ true) where
  -- Machine registers are not renamed.
  map-renamed : (rs : List Reg) → all_machine rs ≡ true → map (renamed before after) rs ≡ rs
  map-renamed [] h = refl
  map-renamed (r ∷ rs) h =
      let other : same_reg r before ≡ false = elim (Bool-cases (same_reg r before)) [
        | inl k ↦
            let e : is_pseudo r ≡ true = ap is_pseudo (same_reg_lem r before k) ∙ pseudo in
            absurd (ground arith)
        | inr k ↦ k
      ] in
      let one : renamed before after r ≡ r = rw other refl in
      ap₂ (λ x xs. x ∷ xs) one (map-renamed rs (ground arith))

  arguments-machine : (f : Bool) (n : ℕ) → all_machine (arguments f n) ≡ true
  arguments-machine f n = first-machine n (argument_registers f) (four-machine f)

  control_def-control_map :
      (c : Control)
      → control_def (control_map (renamed before after) c)
        ≡ map (renamed before after) (control_def c)
  unfolding control_def control_map
  control_def-control_map (Control.reg_reg_cmp op a b) = refl
  control_def-control_map (Control.f_reg_reg_cmp a b) = refl
  control_def-control_map (Control.reg_imm_cmp op a n) = refl
  control_def-control_map (Control.simd (some r) true) = sym (map-renamed (int_reg 0 ∷ []) refl)
  control_def-control_map (Control.simd (some r) false) = refl
  control_def-control_map (Control.simd none true) = sym (map-renamed (int_reg 0 ∷ []) refl)
  control_def-control_map (Control.simd none false) = refl
  control_def-control_map (Control.branch b) = refl
  control_def-control_map (Control.func_call g n m) = sym (map-renamed call_def refl)
  control_def-control_map (Control.return t) = refl

  control_use-control_map :
      (k : Bool) (c : Control)
      → control_use k (control_map (renamed before after) c)
        ≡ map (renamed before after) (control_use k c)
  unfolding control_use control_map
  control_use-control_map k (Control.reg_reg_cmp op a b) = refl
  control_use-control_map k (Control.f_reg_reg_cmp a b) = refl
  control_use-control_map k (Control.reg_imm_cmp op a n) = refl
  control_use-control_map k (Control.simd (some r) v) = refl
  control_use-control_map k (Control.simd none v) = refl
  control_use-control_map k (Control.branch b) = refl
  control_use-control_map true (Control.func_call g n m) = sym (map-renamed call_def refl)
  control_use-control_map false (Control.func_call g n m) = sym (
      map-renamed (arguments false n ++ arguments true m) (
        all_machine-append (arguments false n) (arguments true m) (arguments-machine false n)
          (arguments-machine true m)))
  control_use-control_map k (Control.return ScalarType.int) =
      sym (map-renamed (int_reg 0 ∷ []) refl)
  control_use-control_map k (Control.return ScalarType.float) =
      sym (map-renamed (float_reg 0 ∷ []) refl)
  control_use-control_map k (Control.return ScalarType.void) = refl
  control_use-control_map k (Control.return ScalarType.char) = refl

  -- Where a register is no machine register, `replace_reg` renames it in what an instruction writes and in what it
  -- reads, and changes nothing else there.
  pub replace_reg_lem :
      (i : Inst)
      → (def_reg (replace_reg before after i) ≡ map (renamed before after) (def_reg i))
        × (use_reg (replace_reg before after i) ≡ map (renamed before after) (use_reg i))
  unfolding replace_reg def_reg use_reg
  replace_reg_lem i = go i.form
    where
      go :
          (m : Form)
          → let j : Inst = record i { form = m } in
            (def_reg (replace_reg before after j) ≡ map (renamed before after) (def_reg j))
            × (use_reg (replace_reg before after j) ≡ map (renamed before after) (use_reg j))
      go (Form.arith a) = (
        arith_def-arith_map (renamed before after) a,
        arith_use-arith_map (renamed before after) (use_cpsr i.cond) a,
      )
      go (Form.constant c) = (
        ap (λ r. r ∷ []) (constant_dst-constant_map (renamed before after) c),
        constant_use-constant_map (renamed before after) (use_cpsr i.cond) c,
      )
      go (Form.memory m) = (
        memory_def-memory_map (renamed before after) m,
        memory_use-memory_map (renamed before after) (use_cpsr i.cond) m,
      )
      go (Form.control c) = (control_def-control_map c, control_use-control_map (use_cpsr i.cond) c)
