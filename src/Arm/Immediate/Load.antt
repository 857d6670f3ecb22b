-- ===== src/Arm/Immediate/Load.antt =====
-- What `load_imm` and `reg_imm_sum` of src/arm/inst.cpp leave in the registers of a processor that
-- carries out their instructions as src/arm/inst.hpp describes them.
use helesta.Prelude.{
  ℕ, ◌+◌, ◌*◌, ◌/◌, ◌%◌, ◌^◌, ◌<◌, ◌≡◌, ◌≢◌, refl, sym, ap, ◌∙◌, true, ◌||◌, List, [], ◌∷◌, ◌++◌,
  ◌==◌, ==_iff, if◌then◌else◌, arith, Bool-cases, inl, inr,
}
use helesta.Prelude.Word.{add32, sub32, neg32, IsWord}
use helesta.Arm.Immediate.{
  Inst, mov, mvn, move_w, move_t, reg_imm_add, reg_imm_sub, reg_reg_add, is_legal_immediate, not32,
  load_imm, reg_imm_sum,
}

abbrev pub destination : Inst → ℕ
destination (mov d _) = d
destination (mvn d _) = d
destination (move_w d _) = d
destination (move_t d _) = d
destination (reg_imm_add d _ _) = d
destination (reg_imm_sub d _ _) = d
destination (reg_reg_add d _ _) = d

-- What the instructions do to a processor whose registers are `reg`: an operand that is an immediate
-- has to be a legal one, and the halves that `movw` and `movt` take have 16 bits.
pub record IsArm {Cpu : Type 0} (reg : Cpu → ℕ → ℕ) (exec : Inst → Cpu → Cpu) : Type 0 where
  pub words : (s : Cpu) (r : ℕ) → IsWord (reg s r)
  pub others : (i : Inst) (s : Cpu) (r : ℕ) → r ≢ destination i → reg (exec i s) r ≡ reg s r
  pub mov_law :
      (d v : ℕ) (s : Cpu) → IsWord v → is_legal_immediate v ≡ true → reg (exec (mov d v) s) d ≡ v
  pub mvn_law :
      (d v : ℕ) (s : Cpu) → is_legal_immediate v ≡ true → reg (exec (mvn d v) s) d ≡ not32 v
  pub move_w_law : (d v : ℕ) (s : Cpu) → v < 2 ^ 16 → reg (exec (move_w d v) s) d ≡ v
  pub move_t_law :
      (d v : ℕ) (s : Cpu) → v < 2 ^ 16 → reg (exec (move_t d v) s) d ≡ v * 2 ^ 16 + reg s d % 2 ^ 16
  pub add_imm_law :
      (d l v : ℕ) (s : Cpu)
      → is_legal_immediate v ≡ true
      → reg (exec (reg_imm_add d l v) s) d ≡ add32 (reg s l) v
  pub sub_imm_law :
      (d l v : ℕ) (s : Cpu)
      → is_legal_immediate v ≡ true
      → reg (exec (reg_imm_sub d l v) s) d ≡ sub32 (reg s l) v
  pub add_reg_law :
      (d l r : ℕ) (s : Cpu) → reg (exec (reg_reg_add d l r) s) d ≡ add32 (reg s l) (reg s r)

module _ {Cpu : Type 0} (reg : Cpu → ℕ → ℕ) (exec : Inst → Cpu → Cpu) where
  abbrev pub exec_all : List Inst → Cpu → Cpu
  exec_all [] s = s
  exec_all (i ∷ is) s = exec_all is (exec i s)

  module _ (arm : IsArm reg exec) where
    -- What a sequence leaves: `v` in one register, and the others as they were.
    abbrev pub Sets : List Inst → ℕ → ℕ → Cpu → Type 0
    Sets is d v s =
        (reg (exec_all is s) d ≡ v) × ((r : ℕ) → r ≢ d → reg (exec_all is s) r ≡ reg s r)

    halves :
        (d v : ℕ) (s : Cpu)
        → IsWord v
        → Sets
            (move_w d (v % 2 ^ 16) ∷ (if v / 2 ^ 16 == 0 then [] else move_t d (v / 2 ^ 16) ∷ []))
            d
            v
            s
    halves d v s w =
        let low = v % 2 ^ 16 in
        let high = v / 2 ^ 16 in
        let t = exec (move_w d low) s in
        let first : reg t d ≡ low = arm.move_w_law d low s (omega arith) in
        elim (Bool-cases (high == 0)) [
          | inl z ↦
              rw z
                (first ∙ omega (arith, (==_iff high 0).0 z), λ r n. arm.others (move_w d low) s r n)
          | inr nz ↦ rw nz (
            arm.move_t_law d high t (omega arith) ∙ omega (arith, first),
            λ r n. arm.others (move_t d high) t r n ∙ arm.others (move_w d low) s r n,
          )
        ]

    -- A constant that is loaded is in the register, and the other registers are as before.
    pub load_imm_lem : (d v : ℕ) (s : Cpu) → IsWord v → Sets (load_imm d v) d v s
    unfolding load_imm
    load_imm_lem d v s w = elim (Bool-cases (is_legal_immediate v)) [
      | inl e ↦ rw e (arm.mov_law d v s w e, λ r n. arm.others (mov d v) s r n)
      | inr e ↦ rw e (elim (Bool-cases (is_legal_immediate (not32 v))) [
        | inl f ↦
            rw f
              (arm.mvn_law d (not32 v) s f ∙ omega arith, λ r n. arm.others (mvn d (not32 v)) s r n)
        | inr f ↦ rw f (halves d v s w)
      ])
    ]

    exec_all-append :
        (is js : List Inst) (s : Cpu) → exec_all (is ++ js) s ≡ exec_all js (exec_all is s)
    exec_all-append [] js s = refl
    exec_all-append (i ∷ is) js s = exec_all-append is js (exec i s)

    long_sum :
        (d l v : ℕ) (s : Cpu)
        → IsWord v
        → Sets
            (load_imm d v ++ (reg_reg_add d l d ∷ []))
            d
            (if d == l then add32 v v else add32 (reg s l) v)
            s
    long_sum d l v s w =
        let t = exec_all (load_imm d v) s in
        let (loaded, kept) = load_imm_lem d v s w in
        let sum : reg (exec (reg_reg_add d l d) t) d ≡ add32 (reg t l) v =
          arm.add_reg_law d l d t ∙ ap (λ x. add32 (reg t l) x) loaded in
        rw (exec_all-append (load_imm d v) (reg_reg_add d l d ∷ []) s) (
          elim (Bool-cases (d == l)) [
            | inl e ↦
                let p : l ≡ d = sym ((==_iff d l).0 e) in
                rw e (sum ∙ ap (λ x. add32 x v) (ap (reg t) p ∙ loaded))
            | inr e ↦
                let n : l ≢ d = λ p. grind arith in rw e (sum ∙ ap (λ x. add32 x v) (kept l n))
          ],
          λ r n. arm.others (reg_reg_add d l d) t r n ∙ kept r n,
        )

    -- `reg_imm_sum` leaves the sum of a register and a constant in another register, or in the same
    -- one where the constant or its negation is a legal immediate; in the same register, which
    -- src/arm/inst.hpp rules out, any other constant overwrites the operand and is doubled. The other
    -- registers are as before.
    pub reg_imm_sum_lem :
        (d l v : ℕ) (s : Cpu)
        → IsWord v
        → Sets
            (reg_imm_sum d l v)
            d
            (if is_legal_immediate v || is_legal_immediate (neg32 v)
              then add32 (reg s l) v
              else if d == l
              then add32 v v
              else add32 (reg s l) v)
            s
    unfolding reg_imm_sum
    reg_imm_sum_lem d l v s w = elim (Bool-cases (is_legal_immediate v)) [
      | inl e ↦ rw e (arm.add_imm_law d l v s e, λ r n. arm.others (reg_imm_add d l v) s r n)
      | inr e ↦ rw e (elim (Bool-cases (is_legal_immediate (neg32 v))) [
        | inl f ↦
            let same : sub32 (reg s l) (neg32 v) ≡ add32 (reg s l) v =
              unfold sub32 neg32 add32 in omega (arith, arm.words s l) in
            rw f (
              arm.sub_imm_law d l (neg32 v) s f ∙ same,
              λ r n. arm.others (reg_imm_sub d l (neg32 v)) s r n,
            )
        | inr f ↦ rw f (long_sum d l v s w)
      ])
    ]
