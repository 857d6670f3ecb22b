-- ===== src/Arm/Immediate.antt =====
-- `is_legal_immediate` of src/arm/archinfo.hpp and the sequences of src/arm/inst.cpp that load a
-- constant and add one. A bit pattern is rotated as the sum of its two parts, whose bits are apart.
pub mod Rotate
pub mod Load
pub mod Tests
use helesta.Prelude.{
  ℕ, zero, suc, ◌+◌, ◌-◌, ◌*◌, ◌/◌, ◌%◌, ◌^◌, ◌≡◌, ◌≢◌, Bool, true, false, ◌||◌, Option, none, some,
  List, [], ◌∷◌, ◌++◌, leb, ◌==◌, if◌then◌else◌,
}
use helesta.Prelude.Word.{add32, sub32, neg32, IsWord}

-- `(u << 2 * i) | (u >> (32 - 2 * i))`
unfoldable pub rotate_left : ℕ → ℕ → ℕ
rotate_left u i = u * 2 ^ (2 * i) % 2 ^ 32 + u / 2 ^ (32 - 2 * i)

-- The loop from `i` on, with `n` rounds left.
unfoldable pub fits_rotated : ℕ → ℕ → ℕ → Bool
unfolding rotate_left
fits_rotated zero i u = false
fits_rotated (suc n) i u = leb (rotate_left u i) 0xff || fits_rotated n (suc i) u

unfoldable pub is_legal_immediate : ℕ → Bool
unfolding fits_rotated
is_legal_immediate u = leb u 0xff || fits_rotated 15 1 u

-- `~u`
abbrev pub not32 : ℕ → ℕ
not32 u = 2 ^ 32 - 1 - u

-- The instructions of src/arm/inst.hpp that load and add constants.
pub data Inst : Type 0 where
  mov : ℕ → ℕ → Inst
  mvn : ℕ → ℕ → Inst
  move_w : ℕ → ℕ → Inst
  move_t : ℕ → ℕ → Inst
  reg_imm_add : ℕ → ℕ → ℕ → Inst
  reg_imm_sub : ℕ → ℕ → ℕ → Inst
  reg_reg_add : ℕ → ℕ → ℕ → Inst

unfoldable pub load_imm : ℕ → ℕ → List Inst
load_imm dst imm =
    if is_legal_immediate imm
    then mov dst imm ∷ []
    else if is_legal_immediate (not32 imm)
    then mvn dst (not32 imm) ∷ []
    else move_w dst (imm % 2 ^ 16)
      ∷ (if imm / 2 ^ 16 == 0 then [] else move_t dst (imm / 2 ^ 16) ∷ [])

unfoldable pub reg_imm_sum : ℕ → ℕ → ℕ → List Inst
reg_imm_sum dst lhs rhs =
    if is_legal_immediate rhs
    then reg_imm_add dst lhs rhs ∷ []
    else if is_legal_immediate (neg32 rhs)
    then reg_imm_sub dst lhs (neg32 rhs) ∷ []
    else load_imm dst rhs ++ (reg_reg_add dst lhs dst ∷ [])
