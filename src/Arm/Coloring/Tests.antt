-- ===== src/Arm/Coloring/Tests.antt =====
-- A small function whose registers are allocated as in src/arm/simple_coloring_alloc.hpp.
use helesta.Prelude.{
  ℕ, ◌≡◌, ◌⊎◌, Bool, true, ◌||◌, some, refl, ltb, List, [], ◌∷◌, ◌==◌, if◌then◌else◌, arith,
}
use helesta.Arm.Coloring.{
  RegisterUsage, RegConvention, int_registers, Graph, Colors, Allocation, start, simplify, remove,
  detach, most, choose_spill, spill_all, run,
}
use helesta.Arm.Coloring.Spill.{Ends, Chooses, choose_spill_lem}
use helesta.Arm.Coloring.Sets.{In}
use helesta.Arm.Coloring.Choose.{int-IsConvention}
use helesta.Arm.Coloring.Correct.{IsInterference, Allocates, Occurs, Few, run_lem}

-- 16 is live together with 17 and with the register 0.
abbrev occurs : ℕ → Bool
occurs u = (u == 0) || (u == 16) || (u == 17)

-- 17 has been made by `spill`, and 16 holds a constant.
abbrev is_spilling : ℕ → Bool
is_spilling u = u == 17

abbrev is_constant : ℕ → Bool
is_constant u = u == 16

abbrev meets : ℕ → List ℕ
meets u = if u == 16 then 0 ∷ 17 ∷ [] else if (u == 0) || (u == 17) then 16 ∷ [] else []

meets_cases :
    (u v : ℕ)
    → In v (meets u)
    → (((u ≡ 16) × ((v ≡ 0) ⊎ (v ≡ 17))) ⊎ (((u ≡ 0) ⊎ (u ≡ 17)) × (v ≡ 16)))
meets_cases u v i = ground arith

meets-IsInterference : IsInterference int_registers occurs meets 18
meets-IsInterference = record {
  symmetric = λ u v i. ground (arith, meets_cases u v i);
  irreflexive = λ u i. ground (arith, meets_cases u u i);
  sets = λ u. ground arith;
  ends = λ u v i. ground (arith, meets_cases u v i);
}

run_lem_example :
    (r : Allocation) × (run int_registers is_spilling is_constant occurs meets 18 ≡ some r)
    × Ends is_spilling (Allocates int_registers occurs meets 18) (Occurs int_registers occurs 18) r
    × (((u : ℕ) → Few int_registers occurs meets u) → (s : Colors) × (r ≡ Allocation.colored s))
run_lem_example =
    run_lem int_registers occurs meets int-IsConvention is_spilling is_constant 18 (omega arith)
      meets-IsInterference

-- Registers with one that may be allocated, and nodes that are joined: one is spilled, or none may be.
abbrev one_register : RegConvention
one_register = record {
  count = 1;
  allocable_register_count = 1;
  register_usage = RegisterUsage.caller_save ∷ [];
}

abbrev three : ℕ → List ℕ
three u =
    if u == 1 then 2 ∷ 3 ∷ [] else if u == 2 then 1 ∷ 3 ∷ [] else if u == 3 then 1 ∷ 2 ∷ [] else []

run-three :
    run one_register (λ u. u == 1) (λ u. u == 3) (λ u. ltb 0 u) three 4
    ≡ some (Allocation.spilled (3 ∷ 2 ∷ []))
unfolding run start simplify remove detach spill_all choose_spill most
run-three = refl

none_to_spill :
    run one_register (λ u. true) (λ u. u == 3) (λ u. ltb 0 u) three 4
    ≡ some (Allocation.stuck (1 ∷ 2 ∷ 3 ∷ []))
unfolding run start simplify remove detach spill_all choose_spill most
none_to_spill = refl

abbrev three_left : Graph
three_left = record { edges = three; queue = []; remain = 1 ∷ 2 ∷ 3 ∷ [] }

choose_spill_lem_example :
    Chooses one_register occurs (λ u. u == 1) (λ u. u == 3) three_left (some 3)
unfolding choose_spill most
choose_spill_lem_example =
    choose_spill_lem one_register occurs (λ u. u == 1) (λ u. u == 3) three_left
