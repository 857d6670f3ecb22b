-- ===== src/Arm/Coloring/Choose.antt =====
-- The register that `run` of src/arm/simple_coloring_alloc.hpp chooses for a node.
use helesta.Prelude.{
  ℕ, zero, suc, ◌+◌, ◌<◌, ◌≤◌, ◌≡◌, inl, inr, refl, subst, Bool, true, false, not, ◌&&◌, ◌||◌, none,
  some, List, [], ◌∷◌, has, if◌then◌else◌, length, get_elem?, Bool-cases, Option-cases, arith,
}
use helesta.Arm.Coloring.{
  RegisterUsage, RegConvention, is_caller_save, is_callee_save, allocable, erase, pick, choose,
  int_registers, float_registers,
}
use helesta.Arm.Coloring.Sets.{In, has-In, In-has, erase-In, length-erase_lt}

pick_sound :
    (p : ℕ → RegisterUsage → Bool) (j : ℕ) (us : List RegisterUsage) (c : ℕ)
    → pick p j us ≡ some c
    → (i : ℕ) × (u : RegisterUsage) × (get_elem? us i ≡ some u) × (c ≡ j + i) × (p c u ≡ true)
unfolding pick
pick_sound p j [] c e = cc
pick_sound p j (u ∷ us) c e = elim (Bool-cases (p j u)) [
  | inl k ↦
      let same : j ≡ c = ground arith in (0, u, refl, omega arith, subst (λ z. p z u ≡ true) same k)
  | inr k ↦
      let (i, v, g, f, t) = pick_sound p (suc j) us c (rw k at e) in (suc i, v, g, omega arith, t)
]

pick_complete :
    (p : ℕ → RegisterUsage → Bool) (j : ℕ) (us : List RegisterUsage)
    → pick p j us ≡ none
    → (i : ℕ) (u : RegisterUsage) → get_elem? us i ≡ some u
    → p (j + i) u ≡ false
unfolding pick
pick_complete p j [] e i u g = cc
pick_complete p j (v ∷ us) e zero u g = elim (Bool-cases (p j v)) [
  | inl k ↦ absurd (ground arith)
  | inr k ↦
      let same : v ≡ u = ground arith in
      let zeroth : j ≡ j + 0 = omega arith in
      subst (λ z. p z u ≡ false) zeroth (subst (λ w. p j w ≡ false) same k)
]
pick_complete p j (v ∷ us) e (suc i) u g = elim (Bool-cases (p j v)) [
  | inl k ↦ absurd (ground arith)
  | inr k ↦
      let next : suc j + i ≡ j + suc i = omega arith in
      subst (λ z. p z u ≡ false) next (pick_complete p (suc j) us (rw k at e) i u g)
]

abbrev pub count_allocable : List RegisterUsage → ℕ
count_allocable [] = 0
count_allocable (u ∷ us) = (if allocable u then 1 else 0) + count_allocable us

-- Colours that take every allocable register are as many.
covered :
    (us : List RegisterUsage) (j : ℕ) (cs : List ℕ)
    → ((i : ℕ) (u : RegisterUsage) → get_elem? us i ≡ some u → allocable u ≡ true → In (j + i) cs)
    → count_allocable us ≤ length cs
covered [] j cs h = omega arith
covered (u ∷ us) j cs h = elim (Bool-cases (allocable u)) [
  | inl k ↦
      let zeroth : j + 0 ≡ j = omega arith in
      let here : In j cs = subst (λ z. In z cs) zeroth (h 0 u refl k) in
      let less = length-erase_lt j cs here in
      let rest = covered us (suc j) (erase j cs) (λ i v g a.
        let next : j + suc i ≡ suc j + i = omega arith in
        erase-In j (suc j + i) cs (subst (λ z. In z cs) next (h (suc i) v g a))
          (λ e. omega arith)) in
      rw k (omega arith)
  | inr k ↦
      let rest = covered us (suc j) cs (λ i v g a.
        let next : j + suc i ≡ suc j + i = omega arith in
        subst (λ z. In z cs) next (h (suc i) v g a)) in
      rw k (omega arith)
]

-- What a convention says of its registers.
pub record IsConvention (conv : RegConvention) : Type 0 where
  pub size : length conv.register_usage ≡ conv.count
  pub enough : conv.allocable_register_count ≡ count_allocable conv.register_usage
  pub positive : 0 < conv.allocable_register_count

pub int-IsConvention : IsConvention int_registers
int-IsConvention = record { size = refl; enough = refl; positive = omega arith }

pub float-IsConvention : IsConvention float_registers
float-IsConvention = record { size = refl; enough = refl; positive = omega arith }

-- A register that the function may use.
abbrev pub Allocable : RegConvention → ℕ → Type 0
Allocable conv c =
    (u : RegisterUsage) × (get_elem? conv.register_usage c ≡ some u) × (allocable u ≡ true)

module _ (conv : RegConvention) (used : ℕ → Bool) (cs : List ℕ) where
  abbrev Chosen : ℕ → Type 0
  Chosen c = Allocable conv c × (¬ In c cs)

  chosen :
      (p : ℕ → RegisterUsage → Bool) (c : ℕ)
      → ((j : ℕ) (u : RegisterUsage) → p j u ≡ true → (allocable u ≡ true) × (has cs j ≡ false))
      → pick p 0 conv.register_usage ≡ some c
      → Chosen c
  chosen p c f e =
      let (i, u, g, same, t) = pick_sound p 0 conv.register_usage c e in
      let (a, free) = f c u t in
      let at : i ≡ c = omega arith in
      (
        (u, subst (λ z. get_elem? conv.register_usage z ≡ some u) at g, a),
        (λ k. let b = In-has cs c k in cc),
      )

  cheap :
      (j : ℕ) (u : RegisterUsage)
      → ((is_caller_save u || (is_callee_save u && used j)) && not (has cs j)) ≡ true
      → (allocable u ≡ true) × (has cs j ≡ false)
  cheap j RegisterUsage.caller_save e = (refl, ground arith)
  cheap j RegisterUsage.callee_save e = (refl, ground arith)
  cheap j RegisterUsage.special e = cc

  usual :
      (j : ℕ) (u : RegisterUsage)
      → (allocable u && not (has cs j)) ≡ true
      → (allocable u ≡ true) × (has cs j ≡ false)
  usual j RegisterUsage.caller_save e = (refl, ground arith)
  usual j RegisterUsage.callee_save e = (refl, ground arith)
  usual j RegisterUsage.special e = cc

  -- With fewer colours around than there are allocable registers, an allocable one is chosen that is none of
  -- them.
  pub choose_lem :
      IsConvention conv
      → length cs < conv.allocable_register_count
      → (c : ℕ) × (choose conv used cs ≡ some c) × Chosen c
  unfolding choose
  choose_lem ok few =
      elim (Option-cases (
        pick (λ j u. (is_caller_save u || (is_callee_save u && used j)) && not (has cs j)) 0
          conv.register_usage)) [
            | inr (c, e) ↦ (c, rw (choose, e) refl, chosen _ c cheap e)
            | inl e ↦
                elim (Option-cases
                  (pick (λ j u. allocable u && not (has cs j)) 0 conv.register_usage)) [
                    | inr (c, f) ↦ (c, rw (choose, e, f) refl, chosen _ c usual f)
                    | inl f ↦
                        let all = covered conv.register_usage 0 cs (λ i u g a.
                          let t =
                            pick_complete (λ j u. allocable u && not (has cs j)) 0
                              conv.register_usage f i u g in
                          has-In cs (0 + i) (ground arith)) in
                        absurd (omega (arith, ok.enough))
                  ]
          ]
