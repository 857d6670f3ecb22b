-- ===== src/Opt/UnusedDef/Places.antt =====
-- The places of definitions and of instructions with effects, in src/ir/opt/remove_unused_def.cpp.
use helesta.Prelude.{
  ℕ, zero, suc, ◌+◌, ◌<◌, ◌≤◌, ◌⊎◌, ◌≡◌, refl, sym, ap, subst, ◌∙◌, Bool, true, false, none, some,
  inl, inr, List, [], ◌∷◌, All, leb, if◌then◌else◌, length, get_elem?, update, update_self,
  >>=-eq-some, if_intro, Bool-cases, Option-cases, arith,
}
use helesta.Ir.Exec.{Instr}
use helesta.Ir.Instr.{dest}
use helesta.Opt.UnusedDef.{Defs, construct_def_vec, has_effect, roots, look_up}

abbrev Placed : ℕ → List Instr → Defs → Type 0
Placed n is defs =
    (k : ℕ) (i : Instr) (d : ℕ) → get_elem? is k ≡ some i → dest i ≡ some d → defs d ≡ some (n + k)

Placed-cons :
    (n : ℕ) (x : Instr) (is : List Instr) (defs : Defs)
    → ((d : ℕ) → dest x ≡ some d → defs d ≡ some n)
    → Placed (suc n) is defs
    → Placed n (x ∷ is) defs
Placed-cons n x is defs first rest zero i d p q =
    let same : x ≡ i = ground arith in first d (ap dest same ∙ q) ∙ ap some (omega arith)
Placed-cons n x is defs first rest (suc k) i d p q = rest k i d p q ∙ ap some (omega arith)

-- Where the vector is made, it keeps what it had and has the place of each definition.
pub def_vec_lem :
    (max n : ℕ) (is : List Instr) (defs0 defs : Defs)
    → construct_def_vec max n is defs0 ≡ some defs
    → ((r j : ℕ) → defs0 r ≡ some j → defs r ≡ some j) × Placed n is defs
unfolding construct_def_vec
def_vec_lem max n [] defs0 defs q =
    let same : defs0 ≡ defs = ground arith in
    ((λ r j p. sym (ap (λ f. f r) same) ∙ p), (λ k i d p. cc))
def_vec_lem max n (x ∷ is) defs0 defs q = elim (Option-cases (dest x)) [
  | inl bare ↦
      let (old, new) = def_vec_lem max (suc n) is defs0 defs (rw (construct_def_vec, bare) at q) in
      (old, Placed-cons n x is defs (λ d p. cc) new)
  | inr (d, at) ↦ elim (Bool-cases (leb d max)) [
    | inl low ↦ elim (Option-cases (defs0 d)) [
      | inl free ↦
          let (old, new) =
            def_vec_lem max (suc n) is (update defs0 d (some n)) defs
              (rw (construct_def_vec, at, low, free) at q) in
          (
            λ r j p. old r j (ground arith),
            Placed-cons n x is defs
                (λ d' p.
                  let same : d ≡ d' = ground arith in
                  subst (λ z. defs z ≡ some n) same (old d n (update_self defs0 d (some n))))
                new,
          )
      | inr (j, taken) ↦
          let fails : none ≡ some defs = rw (construct_def_vec, at, low, taken) at q in cc
    ]
    | inr high ↦ let fails : none ≡ some defs = rw (construct_def_vec, at, high) at q in cc
  ]
]

-- The roots are places of the function, and the places of all effects.
pub roots_lt : (n : ℕ) (is : List Instr) (m : ℕ) → n + length is ≤ m → All (λ j. j < m) (roots n is)
unfolding roots
roots_lt n [] m h = tt
roots_lt n (i ∷ is) m h =
    if_intro (All (λ j. j < m)) (has_effect i)
      (λ _. (omega arith, roots_lt (suc n) is m (omega arith)))
      (λ _. roots_lt (suc n) is m (omega arith))

pub roots_all :
    (P : ℕ → Type 0) (n : ℕ) (is : List Instr)
    → All P (roots n is)
    → (k : ℕ) (i : Instr) → get_elem? is k ≡ some i
    → has_effect i ≡ true
    → P (n + k)
unfolding roots
roots_all P n [] h k i p q = cc
roots_all P n (x ∷ is) h zero i p q =
    let same : x ≡ i = ground arith in
    let t : has_effect x ≡ true = ap has_effect same ∙ q in
    let h' : All P (n ∷ roots (suc n) is) = rw t at h in subst P (omega arith) h'.0
roots_all P n (x ∷ is) h (suc k) i p q =
    subst P (omega arith) (roots_all P (suc n) is (dropped (has_effect x) h) k i p q)
  where
    dropped :
        (b : Bool)
        → All P (if b then n ∷ roots (suc n) is else roots (suc n) is)
        → All P (roots (suc n) is)
    dropped true h = h.1
    dropped false h = h

pub look_up-length :
    (defs : Defs) (rs js : List ℕ) → look_up defs rs ≡ some js → length js ≡ length rs
unfolding look_up
look_up-length defs [] js q = ground arith
look_up-length defs (r ∷ rs) js q =
    let (j, q1, q2) = >>=-eq-some (defs r) _ q in
    let (ks, q3, q4) = >>=-eq-some (look_up defs rs) _ q2 in
    let same : j ∷ ks ≡ js = ground arith in
    sym (ap length same) ∙ ap suc (look_up-length defs rs ks q3)

-- What holds of the places found holds of the place of each register.
pub look_up-All :
    (defs : Defs) (P : ℕ → Type 0) (rs js : List ℕ)
    → look_up defs rs ≡ some js
    → All P js
    → All (λ r. (j : ℕ) → defs r ≡ some j → P j) rs
unfolding look_up
look_up-All defs P [] js q h = tt
look_up-All defs P (r ∷ rs) js q h =
    let (j, q1, q2) = >>=-eq-some (defs r) _ q in
    let (ks, q3, q4) = >>=-eq-some (look_up defs rs) _ q2 in
    let same : js ≡ j ∷ ks = ground arith in
    let h' : All P (j ∷ ks) = subst (All P) same h in
    (
      (λ k p. let here : j ≡ k = ground arith in subst P here h'.0),
      look_up-All defs P rs ks q3 h'.1,
    )

-- An instruction without an effect writes a register.
pub effect_or_dest : (i : Instr) → (has_effect i ≡ true) ⊎ ((d : ℕ) × (dest i ≡ some d))
unfolding has_effect dest
effect_or_dest (Instr.load_addr d _ _) = inr (d, refl)
effect_or_dest (Instr.load_const _ d _) = inr (d, refl)
effect_or_dest (Instr.load_arg d _) = inr (d, refl)
effect_or_dest (Instr.unary_op d _ _) = inr (d, refl)
effect_or_dest (Instr.binary_op d _ _ _) = inr (d, refl)
effect_or_dest (Instr.array_index d _ _ _) = inr (d, refl)
effect_or_dest (Instr.load d _ _ _) = inr (d, refl)
effect_or_dest (Instr.phi d _) = inr (d, refl)
effect_or_dest (Instr.store _ _ _ _) = inl refl
effect_or_dest (Instr.jump _) = inl refl
effect_or_dest (Instr.branch _ _ _) = inl refl
effect_or_dest (Instr.return _) = inl refl
