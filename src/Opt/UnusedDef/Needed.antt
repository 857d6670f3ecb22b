-- ===== src/Opt/UnusedDef/Needed.antt =====
-- Which instructions the pass of src/ir/opt/remove_unused_def.cpp leaves.
use helesta.Prelude.{
  ℕ, zero, suc, ◌+◌, ◌≡◌, ◌⊎◌, inl, inr, refl, sym, subst, ◌∙◌, Bool, true, false, none, some, List,
  [], ◌∷◌, ◌++◌, ◌==◌, ==_iff, All, if◌then◌else◌, if_intro, length, get_elem?, set_at,
  get_elem?-set_at, in_range, >>=-eq-some, Bool-cases, arith,
}
use helesta.Ir.Exec.{Instr}
use helesta.Ir.Instr.{uses}
use helesta.Opt.UnusedDef.{
  Defs, concat, construct_def_vec, has_effect, roots, look_up, mark, sweep_block, sweep, unmarked,
  count_uses, remove_unused_def,
}
use helesta.Opt.UnusedDef.Marks.{Used, All-append}

-- The place of an effect, or of the definition of an operand of a needed instruction.
pub data Needed (code : List Instr) (defs : Defs) : ℕ → Type 0 where
  effect :
      (k : ℕ) (i : Instr) → get_elem? code k ≡ some i → has_effect i ≡ true → Needed code defs k
  operand :
      (k j n r : ℕ) (i : Instr)
      → Needed code defs k
      → get_elem? code k ≡ some i
      → get_elem? (uses i) n ≡ some r
      → defs r ≡ some j
      → Needed code defs j

look_up_from :
    (defs : Defs) (P : ℕ → Type 0) (rs js : List ℕ)
    → look_up defs rs ≡ some js
    → ((n r j : ℕ) → get_elem? rs n ≡ some r → defs r ≡ some j → P j)
    → All P js
unfolding look_up
look_up_from defs P [] js q f = let none_left : [] ≡ js = ground arith in subst (All P) none_left tt
look_up_from defs P (r ∷ rs) js q f =
    let (j, q1, q2) = >>=-eq-some (defs r) _ q in
    let (ks, q3, q4) = >>=-eq-some (look_up defs rs) _ q2 in
    let same : j ∷ ks ≡ js = ground arith in
    subst (All P) same (f 0 r j refl q1, look_up_from defs P rs ks q3 (λ n. f (suc n)))

module _ (code : List Instr) (defs : Defs) where
  roots-Needed :
      (n : ℕ) (is : List Instr)
      → ((k : ℕ) (i : Instr) → get_elem? is k ≡ some i → get_elem? code (n + k) ≡ some i)
      → All (Needed code defs) (roots n is)
  unfolding roots
  roots-Needed n [] f = tt
  roots-Needed n (i ∷ is) f =
      let here : n + 0 ≡ n = omega arith in
      let rest =
        roots-Needed (suc n) is
          (λ k x q. subst (λ z. get_elem? code z ≡ some x) (omega arith) (f (suc k) x q)) in
      if_intro (All (Needed code defs)) (has_effect i)
        (λ e. (effect n i (subst (λ z. get_elem? code z ≡ some i) here (f 0 i refl)) e, rest))
        (λ _. rest)

  mark-Needed :
      (fuel : ℕ) (q : List ℕ) (used used' : List Bool)
      → mark code defs fuel q used ≡ some used'
      → All (Needed code defs) q
      → ((k : ℕ) → Used used k → Needed code defs k)
      → (k : ℕ) → Used used' k
      → Needed code defs k
  unfolding mark
  mark-Needed zero q used used' e h f = cc
  mark-Needed (suc fuel) [] used used' e h f =
      let same : used ≡ used' = ground arith in
      subst (λ u. (k : ℕ) → Used u k → Needed code defs k) same f
  mark-Needed (suc fuel) (n ∷ q) used used' e (hn, h) f =
      let (u, e1, e2) = >>=-eq-some (get_elem? used n) _ e in
      let (i, e3, e4) = >>=-eq-some (get_elem? code n) _ e2 in
      elim (Bool-cases u) [
        | inl p ↦ mark-Needed fuel q used used' (rw p at e4) h f
        | inr p ↦
            let (js, e5, e6) = >>=-eq-some (look_up defs (uses i)) _ (rw p at e4) in
            let more : All (Needed code defs) js =
              look_up_from defs (Needed code defs) (uses i) js e5
                (λ m r j a b. operand n j m r i hn e3 a b) in
            mark-Needed fuel (q ++ js) (set_at used n true) used' e6
              (All-append (Needed code defs) q js h more)
              (λ k v. elim (Bool-cases (k == n)) [
                | inl s ↦ subst (Needed code defs) (sym ((==_iff k n).0 s)) hn
                | inr s ↦
                    f k (rw s at (sym (get_elem?-set_at used n k true (in_range used n u e1)) ∙ v))
              ])
      ]

-- An instruction that is left has a mark.
abbrev From : List Bool → List Instr → Instr → Type 0
From us is i = (k : ℕ) × (get_elem? is k ≡ some i) × Used us k

sweep_block-From :
    (us : List Bool) (b rest : List Instr)
    → ((m : ℕ) (i : Instr) → get_elem? (sweep_block us b).0 m ≡ some i → From us (b ++ rest) i)
      × ((i : Instr) → From (sweep_block us b).1 rest i → From us (b ++ rest) i)
unfolding sweep_block
sweep_block-From us [] rest = (λ m i q. cc, λ i f. f)
sweep_block-From [] (x ∷ b) rest = (λ m i q. cc, λ i (k, p, u). cc)
sweep_block-From (u ∷ us) (x ∷ b) rest =
    let (kept, after) = sweep_block-From us b rest in
    (λ m i. kept_at u m i kept, λ i f. let (k, p, v) = after i f in (suc k, p, v))
  where
    kept_at :
        (u : Bool) (m : ℕ) (i : Instr)
        → ((m : ℕ) (i : Instr) → get_elem? (sweep_block us b).0 m ≡ some i → From us (b ++ rest) i)
        → get_elem? (if u then x ∷ (sweep_block us b).0 else (sweep_block us b).0) m ≡ some i
        → From (u ∷ us) (x ∷ (b ++ rest)) i
    kept_at true zero i kept q = (0, q, refl)
    kept_at true (suc m) i kept q = let (k, p, v) = kept m i q in (suc k, p, v)
    kept_at false m i kept q = let (k, p, v) = kept m i q in (suc k, p, v)

sweep-From :
    (us : List Bool) (bs : List (List Instr)) (m : ℕ) (i : Instr)
    → get_elem? (concat (sweep us bs)) m ≡ some i
    → From us (concat bs) i
unfolding sweep
sweep-From us [] m i q = cc
sweep-From us (b ∷ bs) m i q =
    let (kept, after) = sweep_block-From us b (concat bs) in
    elim (append_split (sweep_block us b).0 (concat (sweep (sweep_block us b).1 bs)) m i q) [
      | inl p ↦ kept m i p
      | inr (k, p) ↦ after i (sweep-From (sweep_block us b).1 bs k i p)
    ]
  where
    append_split :
        (xs ys : List Instr) (m : ℕ) (i : Instr)
        → get_elem? (xs ++ ys) m ≡ some i
        → (get_elem? xs m ≡ some i) ⊎ ((k : ℕ) × (get_elem? ys k ≡ some i))
    append_split [] ys m i q = inr (m, q)
    append_split (x ∷ xs) ys zero i q = inl q
    append_split (x ∷ xs) ys (suc m) i q = append_split xs ys m i q

no_marks : (is : List Instr) (k : ℕ) → ¬ Used (unmarked is) k
no_marks [] k p = cc
no_marks (i ∷ is) zero p = cc
no_marks (i ∷ is) (suc k) p = no_marks is k p

-- Where the pass ends, every instruction that it leaves has an effect, or defines an operand of a needed
-- instruction of the function.
pub remove_unused_def-Needed :
    (max : ℕ) (blocks blocks' : List (List Instr))
    → remove_unused_def max blocks ≡ some blocks'
    → (m : ℕ) (i : Instr) → get_elem? (concat blocks') m ≡ some i
    → (defs : Defs) × (construct_def_vec max 0 (concat blocks) (λ _. none) ≡ some defs)
      × ((k : ℕ) × (get_elem? (concat blocks) k ≡ some i) × Needed (concat blocks) defs k)
unfolding remove_unused_def
remove_unused_def-Needed max blocks blocks' q m i h =
    let code : List Instr = concat blocks in
    let (defs, q1, q2) = >>=-eq-some (construct_def_vec max 0 code (λ _. none)) _ q in
    let fuel : ℕ = suc (length (roots 0 code) + count_uses code) in
    let (used, q3, q4) = >>=-eq-some (mark code defs fuel (roots 0 code) (unmarked code)) _ q2 in
    let same : sweep used blocks ≡ blocks' = ground arith in
    let (k, p, u) =
      sweep-From used blocks m i (subst (λ bs. get_elem? (concat bs) m ≡ some i) (sym same) h) in
    let start : All (Needed code defs) (roots 0 code) =
      roots-Needed code defs 0 code
        (λ k' i' p'. subst (λ z. get_elem? code z ≡ some i') (omega arith) p') in
    (
      defs,
      q1,
      (
        k,
        p,
        mark-Needed code defs fuel (roots 0 code) (unmarked code) used q3 start
            (λ j v. absurd (no_marks code j v)) k u,
      ),
    )
