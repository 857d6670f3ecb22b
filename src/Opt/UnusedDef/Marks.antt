-- ===== src/Opt/UnusedDef/Marks.antt =====
-- The loop over the queue of src/ir/opt/remove_unused_def.cpp.
use helesta.Prelude.{
  ℕ, zero, suc, ◌+◌, ◌<◌, ◌≡◌, ◌⊎◌, inl, inr, refl, sym, ap, subst, ◌∙◌, Bool, true, false, some,
  List, [], ◌∷◌, ◌++◌, ◌==◌, ==_iff, All, if◌then◌else◌, length, length-append, get_elem?,
  get_elem?-set_at, length-set_at, in_range, found, set_at, >>=-eq-some, Bool-cases, arith,
}
use helesta.Ir.Exec.{Instr}
use helesta.Ir.Instr.{uses}
use helesta.Opt.UnusedDef.{Defs, look_up, mark}
use helesta.Opt.UnusedDef.Places.{look_up-length}

pub All-append : (P : ℕ → Type 0) (xs ys : List ℕ) → All P xs → All P ys → All P (xs ++ ys)
All-append P [] ys h k = k
All-append P (x ∷ xs) ys (p, h) k = (p, All-append P xs ys h k)

All-split : (P : ℕ → Type 0) (xs ys : List ℕ) → All P (xs ++ ys) → All P xs × All P ys
All-split P [] ys h = (tt, h)
All-split P (x ∷ xs) ys (p, h) = let (a, b) = All-split P xs ys h in ((p, a), b)

abbrev pub Used : List Bool → ℕ → Type 0
Used used j = get_elem? used j ≡ some true

module _ (code : List Instr) (defs : Defs) where
  -- An instruction all of whose operands have a used definition.
  abbrev pub Closed : List Bool → ℕ → Type 0
  Closed used k =
      (i : Instr) × (js : List ℕ) × (get_elem? code k ≡ some i)
      × (look_up defs (uses i) ≡ some js)
      × All (Used used) js

  pub record Marking (q : List ℕ) (used used' : List Bool) : Type 0 where
    pub sized : length used' ≡ length used
    pub grows : (j : ℕ) → Used used j → Used used' j
    pub queued : All (Used used') q
    pub closed : (k : ℕ) → Used used' k → Used used k ⊎ Closed used' k

  Marking-cons :
      (n : ℕ) (q : List ℕ) (used used' : List Bool)
      → Used used n
      → Marking q used used'
      → Marking (n ∷ q) used used'
  Marking-cons n q used used' u m = record {
    sized = m.sized;
    grows = m.grows;
    queued = (m.grows n u, m.queued);
    closed = m.closed;
  }

  Marking-set :
      (n : ℕ) (i : Instr) (q js : List ℕ) (used used' : List Bool)
      → n < length used
      → get_elem? code n ≡ some i
      → look_up defs (uses i) ≡ some js
      → Marking (q ++ js) (set_at used n true) used'
      → Marking (n ∷ q) used used'
  Marking-set n i q js used used' h p l m =
      let at : (j : ℕ)
          → get_elem? (set_at used n true) j ≡ (if j == n then some true else get_elem? used j) =
        λ j. get_elem?-set_at used n j true h in
      let (first, second) = All-split (Used used') q js m.queued in
      record {
        sized = m.sized ∙ length-set_at used n true;
        grows = λ j u. m.grows j (at j ∙ ground arith);
        queued = (m.grows n (at n ∙ ground arith), first);
        closed = λ k u. elim (m.closed k u) [
          | inr c ↦ inr c
          | inl v ↦ elim (Bool-cases (k == n)) [
            | inl e ↦ inr (i, js, ap (get_elem? code) ((==_iff k n).0 e) ∙ p, l, second)
            | inr e ↦ inl (rw e at (sym (at k) ∙ v))
          ]
        ];
      }

  pub mark_lem :
      (fuel : ℕ) (q : List ℕ) (used used' : List Bool)
      → mark code defs fuel q used ≡ some used'
      → Marking q used used'
  unfolding mark
  mark_lem zero q used used' e = cc
  mark_lem (suc fuel) [] used used' e =
      let same : used ≡ used' = ground arith in
      subst (Marking [] used) same
        (record { sized = refl; grows = λ j u. u; queued = tt; closed = λ k u. inl u })
  mark_lem (suc fuel) (n ∷ q) used used' e =
      let (u, e1, e2) = >>=-eq-some (get_elem? used n) _ e in
      let (i, e3, e4) = >>=-eq-some (get_elem? code n) _ e2 in
      elim (Bool-cases u) [
        | inl p ↦
            Marking-cons n q used used' (e1 ∙ ap some p) (mark_lem fuel q used used' (rw p at e4))
        | inr p ↦
            let (js, e5, e6) = >>=-eq-some (look_up defs (uses i)) _ (rw p at e4) in
            Marking-set n i q js used used' (in_range used n u e1) e3 e5
              (mark_lem fuel (q ++ js) (set_at used n true) used' e6)
      ]

  abbrev pub pending : List Instr → List Bool → ℕ
  pending [] us = 0
  pending (i ∷ is) [] = 0
  pending (i ∷ is) (u ∷ us) = (if u then 0 else length (uses i)) + pending is us

  pending-set_at :
      (is : List Instr) (used : List Bool) (n : ℕ) (i : Instr)
      → get_elem? is n ≡ some i
      → get_elem? used n ≡ some false
      → pending is (set_at used n true) + length (uses i) ≡ pending is used
  pending-set_at [] used n i p q = cc
  pending-set_at (x ∷ is) [] n i p q = cc
  pending-set_at (x ∷ is) (u ∷ used) zero i p q =
      let same : x ≡ i = ground arith in
      let off : u ≡ false = ground arith in rw (off, same) (omega arith)
  pending-set_at (x ∷ is) (u ∷ used) (suc n) i p q = omega (arith, pending-set_at is used n i p q)

  -- Every operand of every instruction has a definition in the function.
  abbrev pub Defined : Type 0
  Defined =
      (k : ℕ) (i : Instr)
      → get_elem? code k ≡ some i
      → (js : List ℕ) × (look_up defs (uses i) ≡ some js) × All (λ j. j < length code) js

  pub mark_ends :
      Defined
      → (fuel : ℕ) (q : List ℕ) (used : List Bool) → All (λ j. j < length code) q
      → length used ≡ length code
      → length q + pending code used < fuel
      → (used' : List Bool) × (mark code defs fuel q used ≡ some used')
  unfolding mark
  mark_ends d zero q used h s low = absurd (omega arith)
  mark_ends d (suc fuel) [] used h s low = (used, refl)
  mark_ends d (suc fuel) (n ∷ q) used (hn, h) s low =
      let (u, e1) = found used n (omega arith) in
      let (i, e3) = found code n hn in
      elim (Bool-cases u) [
        | inl p ↦
            let (used', r) = mark_ends d fuel q used h s (omega arith) in
            (used', rw (mark, e1, e3, p) r)
        | inr p ↦
            let (js, e5, hj) = d n i e3 in
            let less = pending-set_at code used n i e3 (e1 ∙ ap some p) in
            let count = look_up-length defs (uses i) js e5 in
            let total = length-append q js in
            let (used', r) =
              mark_ends d fuel (q ++ js) (set_at used n true)
                (All-append (λ j. j < length code) q js h hj) (length-set_at used n true ∙ s)
                (omega arith) in
            (used', rw (mark, e1, e3, p, e5) r)
      ]
