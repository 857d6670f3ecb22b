-- ===== src/Opt/Dom/Numbering.antt =====
-- `dfn`, the order in which the first search of src/ir/opt/dom.cpp comes to the nodes.
use helesta.Prelude.{
  get_elem?-set_at, in_range, false, ℕ, zero, suc, ◌≡◌, ◌≢◌, ◌⊎◌, inl, inr, refl, sym, ap, subst,
  ◌∙◌, Option, some, List, [], ◌∷◌, ◌++◌, ◌==◌, ==_iff, length, get_elem?, if◌then◌else◌,
  Bool-cases, >>=-eq-some, arith,
}
use helesta.Opt.Dom.{Graph, Dfs, enter, each, dfs}
use helesta.Opt.Dom.Search.{Marked, In}

append_old :
    (xs : List ℕ) (y i v : ℕ) → get_elem? xs i ≡ some v → get_elem? (xs ++ (y ∷ [])) i ≡ some v
append_old [] y i v e = cc
append_old (x ∷ xs) y zero v e = e
append_old (x ∷ xs) y (suc i) v e = append_old xs y i v e

append_new : (xs : List ℕ) (y : ℕ) → get_elem? (xs ++ (y ∷ [])) (length xs) ≡ some y
append_new [] y = refl
append_new (x ∷ xs) y = append_new xs y

pub append_cases :
    (xs : List ℕ) (y i v : ℕ)
    → get_elem? (xs ++ (y ∷ [])) i ≡ some v
    → (get_elem? xs i ≡ some v) ⊎ ((i ≡ length xs) × (v ≡ y))
append_cases [] y zero v e = inr (refl, ground arith)
append_cases [] y (suc i) v e = cc
append_cases (x ∷ xs) y zero v e = inl e
append_cases (x ∷ xs) y (suc i) v e = elim (append_cases xs y i v e) [
  | inl p ↦ inl p
  | inr (p, q) ↦ inr (ap suc p, q)
]

module _ (g : Graph) (tag : ℕ) (P : Dfs → Type 0) where
  abbrev Keeps : (ℕ → Dfs → Option Dfs) → Type 0
  Keeps f = (node : ℕ) (st st' : Dfs) → f node st ≡ some st' → P st → P st'

  each_keeps :
      (f : ℕ → Dfs → Option Dfs)
      → Keeps f
      → (xs : List ℕ) (st st' : Dfs) → each f xs st ≡ some st'
      → P st
      → P st'
  unfolding each
  each_keeps f keeps [] st st' e p = let q : st ≡ st' = ground arith in subst P q p
  each_keeps f keeps (x ∷ xs) st st' e p =
      let (st1, e1, e2) = >>=-eq-some (f x st) _ e in
      each_keeps f keeps xs st1 st' e2 (keeps x st st1 e1 p)

  -- What every entering of a node without the tag keeps, a search keeps.
  pub dfs-Keeps :
      ((node t : ℕ) (st : Dfs)
        → get_elem? st.tags node ≡ some t
        → t ≢ tag
        → P st
        → P (enter tag node st))
      → (fuel : ℕ) → Keeps (dfs g tag fuel)
  unfolding dfs
  dfs-Keeps keeps zero node st st' e p = cc
  dfs-Keeps keeps (suc fuel) node st st' e p =
      let (t, q, e1) = >>=-eq-some (get_elem? st.tags node) _ e in
      let (outs, r, e2) = >>=-eq-some (get_elem? g node) _ e1 in
      elim (Bool-cases (t == tag)) [
        | inl k ↦ let same : some st ≡ some st' = rw k at e2 in subst P (ground arith) p
        | inr k ↦
            let differs : t ≢ tag = λ z. grind arith in
            each_keeps (dfs g tag fuel) (dfs-Keeps keeps fuel) outs (enter tag node st) st'
              (rw k at e2) (keeps node t st q differs p)
      ]

module _ (g : Graph) where
  -- The nodes with the tag 1 are listed, each once.
  pub record Numbered (st : Dfs) : Type 0 where
    pub listed : (i v : ℕ) → get_elem? st.dfn i ≡ some v → Marked g 1 st v
    pub all : (v : ℕ) → Marked g 1 st v → In g 1 st.dfn v
    pub once : (i j v : ℕ) → get_elem? st.dfn i ≡ some v → get_elem? st.dfn j ≡ some v → i ≡ j

  module _ (node t : ℕ) (st : Dfs) (e : get_elem? st.tags node ≡ some t) (ne : t ≢ 1)
      (h : Numbered st) where
    tag_at :
        (v : ℕ)
        → get_elem? (enter 1 node st).tags v ≡ (if v == node then some 1 else get_elem? st.tags v)
    tag_at v = get_elem?-set_at st.tags node v 1 (in_range st.tags node t e)

    not_listed : (i : ℕ) → get_elem? st.dfn i ≢ some node
    not_listed i p = ne (ground (arith, h.listed i node p))

    once_new :
        (i j v : ℕ)
        → get_elem? (st.dfn ++ (node ∷ [])) i ≡ some v
        → get_elem? (st.dfn ++ (node ∷ [])) j ≡ some v
        → i ≡ j
    once_new i j v p q = elim (append_cases st.dfn node i v p) [
      | inl p' ↦ elim (append_cases st.dfn node j v q) [
        | inl q' ↦ h.once i j v p' q'
        | inr (_, r) ↦ absurd (not_listed i (p' ∙ ap some r))
      ]
      | inr (r, r') ↦ elim (append_cases st.dfn node j v q) [
        | inl q' ↦ absurd (not_listed j (q' ∙ ap some r'))
        | inr (k, _) ↦ r ∙ sym k
      ]
    ]

    enter-Numbered : Numbered (enter 1 node st)
    enter-Numbered = record {
      listed = λ i v p. elim (append_cases st.dfn node i v p) [
        | inl q ↦ let m = h.listed i v q in tag_at v ∙ ground arith
        | inr (_, q) ↦ tag_at v ∙ ground arith
      ];
      all = λ v m. elim (Bool-cases (v == node)) [
        | inl k ↦ (length st.dfn, append_new st.dfn node ∙ ap some (sym ((==_iff v node).0 k)))
        | inr k ↦
            let old : get_elem? st.tags v ≡ some 1 = rw k at (sym (tag_at v) ∙ m) in
            let (i, q) = h.all v old in (i, append_old st.dfn node i v q)
      ];
      once = once_new;
    }

  pub dfs-Numbered :
      (fuel node : ℕ) (st st' : Dfs) → dfs g 1 fuel node st ≡ some st' → Numbered st → Numbered st'
  dfs-Numbered fuel node st st' e h = dfs-Keeps g 1 Numbered enter-Numbered fuel node st st' e h

  -- The first of `dfn` is the node from which the search starts.
  pub dfs_front :
      (fuel node t : ℕ) (st st' : Dfs)
      → dfs g 1 (suc fuel) node st ≡ some st'
      → get_elem? st.tags node ≡ some t
      → t ≢ 1
      → st.dfn ≡ []
      → get_elem? st'.dfn 0 ≡ some node
  unfolding dfs
  dfs_front fuel node t st st' e q ne empty =
      let (outs, r, e1) = >>=-eq-some (get_elem? g node) _ (rw q at e) in
      let other : (t == 1) ≡ false = ground arith in
      let Front : Dfs → Type 0 = λ s. get_elem? s.dfn 0 ≡ some node in
      let keeps = dfs-Keeps g 1 Front (λ v u s _ _ h. append_old s.dfn v 0 node h) fuel in
      each_keeps g 1 Front (dfs g 1 fuel) keeps outs (enter 1 node st) st' (rw other at e1)
        (subst (λ l. get_elem? (l ++ (node ∷ [])) 0 ≡ some node) (sym empty) refl)
