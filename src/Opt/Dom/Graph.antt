-- ===== src/Opt/Dom/Graph.antt =====
-- Lists under indices, and the graphs and walks that src/ir/opt/dom.cpp is about.
use helesta.Prelude.{
  All, set_at, ℕ, zero, suc, ◌<◌, ◌≤◌, ◌≡◌, ◌≢◌, ◌⊎◌, some, List, [], ◌∷◌, ◌==◌, length, get_elem?,
  if◌then◌else◌, arith,
}
use helesta.Opt.Dom.{Graph}

-- The nodes that a search with the tag has not come to.
unfoldable pub unmarked : ℕ → List ℕ → ℕ
unmarked tag [] = 0
unmarked tag (t ∷ ts) = if t == tag then unmarked tag ts else suc (unmarked tag ts)

pub unmarked_le : (tag : ℕ) (ts : List ℕ) → unmarked tag ts ≤ length ts
unfolding unmarked
unmarked_le tag [] = omega arith
unmarked_le tag (t ∷ ts) = ground (arith, unmarked_le tag ts)

pub unmarked-set_at :
    (tag : ℕ) (ts : List ℕ) (i t : ℕ)
    → get_elem? ts i ≡ some t
    → t ≢ tag
    → suc (unmarked tag (set_at ts i tag)) ≡ unmarked tag ts
unfolding unmarked
unmarked-set_at tag [] i t h ne = cc
unmarked-set_at tag (u ∷ ts) zero t h ne = ground arith
unmarked-set_at tag (u ∷ ts) (suc i) t h ne = ground (arith, unmarked-set_at tag ts i t)

-- Tags that a later search does not use.
abbrev pub Fresh : ℕ → List ℕ → Type 0
Fresh tag tags = (v t : ℕ) → get_elem? tags v ≡ some t → t < tag

module _ (g : Graph) where
  abbrev pub IsGraph : Type 0
  IsGraph = (u : ℕ) (outs : List ℕ) → get_elem? g u ≡ some outs → All (λ v. v < length g) outs

  abbrev pub Edge : ℕ → ℕ → Type 0
  Edge u v = (outs : List ℕ) × (get_elem? g u ≡ some outs) × (i : ℕ) × (get_elem? outs i ≡ some v)

  -- A walk through nodes of which `P` holds.
  pub data Walk (P : ℕ → Type 0) : ℕ → ℕ → Type 0 where
    here : {u : ℕ} → P u → Walk P u u
    step : {u v w : ℕ} → P u → Edge u v → Walk P v w → Walk P u w

  pub Walk-map : (P Q : ℕ → Type 0) {u v : ℕ} → ((x : ℕ) → P x → Q x) → Walk P u v → Walk Q u v
  Walk-map P Q f (here p) = here (f _ p)
  Walk-map P Q f (step p e w) = step (f _ p) e (Walk-map P Q f w)

  -- Going from the entry, `v` can be reached around `d`, or is `d`.
  abbrev pub Safe : ℕ → ℕ → ℕ → Type 0
  Safe entry d v = (v ≡ d) ⊎ Walk (λ x. x ≢ d) entry v
