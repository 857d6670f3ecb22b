-- ===== src/Opt/PhiInsertion.antt =====
-- `phi_insertion` of src/ir/opt/ssa_constrcution.cpp: the blocks that get a phi function for a register.
-- Blocks are their places in the tree; `none` is an access out of range or the end of the fuel.
pub mod Visit
pub mod Correct
pub mod Tests
use helesta.Prelude.{
  has, ℕ, zero, suc, ◌+◌, Bool, true, false, ◌||◌, Option, none, some, List, [], ◌∷◌, ◌++◌, ◌==◌,
  if◌then◌else◌, length, get_elem?, set_at, ◌>>=◌,
}

-- `W`, `F`, and the blocks that have got their phi function.
pub record Queue : Type 0 where
  pub w : List ℕ
  pub f : List Bool
  pub phis : List ℕ

-- A block of a frontier that is not in `F`.
abbrev pub insert : List ℕ → ℕ → Queue → Queue
insert defs df s = record {
  w = if has defs df then s.w else s.w ++ (df ∷ []);
  f = set_at s.f df true;
  phis = s.phis ++ (df ∷ []);
}

-- The loop over a frontier.
unfoldable pub visit : List ℕ → List ℕ → Queue → Option Queue
visit defs [] s = some s
visit defs (df ∷ dfs) s = do
  b ← get_elem? s.f df
  visit defs dfs (if b then s else insert defs df s)

-- The loop over `W`, with the frontiers of the blocks.
unfoldable pub drain : List (List ℕ) → List ℕ → ℕ → Queue → Option Queue
unfolding visit
drain frontiers defs zero s = none
drain frontiers defs (suc fuel) s = elim s.w [
  | [] ↦ some s
  | n ∷ w ↦ do
    dfs ← get_elem? frontiers n
    s' ← visit defs dfs (record s { w = w })
    drain frontiers defs fuel s'
]

abbrev pub absent : List (List ℕ) → List Bool
absent [] = []
absent (_ ∷ xs) = false ∷ absent xs

unfoldable pub phi_insertion : List (List ℕ) → List ℕ → Option (List ℕ)
unfolding drain
phi_insertion frontiers defs = do
  s ←
      drain frontiers defs (suc (length defs + length frontiers))
        (record { w = defs; f = absent frontiers; phis = [] })
  some s.phis
