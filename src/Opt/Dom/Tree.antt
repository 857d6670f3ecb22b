-- ===== src/Opt/Dom/Tree.antt =====
-- The numbering of the dominator tree by `dfs(DomTreeNode *)` of src/ir/opt/dom.cpp, and `dom` and `sdom`
-- of src/ir/opt/dom.hpp, which answer with its intervals.
pub mod Intervals
pub mod Tests
use helesta.Prelude.{ℕ, zero, suc, ◌+◌, ◌-◌, Bool, ◌&&◌, List, [], ◌∷◌, ◌++◌, ltb, leb, length}

-- `out_nodes`: the first node with its block and its own `out_nodes`, and the nodes after it.
pub data Outs : Type 0 where
  nil : Outs
  out : ℕ → Outs → Outs → Outs

pub record DomTreeNode : Type 0 where
  pub bb : ℕ
  pub dfn : ℕ
  pub size : ℕ
  pub depth : ℕ

-- The same nodes, with their numbers.
pub data Numbered : Type 0 where
  nil : Numbered
  out : DomTreeNode → Numbered → Numbered → Numbered

-- The loop over `out_nodes` at a depth: the nodes, the sum of their sizes, and `dom_dfn`.
unfoldable pub dfs : List ℕ → ℕ → Outs → Numbered × ℕ × List ℕ
dfs dom_dfn depth Outs.nil = (Numbered.nil, 0, dom_dfn)
dfs dom_dfn depth (Outs.out b cs ss) =
    let pushed : List ℕ = dom_dfn ++ (b ∷ []) in
    let below = dfs pushed (depth + 1) cs in
    let size : ℕ = 1 + below.1 in
    let after = dfs below.2 depth ss in
    let node : DomTreeNode = record {
      bb = b;
      dfn = length pushed - 1;
      size = size;
      depth = depth;
    } in
    (Numbered.out node below.0 after.0, size + after.1, after.2)

-- The tree with its entry, whose depth is 0.
abbrev pub number : ℕ → Outs → Numbered
number entry outs = (dfs [] 0 (Outs.out entry outs Outs.nil)).0

abbrev pub sdom : DomTreeNode → DomTreeNode → Bool
sdom a b = ltb a.dfn b.dfn && leb b.dfn (a.dfn + a.size - 1)

abbrev pub dom : DomTreeNode → DomTreeNode → Bool
dom a b = leb a.dfn b.dfn && leb b.dfn (a.dfn + a.size - 1)
