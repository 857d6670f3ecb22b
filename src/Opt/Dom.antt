-- ===== src/Opt/Dom.antt =====
-- `DomTreeBuilderContext` of src/ir/opt/dom.cpp: the father of each block in the dominator tree. Blocks
-- are their places in `bbs`, and `none` is an access out of range or the end of the fuel.
pub mod Graph
pub mod Search
pub mod Numbering
pub mod Fathers
pub mod Construct
pub mod Tree
pub mod Tests
use helesta.Prelude.{
  set_at, ℕ, zero, suc, ◌+◌, Bool, true, false, Option, none, some, List, [], ◌∷◌, ◌++◌, ◌==◌,
  length, get_elem?, if◌then◌else◌, ◌>>=◌,
}

-- `out_nodes` of each node.
abbrev pub Graph : Type 0
Graph = List (List ℕ)

pub record Dfs : Type 0 where
  pub tags : List ℕ
  pub dfn : List ℕ

-- `dfn.push_back(node)` in the first search, and the tag.
abbrev pub enter : ℕ → ℕ → Dfs → Dfs
enter tag node st = record {
  tags = set_at st.tags node tag;
  dfn = if tag == 1 then st.dfn ++ (node ∷ []) else st.dfn;
}

-- A loop whose body may fail.
unfoldable pub each : (ℕ → Dfs → Option Dfs) → List ℕ → Dfs → Option Dfs
each f [] st = some st
each f (x ∷ xs) st = do st' ← f x st; each f xs st'

-- `dfs(node)`, with fuel for the nesting of its calls.
unfoldable pub dfs : Graph → ℕ → ℕ → ℕ → Dfs → Option Dfs
unfolding each
dfs g tag zero node st = none
dfs g tag (suc fuel) node st = do
  t ← get_elem? st.tags node
  outs ← get_elem? g node
  elim (t == tag) [ true ↦ some st | false ↦ each (dfs g tag fuel) outs (enter tag node st) ]

-- A search from the entry, with the fuel that is enough.
abbrev pub search : Graph → ℕ → ℕ → Dfs → Option Dfs
search g tag entry st = dfs g tag (suc (length g)) entry st

-- Every node that the search did not reach gets `node` for its father.
unfoldable pub set_fathers : ℕ → ℕ → List ℕ → (ℕ → Option ℕ) → ℕ → Option ℕ
set_fathers tag node tags fa v = elim (get_elem? tags v) [
  | none ↦ fa v
  | some t ↦ if t == tag then fa v else some node
]

-- The loop over `dfn`: a search around each node.
unfoldable pub fathers : Graph → ℕ → ℕ → List ℕ → Dfs → (ℕ → Option ℕ) → Option (ℕ → Option ℕ)
unfolding set_fathers
fathers g entry tag [] st fa = some fa
fathers g entry tag (node ∷ nodes) st fa = do
  let next = suc tag
  st' ← search g next entry (record st { tags = set_at st.tags node next })
  fathers g entry next nodes st' (set_fathers next node st'.tags fa)

abbrev pub zeros : {A : Type 0} → List A → List ℕ
zeros [] = []
zeros (_ ∷ xs) = 0 ∷ zeros xs

unfoldable pub assert_that : Bool → Option (Unit {0})
assert_that b = if b then some tt else none

-- The first part of `construct_dom_tree`.
unfoldable pub construct : Graph → ℕ → Option (List ℕ × (ℕ → Option ℕ))
unfolding fathers
construct g entry = do
  st ← search g 1 entry (record { tags = zeros g; dfn = [] })
  first ← get_elem? st.dfn 0
  _ ← assert_that (first == entry)
  fa ← fathers g entry 1 st.dfn st (λ _. none)
  some (st.dfn, fa)
