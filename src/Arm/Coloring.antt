-- ===== src/Arm/Coloring.antt =====
-- `SimpleColoringAllocator` of src/arm/simple_coloring_alloc.hpp, from its interference graph to the registers,
-- with `RegConvention` of src/arm/archinfo.hpp. A `std::set` is a list without repetition; `none` is a failed
-- assertion, an access out of range or the end of the fuel.
pub mod Sets
pub mod Remove
pub mod Simplify
pub mod Order
pub mod Choose
pub mod Select
pub mod Most
pub mod Spill
pub mod Correct
pub mod Tests
use helesta.Prelude.{
  ℕ, zero, suc, ◌+◌, ◌-◌, Bool, true, false, not, ◌&&◌, ◌||◌, Option, none, some, List, [], ◌∷◌,
  ◌++◌, ◌==◌, ltb, leb, if◌then◌else◌, length, has, update, ◌>>=◌, ◌>>◌, require,
}

pub data RegisterUsage : Type 0 where
  caller_save callee_save special : RegisterUsage

pub record RegConvention : Type 0 where
  pub count : ℕ
  pub allocable_register_count : ℕ
  pub register_usage : List RegisterUsage

abbrev pub repeat : {A : Type 0} → ℕ → A → List A
repeat zero x = []
repeat (suc n) x = x ∷ repeat n x

abbrev pub int_registers : RegConvention
int_registers = record {
  count = 16;
  allocable_register_count = 14;
  register_usage =
      repeat 4 RegisterUsage.caller_save
      ++ repeat 8 RegisterUsage.callee_save
      ++ RegisterUsage.caller_save ∷ RegisterUsage.special ∷ RegisterUsage.callee_save
        ∷ RegisterUsage.special ∷ [];
}

abbrev pub float_registers : RegConvention
float_registers = record {
  count = 32;
  allocable_register_count = 32;
  register_usage =
      repeat 4 RegisterUsage.caller_save
      ++ repeat 12 RegisterUsage.callee_save
      ++ repeat 16 RegisterUsage.caller_save;
}

abbrev pub is_caller_save : RegisterUsage → Bool
is_caller_save RegisterUsage.caller_save = true
is_caller_save _ = false

abbrev pub is_callee_save : RegisterUsage → Bool
is_callee_save RegisterUsage.callee_save = true
is_callee_save _ = false

abbrev pub allocable : RegisterUsage → Bool
allocable u = is_caller_save u || is_callee_save u

abbrev pub erase : ℕ → List ℕ → List ℕ
erase n [] = []
erase n (x ∷ xs) = let rest = erase n xs in if n == x then rest else x ∷ rest

-- `interfere_edge`, `simplify_nodes` and `remain_pesudo_nodes`.
pub record Graph : Type 0 where
  pub edges : ℕ → List ℕ
  pub queue : List ℕ
  pub remain : List ℕ

-- `ans`, where `none` is -1, and `used`.
pub record Colors : Type 0 where
  pub ans : ℕ → Option ℕ
  pub used : ℕ → Bool

-- `simplify_history`
abbrev pub History : Type 0
History = List (ℕ × List ℕ)

-- How `run` ends: with registers for the function, with the nodes to spill, or with the failed assertion of
-- `choose_spill` and the nodes that are left then.
pub data Allocation : Type 0 where
  colored : Colors → Allocation
  spilled : List ℕ → Allocation
  stuck : List ℕ → Allocation

abbrev pub more_edges : (ℕ → List ℕ) → ℕ → Option ℕ → Bool
more_edges edges i none = true
more_edges edges i (some b) = ltb (length (edges b)) (length (edges i))

-- A loop of `choose_spill`: the first of the nodes with the most edges that passes a test.
unfoldable pub most : (ℕ → Bool) → (ℕ → List ℕ) → List ℕ → Option ℕ → Option ℕ
most p edges [] best = best
most p edges (i ∷ is) best =
    most p edges is (if p i && more_edges edges i best then some i else best)

-- The registers of the neighbours, whose places in `flag` are set.
unfoldable pub flags : (ℕ → Option ℕ) → List ℕ → Option (List ℕ)
flags ans [] = some []
flags ans (v ∷ vs) = do c ← ans v; cs ← flags ans vs; some (c ∷ cs)

-- The first register that passes a test.
unfoldable pub pick : (ℕ → RegisterUsage → Bool) → ℕ → List RegisterUsage → Option ℕ
pick p j [] = none
pick p j (u ∷ us) = if p j u then some j else pick p (suc j) us

module _ (conv : RegConvention) where
  -- The loop of `remove` over the neighbours of a node.
  unfoldable pub detach : ℕ → List ℕ → Graph → Graph
  detach n [] g = g
  detach n (i ∷ is) g =
      let rest : List ℕ = erase n (g.edges i) in
      detach n is (record g {
        edges = update g.edges i rest;
        queue =
            if (length rest == conv.allocable_register_count - 1) && leb conv.count i
            then g.queue ++ (i ∷ [])
            else g.queue;
      })

  unfoldable pub remove : ℕ → Graph → Option Graph
  unfolding detach
  remove n g = do
    require (leb conv.count n)
    let d : Graph = detach n (g.edges n) g
    some (record d { edges = update d.edges n []; remain = erase n d.remain })

  -- The loop over `simplify_nodes`.
  unfoldable pub simplify : ℕ → Graph → History → Option (Graph × History)
  unfolding remove
  simplify zero g h = none
  simplify (suc fuel) g h = elim g.queue [
    | [] ↦ some (g, h)
    | n ∷ ns ↦ do
      g' ← remove n (record g { queue = ns })
      simplify fuel g' (h ++ ((n, g.edges n) ∷ []))
  ]

  -- The nodes from `i` on that occur, and those of them with few neighbours.
  unfoldable pub start : (ℕ → Bool) → (ℕ → List ℕ) → ℕ → ℕ → List ℕ × List ℕ
  start occur edges i zero = ([], [])
  start occur edges i (suc n) =
      let rest = start occur edges (suc i) n in
      if occur i
      then (
        i ∷ rest.0,
        (if ltb (length (edges i)) conv.allocable_register_count then i ∷ rest.1 else rest.1),
      )
      else rest

  -- A register that costs nothing to save, or else any.
  unfoldable pub choose : (ℕ → Bool) → List ℕ → Option ℕ
  unfolding pick
  choose used cs =
      elim (pick (λ j u. (is_caller_save u || (is_callee_save u && used j)) && not (has cs j)) 0
        conv.register_usage) [
          | some j ↦ some j
          | none ↦ pick (λ j u. allocable u && not (has cs j)) 0 conv.register_usage
        ]

  unfoldable pub select_one : ℕ → List ℕ → Colors → Option Colors
  unfolding flags choose
  select_one n vs s = elim (s.ans n) [
    | some _ ↦ none
    | none ↦ do
      cs ← flags s.ans vs
      c ← choose s.used cs
      some (record { ans = update s.ans n (some c); used = update s.used c true })
  ]

  -- The loop over the history, from its end.
  unfoldable pub select : (ℕ → Bool) → History → Option Colors
  unfolding select_one
  select occur [] = some (record {
    ans = λ i. if ltb i conv.count && occur i then some i else none;
    used = λ i. ltb i conv.count && occur i;
  })
  select occur ((n, vs) ∷ h) = do s ← select occur h; select_one n vs s

  -- The tests are those of `spilling_reg`, and of `constant_reg` and `symbol_reg`.
  module _ (spilling constant : ℕ → Bool) where
    -- `choose_spill`, with `none` for -1.
    unfoldable pub choose_spill : Graph → Option ℕ
    unfolding most
    choose_spill g = elim (most (λ i. not (spilling i) && constant i) g.edges g.remain none) [
      | some i ↦ some i
      | none ↦ most (λ i. not (spilling i)) g.edges g.remain none
    ]

    -- The loop that removes the nodes to spill.
    unfoldable pub spill_all : ℕ → Graph → History → List ℕ → Option Allocation
    unfolding choose_spill remove simplify
    spill_all zero g h ns = none
    spill_all (suc fuel) g h ns = elim g.remain [
      | [] ↦ some (Allocation.spilled ns)
      | u ∷ us ↦ elim (choose_spill g) [
        | none ↦ some (Allocation.stuck (u ∷ us))
        | some n ↦ do
          d ← remove n g
          (g', h') ← simplify (suc (length d.remain)) d h
          spill_all fuel g' h' (ns ++ (n ∷ []))
      ]
    ]

    -- `run` on the graph that `build_graph` makes, up to the code that `spill` inserts.
    unfoldable pub run : (ℕ → Bool) → (ℕ → List ℕ) → ℕ → Option Allocation
    unfolding simplify start select spill_all
    run occur edges reg_n = do
      let nodes = start occur edges conv.count (reg_n - conv.count)
      (g, h) ←
          simplify (suc (length nodes.0))
            (record { edges = edges; queue = nodes.1; remain = nodes.0 }) []
      elim g.remain [
        | [] ↦ do s ← select occur h; some (Allocation.colored s)
        | _ ∷ _ ↦ spill_all (suc (length g.remain)) g h []
      ]
