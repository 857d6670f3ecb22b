-- ===== src/Opt/Dom/Tree/Intervals.antt =====
-- The intervals of src/ir/opt/dom.cpp.
use helesta.Prelude.{
  ℕ, suc, ◌+◌, ◌<◌, ◌≤◌, ◌≡◌, ◌⊎◌, ◌↔◌, inl, inr, refl, sym, ap, subst, ◌∙◌, true, List, [], ◌∷◌,
  ◌++◌, length, length-append, arith,
}
use helesta.Opt.Dom.Tree.{Outs, DomTreeNode, Numbered, dfs, number, sdom, dom}

-- A node of the tree.
abbrev pub In : Numbered → DomTreeNode → Type 0
In Numbered.nil x = ⊥
In (Numbered.out a cs ss) x = (x ≡ a) ⊎ (In cs x ⊎ In ss x)

-- A node of the tree and the nodes below it.
abbrev pub At : Numbered → DomTreeNode → Numbered → Type 0
At Numbered.nil a cs = ⊥
At (Numbered.out a' cs' ss') a cs = ((a ≡ a') × (cs ≡ cs')) ⊎ (At cs' a cs ⊎ At ss' a cs)

-- The nodes are numbered in order from the first number up to the last one.
abbrev Good : ℕ → Numbered → ℕ → Type 0
Good n Numbered.nil m = n ≡ m
Good n (Numbered.out a cs ss) m =
    (a.dfn ≡ n) × (1 ≤ a.size) × Good (suc n) cs (n + a.size) × Good (n + a.size) ss m

dfs-Good :
    (l : List ℕ) (d : ℕ) (outs : Outs)
    → Good (length l) (dfs l d outs).0 (length (dfs l d outs).2)
      × (length (dfs l d outs).2 ≡ length l + (dfs l d outs).1)
unfolding dfs
dfs-Good l d Outs.nil = (refl, omega arith)
dfs-Good l d (Outs.out b cs ss) =
    let pushed : List ℕ = l ++ (b ∷ []) in
    let len : length pushed ≡ suc (length l) = omega (arith, length-append l (b ∷ [])) in
    let below = dfs pushed (d + 1) cs in
    let (g, e) = dfs-Good pushed (d + 1) cs in
    let (h, f) = dfs-Good below.2 d ss in
    let next : length below.2 ≡ length l + (1 + below.1) = omega arith in
    (
      (
        omega arith,
        omega arith,
        subst (λ n. Good n below.0 (length l + (1 + below.1))) len
            (subst (Good (length pushed) below.0) next g),
        subst (λ n. Good n (dfs below.2 d ss).0 (length (dfs below.2 d ss).2)) next h,
      ),
      omega arith,
    )

Good-le : (n m : ℕ) (t : Numbered) → Good n t m → n ≤ m
Good-le n m Numbered.nil g = omega arith
Good-le n m (Numbered.out a cs ss) (p, q, g, h) =
    omega (arith, Good-le (suc n) (n + a.size) cs g, Good-le (n + a.size) m ss h)

Good-In :
    (n m : ℕ) (t : Numbered) (x : DomTreeNode) → Good n t m → In t x → (n ≤ x.dfn) × (x.dfn < m)
Good-In n m Numbered.nil x g i = absurd i
Good-In n m (Numbered.out a cs ss) x (p, q, g, h) i =
    let l = Good-le (n + a.size) m ss h in
    let l' = Good-le (suc n) (n + a.size) cs g in
    elim i [
      | inl e ↦ let same : x.dfn ≡ a.dfn = ap (λ z. z.dfn) e in omega arith
      | inr j ↦ elim j [
        | inl k ↦ let b = Good-In (suc n) (n + a.size) cs x g k in omega arith
        | inr k ↦ let b = Good-In (n + a.size) m ss x h k in omega arith
      ]
    ]

-- The interval of a node in that of the tree.
record Placed (n m : ℕ) (a : DomTreeNode) (cs : Numbered) : Type 0 where
  low : n ≤ a.dfn
  high : a.dfn + a.size ≤ m
  full : 1 ≤ a.size
  good : Good (suc a.dfn) cs (a.dfn + a.size)

Good-At :
    (n m : ℕ) (t : Numbered) (a : DomTreeNode) (cs : Numbered)
    → Good n t m
    → At t a cs
    → Placed n m a cs
Good-At n m Numbered.nil a cs g i = absurd i
Good-At n m (Numbered.out a' cs' ss') a cs (p, q, g, h) i =
    let l = Good-le (n + a'.size) m ss' h in
    let l' = Good-le (suc n) (n + a'.size) cs' g in
    elim i [
      | inl (e, f) ↦
          let here : Placed n m a' cs' = record {
            low = omega arith;
            high = omega arith;
            full = q;
            good = subst (λ k. Good (suc k) cs' (k + a'.size)) (sym p) g;
          } in
          subst (λ z. Placed n m z cs) (sym e) (subst (Placed n m a') (sym f) here)
      | inr j ↦ elim j [
        | inl k ↦
            let b = Good-At (suc n) (n + a'.size) cs' a cs g k in
            record {
              low = omega (arith, b.low);
              high = omega (arith, b.high);
              full = b.full;
              good = b.good;
            }
        | inr k ↦
            let b = Good-At (n + a'.size) m ss' a cs h k in
            record {
              low = omega (arith, b.low);
              high = omega (arith, b.high);
              full = b.full;
              good = b.good;
            }
      ]
    ]

-- What lies in the interval of a node is the node or below it.
inside :
    (n m : ℕ) (t : Numbered) (a x : DomTreeNode) (cs : Numbered)
    → Good n t m
    → At t a cs
    → In t x
    → a.dfn ≤ x.dfn
    → x.dfn < a.dfn + a.size
    → (x ≡ a) ⊎ In cs x
inside n m Numbered.nil a x cs g i j lo hi = absurd i
inside n m (Numbered.out a' cs' ss') a x cs (p, q, g, h) i j lo hi = elim i [
  | inl (e, f) ↦ elim j [
    | inl k ↦ inl (k ∙ sym e)
    | inr k ↦ elim k [
      | inl k' ↦ inr (subst (λ z. In z x) (sym f) k')
      | inr k' ↦
          let b = Good-In (n + a'.size) m ss' x h k' in
          let s : a.size ≡ a'.size = ap (λ z. z.size) e in
          let d : a.dfn ≡ a'.dfn = ap (λ z. z.dfn) e in absurd (omega arith)
    ]
  ]
  | inr i' ↦ elim i' [
    | inl i2 ↦
        let c = Good-At (suc n) (n + a'.size) cs' a cs g i2 in
        let low = c.low in
        let high = c.high in
        elim j [
          | inl k ↦ let d : x.dfn ≡ a'.dfn = ap (λ z. z.dfn) k in absurd (omega arith)
          | inr k ↦ elim k [
            | inl k' ↦ inside (suc n) (n + a'.size) cs' a x cs g i2 k' lo hi
            | inr k' ↦ let b = Good-In (n + a'.size) m ss' x h k' in absurd (omega arith)
          ]
        ]
    | inr i2 ↦
        let c = Good-At (n + a'.size) m ss' a cs h i2 in
        let low = c.low in
        elim j [
          | inl k ↦ let d : x.dfn ≡ a'.dfn = ap (λ z. z.dfn) k in absurd (omega arith)
          | inr k ↦ elim k [
            | inl k' ↦ let b = Good-In (suc n) (n + a'.size) cs' x g k' in absurd (omega arith)
            | inr k' ↦ inside (n + a'.size) m ss' a x cs h i2 k' lo hi
          ]
        ]
  ]
]

dom_range :
    (a x : DomTreeNode)
    → 1 ≤ a.size
    → (dom a x ≡ true) ↔ ((a.dfn ≤ x.dfn) × (x.dfn < a.dfn + a.size))
dom_range a x h = ground arith

sdom_range :
    (a x : DomTreeNode)
    → 1 ≤ a.size
    → (sdom a x ≡ true) ↔ ((a.dfn < x.dfn) × (x.dfn < a.dfn + a.size))
sdom_range a x h = ground arith

-- For two nodes of a numbered tree, `dom` holds where the second is the first or below it, and `sdom`
-- where it is below it.
pub dom_iff :
    (entry : ℕ) (outs : Outs) (a x : DomTreeNode) (cs : Numbered)
    → At (number entry outs) a cs
    → In (number entry outs) x
    → ((dom a x ≡ true) ↔ ((x ≡ a) ⊎ In cs x)) × ((sdom a x ≡ true) ↔ In cs x)
dom_iff entry outs a x cs i j =
    let tree : Outs = Outs.out entry outs Outs.nil in
    let last : ℕ = length (dfs [] 0 tree).2 in
    let g : Good 0 (number entry outs) last = (dfs-Good [] 0 tree).0 in
    let c = Good-At 0 last (number entry outs) a cs g i in
    let full = c.full in
    let found = inside 0 last (number entry outs) a x cs g i j in
    let range = dom_range a x full in
    let strict = sdom_range a x full in
    let lies : In cs x → (a.dfn < x.dfn) × (x.dfn < a.dfn + a.size) = λ k.
      let b = Good-In (suc a.dfn) (a.dfn + a.size) cs x c.good k in (omega arith, omega arith) in
    (
      (
        (λ t. let r = range.0 t in found r.0 r.1),
        (λ k. range.1 (elim k [
          | inl e ↦ let d : x.dfn ≡ a.dfn = ap (λ z. z.dfn) e in (omega arith, omega arith)
          | inr k' ↦ let r = lies k' in (omega arith, omega arith)
        ])),
      ),
      (
        (λ t.
            let r = strict.0 t in
            elim (found (omega arith) r.1) [
              | inl e ↦ let d : x.dfn ≡ a.dfn = ap (λ z. z.dfn) e in absurd (omega arith)
              | inr k ↦ k
            ]),
        (λ k. strict.1 (lies k)),
      ),
    )
