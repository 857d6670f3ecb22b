-- ===== src/Arm/Interference/Edges.antt =====
-- The insertions of edges in `build_graph` of src/arm/simple_coloring_alloc.hpp.
use helesta.Prelude.{
  ℕ, ◌≡◌, inl, inr, refl, sym, ap, subst, Bool, true, false, ◌&&◌, ◌||◌, List, [], ◌∷◌, ◌++◌, ◌==◌,
  ==_iff, if◌then◌else◌, has, ltb, update, Bool-cases, arith,
}
use helesta.Arm.Coloring.Sets.{NoDup, has-In, In-has}
use helesta.Arm.Interference.{Edges, insert_ascending, put, link, link_all, link_others, link_pairs}

pub has-append : (xs ys : List ℕ) (v : ℕ) → has (xs ++ ys) v ≡ (has xs v || has ys v)
has-append [] ys v = refl
has-append (x ∷ xs) ys v = ground (arith, has-append xs ys v)

has-insert_ascending :
    (b : ℕ) (xs : List ℕ) (v : ℕ) → has (insert_ascending b xs) v ≡ ((v == b) || has xs v)
has-insert_ascending b [] v = ground arith
has-insert_ascending b (x ∷ xs) v = ground (arith, has-insert_ascending b xs v)

insert_ascending-NoDup :
    (b : ℕ) (xs : List ℕ) → has xs b ≡ false → NoDup xs → NoDup (insert_ascending b xs)
insert_ascending-NoDup b [] h n = (λ i. i, tt)
insert_ascending-NoDup b (x ∷ xs) h (o, n) = elim (Bool-cases (ltb b x)) [
  | inl k ↦ rw k ((λ i. let t = In-has (x ∷ xs) b i in cc), (o, n))
  | inr k ↦ rw k (
    (λ i.
        let t = In-has (insert_ascending b xs) x i in
        let s = has-insert_ascending b xs x in
        elim (Bool-cases (has xs x)) [ inl m ↦ o (has-In xs x m) | inr m ↦ ground arith ]),
    insert_ascending-NoDup b xs (ground arith) n,
  )
]

has-put : (b : ℕ) (xs : List ℕ) (v : ℕ) → has (put b xs) v ≡ ((v == b) || has xs v)
has-put b xs v = elim (Bool-cases (v == b)) [
  | inl k ↦
      let e : has xs v ≡ has xs b = ap (has xs) ((==_iff v b).0 k) in
      ground (arith, has-insert_ascending b xs v)
  | inr k ↦ ground (arith, has-insert_ascending b xs v)
]

put-NoDup : (b : ℕ) (xs : List ℕ) → NoDup xs → NoDup (put b xs)
put-NoDup b xs n = elim (Bool-cases (has xs b)) [
  | inl k ↦ rw k n
  | inr k ↦ rw k (insert_ascending-NoDup b xs k n)
]

put_at :
    (e : Edges) (a b u v : ℕ)
    → has (update e a (put b (e a)) u) v ≡ (has (e u) v || ((u == a) && (v == b)))
put_at e a b u v = elim (Bool-cases (u == a)) [
  | inl k ↦
      let x : has (e u) v ≡ has (e a) v = ap (λ z. has (e z) v) ((==_iff u a).0 k) in
      let y = has-put b (e a) v in rw k (ground arith)
  | inr k ↦ rw k (ground arith)
]

-- An edge more, in both directions.
pub has-link :
    (a b : ℕ) (e : Edges) (u v : ℕ)
    → has (link a b e u) v ≡ (has (e u) v || (((u == a) && (v == b)) || ((u == b) && (v == a))))
unfolding link
has-link a b e u v =
    let f : Edges = update e a (put b (e a)) in
    let x = put_at e a b u v in let y = put_at f b a u v in ground arith

module _ (Q : ℕ → Type 0) where
  pub record IsEdges (e : Edges) : Type 0 where
    pub symmetric : (u v : ℕ) → has (e u) v ≡ true → has (e v) u ≡ true
    pub irreflexive : (u : ℕ) → has (e u) u ≡ false
    pub sets : (u : ℕ) → NoDup (e u)
    pub ends : (u v : ℕ) → has (e u) v ≡ true → Q v

  -- More edges between registers that occur.
  pub record Extends (e f : Edges) : Type 0 where
    pub keeps : (u v : ℕ) → has (e u) v ≡ true → has (f u) v ≡ true
    pub edges : IsEdges e → IsEdges f

  pub Extends-refl : (e : Edges) → Extends e e
  Extends-refl e = record { keeps = λ u v h. h; edges = λ i. i }

  pub Extends-trans : (e f g : Edges) → Extends e f → Extends f g → Extends e g
  Extends-trans e f g x y = record {
    keeps = λ u v h. y.keeps u v (x.keeps u v h);
    edges = λ i. y.edges (x.edges i);
  }

  link_sets : (a b : ℕ) (e : Edges) → IsEdges e → (u : ℕ) → NoDup (link a b e u)
  unfolding link
  link_sets a b e i u =
      let f : Edges = update e a (put b (e a)) in
      let first : (w : ℕ) → NoDup (f w) = λ w. elim (Bool-cases (w == a)) [
        | inl k ↦ rw k (put-NoDup b (e a) (i.sets a))
        | inr k ↦ rw k (i.sets w)
      ] in
      elim (Bool-cases (u == b)) [
        | inl k ↦ rw k (put-NoDup a (f b) (first b))
        | inr k ↦ rw k (first u)
      ]

  link-Extends : (a b : ℕ) (e : Edges) → (a == b) ≡ false → Q a → Q b → Extends e (link a b e)
  link-Extends a b e ne qa qb = record {
    keeps = λ u v h. let x = has-link a b e u v in ground arith;
    edges = λ i. record {
      symmetric = λ u v h.
          let x = has-link a b e u v in
          let y = has-link a b e v u in let z = i.symmetric u v in ground arith;
      irreflexive = λ u. let x = has-link a b e u u in let z = i.irreflexive u in ground arith;
      sets = λ u. link_sets a b e i u;
      ends = λ u v h. end i u v h;
    };
  }
    where
      end : IsEdges e → (u v : ℕ) → has (link a b e u) v ≡ true → Q v
      end i u v h =
          let x = has-link a b e u v in
          elim (Bool-cases (has (e u) v)) [
            | inl k ↦ i.ends u v k
            | inr k ↦ elim (Bool-cases (v == b)) [
              | inl m ↦ subst Q (sym ((==_iff v b).0 m)) qb
              | inr m ↦ subst Q (sym ((==_iff v a).0 (ground arith))) qa
            ]
          ]

  abbrev pub AllQ : List ℕ → Type 0
  AllQ xs = (v : ℕ) → has xs v ≡ true → Q v

  tail_Q : (b : ℕ) (bs : List ℕ) → AllQ (b ∷ bs) → Q b × AllQ bs
  tail_Q b bs q =
      let own : (b == b) ≡ true = (==_iff b b).1 refl in
      (q b (ground arith), (λ v h. q v (ground arith)))

  pub record Linked (a : ℕ) (bs : List ℕ) (e f : Edges) : Type 0 where
    pub extends : Extends e f
    pub linked : (b : ℕ) → has bs b ≡ true → (a == b) ≡ false → has (f a) b ≡ true

  pub link_others_lem :
      (a : ℕ) (bs : List ℕ) (e : Edges) → Q a → AllQ bs → Linked a bs e (link_others a bs e)
  unfolding link_others
  link_others_lem a [] e qa q = record { extends = Extends-refl e; linked = λ b h. cc }
  link_others_lem a (b ∷ bs) e qa q =
      let (qb, qs) = tail_Q b bs q in
      let f : Edges = if a == b then e else link a b e in
      let x = one (a == b) refl qb in
      let y = link_others_lem a bs f qa qs in
      record {
        extends = Extends-trans e f (link_others a bs f) x y.extends;
        linked = λ c h ne. elim (Bool-cases (c == b)) [
          | inl k ↦
              let same : c ≡ b = (==_iff c b).0 k in
              let nb : (a == b) ≡ false = subst (λ z. (a == z) ≡ false) same ne in
              let l = has-link a b e a b in
              let own : (a == a) ≡ true = (==_iff a a).1 refl in
              let own' : (b == b) ≡ true = (==_iff b b).1 refl in
              let m : has (f a) b ≡ true = rw nb (ground arith) in
              y.extends.keeps a c (subst (λ z. has (f a) z ≡ true) (sym same) m)
          | inr k ↦ y.linked c (ground arith) ne
        ];
      }
    where
      one : (k : Bool) → (a == b) ≡ k → Q b → Extends e (if k then e else link a b e)
      one true k qb = Extends-refl e
      one false k qb = link-Extends a b e k qa qb

  -- Without the register itself among the others, the two loops are the same.
  link_all-link_others :
      (a : ℕ) (bs : List ℕ) (e : Edges) → has bs a ≡ false → link_all a bs e ≡ link_others a bs e
  unfolding link_all link_others
  link_all-link_others a [] e h = refl
  link_all-link_others a (b ∷ bs) e h =
      let ne : (a == b) ≡ false = ground arith in
      rw ne (link_all-link_others a bs (link a b e) (ground arith))

  pub link_all_lem :
      (a : ℕ) (bs : List ℕ) (e : Edges)
      → has bs a ≡ false
      → Q a
      → AllQ bs
      → Linked a bs e (link_all a bs e)
  link_all_lem a bs e h qa q =
      subst (Linked a bs e) (sym (link_all-link_others a bs e h)) (link_others_lem a bs e qa q)

  -- Any two registers of a set are joined.
  abbrev pub Clique : List ℕ → Edges → Type 0
  Clique xs e =
      (u v : ℕ) → has xs u ≡ true → has xs v ≡ true → (u == v) ≡ false → has (e u) v ≡ true

  pub link_pairs_lem :
      (bs : List ℕ) (e : Edges)
      → AllQ bs
      → IsEdges e
      → Extends e (link_pairs bs e) × Clique bs (link_pairs bs e)
  unfolding link_pairs
  link_pairs_lem [] e q i = (Extends-refl e, (λ u v h. cc))
  link_pairs_lem (a ∷ bs) e q i =
      let (qa, qs) = tail_Q a bs q in
      let f = link_others a bs e in
      let x = link_others_lem a bs e qa qs in
      let (y, c) = link_pairs_lem bs f qs (x.extends.edges i) in
      let whole = Extends-trans e f (link_pairs bs f) x.extends y in
      let last = whole.edges i in
      (
        whole,
        (λ u v h k ne. elim (Bool-cases (u == a)) [
          | inl m ↦
              let same : u ≡ a = (==_iff u a).0 m in
              let na : (a == v) ≡ false = subst (λ z. (z == v) ≡ false) same ne in
              let j : has (f a) v ≡ true = x.linked v (ground arith) na in
              subst (λ z. has (link_pairs bs f z) v ≡ true) (sym same) (y.keeps a v j)
          | inr m ↦ elim (Bool-cases (v == a)) [
            | inl o ↦
                let same : v ≡ a = (==_iff v a).0 o in
                let na : (a == u) ≡ false = ground arith in
                let j : has (f a) u ≡ true = x.linked u (ground arith) na in
                last.symmetric v u
                  (subst (λ z. has (link_pairs bs f z) u ≡ true) (sym same) (y.keeps a u j))
            | inr o ↦ c u v (ground arith) (ground arith) ne
          ]
        ]),
      )
