-- ===== src/Opt/PhiInsertion/Visit.antt =====
-- The loop over a frontier in `phi_insertion` of src/ir/opt/ssa_constrcution.cpp.
use helesta.Prelude.{
  has, ℕ, zero, suc, ◌+◌, ◌<◌, ◌≤◌, ◌≡◌, ◌⊎◌, inl, inr, refl, sym, ap, subst, ◌∙◌, Bool, true,
  false, some, List, [], ◌∷◌, ◌++◌, ◌==◌, ==_iff, if◌then◌else◌, All, length, length-append,
  get_elem?, get_elem?-set_at, length-set_at, in_range, found, set_at, Bool-cases, arith,
}
use helesta.Opt.Dom.Numbering.{append_cases}
use helesta.Opt.PhiInsertion.{Queue, insert, visit}

abbrev pub In : List ℕ → ℕ → Type 0
In xs v = (i : ℕ) × (get_elem? xs i ≡ some v)

pub In-old : (xs ys : List ℕ) (v : ℕ) → In xs v → In (xs ++ ys) v
In-old [] ys v (i, e) = cc
In-old (x ∷ xs) ys v (zero, e) = (0, e)
In-old (x ∷ xs) ys v (suc i, e) = let (j, q) = In-old xs ys v (i, e) in (suc j, q)

pub In-new : (xs : List ℕ) (v : ℕ) → In (xs ++ (v ∷ [])) v
In-new [] v = (0, refl)
In-new (x ∷ xs) v = let (j, q) = In-new xs v in (suc j, q)

pub In-cases : (xs : List ℕ) (y v : ℕ) → In (xs ++ (y ∷ [])) v → In xs v ⊎ (v ≡ y)
In-cases [] y v (zero, e) = inr (ground arith)
In-cases [] y v (suc i, e) = cc
In-cases (x ∷ xs) y v (zero, e) = inl (0, e)
In-cases (x ∷ xs) y v (suc i, e) = elim (In-cases xs y v (i, e)) [
  | inl (j, q) ↦ inl (suc j, q)
  | inr q ↦ inr q
]

pub has-In : (xs : List ℕ) (v : ℕ) → has xs v ≡ true → In xs v
has-In [] v e = cc
has-In (x ∷ xs) v e = elim (Bool-cases (v == x)) [
  | inl k ↦ (0, ap some (sym ((==_iff v x).0 k)))
  | inr k ↦ let (j, q) = has-In xs v (rw k at e) in (suc j, q)
]

abbrev pub Has : Queue → ℕ → Type 0
Has s v = get_elem? s.f v ≡ some true

abbrev pub count : List Bool → ℕ
count [] = 0
count (b ∷ bs) = (if b then 0 else 1) + count bs

count-set_at :
    (f : List Bool) (n : ℕ) → get_elem? f n ≡ some false → suc (count (set_at f n true)) ≡ count f
count-set_at [] n e = cc
count-set_at (b ∷ f) zero e = let off : b ≡ false = ground arith in rw off (omega arith)
count-set_at (b ∷ f) (suc n) e = omega (arith, count-set_at f n e)

abbrev pub Once : List ℕ → Type 0
Once xs = (i j v : ℕ) → get_elem? xs i ≡ some v → get_elem? xs j ≡ some v → i ≡ j

Once-append : (xs : List ℕ) (n : ℕ) → ¬ In xs n → Once xs → Once (xs ++ (n ∷ []))
Once-append xs n out once i j v p q = elim (append_cases xs n i v p) [
  | inl p' ↦ elim (append_cases xs n j v q) [
    | inl q' ↦ once i j v p' q'
    | inr (_, r) ↦ absurd (out (i, p' ∙ ap some r))
  ]
  | inr (r, r') ↦ elim (append_cases xs n j v q) [
    | inl q' ↦ absurd (out (j, q' ∙ ap some r'))
    | inr (k, _) ↦ r ∙ sym k
  ]
]

-- What a round does for the blocks `from`.
pub record After (defs : List ℕ) (from : ℕ → Type 0) (s t : Queue) : Type 0 where
  pub sized : length t.f ≡ length s.f
  pub falls : length t.w + count t.f ≤ length s.w + count s.f
  pub grows : (v : ℕ) → Has s v → Has t v
  pub waits : (v : ℕ) → In s.w v → In t.w v
  pub fresh : (v : ℕ) → Has t v → Has s v ⊎ (from v × (In defs v ⊎ In t.w v))
  pub queued : (v : ℕ) → In t.w v → In s.w v ⊎ (from v × Has t v)
  pub placed : ((v : ℕ) → In s.phis v → Has s v) → (v : ℕ) → In t.phis v → Has t v
  pub listed : ((v : ℕ) → Has s v → In s.phis v) → (v : ℕ) → Has t v → In t.phis v
  pub once : ((v : ℕ) → In s.phis v → Has s v) → Once s.phis → Once t.phis

pub After-refl : (defs : List ℕ) (from : ℕ → Type 0) (s : Queue) → After defs from s s
After-refl defs from s = record {
  sized = refl;
  falls = omega arith;
  grows = λ v h. h;
  waits = λ v h. h;
  fresh = λ v h. inl h;
  queued = λ v h. inl h;
  placed = λ f. f;
  listed = λ f. f;
  once = λ f o. o;
}

After-trans :
    (defs : List ℕ) (from : ℕ → Type 0) (s t u : Queue)
    → After defs from s t
    → After defs from t u
    → After defs from s u
After-trans defs from s t u a b = record {
  sized = b.sized ∙ a.sized;
  falls = omega (arith, a.falls, b.falls);
  grows = λ v h. b.grows v (a.grows v h);
  waits = λ v h. b.waits v (a.waits v h);
  fresh = λ v h. elim (b.fresh v h) [
    | inr k ↦ inr k
    | inl k ↦ elim (a.fresh v k) [
      | inl l ↦ inl l
      | inr (p, l) ↦ inr (p, elim l [ inl m ↦ inl m | inr m ↦ inr (b.waits v m) ])
    ]
  ];
  queued = λ v h. elim (b.queued v h) [
    | inr k ↦ inr k
    | inl k ↦ elim (a.queued v k) [ inl l ↦ inl l | inr (p, l) ↦ inr (p, b.grows v l) ]
  ];
  placed = λ f. b.placed (a.placed f);
  listed = λ f. b.listed (a.listed f);
  once = λ f o. b.once (a.placed f) (a.once f o);
}

module _ (defs : List ℕ) (from : ℕ → Type 0) (s : Queue) (n : ℕ) (e : get_elem? s.f n ≡ some false)
    (p : from n) where
  set : (v : ℕ) → get_elem? (insert defs n s).f v ≡ (if v == n then some true else get_elem? s.f v)
  set v = get_elem?-set_at s.f n v true (in_range s.f n false e)

  here : Has (insert defs n s) n
  here = set n ∙ ground arith

  insert-cases : (v : ℕ) → Has (insert defs n s) v → Has s v ⊎ (v ≡ n)
  insert-cases v h = elim (Bool-cases (v == n)) [
    | inl k ↦ inr ((==_iff v n).0 k)
    | inr k ↦ inl (rw k at (sym (set v) ∙ h))
  ]

  insert-After : After defs from s (insert defs n s)
  insert-After =
      let less = count-set_at s.f n e in
      let longer = length-append s.w (n ∷ []) in
      record {
        sized = length-set_at s.f n true;
        falls = elim (Bool-cases (has defs n)) [
          | inl k ↦ rw k (omega arith)
          | inr k ↦ rw k (omega arith)
        ];
        grows = λ v h. set v ∙ ground arith;
        waits = λ v h. elim (Bool-cases (has defs n)) [
          | inl k ↦ rw k h
          | inr k ↦ rw k (In-old s.w (n ∷ []) v h)
        ];
        fresh = λ v h. elim (insert-cases v h) [
          | inl k ↦ inl k
          | inr k ↦
              let q : In defs n ⊎ In (insert defs n s).w n = elim (Bool-cases (has defs n)) [
                | inl l ↦ inl (has-In defs n l)
                | inr l ↦ inr (rw l (In-new s.w n))
              ] in
              inr
                (subst from (sym k) p, subst (λ z. In defs z ⊎ In (insert defs n s).w z) (sym k) q)
        ];
        queued = λ v h. elim (Bool-cases (has defs n)) [
          | inl k ↦ inl (rw k at h)
          | inr k ↦
              let h' : In (s.w ++ (n ∷ [])) v = rw k at h in
              elim (In-cases s.w n v h') [
                | inl l ↦ inl l
                | inr l ↦ inr (subst (λ z. from z × Has (insert defs n s) z) (sym l) (p, here))
              ]
        ];
        placed = λ f v h. elim (In-cases s.phis n v h) [
          | inl k ↦ let old = f v k in set v ∙ ground arith
          | inr k ↦ subst (Has (insert defs n s)) (sym k) here
        ];
        listed = λ f v h. elim (insert-cases v h) [
          | inl k ↦ In-old s.phis (n ∷ []) v (f v k)
          | inr k ↦ subst (In (s.phis ++ (n ∷ []))) (sym k) (In-new s.phis n)
        ];
        once = λ f o. Once-append s.phis n (λ h. let old = f n h in ground arith) o;
      }

pub visit_lem :
    (defs dfs : List ℕ) (s : Queue)
    → All (λ v. v < length s.f) dfs
    → (t : Queue) × (visit defs dfs s ≡ some t)
      × ((v : ℕ) → In dfs v → Has t v)
      × After defs (In dfs) s t
unfolding visit
visit_lem defs [] s h = (s, refl, (λ v (i, q). cc), After-refl defs (In []) s)
visit_lem defs (n ∷ dfs) s (hn, h) =
    let (b, q) = found s.f n hn in
    let (s1, e1, m1, a1) = first_block defs dfs n s b q in
    let (t, e2, m2, a2) =
      visit_lem defs dfs s1 (subst (λ k. All (λ v. v < k) dfs) (sym a1.sized) h) in
    (
      t,
      rw (visit, q, e1) e2,
      reached defs dfs n s1 t m1 m2 a2,
      After-trans defs (In (n ∷ dfs)) s s1 t a1 (After-from defs dfs n s1 t a2),
    )
  where
    first_block :
        (defs dfs : List ℕ) (n : ℕ) (s : Queue) (b : Bool)
        → get_elem? s.f n ≡ some b
        → (s1 : Queue) × ((if b then s else insert defs n s) ≡ s1)
          × Has s1 n
          × After defs (In (n ∷ dfs)) s s1
    first_block defs dfs n s true q = (s, refl, q, After-refl defs (In (n ∷ dfs)) s)
    first_block defs dfs n s false q =
        let p : In (n ∷ dfs) n = (0, refl) in
        (
          insert defs n s,
          refl,
          here defs (In (n ∷ dfs)) s n q p,
          insert-After defs (In (n ∷ dfs)) s n q p,
        )

    After-from :
        (defs dfs : List ℕ) (n : ℕ) (s t : Queue)
        → After defs (In dfs) s t
        → After defs (In (n ∷ dfs)) s t
    After-from defs dfs n s t a = record {
      sized = a.sized;
      falls = a.falls;
      grows = a.grows;
      waits = a.waits;
      fresh = λ v h. elim (a.fresh v h) [ inl k ↦ inl k | inr ((i, q), k) ↦ inr ((suc i, q), k) ];
      queued = λ v h. elim (a.queued v h) [ inl k ↦ inl k | inr ((i, q), k) ↦ inr ((suc i, q), k) ];
      placed = a.placed;
      listed = a.listed;
      once = a.once;
    }

    reached :
        (defs dfs : List ℕ) (n : ℕ) (s t : Queue)
        → Has s n
        → ((v : ℕ) → In dfs v → Has t v)
        → After defs (In dfs) s t
        → (v : ℕ) → In (n ∷ dfs) v
        → Has t v
    reached defs dfs n s t m1 m2 a v (zero, q) =
        let same : n ≡ v = ground arith in a.grows v (subst (Has s) same m1)
    reached defs dfs n s t m1 m2 a v (suc i, q) = m2 v (i, q)
