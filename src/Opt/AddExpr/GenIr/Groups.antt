-- ===== src/Opt/AddExpr/GenIr/Groups.antt =====
-- The groups of `genIR` (src/ir/opt/simplify_expr.cpp) as sums.
use helesta.Prelude.{
  ℕ, ◌+◌, ◌*◌, ◌%◌, ◌^◌, ◌≤◌, ◌≡◌, ◌≢◌, refl, sym, ap, ap₂, ◌∙◌, Bool, true, false, some, List, [],
  ◌∷◌, ◌++◌, ◌==◌, ==_iff, Bool-cases, Option-cases, inl, inr, arith, if◌then◌else◌, >>=-eq-some,
  if_intro, subst,
}
use helesta.Prelude.Word.{IsWord, neg32, ltb_signed}
use helesta.Prelude.Word.Modular.{◌≈◌, ≈_mul}
use helesta.Ir.Scalar.{minus_one}
use helesta.Opt.RegMap.{RegMap, total}
use helesta.Opt.AddExpr.GenIr.{
  Member, Groups, is_positive, magnitude, emplace, group, exchange, positive_first,
}

-- Registers of a function that has `n` of them.
abbrev pub Named : ℕ → List Member → Type 0
Named n [] = Unit {0}
Named n ((x, _) ∷ xs) = (1 ≤ x) × (x ≤ n) × Named n xs

abbrev pub NamedGroups : ℕ → Groups → Type 0
NamedGroups n [] = Unit {0}
NamedGroups n ((a, xs) ∷ mp) = (xs ≢ []) × Named n xs × NamedGroups n mp

abbrev pub InRange : ℕ → RegMap → Type 0
InRange n [] = Unit {0}
InRange n ((x, a) ∷ cs) = (1 ≤ x) × (x ≤ n) × InRange n cs

-- Coefficients of 32 bits.
abbrev pub Words : RegMap → Type 0
Words [] = Unit {0}
Words ((x, a) ∷ cs) = IsWord a × Words cs

append_ne : (xs : List Member) (y : Member) → (xs ++ (y ∷ [])) ≢ []
append_ne [] y h = cc
append_ne (x ∷ xs) y h = cc

Named-append :
    (n : ℕ) (xs : List Member) (y : Member)
    → Named n xs
    → Named n (y ∷ [])
    → Named n (xs ++ (y ∷ []))
Named-append n [] y h k = k
Named-append n ((x, b) ∷ xs) y (l, u, h) k = (l, u, Named-append n xs y h k)

NamedGroups-emplace :
    (n key : ℕ) (x : Member) (mp : Groups)
    → Named n (x ∷ [])
    → NamedGroups n mp
    → NamedGroups n (emplace key x mp)
unfolding emplace
NamedGroups-emplace n key x [] h k = ((λ e. cc), h, tt)
NamedGroups-emplace n key x ((a, xs) ∷ mp) h (ne, named, k) =
    if_intro (NamedGroups n) (ltb_signed key a) (λ _. ((λ e. cc), h, (ne, named, k)))
      (λ _.
        if_intro (NamedGroups n) (key == a) (λ _. (append_ne xs x, Named-append n xs x named h, k))
          (λ _. (ne, named, NamedGroups-emplace n key x mp h k)))

pub NamedGroups-group :
    (n : ℕ) (cs : RegMap) (mp : Groups)
    → InRange n cs
    → NamedGroups n mp
    → NamedGroups n (group cs mp)
unfolding group
NamedGroups-group n [] mp h k = k
NamedGroups-group n ((x, a) ∷ cs) mp (l, u, h) k =
    NamedGroups-group n cs (emplace (magnitude a) (x, is_positive a) mp) h
      (NamedGroups-emplace n (magnitude a) (x, is_positive a) mp (l, u, tt) k)

Named-exchange :
    (n : ℕ) (x0 y : Member) (xs ys : List Member)
    → Named n (x0 ∷ xs)
    → exchange x0 xs ≡ some (y, ys)
    → Named n (y ∷ ys)
unfolding exchange
Named-exchange n x0 y [] ys h e = cc
Named-exchange n x0 y ((z, true) ∷ xs) ys (a, b, (c, d, h)) e =
    let p : (z, true) ≡ y = ground arith in
    let q : x0 ∷ xs ≡ ys = ground arith in
    subst (λ u. Named n (u ∷ ys)) p (c, d, subst (Named n) q (a, b, h))
Named-exchange n x0 y ((z, false) ∷ xs) ys (a, b, (c, d, h)) e =
    let ((u, us), f, k) = >>=-eq-some (exchange x0 xs) _ e in
    let p : u ≡ y = ground arith in
    let q : (z, false) ∷ us ≡ ys = ground arith in
    let (l, m, r) = Named-exchange n x0 u xs us (a, b, h) f in
    subst (λ v. Named n (v ∷ ys)) p (l, m, subst (Named n) q (c, d, r))

-- The first member and the others, after the exchange.
pub Named-positive_first :
    (n : ℕ) (xs : List Member)
    → xs ≢ []
    → Named n xs
    → (y : Member) × (ys : List Member) × (positive_first xs ≡ y ∷ ys) × Named n (y ∷ ys)
unfolding positive_first
Named-positive_first n [] ne h = absurd (ne refl)
Named-positive_first n ((x, true) ∷ xs) ne h = ((x, true), xs, refl, h)
Named-positive_first n ((x, false) ∷ xs) ne h = elim (Option-cases (exchange (x, false) xs)) [
  | inl e ↦ ((x, false), xs, rw (positive_first, e) refl, h)
  | inr ((y, ys), e) ↦ (y, ys, rw (positive_first, e) refl, Named-exchange n (x, false) y xs ys h e)
]

module _ (env : ℕ → ℕ) where
  abbrev pub member : Member → ℕ
  member (x, true) = env x
  member (x, false) = minus_one * env x

  unfoldable pub members : List Member → ℕ
  members [] = 0
  members (x ∷ xs) = member x + members xs

  unfoldable pub groups : Groups → ℕ
  groups [] = 0
  groups ((a, xs) ∷ mp) = a * members xs + groups mp

  members-append : (xs ys : List Member) → members (xs ++ ys) ≡ members xs + members ys
  unfolding members
  members-append [] ys = omega arith
  members-append (x ∷ xs) ys = omega (arith, members-append xs ys)

  groups-emplace :
      (key : ℕ) (x : Member) (mp : Groups) → groups (emplace key x mp) ≡ key * member x + groups mp
  unfolding groups emplace members
  groups-emplace key x [] = grind arith
  groups-emplace key x ((k, xs) ∷ mp) = elim (Bool-cases (ltb_signed key k)) [
    | inl e ↦ rw e (grind arith)
    | inr e ↦ elim (Bool-cases (key == k)) [
      | inl q ↦
          let same : key ≡ k = (==_iff key k).0 q in
          let both : k * (members xs + (member x + 0)) ≡ k * member x + k * members xs =
            grind arith in
          let swap : k * member x ≡ key * member x = ap (λ t. t * member x) (sym same) in
          let append = members-append xs (x ∷ []) in rw (e, q, append) omega arith
      | inr q ↦ rw (e, q) omega (arith, groups-emplace key x mp)
    ]
  ]

  by_sign : (b : Bool) (x a : ℕ) → IsWord a → (if b then a else neg32 a) * member (x, b) ≈ a * env x
  unfolding neg32
  by_sign true x a w = refl
  by_sign false x a w =
      let twice : neg32 a * minus_one ≈ a = omega arith in
      let assoc : neg32 a * (minus_one * env x) ≡ neg32 a * minus_one * env x = grind arith in
      ap (λ t. t % 2 ^ 32) assoc ∙ ≈_mul (neg32 a * minus_one) a (env x) (env x) twice refl

  signed_member : (x a : ℕ) → IsWord a → magnitude a * member (x, is_positive a) ≈ a * env x
  signed_member x a w = by_sign (is_positive a) x a w

  pub groups-group :
      (cs : RegMap) (mp : Groups) → Words cs → groups (group cs mp) ≈ total env cs + groups mp
  unfolding group total
  groups-group [] mp w = omega arith
  groups-group ((x, a) ∷ cs) mp (wa, w) = omega (
    arith,
    groups-group cs (emplace (magnitude a) (x, is_positive a) mp) w,
    groups-emplace (magnitude a) (x, is_positive a) mp,
    signed_member x a wa,
  )

  members-exchange :
      (x0 y : Member) (xs ys : List Member)
      → exchange x0 xs ≡ some (y, ys)
      → members (y ∷ ys) ≡ members (x0 ∷ xs)
  unfolding exchange members
  members-exchange x0 y [] ys h = cc
  members-exchange x0 y ((z, true) ∷ xs) ys h =
      let p : (z, true) ≡ y = ground arith in
      let q : x0 ∷ xs ≡ ys = ground arith in
      ap₂ (λ u us. member u + members us) (sym p) (sym q) ∙ omega arith
  members-exchange x0 y ((z, false) ∷ xs) ys h =
      let ((u, us), a, k) = >>=-eq-some (exchange x0 xs) _ h in
      let p : u ≡ y = ground arith in
      let q : (z, false) ∷ us ≡ ys = ground arith in
      ap₂ (λ v vs. member v + members vs) (sym p) (sym q)
      ∙ omega (arith, members-exchange x0 u xs us a)

  pub members-positive_first : (xs : List Member) → members (positive_first xs) ≡ members xs
  unfolding positive_first
  members-positive_first [] = refl
  members-positive_first ((x, true) ∷ xs) = refl
  members-positive_first ((x, false) ∷ xs) = elim (Option-cases (exchange (x, false) xs)) [
    | inl e ↦ rw (positive_first, e) refl
    | inr ((y, ys), e) ↦ rw (positive_first, e) (members-exchange (x, false) y xs ys e)
  ]
