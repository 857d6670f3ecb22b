-- ===== src/Arm/Coloring/Sets.antt =====
-- Lists as the sets of src/arm/simple_coloring_alloc.hpp.
use helesta.Prelude.{
  has, ℕ, suc, ◌<◌, ◌≤◌, ◌≡◌, ◌≢◌, ◌⊎◌, ◌↔◌, inl, inr, refl, sym, ap, subst, ◌∙◌, true, List, [],
  ◌∷◌, ◌++◌, ◌==◌, ==_iff, length, Bool-cases, arith,
}
use helesta.Arm.Coloring.{erase}

abbrev pub In : ℕ → List ℕ → Type 0
In n [] = ⊥
In n (x ∷ xs) = (n ≡ x) ⊎ In n xs

abbrev pub NoDup : List ℕ → Type 0
NoDup [] = Unit {0}
NoDup (x ∷ xs) = (¬ In x xs) × NoDup xs

pub has-In : (xs : List ℕ) (n : ℕ) → has xs n ≡ true → In n xs
has-In [] n e = cc
has-In (x ∷ xs) n e = elim (Bool-cases (n == x)) [
  | inl k ↦ inl ((==_iff n x).0 k)
  | inr k ↦ inr (has-In xs n (rw k at e))
]

pub In-has : (xs : List ℕ) (n : ℕ) → In n xs → has xs n ≡ true
In-has [] n i = absurd i
In-has (x ∷ xs) n (inl e) = ground arith
In-has (x ∷ xs) n (inr i) = ground (arith, In-has xs n i)

pub In-cases : (xs : List ℕ) (n : ℕ) → In n xs ⊎ (¬ In n xs)
In-cases xs n = elim (Bool-cases (has xs n)) [
  | inl k ↦ inl (has-In xs n k)
  | inr k ↦ inr (λ i. let t = In-has xs n i in cc)
]

pub In-erase : (m n : ℕ) (xs : List ℕ) → In n (erase m xs) → In n xs × (n ≢ m)
In-erase m n [] i = absurd i
In-erase m n (x ∷ xs) i = elim (Bool-cases (m == x)) [
  | inl k ↦ let (a, b) = In-erase m n xs (rw k at i) in (inr a, b)
  | inr k ↦
      let i' : In n (x ∷ erase m xs) = rw k at i in
      elim i' [
        | inl e ↦ (inl e, λ f. grind arith)
        | inr j ↦ let (a, b) = In-erase m n xs j in (inr a, b)
      ]
]

pub erase-In : (m n : ℕ) (xs : List ℕ) → In n xs → n ≢ m → In n (erase m xs)
erase-In m n [] i ne = i
erase-In m n (x ∷ xs) i ne = elim (Bool-cases (m == x)) [
  | inl k ↦
      rw k
        (elim i [ inl e ↦ absurd (ne (e ∙ sym ((==_iff m x).0 k))) | inr j ↦ erase-In m n xs j ne ])
  | inr k ↦ rw k (elim i [ inl e ↦ inl e | inr j ↦ inr (erase-In m n xs j ne) ])
]

pub erase_out : (m : ℕ) (xs : List ℕ) → ¬ In m xs → erase m xs ≡ xs
erase_out m [] h = refl
erase_out m (x ∷ xs) h = elim (Bool-cases (m == x)) [
  | inl k ↦ absurd (h (inl ((==_iff m x).0 k)))
  | inr k ↦ rw k (ap (λ l. x ∷ l) (erase_out m xs (λ i. h (inr i))))
]

pub NoDup-erase : (m : ℕ) (xs : List ℕ) → NoDup xs → NoDup (erase m xs)
NoDup-erase m [] h = tt
NoDup-erase m (x ∷ xs) (o, h) = elim (Bool-cases (m == x)) [
  | inl k ↦ rw k (NoDup-erase m xs h)
  | inr k ↦ rw k ((λ i. o (In-erase m x xs i).0), NoDup-erase m xs h)
]

pub length-erase_le : (m : ℕ) (xs : List ℕ) → length (erase m xs) ≤ length xs
length-erase_le m [] = omega arith
length-erase_le m (x ∷ xs) = ground (arith, length-erase_le m xs)

pub length-erase_lt : (m : ℕ) (xs : List ℕ) → In m xs → length (erase m xs) < length xs
length-erase_lt m [] i = absurd i
length-erase_lt m (x ∷ xs) i = elim (Bool-cases (m == x)) [
  | inl k ↦ rw k (omega (arith, length-erase_le m xs))
  | inr k ↦
      rw k (elim i [ inl e ↦ absurd (grind arith) | inr j ↦ omega (arith, length-erase_lt m xs j) ])
]

-- In a set exactly one element goes.
pub length-erase :
    (m : ℕ) (xs : List ℕ) → NoDup xs → In m xs → suc (length (erase m xs)) ≡ length xs
length-erase m [] h i = absurd i
length-erase m (x ∷ xs) (o, h) i = elim (Bool-cases (m == x)) [
  | inl k ↦
      let same : m ≡ x = (==_iff m x).0 k in
      rw k (ap suc (ap length (erase_out m xs (λ j. o (subst (λ z. In z xs) same j)))))
  | inr k ↦
      rw k (elim i [ inl e ↦ absurd (grind arith) | inr j ↦ omega (arith, length-erase m xs h j) ])
]

pub In-append : (xs : List ℕ) (y n : ℕ) → In n (xs ++ (y ∷ [])) ↔ (In n xs ⊎ (n ≡ y))
In-append [] y n = (
  λ i. elim i [ inl e ↦ inr e | inr j ↦ absurd j ],
  λ i. elim i [ inl j ↦ absurd j | inr e ↦ inl e ],
)
In-append (x ∷ xs) y n =
    let rest = In-append xs y n in
    (
      λ i. elim i [
        | inl e ↦ inl (inl e)
        | inr j ↦ elim (rest.0 j) [ inl k ↦ inl (inr k) | inr k ↦ inr k ]
      ],
      λ i. elim i [
        | inl j ↦ elim j [ inl e ↦ inl e | inr k ↦ inr (rest.1 (inl k)) ]
        | inr e ↦ inr (rest.1 (inr e))
      ],
    )

pub NoDup-append : (xs : List ℕ) (y : ℕ) → NoDup xs → ¬ In y xs → NoDup (xs ++ (y ∷ []))
NoDup-append [] y h o = (λ i. i, tt)
NoDup-append (x ∷ xs) y (o', h) o = (
  λ i. elim ((In-append xs y x).0 i) [ inl j ↦ o' j | inr e ↦ o (inl (sym e)) ],
  NoDup-append xs y h (λ j. o (inr j)),
)
