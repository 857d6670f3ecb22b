-- ===== src/Ast/SymbolTable/Index.antt =====
-- The indices of src/ast/symbol_table.cpp against the row-major order of an array.
use helesta.Prelude.{
  ℕ, ◌+◌, ◌*◌, ◌%◌, ◌^◌, ◌<◌, ◌≡◌, ◌≢◌, refl, ap, ap₂, ◌∙◌, Bool, true, false, List, [], ◌∷◌, ◌++◌,
  length, arith, Bool-cases, inl, inr, ◌-◌, reverse, length-reverse, ltb, some,
}
use helesta.Prelude.Word.Modular.{mod-mul, mul-mod}
use helesta.Ast.SymbolTable.{
  VarType, all_below, check_index, accumulate, get_index, multiply, count_elements,
  count_array_dims, rest,
}
use helesta.Prelude.{if◌then◌else◌}

-- The number of elements, and the place of an element in row-major order.
unfoldable pub elements : List ℕ → ℕ
elements [] = 1
elements (d ∷ ds) = d * elements ds

unfoldable pub row_major : List ℕ → List ℕ → ℕ
unfolding elements
row_major (d ∷ ds) (i ∷ is) = i * elements ds + row_major ds is
row_major _ _ = 0

-- The loop of `get_index` without the wrap-around.
exact : List ℕ → List ℕ → ℕ → ℕ → ℕ
exact [] ds step ret = ret
exact (i ∷ is) [] step ret = exact is [] step (ret + i * step)
exact (i ∷ is) (d ∷ ds) step ret = exact is ds (step * d) (ret + i * step)

add_step : (r i s : ℕ) → (r % 2 ^ 64 + i * (s % 2 ^ 64)) % 2 ^ 64 ≡ (r + i * s) % 2 ^ 64
add_step r i s = omega (arith, mul-mod i s (2 ^ 64))

accumulate-exact :
    (is ds : List ℕ) (s r : ℕ)
    → accumulate is ds (s % 2 ^ 64) (r % 2 ^ 64) ≡ exact is ds s r % 2 ^ 64
unfolding accumulate exact
accumulate-exact [] ds s r = refl
accumulate-exact (i ∷ is) [] s r = rw (add_step r i s) (accumulate-exact is [] s (r + i * s))
accumulate-exact (i ∷ is) (d ∷ ds) s r =
    rw (add_step r i s, mod-mul s d (2 ^ 64)) (accumulate-exact is ds (s * d) (r + i * s))

elements-append : (xs ys : List ℕ) → elements (xs ++ ys) ≡ elements xs * elements ys
unfolding elements
elements-append [] ys = omega arith
elements-append (x ∷ xs) ys = grind (arith, elements-append xs ys)

elements-reverse : (ds : List ℕ) → elements (reverse ds) ≡ elements ds
unfolding elements
elements-reverse [] = refl
elements-reverse (d ∷ ds) =
    elements-append (reverse ds) (d ∷ [])
    ∙ ap (λ t. t * (d * 1)) (elements-reverse ds)
    ∙ grind arith

exact_last :
    (is ds : List ℕ) (i d s r : ℕ)
    → length is ≡ length ds
    → exact (is ++ (i ∷ [])) (ds ++ (d ∷ [])) s r ≡ exact is ds s r + i * (s * elements ds)
unfolding exact elements
exact_last [] [] i d s r h = grind arith
exact_last [] (e ∷ ds) i d s r h = cc
exact_last (j ∷ is) [] i d s r h = cc
exact_last (j ∷ is) (e ∷ ds) i d s r h =
    let k : length is ≡ length ds = omega arith in
    exact_last is ds i d (s * e) (r + j * s) k ∙ grind arith

exact-row_major :
    (ds is : List ℕ) → length is ≡ length ds → exact (reverse is) (reverse ds) 1 0 ≡ row_major ds is
unfolding exact row_major
exact-row_major [] [] h = refl
exact-row_major [] (i ∷ is) h = cc
exact-row_major (d ∷ ds) [] h = cc
exact-row_major (d ∷ ds) (i ∷ is) h =
    let k : length is ≡ length ds = omega arith in
    let l : length (reverse is) ≡ length (reverse ds) =
      omega (arith, length-reverse is, length-reverse ds) in
    exact_last (reverse is) (reverse ds) i d 1 0 l
    ∙ grind (arith, exact-row_major ds is k, elements-reverse ds)

exact_first :
    (is ds : List ℕ) (i s r : ℕ)
    → length is ≡ length ds
    → exact (is ++ (i ∷ [])) ds s r ≡ exact is ds s r + i * (s * elements ds)
unfolding exact elements
exact_first [] [] i s r h = grind arith
exact_first [] (e ∷ ds) i s r h = cc
exact_first (j ∷ is) [] i s r h = cc
exact_first (j ∷ is) (e ∷ ds) i s r h =
    let k : length is ≡ length ds = omega arith in
    exact_first is ds i (s * e) (r + j * s) k ∙ grind arith

-- The sizes with one for the dimension that is left out, whatever it is.
abbrev pub sizes : VarType → List ℕ
sizes t = if t.omit_first_dim then 0 ∷ t.array_dims else t.array_dims

sized-row_major :
    (omit : Bool) (ds is : List ℕ)
    → length is ≡ (if omit then length ds + 1 else length ds)
    → exact (reverse is) (reverse ds) 1 0 ≡ row_major (if omit then 0 ∷ ds else ds) is
unfolding row_major
sized-row_major true ds [] h = omega arith
sized-row_major true ds (i ∷ is) h =
    let k : length is ≡ length ds = omega arith in
    let l : length (reverse is) ≡ length (reverse ds) =
      omega (arith, length-reverse is, length-reverse ds) in
    exact_first (reverse is) (reverse ds) i 1 0 l
    ∙ grind (arith, exact-row_major ds is k, elements-reverse ds)
sized-row_major false ds is h = exact-row_major ds is h

check_index_parts :
    (t : VarType) (index : List ℕ)
    → check_index t index ≡ true
    → (length index ≡ (if t.omit_first_dim then length t.array_dims + 1 else length t.array_dims))
      × (all_below (if t.omit_first_dim then rest index else index) t.array_dims ≡ true)
unfolding check_index count_array_dims
check_index_parts t index h = ground arith

-- An index that passes the check is turned into its place in row-major order, in 64 bits.
pub get_index-row_major :
    (t : VarType) (index : List ℕ)
    → check_index t index ≡ true
    → get_index t index ≡ row_major (sizes t) index % 2 ^ 64
unfolding get_index
get_index-row_major t index h =
    let (l, _) = check_index_parts t index h in
    accumulate-exact (reverse index) (reverse t.array_dims) 1 0
    ∙ ap (λ v. v % 2 ^ 64) (sized-row_major t.omit_first_dim t.array_dims index l)

below_product : (i d p r : ℕ) → i < d → r < p → i * p + r < d * p
below_product i d p r h k =
    let e = d - i - 1 in
    let q : i + 1 + e ≡ d = omega arith in
    let split : (i + 1 + e) * p ≡ i * p + p + e * p = grind arith in
    let whole : (i + 1 + e) * p ≡ d * p = ap (λ t. t * p) q in omega arith

row_major_lt :
    (ds is : List ℕ)
    → length is ≡ length ds
    → all_below is ds ≡ true
    → row_major ds is < elements ds
unfolding row_major elements all_below
row_major_lt [] [] h b = omega arith
row_major_lt [] (i ∷ is) h b = cc
row_major_lt (d ∷ ds) [] h b = cc
row_major_lt (d ∷ ds) (i ∷ is) h b =
    let lt : i < d = ground arith in
    let b' : all_below is ds ≡ true = ground arith in
    let k : length is ≡ length ds = omega arith in
    let r = row_major_lt ds is k b' in below_product i d (elements ds) (row_major ds is) lt r

place_unique : (p i j r s : ℕ) → r < p → s < p → i * p + r ≡ j * p + s → (i ≡ j) × (r ≡ s)
place_unique p i j r s a b h = elim (Bool-cases (ltb i j)) [
  | inl l ↦ let lt : i < j = ground arith in absurd (omega (arith, below_product i j p r lt a))
  | inr nl ↦ elim (Bool-cases (ltb j i)) [
    | inl l ↦ let lt : j < i = ground arith in absurd (omega (arith, below_product j i p s lt b))
    | inr nl' ↦
        let e : i ≡ j = ground arith in
        let m : i * p ≡ j * p = ap (λ t. t * p) e in (e, omega arith)
  ]
]

row_major_injective :
    (ds is js : List ℕ)
    → length is ≡ length ds
    → length js ≡ length ds
    → all_below is ds ≡ true
    → all_below js ds ≡ true
    → row_major ds is ≡ row_major ds js
    → is ≡ js
unfolding row_major all_below
row_major_injective [] [] [] h k b c e = refl
row_major_injective (d ∷ ds) (i ∷ is) (j ∷ js) h k b c e =
    let h' : length is ≡ length ds = omega arith in
    let k' : length js ≡ length ds = omega arith in
    let b' : all_below is ds ≡ true = ground arith in
    let c' : all_below js ds ≡ true = ground arith in
    let (p, q) =
      place_unique (elements ds) i j (row_major ds is) (row_major ds js) (row_major_lt ds is h' b')
        (row_major_lt ds js k' c') e in
    ap₂ (λ x xs. x ∷ xs) p (row_major_injective ds is js h' k' b' c' q)
row_major_injective _ _ _ h k b c e = cc

multiply-elements : (n : ℕ) (ds : List ℕ) → multiply (n % 2 ^ 64) ds ≡ n * elements ds % 2 ^ 64
unfolding multiply elements
multiply-elements n [] = omega arith
multiply-elements n (d ∷ ds) =
    rw (mod-mul n d (2 ^ 64)) (multiply-elements (n * d) ds ∙ grind arith)

count_elements_parts :
    (t : VarType) (n : ℕ)
    → count_elements t ≡ some n
    → (t.omit_first_dim ≡ false) × (n ≡ elements t.array_dims % 2 ^ 64)
unfolding count_elements
count_elements_parts t n h =
    let w : multiply 1 t.array_dims ≡ 1 * elements t.array_dims % 2 ^ 64 =
      multiply-elements 1 t.array_dims in
    ground arith

sized_index :
    (t : VarType) (index : List ℕ)
    → t.omit_first_dim ≡ false
    → check_index t index ≡ true
    → (length index ≡ length t.array_dims) × (all_below index t.array_dims ≡ true)
sized_index t index o h = let (l, b) = check_index_parts t index h in (rw o at l, rw o at b)

sized_place :
    (t : VarType) (index : List ℕ)
    → t.omit_first_dim ≡ false
    → check_index t index ≡ true
    → get_index t index ≡ row_major t.array_dims index % 2 ^ 64
unfolding get_index
sized_place t index o h = rw o at (get_index-row_major t index h)

-- In an array whose number of elements fits 64 bits, an index that passes the check is turned into
-- the place of an element of the array.
pub get_index_lt :
    (t : VarType) (index : List ℕ) (n : ℕ)
    → count_elements t ≡ some n
    → elements t.array_dims < 2 ^ 64
    → check_index t index ≡ true
    → get_index t index < n
get_index_lt t index n c fits h =
    let (o, q) = count_elements_parts t n c in
    let (l, b) = sized_index t index o h in
    let place = sized_place t index o h in
    let lt = row_major_lt t.array_dims index l b in omega arith

-- In such an array, two different indices that pass the check are turned into different places.
pub get_index_injective :
    (t : VarType) (index other : List ℕ) (n : ℕ)
    → count_elements t ≡ some n
    → elements t.array_dims < 2 ^ 64
    → check_index t index ≡ true
    → check_index t other ≡ true
    → index ≢ other
    → get_index t index ≢ get_index t other
get_index_injective t index other n c fits h k differ e =
    let (o, q) = count_elements_parts t n c in
    let (l, b) = sized_index t index o h in
    let (l', b') = sized_index t other o k in
    let place = sized_place t index o h in
    let place' = sized_place t other o k in
    let lt = row_major_lt t.array_dims index l b in
    let lt' = row_major_lt t.array_dims other l' b' in
    differ (row_major_injective t.array_dims index other l l' b b' (omega arith))
