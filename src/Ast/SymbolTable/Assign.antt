-- ===== src/Ast/SymbolTable/Assign.antt =====
-- `check_assign` of src/ast/symbol_table.cpp as a relation on types.
use helesta.Prelude.{
  ℕ, ◌≡◌, refl, sym, ap, subst, true, false, List, [], ◌∷◌, arith, ◌⊎◌, ◌↔◌, inl, inr,
}
use helesta.Ir.Op.{ScalarType, void, int, float, char}
use helesta.Ast.SymbolTable.{
  VarType, same_scalar, same_dims, tail_agrees, is_array, is_empty, check_assign,
}

same_dims_refl : (ds : List ℕ) → same_dims ds ds ≡ true
unfolding same_dims
same_dims_refl [] = refl
same_dims_refl (d ∷ ds) = ground (arith, same_dims_refl ds)

same_dims_eq : (ds es : List ℕ) → same_dims ds es ≡ true → ds ≡ es
unfolding same_dims
same_dims_eq [] [] h = refl
same_dims_eq (d ∷ ds) (e ∷ es) h = ground (arith, same_dims_eq ds es)
same_dims_eq [] (e ∷ es) h = cc
same_dims_eq (d ∷ ds) [] h = cc

same_dims_empty :
    (ds es : List ℕ) → is_empty ds ≡ true → is_empty es ≡ true → same_dims ds es ≡ true
unfolding same_dims
same_dims_empty [] [] h k = refl
same_dims_empty _ _ h k = cc

same_scalar_eq : (a b : ScalarType) → same_scalar a b ≡ true → a ≡ b
same_scalar_eq void void h = refl
same_scalar_eq int int h = refl
same_scalar_eq float float h = refl
same_scalar_eq char char h = refl
same_scalar_eq _ _ h = cc

same_scalar_refl : (a : ScalarType) → same_scalar a a ≡ true
same_scalar_refl void = refl
same_scalar_refl int = refl
same_scalar_refl float = refl
same_scalar_refl char = refl

tail_agrees_eq : (ds es : List ℕ) → tail_agrees ds es ≡ true → (d : ℕ) × (es ≡ d ∷ ds)
unfolding tail_agrees
tail_agrees_eq ds [] h = cc
tail_agrees_eq ds (e ∷ es) h = (e, ap (λ t. e ∷ t) (same_dims_eq es ds h))

tail_agrees_cons : (d : ℕ) (ds : List ℕ) → tail_agrees ds (d ∷ ds) ≡ true
unfolding tail_agrees
tail_agrees_cons d ds = same_dims_refl ds

-- What the check lets through: for arrays one scalar type, sizes that are the same, and a first size
-- that only the left-hand side may leave out; scalars of any types.
abbrev pub Assignable : VarType → VarType → Type 0
Assignable t rhs =
    ((is_array t ≡ false) × (is_array rhs ≡ false))
    ⊎ ((is_array t ≡ true)
        × (t.scalar_type ≡ rhs.scalar_type)
        × (((t.omit_first_dim ≡ rhs.omit_first_dim) × (t.array_dims ≡ rhs.array_dims))
            ⊎ ((t.omit_first_dim ≡ true)
                × (rhs.omit_first_dim ≡ false)
                × ((d : ℕ) × (rhs.array_dims ≡ d ∷ t.array_dims)))))

assign_sound : (t rhs : VarType) → check_assign t rhs ≡ true → Assignable t rhs
unfolding check_assign is_array
assign_sound t rhs h = ground (
  arith,
  same_dims_eq t.array_dims rhs.array_dims,
  tail_agrees_eq t.array_dims rhs.array_dims,
  same_scalar_eq t.scalar_type rhs.scalar_type,
)

assign_complete : (t rhs : VarType) → Assignable t rhs → check_assign t rhs ≡ true
unfolding check_assign is_array
assign_complete t rhs (inl (a, b)) =
    let ea : is_empty t.array_dims ≡ true = ground arith in
    let eb : is_empty rhs.array_dims ≡ true = ground arith in
    let same = same_dims_empty t.array_dims rhs.array_dims ea eb in ground arith
assign_complete t rhs (inr (a, q, inl (o, d))) =
    let same : same_dims t.array_dims rhs.array_dims ≡ true =
      subst (λ ds. same_dims t.array_dims ds ≡ true) d (same_dims_refl t.array_dims) in
    let scalar : same_scalar t.scalar_type rhs.scalar_type ≡ true =
      subst (λ ds. same_scalar t.scalar_type ds ≡ true) q (same_scalar_refl t.scalar_type) in
    ground arith
assign_complete t rhs (inr (a, q, inr (o, o', (d, e)))) =
    let same : tail_agrees t.array_dims rhs.array_dims ≡ true =
      subst (λ ds. tail_agrees t.array_dims ds ≡ true) (sym e) (tail_agrees_cons d t.array_dims) in
    let scalar : same_scalar t.scalar_type rhs.scalar_type ≡ true =
      subst (λ ds. same_scalar t.scalar_type ds ≡ true) q (same_scalar_refl t.scalar_type) in
    ground arith

-- `check_assign` lets through exactly this: two scalars, or an array for an array of the same scalar
-- type, with the same sizes, or with one more size in front where the left-hand side leaves it out.
pub check_assign_iff : (t rhs : VarType) → (check_assign t rhs ≡ true) ↔ Assignable t rhs
check_assign_iff t rhs = (assign_sound t rhs, assign_complete t rhs)
