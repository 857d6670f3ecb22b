-- ===== src/Ast/SymbolTable.antt =====
-- `Type` of src/ast/symbol_table.hpp and src/ast/symbol_table.cpp, here `VarType`. A `MemSize` is a
-- 64-bit word, and an exception is a missing result.
pub mod Index
pub mod Assign
pub mod Scope
pub mod Tests
use helesta.Prelude.{
  ℕ, suc, ◌+◌, ◌*◌, ◌%◌, ◌^◌, Bool, true, false, not, ◌&&◌, ◌||◌, Option, none, some, List, [], ◌∷◌,
  reverse, leb, ltb, ◌==◌, if◌then◌else◌, length,
}
use helesta.Ir.Op.{ScalarType, void, int, float, char}

pub record VarType : Type 0 where
  pub scalar_type : ScalarType
  pub array_dims : List ℕ
  pub is_const : Bool
  pub omit_first_dim : Bool

abbrev pub is_empty : List ℕ → Bool
is_empty [] = true
is_empty (_ ∷ _) = false

abbrev pub same_scalar : ScalarType → ScalarType → Bool
same_scalar void void = true
same_scalar int int = true
same_scalar float float = true
same_scalar char char = true
same_scalar _ _ = false

-- `operator==` of the vectors.
unfoldable pub same_dims : List ℕ → List ℕ → Bool
same_dims [] [] = true
same_dims (d ∷ ds) (e ∷ es) = d == e && same_dims ds es
same_dims _ _ = false

unfoldable pub is_array : VarType → Bool
is_array t = not (is_empty t.array_dims) || t.omit_first_dim

abbrev pub rest : List ℕ → List ℕ
rest [] = []
rest (_ ∷ ds) = ds

unfoldable pub deref_one_dim : VarType → Option VarType
unfolding is_array
deref_one_dim t =
    if not (is_array t)
    then none
    else some (
        if t.omit_first_dim
        then record t { omit_first_dim = false }
        else record t { array_dims = rest t.array_dims })

unfoldable pub count_array_dims : VarType → ℕ
count_array_dims t = if t.omit_first_dim then length t.array_dims + 1 else length t.array_dims

-- The loop of `count_elements`, in 64 bits.
unfoldable pub multiply : ℕ → List ℕ → ℕ
multiply ret [] = ret
multiply ret (d ∷ ds) = multiply (ret * d % 2 ^ 64) ds

unfoldable pub count_elements : VarType → Option ℕ
unfolding multiply
count_elements t = if t.omit_first_dim then none else some (multiply 1 t.array_dims)

-- The sizes agree from the second one of `rhs` on.
unfoldable pub tail_agrees : List ℕ → List ℕ → Bool
unfolding same_dims
tail_agrees ds [] = false
tail_agrees ds (_ ∷ es) = same_dims es ds

unfoldable pub check_assign : VarType → VarType → Bool
unfolding is_array tail_agrees same_dims
check_assign t rhs =
    if is_array t && (not (is_array rhs) || not (same_scalar t.scalar_type rhs.scalar_type))
    then false
    else if not (is_array t) && is_array rhs
    then false
    else if t.omit_first_dim
    then if rhs.omit_first_dim
      then same_dims t.array_dims rhs.array_dims
      else tail_agrees t.array_dims rhs.array_dims
    else not rhs.omit_first_dim && same_dims t.array_dims rhs.array_dims

-- Every index is below its size; lists of other lengths are compared as far as both go.
unfoldable pub all_below : List ℕ → List ℕ → Bool
all_below (i ∷ is) (d ∷ ds) = ltb i d && all_below is ds
all_below _ _ = true

unfoldable pub check_index : VarType → List ℕ → Bool
unfolding count_array_dims all_below
check_index t index =
    if not (length index == count_array_dims t)
    then false
    else all_below (if t.omit_first_dim then rest index else index) t.array_dims

-- The loop of `get_index`, over the indices and the sizes from the last one on. `step` stays as it
-- is when the sizes are used up.
unfoldable pub accumulate : List ℕ → List ℕ → ℕ → ℕ → ℕ
accumulate [] ds step ret = ret
accumulate (i ∷ is) [] step ret = accumulate is [] step ((ret + i * step) % 2 ^ 64)
accumulate (i ∷ is) (d ∷ ds) step ret =
    accumulate is ds (step * d % 2 ^ 64) ((ret + i * step) % 2 ^ 64)

unfoldable pub get_index : VarType → List ℕ → ℕ
unfolding accumulate
get_index t index = accumulate (reverse index) (reverse t.array_dims) 1 0
