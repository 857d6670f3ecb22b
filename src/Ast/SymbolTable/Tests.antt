-- ===== src/Ast/SymbolTable/Tests.antt =====
-- Indices and assignments of small array types, and names in two scopes.
use helesta.Prelude.{
  ℕ, ◌<◌, ◌%◌, ◌^◌, ◌≡◌, ◌↔◌, refl, ==_iff, Bool, true, false, some, [], ◌∷◌, ◌==◌, if◌then◌else◌,
  arith,
}
use helesta.Ir.Op.{ScalarType}
use helesta.Ast.SymbolTable.{
  VarType, check_index, get_index, check_assign, count_array_dims, all_below, accumulate, multiply,
  count_elements,
}
use helesta.Ast.SymbolTable.Index.{elements, row_major, sizes, get_index-row_major, get_index_lt}
use helesta.Ast.SymbolTable.Assign.{Assignable, check_assign_iff}
use helesta.Ast.SymbolTable.Scope.{
  Mapping, resolve, recursively_resolve, register_var, flatten, recursively_resolve-register_var,
  recursively_resolve-flatten,
}

-- int a[3][4][5]
abbrev cube : VarType
cube = record {
  scalar_type = ScalarType.int;
  array_dims = 3 ∷ 4 ∷ 5 ∷ [];
  is_const = true;
  omit_first_dim = false;
}

-- int a[][4][5]
abbrev open_cube : VarType
open_cube = record cube { array_dims = 4 ∷ 5 ∷ []; omit_first_dim = true }

place : get_index cube (2 ∷ 1 ∷ 3 ∷ []) ≡ 48
unfolding get_index accumulate
place = refl

get_index-row_major_example :
    get_index open_cube (2 ∷ 1 ∷ 3 ∷ []) ≡ row_major (sizes open_cube) (2 ∷ 1 ∷ 3 ∷ []) % 2 ^ 64
unfolding check_index count_array_dims all_below
get_index-row_major_example = get_index-row_major open_cube (2 ∷ 1 ∷ 3 ∷ []) refl

get_index_lt_example : get_index cube (2 ∷ 3 ∷ 4 ∷ []) < 60
unfolding check_index count_array_dims all_below count_elements multiply elements
get_index_lt_example = get_index_lt cube (2 ∷ 3 ∷ 4 ∷ []) 60 refl (omega arith) refl

check_assign_iff_example : (check_assign open_cube cube ≡ true) ↔ Assignable open_cube cube
check_assign_iff_example = check_assign_iff open_cube cube

abbrev same : ℕ → ℕ → Bool
same a b = a == b

abbrev globals : Mapping ℕ ℕ
globals = (1, 10) ∷ (2, 20) ∷ []

abbrev locals : Mapping ℕ ℕ
locals = (2, 21) ∷ []

recursively_resolve-register_var_example :
    recursively_resolve same (register_var same 1 11 (locals ∷ globals ∷ [])) 1
    ≡ (if same 1 1 then some 11 else recursively_resolve same (locals ∷ globals ∷ []) 1)
recursively_resolve-register_var_example =
    recursively_resolve-register_var same ==_iff locals (globals ∷ []) 1 1 11

recursively_resolve-flatten_example :
    recursively_resolve same (locals ∷ globals ∷ []) 1
    ≡ resolve same (flatten (locals ∷ globals ∷ [])) 1
recursively_resolve-flatten_example = recursively_resolve-flatten same (locals ∷ globals ∷ []) 1
