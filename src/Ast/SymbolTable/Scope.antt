-- ===== src/Ast/SymbolTable/Scope.antt =====
-- `VariableTable` and `FunctionTable` of src/ast/symbol_table.cpp: a chain of maps from names to
-- entries, the innermost scope first. Names are compared by `same`.
use helesta.Prelude.{
  ◌≡◌, ◌↔◌, refl, sym, Bool, true, Option, none, some, List, [], ◌∷◌, ◌++◌, if◌then◌else◌, arith,
}

-- `mapping`, an entry for each name in it.
abbrev pub Mapping : Type 0 → Type 0 → Type 0
Mapping Name Entry = List (Name × Entry)

unfoldable pub or_else : {A : Type 0} → Option A → Option A → Option A
or_else (some a) o = some a
or_else none o = o

abbrev pub flatten : {Name Entry : Type 0} → List (Mapping Name Entry) → Mapping Name Entry
flatten [] = []
flatten (m ∷ parents) = m ++ flatten parents

module _ {Name Entry : Type 0} (same : Name → Name → Bool) where
  unfoldable pub resolve : Mapping Name Entry → Name → Option Entry
  resolve [] name = none
  resolve ((key, entry) ∷ m) name = if same key name then some entry else resolve m name

  -- `mapping[name] = entry`, which replaces the entry in its place.
  unfoldable pub register : Name → Entry → Mapping Name Entry → Mapping Name Entry
  register name entry [] = (name, entry) ∷ []
  register name entry ((key, old) ∷ m) =
      if same key name then (key, entry) ∷ m else (key, old) ∷ register name entry m

  -- A table and its parents.
  unfoldable pub recursively_resolve : List (Mapping Name Entry) → Name → Option Entry
  unfolding resolve
  recursively_resolve [] name = none
  recursively_resolve (m ∷ parents) name =
      or_else (resolve m name) (recursively_resolve parents name)

  unfoldable pub register_var : Name → Entry → List (Mapping Name Entry) → List (Mapping Name Entry)
  unfolding register
  register_var name entry [] = []
  register_var name entry (m ∷ parents) = register name entry m ∷ parents

  module _ (same_iff : (a b : Name) → (same a b ≡ true) ↔ (a ≡ b)) where
    resolve-register :
        (m : Mapping Name Entry) (name other : Name) (entry : Entry)
        → resolve (register name entry m) other
          ≡ (if same name other then some entry else resolve m other)
    unfolding resolve register
    resolve-register [] name other entry = refl
    resolve-register ((key, old) ∷ m) name other entry = ground (
      arith,
      resolve-register m name other entry,
      same_iff key name,
      same_iff key other,
      same_iff name other,
    )

    -- A variable that is declared in the innermost scope is found there, over any of the same name
    -- in the scopes around it; other names are found as before.
    pub recursively_resolve-register_var :
        (m : Mapping Name Entry) (parents : List (Mapping Name Entry)) (name other : Name)
        (entry : Entry)
        → recursively_resolve (register_var name entry (m ∷ parents)) other
          ≡ (if same name other then some entry else recursively_resolve (m ∷ parents) other)
    unfolding recursively_resolve register_var or_else
    recursively_resolve-register_var m parents name other entry =
        rw (resolve-register m name other entry) (ground arith)

  resolve-append :
      (m n : Mapping Name Entry) (name : Name)
      → resolve (m ++ n) name ≡ or_else (resolve m name) (resolve n name)
  unfolding resolve or_else
  resolve-append [] n name = refl
  resolve-append ((key, entry) ∷ m) n name = ground (arith, resolve-append m n name)

  -- A chain of scopes finds what one table with all their entries finds, the innermost ones first.
  pub recursively_resolve-flatten :
      (tables : List (Mapping Name Entry)) (name : Name)
      → recursively_resolve tables name ≡ resolve (flatten tables) name
  unfolding recursively_resolve resolve
  recursively_resolve-flatten [] name = refl
  recursively_resolve-flatten (m ∷ parents) name =
      rw (recursively_resolve-flatten parents name) (sym (resolve-append m (flatten parents) name))
