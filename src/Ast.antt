-- ===== src/Ast.antt =====
-- The front end (src/ast): constant evaluation, types and scopes.
pub mod Expr
pub mod InitValue
pub mod SymbolTable
