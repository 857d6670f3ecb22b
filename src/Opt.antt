-- ===== src/Opt.antt =====
-- The optimisation passes over the IR (src/ir/opt).
pub mod AddExpr
pub mod RegMap
pub mod SimplifyExpr
pub mod CmpExpr
pub mod Dom
pub mod UnusedDef
pub mod PhiInsertion
pub mod TypeCheck
