-- ===== src/Ir.antt =====
-- The intermediate representation (src/ir): scalars and what the instructions compute.
pub mod Exec
pub mod Op
pub mod Instr
pub mod CodeGen
pub mod Scalar
