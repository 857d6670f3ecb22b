-- ===== src/Arm.antt =====
-- The back end (src/arm): instructions, immediates, conditions, live registers, dead code and register colouring.
pub mod Immediate
pub mod Cond
pub mod Inst
pub mod Dce
pub mod Live
pub mod Interference
pub mod Coloring
