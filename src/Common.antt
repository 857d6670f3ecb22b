-- ===== src/Common.antt =====
-- Helpers that the parts of the program share (src/common).
pub mod UnionFind
