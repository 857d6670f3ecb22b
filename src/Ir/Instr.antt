-- ===== src/Ir/Instr.antt =====
-- The registers of the instructions of src/ir/ir.hpp: `d1` of a `RegWriteInstr`, and `map_use`.
use helesta.Prelude.{ℕ, Option, none, some, List, [], ◌∷◌, map}
use helesta.Ir.Exec.{Instr}

-- The register that an instruction writes, and those that it reads.
unfoldable pub dest : Instr → Option ℕ
dest (Instr.load_addr d _ _) = some d
dest (Instr.load_const _ d _) = some d
dest (Instr.load_arg d _) = some d
dest (Instr.unary_op d _ _) = some d
dest (Instr.binary_op d _ _ _) = some d
dest (Instr.array_index d _ _ _) = some d
dest (Instr.load d _ _ _) = some d
dest (Instr.phi d _) = some d
dest _ = none

abbrev pub offset_use : Option ℕ → List ℕ
offset_use none = []
offset_use (some r) = r ∷ []

unfoldable pub uses : Instr → List ℕ
uses (Instr.unary_op _ s1 _) = s1 ∷ []
uses (Instr.binary_op _ s1 s2 _) = s1 ∷ s2 ∷ []
uses (Instr.array_index _ s1 s2 _) = s1 ∷ s2 ∷ []
uses (Instr.load _ addr _ r) = addr ∷ offset_use r
uses (Instr.store addr s1 _ r) = addr ∷ s1 ∷ offset_use r
uses (Instr.phi _ us) = map (λ u. u.0) us
uses (Instr.branch cond _ _) = cond ∷ []
uses (Instr.return s1) = s1 ∷ []
uses _ = []

-- `rw->d1 = r`
unfoldable pub with_dest : ℕ → Instr → Instr
with_dest r (Instr.load_addr _ g o) = Instr.load_addr r g o
with_dest r (Instr.load_const t _ v) = Instr.load_const t r v
with_dest r (Instr.load_arg _ i) = Instr.load_arg r i
with_dest r (Instr.unary_op _ a op) = Instr.unary_op r a op
with_dest r (Instr.binary_op _ a b op) = Instr.binary_op r a b op
with_dest r (Instr.array_index _ a b n) = Instr.array_index r a b n
with_dest r (Instr.load _ a o i) = Instr.load r a o i
with_dest r (Instr.phi _ us) = Instr.phi r us
with_dest r i = i
