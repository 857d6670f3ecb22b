-- ===== src/Opt/AddExpr/GenIr.antt =====
-- `AddExpr::genIR` of src/ir/opt/simplify_expr.cpp: a linear form as instructions. Registers whose
-- coefficients differ in sign alone share one multiplication.
pub mod Groups
pub mod Members
pub mod Sums
pub mod Correct
pub mod Tests
use helesta.Prelude.{
  ℕ, Bool, true, false, Option, none, some, List, [], ◌∷◌, ◌++◌, ◌==◌, if◌then◌else◌, ◌>>=◌,
}
use helesta.Prelude.Word.{neg32, ltb_signed}
use helesta.Ir.Scalar.{BinaryCompute}
use helesta.Ir.CodeGen.{CodeGen, lc, negate, apply, set_last_def}
use helesta.Opt.RegMap.{RegMap}
use helesta.Opt.AddExpr.{AddExpr}

-- A register and its sign, `true` for 1 and `false` for -1.
abbrev pub Member : Type 0
Member = ℕ × Bool

-- `std::map<int32_t, std::vector<std::pair<Reg, int32_t>>>`, in the order of its keys.
abbrev pub Groups : Type 0
Groups = List (ℕ × List Member)

-- `a > 0`, and `a > 0 ? a : -a`.
abbrev pub is_positive : ℕ → Bool
is_positive a = ltb_signed 0 a

abbrev pub magnitude : ℕ → ℕ
magnitude a = if is_positive a then a else neg32 a

-- `mp[key].emplace_back(member)`
unfoldable pub emplace : ℕ → Member → Groups → Groups
emplace key x [] = (key, x ∷ []) ∷ []
emplace key x ((k, xs) ∷ mp) =
    if ltb_signed key k
    then (key, x ∷ []) ∷ (k, xs) ∷ mp
    else if key == k
    then (k, xs ++ (x ∷ [])) ∷ mp
    else (k, xs) ∷ emplace key x mp

unfoldable pub group : RegMap → Groups → Groups
unfolding emplace
group [] mp = mp
group ((x, a) ∷ cs) mp = group cs (emplace (magnitude a) (x, is_positive a) mp)

-- The first positive member changes places with the first one.
unfoldable pub exchange : Member → List Member → Option (Member × List Member)
exchange x0 [] = none
exchange x0 ((y, true) ∷ xs) = some ((y, true), x0 ∷ xs)
exchange x0 ((y, false) ∷ xs) = do (z, zs) ← exchange x0 xs; some (z, (y, false) ∷ zs)

unfoldable pub positive_first : List Member → List Member
unfolding exchange
positive_first [] = []
positive_first ((x, true) ∷ xs) = (x, true) ∷ xs
positive_first ((x, false) ∷ xs) = elim (exchange (x, false) xs) [
  | some (y, ys) ↦ y ∷ ys
  | none ↦ (x, false) ∷ xs
]

-- `reg_xs` after one more member.
unfoldable pub add_member : Option ℕ → Member → CodeGen → ℕ × CodeGen
add_member none (x, true) cg = (x, cg)
add_member none (x, false) cg = negate x cg
add_member (some a) (x, true) cg = apply BinaryCompute.add a x cg
add_member (some a) (x, false) cg = apply BinaryCompute.sub a x cg

unfoldable pub add_members : List Member → Option ℕ → CodeGen → Option ℕ × CodeGen
unfolding add_member
add_members [] acc cg = (acc, cg)
add_members (x ∷ xs) acc cg = let out = add_member acc x cg in add_members xs (some out.0) out.1

unfoldable pub scale : ℕ → ℕ → CodeGen → ℕ × CodeGen
scale a x cg = if a == 1 then (x, cg) else (let k = lc a cg in apply BinaryCompute.mul x k.0 k.1)

unfoldable pub add_sum : Option ℕ → ℕ → CodeGen → ℕ × CodeGen
add_sum none y cg = (y, cg)
add_sum (some z) y cg = apply BinaryCompute.add z y cg

-- One round of the loop over the groups; `none` is the use of an empty optional.
unfoldable pub gen_group : ℕ → List Member → Option ℕ → CodeGen → Option (ℕ × CodeGen)
unfolding positive_first add_members scale add_sum
gen_group a xs sum cg = do
  let members = add_members (positive_first xs) none cg
  x ← members.0
  let scaled = scale a x members.1
  some (add_sum sum scaled.0 scaled.1)

unfoldable pub gen_groups : Groups → Option ℕ → CodeGen → Option (Option ℕ × CodeGen)
unfolding gen_group
gen_groups [] sum cg = some (sum, cg)
gen_groups ((a, xs) ∷ mp) sum cg = do (y, cg') ← gen_group a xs sum cg; gen_groups mp (some y) cg'

unfoldable pub start_sum : ℕ → CodeGen → Option ℕ × CodeGen
start_sum c cg = if c == 0 then (none, cg) else (let k = lc c cg in (some k.0, k.1))

unfoldable pub final_sum : Option ℕ → CodeGen → ℕ × CodeGen
final_sum (some a) cg = (a, cg)
final_sum none cg = lc 0 cg

-- `n` is `max_reg_id` of the function before.
unfoldable pub gen_ir : AddExpr → ℕ → ℕ → Option CodeGen
unfolding gen_groups group start_sum final_sum
gen_ir e result n = do
  let first = start_sum e.c (record { instrs = []; max_reg_id = n })
  (sum, cg) ← gen_groups (group e.cs []) first.0 first.1
  let last = final_sum sum cg
  some (set_last_def result last.0 last.1)
