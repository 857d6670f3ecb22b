-- ===== src/Arm/Cond/Tests.antt =====
-- Conditions on two small words.
use helesta.Prelude.{◌≡◌, refl, not}
use helesta.Arm.Cond.{ge, lt, passes, logical_not, passes-logical_not}

passes-logical_not_example : passes lt 3 4 ≡ not (passes ge 3 4)
unfolding logical_not
passes-logical_not_example = passes-logical_not ge lt 3 4 refl
