-- ===== src/Arm/Inst/Tests.antt =====
-- Instructions with other registers.
use helesta.Prelude.{◌≡◌, refl, true, map}
use helesta.Arm.Cond.{InstCond}
use helesta.Arm.Inst.{int_reg, Arith, Form, Inst}
use helesta.Arm.Inst.Sets.{def_reg, use_reg}
use helesta.Arm.Inst.Reads.{has_reg, keeps_lem}
use helesta.Arm.Inst.Replace.{renamed, replace_reg}
use helesta.Arm.Inst.Renamed.{replace_reg_lem}

abbrev product : Inst
product = record {
  cond = InstCond.ne;
  form = Form.arith (Arith.smull (int_reg 20) (int_reg 21) (int_reg 22) (int_reg 20));
}

replace_reg_lem_example :
    (def_reg (replace_reg (int_reg 20) (int_reg 4) product)
      ≡ map (renamed (int_reg 20) (int_reg 4)) (def_reg product))
    × (use_reg (replace_reg (int_reg 20) (int_reg 4) product)
        ≡ map (renamed (int_reg 20) (int_reg 4)) (use_reg product))
replace_reg_lem_example = replace_reg_lem (int_reg 20) (int_reg 4) refl product

keeps_lem_example :
    has_reg (use_reg (record { cond = InstCond.ne; form = product.form })) (int_reg 21) ≡ true
unfolding def_reg
keeps_lem_example = keeps_lem product.form InstCond.ne (int_reg 21) refl refl refl
