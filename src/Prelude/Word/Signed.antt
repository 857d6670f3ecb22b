-- ===== src/Prelude/Word/Signed.antt =====
-- The signed reading of a bit pattern, and that the wrapping operations compute in it.
use helesta.Prelude.{ℕ, ◌+◌, ◌*◌, ◌≡◌, refl, sym, arith}
use helesta.Prelude.Int.{ℤ, pos, negsuc, pos_part, neg_part, ◌+ℤ◌, ◌-ℤ◌, ◌*ℤ◌, +ℤ_parts, -ℤ_parts}
use helesta.Prelude.Word.{IsWord, Int32Range, signed, of_int, add32, sub32, mul32, neg32}
use helesta.Prelude.Word.Modular.{◌≈◌, ≈_mul}

pub of_int-signed : (w : ℕ) → IsWord w → of_int (signed w) ≡ w
of_int-signed w h = ground arith

pub signed-of_int : (z : ℤ) → Int32Range z → signed (of_int z) ≡ z
signed-of_int (pos n) h = ground arith
signed-of_int (negsuc n) h = ground arith

pub of_int-IsWord : (z : ℤ) → IsWord (of_int z)
of_int-IsWord (pos n) = omega arith
of_int-IsWord (negsuc n) = omega arith

pub signed-Int32Range : (w : ℕ) → IsWord w → Int32Range (signed w)
signed-Int32Range w h = (ground arith, ground arith)

-- A pattern is determined, modulo 2 ^ 32, by the two parts of its integer.
pub of_int_parts : (z : ℤ) → of_int z + neg_part z ≈ pos_part z
of_int_parts (pos n) = omega arith
of_int_parts (negsuc n) = omega arith

pub of_int_unique : (z : ℤ) (w : ℕ) → IsWord w → w + neg_part z ≈ pos_part z → w ≡ of_int z
of_int_unique (pos n) w h e = omega arith
of_int_unique (negsuc n) w h e = omega arith

-- The wrapping operations are the exact ones, reduced to a pattern.
pub of_int-+ℤ : (a b : ℤ) → of_int (a +ℤ b) ≡ add32 (of_int a) (of_int b)
unfolding add32
of_int-+ℤ a b = sym (
    of_int_unique (a +ℤ b) _ (omega arith)
      (omega (arith, +ℤ_parts a b, of_int_parts a, of_int_parts b)))

pub of_int--ℤ : (a b : ℤ) → of_int (a -ℤ b) ≡ sub32 (of_int a) (of_int b)
unfolding sub32
of_int--ℤ a b = sym (
    of_int_unique (a -ℤ b) _ (omega arith)
      (omega (arith, -ℤ_parts a b, of_int_parts a, of_int_parts b, of_int-IsWord b)))

*ℤ_parts :
    (a b : ℤ)
    → pos_part (a *ℤ b) + (pos_part a * neg_part b + neg_part a * pos_part b)
      ≡ neg_part (a *ℤ b) + (pos_part a * pos_part b + neg_part a * neg_part b)
unfolding ◌*ℤ◌
*ℤ_parts a b = ground arith

product_parts : (v w p q r s : ℕ) → v + q ≈ p → w + s ≈ r → v * w + (p * s + q * r) ≈ p * r + q * s
product_parts v w p q r s e f =
    let ps : p * s ≈ (v + q) * s = ≈_mul p (v + q) s s (sym e) refl in
    let qr : q * r ≈ q * (w + s) = ≈_mul q q r (w + s) refl (sym f) in
    let pr : p * r ≈ (v + q) * (w + s) = ≈_mul p (v + q) r (w + s) (sym e) (sym f) in omega arith

pub of_int-*ℤ : (a b : ℤ) → of_int (a *ℤ b) ≡ mul32 (of_int a) (of_int b)
unfolding mul32
of_int-*ℤ a b = sym (
    of_int_unique (a *ℤ b) _ (omega arith) (
      omega (
        arith,
        *ℤ_parts a b,
        product_parts (of_int a) (of_int b) (pos_part a) (neg_part a) (pos_part b) (neg_part b)
            (of_int_parts a) (of_int_parts b),
      )))

pub neg32_lem : (w : ℕ) → IsWord w → neg32 w ≡ of_int (pos 0 -ℤ signed w)
unfolding neg32 ◌-ℤ◌
neg32_lem w h = ground arith
