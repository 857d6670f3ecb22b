-- ===== src/Prelude/Word/Modular.antt =====
-- Congruence modulo 2 ^ 32: sums by `omega`, products by the lemmas here.
use native.Mathlib.Nat.{mod-add-div', mul_comm, add-mul-mod_self_right}
use helesta.Prelude.{ℕ, ◌+◌, ◌*◌, ◌/◌, ◌%◌, ◌^◌, ◌≡◌, sym, ap, ◌∙◌, arith}

infix 4 ◌≈◌
abbrev pub ◌≈◌ : ℕ → ℕ → Type 0
a ≈ b = a % 2 ^ 32 ≡ b % 2 ^ 32

pub mod-mul : (a b m : ℕ) → a % m * b % m ≡ a * b % m
mod-mul a b m =
    sym (ap (λ (t : ℕ). t % m) expand ∙ add-mul-mod_self_right (a % m * b) (a / m * b) m)
  where
    expand : a * b ≡ a % m * b + a / m * b * m
    expand = ap (λ (t : ℕ). t * b) (sym (mod-add-div' a m)) ∙ grind arith

pub mul-mod : (a b m : ℕ) → a * (b % m) % m ≡ a * b % m
mul-mod a b m = rw (mul_comm a (b % m), mul_comm a b) (mod-mul b a m)

-- Products of congruent factors are congruent.
pub ≈_mul : (a b c d : ℕ) → a ≈ b → c ≈ d → a * c ≈ b * d
≈_mul a b c d p q =
    sym (mod-mul a c (2 ^ 32))
    ∙ ap (λ (t : ℕ). t * c % 2 ^ 32) p
    ∙ mod-mul b c (2 ^ 32)
    ∙ sym (mul-mod b c (2 ^ 32))
    ∙ ap (λ (t : ℕ). b * t % 2 ^ 32) q
    ∙ mul-mod b d (2 ^ 32)
