-- ===== src/Arm/Immediate/Rotate.antt =====
-- The legal immediates of src/arm/archinfo.hpp against the encoding of an operand: a byte and the
-- number of places by which it is rotated.
use native.Mathlib.Nat.{
  mul-lt-mul_of_pos_right, mul_comm, one-le-pow, pow-suc, mod-add-div', div-lt_iff_lt-mul,
  mul-add-mod_self_right, mul-add-div_right, mod-eq_of_lt, mod-lt, add-mul-mod_self_right,
  div-eq_of_lt,
}
use helesta.Prelude.{
  ℕ, zero, suc, ◌+◌, ◌-◌, ◌*◌, ◌/◌, ◌%◌, ◌^◌, ◌<◌, ◌≤◌, ◌≡◌, ◌↔◌, sym, ap, ap₂, ◌∙◌, true, leb,
  arith, Bool-cases, inl, inr, ◌==◌,
}
use helesta.Prelude.Word.{IsWord}
use helesta.Arm.Immediate.{rotate_left, fits_rotated, is_legal_immediate}

-- The value of the operand with the byte `b` and the rotation field `i`.
unfoldable pub rotate_right : ℕ → ℕ → ℕ
rotate_right b i = b / 2 ^ (2 * i) + b * 2 ^ (32 - 2 * i) % 2 ^ 32

-- With `k * l` in place of 2 ^ 32: the parts of a number change places and change back.
abbrev turn : ℕ → ℕ → ℕ → ℕ
turn k l u = u * k % (k * l) + u / l

high_part : (k l u : ℕ) → 0 < k → 0 < l → u * k % (k * l) ≡ u % l * k
high_part k l u pk pl =
    let split : u % l * k + u / l * (k * l) ≡ u * k =
      let m : (u % l + u / l * l) * k ≡ u * k = ap (λ t. t * k) (mod-add-div' u l) in
      let d : (u % l + u / l * l) * k ≡ u % l * k + u / l * (k * l) = grind arith in sym d ∙ m in
    let small : u % l * k < k * l =
      omega (arith, mul-lt-mul_of_pos_right (mod-lt u pl) pk, mul_comm l k) in
    ap (λ t. t % (k * l)) (sym split)
    ∙ add-mul-mod_self_right (u % l * k) (u / l) (k * l)
    ∙ mod-eq_of_lt small

turn_back : (k l u : ℕ) → 0 < k → 0 < l → u < k * l → turn l k (turn k l u) ≡ u
turn_back k l u pk pl h =
    let q = u / l in
    let r = u % l in
    let qk : q < k = (div-lt_iff_lt-mul pl).1 h in
    let v : turn k l u ≡ r * k + q = ap (λ t. t + q) (high_part k l u pk pl) in
    let quotient : (r * k + q) / k ≡ r =
      mul-add-div_right pk r q ∙ omega (arith, div-eq_of_lt qk) in
    let remainder : (r * k + q) % k ≡ q = mul-add-mod_self_right r k q ∙ mod-eq_of_lt qk in
    ap (turn l k) v
    ∙ ap₂ (λ x y. x + y) (high_part l k (r * k + q) pl pk) quotient
    ∙ ap (λ t. t * l + r) remainder
    ∙ omega (arith, mod-add-div' u l)

power_sum : (a b : ℕ) → 2 ^ (a + b) ≡ 2 ^ a * 2 ^ b
power_sum zero b = let p : 0 + b ≡ b = omega arith in ap (λ n. 2 ^ n) p ∙ omega arith
power_sum (suc a) b =
    let p : 2 ^ (suc a + b) ≡ 2 ^ (a + b) * 2 = ap (λ n. 2 ^ n) (omega arith) ∙ pow-suc 2 (a + b) in
    let q : 2 ^ suc a ≡ 2 ^ a * 2 = pow-suc 2 a in
    let h = power_sum a b in
    let step : 2 ^ a * 2 ^ b * 2 ≡ 2 ^ a * 2 * 2 ^ b = grind arith in
    p ∙ ap (λ t. t * 2) h ∙ step ∙ ap (λ t. t * 2 ^ b) (sym q)

power_split : (i : ℕ) → i < 16 → 2 ^ (2 * i) * 2 ^ (32 - 2 * i) ≡ 2 ^ 32
power_split i h =
    let p : 2 * i + (32 - 2 * i) ≡ 32 = omega arith in
    sym (power_sum (2 * i) (32 - 2 * i)) ∙ ap (λ n. 2 ^ n) p

power_positive : (n : ℕ) → 0 < 2 ^ n
power_positive n = one-le-pow n 2 (omega arith)

fits_rotated_found :
    (n i u : ℕ)
    → fits_rotated n i u ≡ true
    → (j : ℕ) × (i ≤ j) × (j < i + n) × (rotate_left u j ≤ 0xff)
unfolding fits_rotated
fits_rotated_found zero i u h = cc
fits_rotated_found (suc n) i u h = elim (Bool-cases (leb (rotate_left u i) 0xff)) [
  | inl e ↦ (i, omega arith, omega arith, ground arith)
  | inr e ↦
      let k : fits_rotated n (suc i) u ≡ true = ground arith in
      let (j, a, b, c) = fits_rotated_found n (suc i) u k in (j, omega arith, omega arith, c)
]

fits_rotated_intro :
    (n i u j : ℕ) → i ≤ j → j < i + n → rotate_left u j ≤ 0xff → fits_rotated n i u ≡ true
unfolding fits_rotated
fits_rotated_intro zero i u j a b c = absurd (omega arith)
fits_rotated_intro (suc n) i u j a b c = elim (Bool-cases (i == j)) [
  | inl e ↦
      let p : i ≡ j = ground arith in
      let q : rotate_left u i ≡ rotate_left u j = ap (rotate_left u) p in ground arith
  | inr e ↦
      let k : suc i ≤ j = ground arith in
      let rest : fits_rotated n (suc i) u ≡ true =
        fits_rotated_intro n (suc i) u j k (omega arith) c in
      ground arith
]

left-turn : (u i : ℕ) → i < 16 → rotate_left u i ≡ turn (2 ^ (2 * i)) (2 ^ (32 - 2 * i)) u
unfolding rotate_left
left-turn u i h = ap (λ m. u * 2 ^ (2 * i) % m + u / 2 ^ (32 - 2 * i)) (sym (power_split i h))

right-turn : (u i : ℕ) → i < 16 → rotate_right u i ≡ turn (2 ^ (32 - 2 * i)) (2 ^ (2 * i)) u
unfolding rotate_right
right-turn u i h =
    let m : 2 ^ (32 - 2 * i) * 2 ^ (2 * i) ≡ 2 ^ 32 =
      mul_comm (2 ^ (32 - 2 * i)) (2 ^ (2 * i)) ∙ power_split i h in
    omega arith ∙ ap (λ t. u * 2 ^ (32 - 2 * i) % t + u / 2 ^ (2 * i)) (sym m)

rotate_right-rotate_left : (u i : ℕ) → IsWord u → i < 16 → rotate_right (rotate_left u i) i ≡ u
rotate_right-rotate_left u i w h =
    let k = 2 ^ (2 * i) in
    let l = 2 ^ (32 - 2 * i) in
    let fits : u < k * l = omega (arith, power_split i h) in
    ap (λ t. rotate_right t i) (left-turn u i h)
    ∙ right-turn (turn k l u) i h
    ∙ turn_back k l u (power_positive (2 * i)) (power_positive (32 - 2 * i)) fits

rotate_left-rotate_right : (u i : ℕ) → IsWord u → i < 16 → rotate_left (rotate_right u i) i ≡ u
rotate_left-rotate_right u i w h =
    let k = 2 ^ (2 * i) in
    let l = 2 ^ (32 - 2 * i) in
    let fits : u < l * k = omega (arith, power_split i h, mul_comm l k) in
    ap (λ t. rotate_left t i) (right-turn u i h)
    ∙ left-turn (turn l k u) i h
    ∙ turn_back l k u (power_positive (32 - 2 * i)) (power_positive (2 * i)) fits

-- What an operand of an instruction can encode.
abbrev pub Encodable : ℕ → Type 0
Encodable v = (b : ℕ) × (i : ℕ) × (b ≤ 0xff) × (i < 16) × (rotate_right b i ≡ v)

legal-Encodable : (v : ℕ) → IsWord v → is_legal_immediate v ≡ true → Encodable v
unfolding is_legal_immediate
legal-Encodable v w h = elim (Bool-cases (leb v 0xff)) [
  | inl e ↦
      let same : rotate_right v 0 ≡ v = unfold rotate_right in omega arith in
      (v, 0, ground arith, omega arith, same)
  | inr e ↦
      let k : fits_rotated 15 1 v ≡ true = ground arith in
      let (j, a, b, c) = fits_rotated_found 15 1 v k in
      let j16 : j < 16 = omega arith in
      (rotate_left v j, j, c, j16, rotate_right-rotate_left v j w j16)
]

Encodable-legal : (v : ℕ) → Encodable v → is_legal_immediate v ≡ true
unfolding is_legal_immediate rotate_right
Encodable-legal v (b, zero, small, lt, e) =
    let same : leb v 0xff ≡ true = ground arith in ground arith
Encodable-legal v (b, suc i, small, lt, e) =
    let back : rotate_left v (suc i) ≡ b =
      ap (λ t. rotate_left t (suc i)) (sym e)
      ∙ rotate_left-rotate_right b (suc i) (omega arith) lt in
    let k : fits_rotated 15 1 v ≡ true =
      fits_rotated_intro 15 1 v (suc i) (omega arith) (omega arith) (omega arith) in
    ground arith

-- A word is a legal immediate exactly where it is a byte rotated to the right by an even number of
-- places.
pub is_legal_immediate_iff : (v : ℕ) → IsWord v → (is_legal_immediate v ≡ true) ↔ Encodable v
is_legal_immediate_iff v w = (legal-Encodable v w, Encodable-legal v)
