-- ===== src/Arithmetic/Large.antt =====
-- Division by a number of more than 32 bits, after Hacker's Delight.
use calendarizador.Prelude.{
  ℕ, zero, suc, ◌+◌, ◌-◌, ◌*◌, ◌/◌, ◌^◌, ◌≤◌, ◌<◌, ◌≡◌, sym, ◌∙◌, arith, ◌==◌, Bool-cases, inl, inr,
}
use native.Mathlib.Nat.{
  mul_assoc, mul_comm, mul-le-mul_left, mul-le-mul_right, mul-le-mul, mul-lt-mul_of_pos_right,
  le_of_mul-le-mul_right, lt_of_mul-lt-mul_right, le-div_iff_mul-le, div-mul-le_self,
}

-- The divisor without its last digits, `m`, which are fewer than `e`, gives a quotient that is at
-- most one too large.
module _ (n d m e : ℕ) (n_fits : n < 2 ^ 64) (below : m ≤ d) (above : d < m + e)
    (room : (e - 1) * 2 ^ 64 ≤ m * m) (pos_m : 0 < m) where
  -- q * (e - 1) ≤ m, where q is the approximate quotient.
  error_small : n / m * (e - 1) ≤ m
  error_small =
      let q = n / m in
      let f = e - 1 in
      let swap : q * f * m ≡ q * m * f =
        mul_assoc q f m ∙ (λ i. q * mul_comm f m i) ∙ sym (mul_assoc q m f) in
      let by_n : q * m * f ≤ n * f = mul-le-mul_right f (div-mul-le_self n m) in
      let by_max : n * f ≤ 2 ^ 64 * f = mul-le-mul_right f (omega arith) in
      let bound : q * f * m ≤ m * m = rw swap (omega arith) in le_of_mul-le-mul_right bound pos_m

  pub not_too_small : n / d ≤ n / m
  not_too_small =
      let less : n / d * m ≤ n / d * d = mul-le-mul_left (n / d) below in
      let most = div-mul-le_self n d in (le-div_iff_mul-le pos_m).1 (omega arith)

  quotient_from : (q : ℕ) → q * m ≤ n → q * (e - 1) ≤ m → q ≤ n / d + 1
  quotient_from zero h k = omega arith
  quotient_from (suc p) h k =
      let near : p * d ≤ p * (m + (e - 1)) = mul-le-mul_left p (omega arith) in
      let pos_d : 0 < d = omega arith in
      let le : p ≤ n / d = (le-div_iff_mul-le pos_d).1 (grind arith) in omega arith

  pub not_too_large : n / m ≤ n / d + 1
  not_too_large = quotient_from (n / m) (div-mul-le_self n m) error_small

four_le : (e : ℕ) → (e - 1) * 4 ≤ e * e
four_le zero = omega arith
four_le (suc zero) = omega arith
four_le (suc (suc g)) = grind arith

-- The divisor shifted by `s`, where `p` is 2 ^ s and `e` is 2 ^ (32 - s); `t` is its upper half.
module _ (d p e : ℕ) (pe : p * e ≡ 2 ^ 32) (fits : d / 2 ^ 32 * p < 2 ^ 32)
    (normal : 2 ^ 31 ≤ d / 2 ^ 32 * p) where
  abbrev pub t : ℕ
  t = d * p / 2 ^ 32

  pos_p : 0 < p
  pos_p = elim (Bool-cases (p == 0)) [
    | inl z ↦ let q : p ≡ 0 = ground arith in absurd (grind (arith, pe, q))
    | inr nz ↦ ground arith
  ]

  spread : (a : ℕ) → a * e * p ≡ a * 2 ^ 32
  spread a = mul_assoc a e p ∙ (λ i. a * mul_comm e p i) ∙ (λ i. a * pe i)

  pub upper_lt : d / 2 ^ 32 < e
  upper_lt = lt_of_mul-lt-mul_right p (let c = mul_comm p e in omega (arith, pe))

  pub product_fits : d * p < 2 ^ 64
  product_fits =
      let lt : d < e * 2 ^ 32 = omega (arith, upper_lt) in
      let m : d * p < e * 2 ^ 32 * p = mul-lt-mul_of_pos_right lt pos_p in
      grind (arith, spread (2 ^ 32))

  pub below : t * e ≤ d
  below =
      let le : t * 2 ^ 32 ≤ d * p = omega arith in
      let m : t * e * p ≤ d * p = rw (spread t) le in le_of_mul-le-mul_right m pos_p

  pub above : d < t * e + e
  above =
      let lt : d * p < t * 2 ^ 32 + 2 ^ 32 = omega arith in
      let m : d * p < (t * e + e) * p = grind (arith, spread t, spread 1) in
      lt_of_mul-lt-mul_right p m

  pub t_normal : 2 ^ 31 ≤ t
  t_normal =
      let le : d / 2 ^ 32 * 2 ^ 32 ≤ d = omega arith in
      let m : d / 2 ^ 32 * 2 ^ 32 * p ≤ d * p = mul-le-mul_right p le in grind arith

  pub room : (e - 1) * 2 ^ 64 ≤ t * e * (t * e)
  room =
      let le : 2 ^ 31 * e ≤ t * e = mul-le-mul_right e t_normal in
      let sq : 2 ^ 31 * e * (2 ^ 31 * e) ≤ t * e * (t * e) = mul-le-mul le le in
      let f = four_le e in grind arith
