-- ===== src/Arithmetic/Small.antt =====
-- Division by a number of 32 bits.
use native.Mathlib.Nat.{
  div-lt_iff_lt-mul, add-mul-div_left, div-add-mod, div-le_self, mod-lt, mod-eq_of_lt,
}
use calendarizador.Prelude.{
  ℕ, ◌+◌, ◌*◌, ◌/◌, ◌%◌, ◌^◌, ◌<◌, ◌≡◌, ◌∙◌, true, false, some, arith, ltb, ◌==◌,
}
use calendarizador.Arithmetic.{divl, udiv64_small, udiv64}

shuffle : (d q : ℕ) → d * (2 ^ 32 * q) ≡ 2 ^ 32 * (d * q)
shuffle d q = omega arith

-- The two halves of the quotient.
halves :
    (n d : ℕ)
    → 0 < d
    → n / d ≡ (2 ^ 32 * (n / 2 ^ 32 % d) + n % 2 ^ 32) / d + 2 ^ 32 * (n / 2 ^ 32 / d)
halves n d pos_d =
    let n1 = n / 2 ^ 32 in
    let low = 2 ^ 32 * (n1 % d) + n % 2 ^ 32 in
    let high : d * (2 ^ 32 * (n1 / d)) ≡ 2 ^ 32 * (d * (n1 / d)) = shuffle d (n1 / d) in
    let parts = div-add-mod n1 d in
    let whole : n ≡ low + d * (2 ^ 32 * (n1 / d)) = rw high (omega arith) in
    (λ i. whole i / d) ∙ add-mul-div_left low (2 ^ 32 * (n1 / d)) pos_d

low_fits : (n d : ℕ) → 0 < d → (2 ^ 32 * (n / 2 ^ 32 % d) + n % 2 ^ 32) / d < 2 ^ 32
low_fits n d pos_d = (div-lt_iff_lt-mul pos_d).1 (let r = mod-lt (n / 2 ^ 32) pos_d in omega arith)

-- For a 64-bit number and a divisor that is not 0 and has 32 bits, udiv64 does not trap and gives
-- the quotient.
pub udiv64-eq_div : (n d : ℕ) → n < 2 ^ 64 → 0 < d → d < 2 ^ 32 → udiv64 n d ≡ some (n / d)
unfolding udiv64 udiv64_small divl
udiv64-eq_div n d fits pos_d small =
    let f = low_fits n d pos_d in
    let is_small : (d / 2 ^ 32 == 0) ≡ true = ground arith in
    let not_zero : (d == 0) ≡ false = ground arith in
    let q_fits : ltb ((2 ^ 32 * (n / 2 ^ 32 % d) + n % 2 ^ 32) / d) (2 ^ 32) ≡ true =
      ground arith in
    rw (udiv64, udiv64_small, divl, is_small, not_zero, q_fits) (λ i. some (same i))
  where
    same :
        ((2 ^ 32 * (n / 2 ^ 32 % d) + n % 2 ^ 32) / d + 2 ^ 32 * (n / 2 ^ 32 / d)) % 2 ^ 64 ≡ n / d
    same = let le = div-le_self n d in rw (← halves n d pos_d) (mod-eq_of_lt (omega arith))
