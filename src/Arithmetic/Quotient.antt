-- ===== src/Arithmetic/Quotient.antt =====
-- udiv64 as a whole.
use calendarizador.Prelude.{
  ℕ, zero, suc, ◌+◌, ◌-◌, ◌*◌, ◌/◌, ◌%◌, ◌^◌, ◌≤◌, ◌<◌, ◌≡◌, refl, sym, ◌∙◌, some, arith, ltb, ◌==◌,
  if◌then◌else◌, Bool-cases, inl, inr,
}
use native.Mathlib.Nat.{
  mul-le-mul_right, div-div-eq-div-mul, div-lt_iff_lt-mul, le-div_iff_mul-le, div-mul-le_self,
  div-le_self, mod-eq_of_lt, div-add-mod,
}
use calendarizador.Arithmetic.{divl, nlz, rest_after, udiv64_large, udiv64, umod64}
use calendarizador.Arithmetic.Zeros.{IsNormal, nlz-IsNormal, pow_add}
use calendarizador.Arithmetic.Large.{
  not_too_small, not_too_large, t, product_fits, below, above, t_normal, room, upper_lt,
}
use calendarizador.Arithmetic.Small.{udiv64-eq_div}

next : (p d : ℕ) → suc p * d ≡ p * d + d
next p d = grind arith

divl_fits : (n d : ℕ) → 0 < d → n / d < 2 ^ 32 → divl n d ≡ some (n / d)
unfolding divl
divl_fits n d p h = ground arith

-- The last line of udiv64: an approximation that is at most one too large is put right.
corrected :
    (n d q : ℕ)
    → n < 2 ^ 64
    → 0 < d
    → d ≤ n
    → n / d ≤ q
    → q ≤ n / d + 1
    → (if ltb (rest_after n q d) d then (q + 2 ^ 64 - 1) % 2 ^ 64 else q) ≡ n / d
corrected n d zero fits pos_d le low high =
    let one : 1 ≤ n / d = (le-div_iff_mul-le pos_d).1 (omega arith) in absurd (omega arith)
corrected n d (suc p) fits pos_d le low high =
    let below_n : p * d ≤ n =
      (let m : p * d ≤ n / d * d = mul-le-mul_right d (omega arith) in
        let h = div-mul-le_self n d in omega arith) in
    let small = div-le_self n d in
    let pred : (suc p + 2 ^ 64 - 1) % 2 ^ 64 ≡ p = omega arith in
    let rest : rest_after n (suc p) d ≡ n - p * d = rw pred (omega arith) in
    elim (Bool-cases (ltb (n - p * d) d)) [
      | inl less ↦
          let lt : n / d < suc p = (div-lt_iff_lt-mul pos_d).1 (ground (arith, next p d)) in
          rw (rest, less, pred) (omega arith)
      | inr more ↦
          let ge : suc p ≤ n / d = (le-div_iff_mul-le pos_d).1 (ground (arith, next p d)) in
          rw (rest, more) (omega arith)
    ]

module _ (n d s : ℕ) (n_fits : n < 2 ^ 64) (large : 0 < d / 2 ^ 32) (le : d ≤ n)
    (norm : IsNormal (d / 2 ^ 32) s) where
  powers : 2 ^ s * 2 ^ (32 - s) ≡ 2 ^ 32
  powers =
      let e : s + (32 - s) ≡ 32 = omega (arith, norm) in sym (pow_add s (32 - s)) ∙ (λ i. 2 ^ e i)

  twice : 2 ^ (32 - s) ≡ 2 * 2 ^ (31 - s)
  twice = let e : 32 - s ≡ suc (31 - s) = omega (arith, norm) in rw e (omega arith)

  abbrev top : ℕ
  top = t d (2 ^ s) (2 ^ (32 - s)) powers norm.2 norm.1

  top_normal : 2 ^ 31 ≤ top
  top_normal = t_normal d (2 ^ s) (2 ^ (32 - s)) powers norm.2 norm.1

  shifted : d * 2 ^ s % 2 ^ 64 / 2 ^ 32 ≡ top
  shifted =
      λ i. mod-eq_of_lt (product_fits d (2 ^ s) (2 ^ (32 - s)) powers norm.2 norm.1) i / 2 ^ 32

  first : divl (n / 2) top ≡ some (n / 2 / top)
  first =
      let pos_top : 0 < top = omega (arith, top_normal) in
      let fits : n / 2 / top < 2 ^ 32 = (div-lt_iff_lt-mul pos_top).1 (omega (arith, top_normal)) in
      divl_fits (n / 2) top pos_top fits

  approximate : n / 2 / top / 2 ^ (31 - s) ≡ n / (top * 2 ^ (32 - s))
  approximate =
      (λ i. div-div-eq-div-mul n 2 top i / 2 ^ (31 - s))
      ∙ div-div-eq-div-mul n (2 * top) (2 ^ (31 - s))
      ∙ (λ i. n / product i)
    where
      product : 2 * top * 2 ^ (31 - s) ≡ top * 2 ^ (32 - s)
      product = rw twice (grind arith)

  exact :
      (let q = n / (top * 2 ^ (32 - s)) in
        if ltb (rest_after n q d) d then (q + 2 ^ 64 - 1) % 2 ^ 64 else q)
      ≡ n / d
  exact =
      let p = 2 ^ s in
      let e = 2 ^ (32 - s) in
      let lo = below d p e powers norm.2 norm.1 in
      let hi = above d p e powers norm.2 norm.1 in
      let ro = room d p e powers norm.2 norm.1 in
      let pos_m : 0 < top * e =
        (let e_pos = upper_lt d p e powers norm.2 norm.1 in
          let m_ge : 2 ^ 31 * e ≤ top * e = mul-le-mul_right e top_normal in omega arith) in
      corrected n d (n / (top * e)) n_fits (omega arith) le
        (not_too_small n d (top * e) e n_fits lo hi ro pos_m)
        (not_too_large n d (top * e) e n_fits lo hi ro pos_m)

large-eq_div :
    (n d : ℕ) → n < 2 ^ 64 → d < 2 ^ 64 → 0 < d / 2 ^ 32 → udiv64_large n d ≡ some (n / d)
unfolding udiv64_large
large-eq_div n d n_fits d_fits large = elim (Bool-cases (ltb n d)) [
  | inl less ↦
      let z : n / d ≡ 0 =
        (let pos_d : 0 < d = omega arith in
          let one : n / d < 1 = (div-lt_iff_lt-mul pos_d).1 (ground arith) in omega arith) in
      rw (less, z) refl
  | inr other ↦
      let s = nlz (d / 2 ^ 32) in
      let norm = nlz-IsNormal (d / 2 ^ 32) large (omega arith) in
      let le : d ≤ n = ground arith in
      rw (udiv64_large, other)
        (rw (shifted n d s n_fits large le norm) (
          rw (first n d s n_fits large le norm) (
            rw (approximate n d s n_fits large le norm)
              (λ i. some (exact n d s n_fits large le norm i)))))
]

-- For 64-bit numbers, the divisor not 0, udiv64 does not trap and gives the quotient.
pub udiv64-quotient : (n d : ℕ) → n < 2 ^ 64 → 0 < d → d < 2 ^ 64 → udiv64 n d ≡ some (n / d)
unfolding udiv64
udiv64-quotient n d n_fits pos_d d_fits = elim (Bool-cases (d / 2 ^ 32 == 0)) [
  | inl small ↦ udiv64-eq_div n d n_fits pos_d (ground arith)
  | inr large ↦ rw (udiv64, large) (large-eq_div n d n_fits d_fits (ground arith))
]

-- For 64-bit numbers, the divisor not 0, umod64 does not trap and gives the lower 32 bits of the
-- remainder: the remainder itself only where it is below 2^32.
pub umod64-low_half :
    (n d : ℕ) → n < 2 ^ 64 → 0 < d → d < 2 ^ 64 → umod64 n d ≡ some (n % d % 2 ^ 32)
unfolding umod64
umod64-low_half n d n_fits pos_d d_fits =
    rw (umod64, udiv64-quotient n d n_fits pos_d d_fits) (λ i. some (rest i))
  where
    rest : (n + (2 ^ 64 - (d * (n / d)) % 2 ^ 64)) % 2 ^ 32 ≡ n % d % 2 ^ 32
    rest =
        let whole = div-add-mod n d in
        let kept : (d * (n / d)) % 2 ^ 64 ≡ d * (n / d) = mod-eq_of_lt (omega arith) in
        rw kept (omega arith)
