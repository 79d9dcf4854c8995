-- ===== src/Arithmetic.antt =====
-- pintos/src/lib/arithmetic.c: 64-bit division on a 32-bit machine. `none` is a divide error.
pub mod Small
pub mod Large
pub mod Quotient
mod Tests
pub mod Zeros
use calendarizador.Prelude.{
  ℕ, suc, ◌+◌, ◌-◌, ◌*◌, ◌/◌, ◌%◌, ◌^◌, Bool, true, false, not, Option, none, some, ltb, leb, ◌==◌,
  if◌then◌else◌,
}
use calendarizador.Prelude.Int.{
  ℤ, pos, negsuc, pos_part, neg_part, ◌-ℤ◌, ◌*ℤ◌, wrap32, wrap64, ltb_ℤ,
}
use mathlib.Core.Option

-- The instruction traps where the quotient does not fit in 32 bits.
unfoldable pub divl : ℕ → ℕ → Option ℕ
divl n d = if d == 0 then none else let q = n / d in if ltb q (2 ^ 32) then some q else none

-- One step of nlz: where `x` is at most the bound, `by` zero bits are counted and shifted out.
abbrev pub nlz_step : ℕ → ℕ → ℕ × ℕ → ℕ × ℕ
nlz_step bound by (n, x) = if leb x bound then (n + by, (x * 2 ^ by) % 2 ^ 32) else (n, x)

unfoldable pub nlz : ℕ → ℕ
nlz x =
    let (n, x) =
      nlz_step 0x3fffffff 2
        (nlz_step 0x0fffffff 4 (nlz_step 0x00ffffff 8 (nlz_step 0x0000ffff 16 (0, x)))) in
    if leb x 0x7fffffff then n + 1 else n

-- n - (q - 1) * d, in 64 bits.
abbrev pub rest_after : ℕ → ℕ → ℕ → ℕ
rest_after n q d = (n + (2 ^ 64 - ((q + 2 ^ 64 - 1) % 2 ^ 64 * d) % 2 ^ 64)) % 2 ^ 64

unfoldable pub udiv64_small : ℕ → ℕ → Option ℕ
udiv64_small n d =
    let n1 = n / 2 ^ 32 in
    let n0 = n % 2 ^ 32 in
    if d == 0 then none else elim (divl (2 ^ 32 * (n1 % d) + n0) d) [
      | none ↦ none
      | some q ↦ some ((q + 2 ^ 32 * (n1 / d)) % 2 ^ 64)
    ]

unfoldable pub udiv64_large : ℕ → ℕ → Option ℕ
udiv64_large n d =
    if ltb n d
    then some 0
    else let s = nlz (d / 2 ^ 32) in
      elim (divl (n / 2) ((d * 2 ^ s) % 2 ^ 64 / 2 ^ 32)) [
        | none ↦ none
        | some q' ↦
            let q = q' / 2 ^ (31 - s) in
            some (if ltb (rest_after n q d) d then (q + 2 ^ 64 - 1) % 2 ^ 64 else q)
      ]

unfoldable pub udiv64 : ℕ → ℕ → Option ℕ
unfolding udiv64_small udiv64_large
udiv64 n d = if d / 2 ^ 32 == 0 then udiv64_small n d else udiv64_large n d

-- The result is returned in 32 bits.
unfoldable pub umod64 : ℕ → ℕ → Option ℕ
umod64 n d = elim (udiv64 n d) [
  | none ↦ none
  | some q ↦ some ((n + (2 ^ 64 - (d * q) % 2 ^ 64)) % 2 ^ 32)
]

abbrev pub abs64 : ℤ → ℕ
abs64 n = pos_part n + neg_part n

unfoldable pub sdiv64 : ℤ → ℤ → Option ℤ
sdiv64 n d = elim (udiv64 (abs64 n) (abs64 d)) [
  | none ↦ none
  | some q_abs ↦
      let n_negative = ltb_ℤ n (pos 0) in
      let d_negative = ltb_ℤ d (pos 0) in
      some (
        if (if n_negative then d_negative else not d_negative)
        then wrap64 (pos q_abs)
        else wrap64 (pos 0 -ℤ wrap64 (pos q_abs)))
]

unfoldable pub smod64 : ℤ → ℤ → Option ℤ
unfolding sdiv64
smod64 n d = elim (sdiv64 n d) [
  | none ↦ none
  | some q ↦ some (wrap32 (wrap64 (n -ℤ wrap64 (d *ℤ q))))
]
