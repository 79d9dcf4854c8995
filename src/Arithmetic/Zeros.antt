-- ===== src/Arithmetic/Zeros.antt =====
-- Counting leading zeros.
use calendarizador.Prelude.{
  ℕ, zero, suc, ◌+◌, ◌*◌, ◌^◌, ◌≤◌, ◌<◌, ◌≡◌, arith, leb, if◌then◌else◌, Bool-cases, inl, inr,
}
use native.Mathlib.Nat.{mul_assoc}
use calendarizador.Arithmetic.{nlz_step, nlz}

-- `n` zeros of `d` have been shifted out.
abbrev Shifted : ℕ → ℕ × ℕ → ℕ → ℕ → Type 0
Shifted d (n, x) most least = (x ≡ d * 2 ^ n) × (n ≤ most) × (least ≤ x) × (x < 2 ^ 32)

pub pow_add : (n k : ℕ) → 2 ^ (n + k) ≡ 2 ^ n * 2 ^ k
pow_add n zero = let e : n + 0 ≡ n = omega arith in rw e (omega arith)
pow_add n (suc k) =
    let e = pow_add n k in
    let a = mul_assoc (2 ^ n) (2 ^ k) 2 in
    let t : n + suc k ≡ suc (n + k) = omega arith in
    let l : 2 ^ (n + suc k) ≡ 2 ^ (n + k) * 2 = rw t (omega arith) in
    let r : 2 ^ suc k ≡ 2 ^ k * 2 = omega arith in rw (l, r) (rw e a)

shift : (d n x by : ℕ) → x ≡ d * 2 ^ n → x * 2 ^ by ≡ d * 2 ^ (n + by)
shift d n x by e = rw (e, pow_add n by) (mul_assoc d (2 ^ n) (2 ^ by))

step16 : (d : ℕ) → 0 < d → d < 2 ^ 32 → Shifted d (nlz_step 0x0000ffff 16 (0, d)) 16 (2 ^ 16)
step16 d p h = let e : d ≡ d * 2 ^ 0 = omega arith in ground (arith, shift d 0 d 16 e)

step8 :
    (d : ℕ) (p : ℕ × ℕ) → Shifted d p 16 (2 ^ 16) → Shifted d (nlz_step 0x00ffffff 8 p) 24 (2 ^ 24)
step8 d (n, x) (e, most, least, h) = ground (arith, shift d n x 8 e)

step4 :
    (d : ℕ) (p : ℕ × ℕ) → Shifted d p 24 (2 ^ 24) → Shifted d (nlz_step 0x0fffffff 4 p) 28 (2 ^ 28)
step4 d (n, x) (e, most, least, h) = ground (arith, shift d n x 4 e)

step2 :
    (d : ℕ) (p : ℕ × ℕ) → Shifted d p 28 (2 ^ 28) → Shifted d (nlz_step 0x3fffffff 2 p) 30 (2 ^ 30)
step2 d (n, x) (e, most, least, h) = ground (arith, shift d n x 2 e)

-- Shifted by `s`, the number has 32 bits and the first one set.
abbrev pub IsNormal : ℕ → ℕ → Type 0
IsNormal d s = (s ≤ 31) × (2 ^ 31 ≤ d * 2 ^ s) × (d * 2 ^ s < 2 ^ 32)

-- For a number of 32 bits that is not 0, nlz counts the zero bits in front of its first one: shifted
-- by that count, which is at most 31, it has 32 bits and the first one set.
pub nlz-IsNormal : (d : ℕ) → 0 < d → d < 2 ^ 32 → IsNormal d (nlz d)
unfolding nlz
nlz-IsNormal d p h =
    let s0 = step16 d p h in
    let (e, most, least, fits) = step2 d _ (step4 d _ (step8 d _ s0)) in
    last d _ (e, most, least, fits)
  where
    last :
        (d : ℕ) (p : ℕ × ℕ)
        → Shifted d p 30 (2 ^ 30)
        → IsNormal d (if leb p.1 0x7fffffff then p.0 + 1 else p.0)
    last d (n, x) (e, most, least, fits) = elim (Bool-cases (leb x 0x7fffffff)) [
      | inl short ↦
          let t = shift d n x 1 e in
          let r : IsNormal d (n + 1) = (omega arith, omega (arith, t), ground (arith, t)) in
          rw short r
      | inr full ↦ let r : IsNormal d n = (omega arith, ground arith, omega arith) in rw full r
    ]
