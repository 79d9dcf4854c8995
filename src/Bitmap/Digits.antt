-- ===== src/Bitmap/Digits.antt =====
-- The binary digits of `|`, `&`, `^`, `~` and a mask.
use Prim.Native.Nat.{
  bit_and, bit_or, bit_xor, bit_and-bitwise, bit_or-bitwise, bit_xor-bitwise, digits, differ, min,
  max,
}
use native.Mathlib.Nat.{mul_assoc}
use calendarizador.Prelude.{
  ℕ, zero, suc, ◌+◌, ◌-◌, ◌*◌, ◌/◌, ◌%◌, ◌^◌, ◌≤◌, ◌<◌, ◌≡◌, refl, ◌==◌, arith, if◌then◌else◌,
}

abbrev pub digit : ℕ → ℕ → ℕ
digit n zero = n % 2
digit n (suc i) = digit (n / 2) i

pub digit-zero : (i : ℕ) → digit 0 i ≡ 0
digit-zero zero = refl
digit-zero (suc i) = digit-zero i

pub digit-lt : (n i : ℕ) → digit n i < 2
digit-lt n zero = omega arith
digit-lt n (suc i) = digit-lt (n / 2) i

-- A digit operation that keeps digits, with what it gives once the first number has run out.
module _ (z : ℕ → ℕ) (f : ℕ → ℕ → ℕ) (small : (x y : ℕ) → x < 2 → y < 2 → f x y < 2)
    (out : (b i : ℕ) → digit (z b) i ≡ f 0 (digit b i)) where
  digit-digits : (n a b i : ℕ) → a ≤ n → digit (digits z f n a b) i ≡ f (digit a i) (digit b i)
  digit-digits zero zero b i h = rw (digit-zero i) (out b i)
  digit-digits zero (suc a) b i h = absurd (omega arith)
  digit-digits (suc n) zero b i h = rw (digit-zero i) (out b i)
  digit-digits (suc n) (suc a) b zero h =
      let s = small (suc a % 2) (b % 2) (omega arith) (omega arith) in omega arith
  digit-digits (suc n) (suc a) b (suc i) h =
      let s = small (suc a % 2) (b % 2) (omega arith) (omega arith) in
      let e : (digits z f n (suc a / 2) (b / 2) * 2 + f (suc a % 2) (b % 2)) / 2
          ≡ digits z f n (suc a / 2) (b / 2) =
        omega arith in
      rw e (digit-digits n (suc a / 2) (b / 2) i (omega arith))

pub digit-bit_or : (a b i : ℕ) → digit (bit_or a b) i ≡ max (digit a i) (digit b i)
digit-bit_or a b i =
    let e : bit_or a b ≡ digits (λ b. b) max a a b = (λ i. bit_or-bitwise a b i) in
    rw e (
      digit-digits (λ b. b) max (λ x y h k. ground arith) (λ b i. ground arith) a a b i
        (omega arith))

pub digit-bit_and : (a b i : ℕ) → digit (bit_and a b) i ≡ min (digit a i) (digit b i)
digit-bit_and a b i =
    let e : bit_and a b ≡ digits (λ b. zero) min a a b = (λ i. bit_and-bitwise a b i) in
    rw e (
      digit-digits (λ b. zero) min (λ x y h k. ground arith) (λ b i. ground (arith, digit-zero i)) a
        a b i (omega arith))

differ-lt : (x y : ℕ) → x < 2 → y < 2 → differ x y < 2
differ-lt zero y h k = k
differ-lt (suc x) zero h k = h
differ-lt (suc zero) (suc zero) h k = omega arith
differ-lt (suc zero) (suc (suc y)) h k = absurd (omega arith)
differ-lt (suc (suc x)) (suc y) h k = absurd (omega arith)

pub digit-bit_xor : (a b i : ℕ) → digit (bit_xor a b) i ≡ differ (digit a i) (digit b i)
digit-bit_xor a b i =
    let e : bit_xor a b ≡ digits (λ b. b) differ a a b = (λ i. bit_xor-bitwise a b i) in
    rw e (digit-digits (λ b. b) differ differ-lt (λ b i. refl) a a b i (omega arith))

pub digit-mask : (j i : ℕ) → digit (2 ^ j) i ≡ (if j == i then 1 else 0)
digit-mask zero zero = refl
digit-mask zero (suc i) = ground (arith, digit-zero i)
digit-mask (suc j) zero = ground arith
digit-mask (suc j) (suc i) =
    let e : 2 ^ suc j / 2 ≡ 2 ^ j = omega arith in rw e (ground (arith, digit-mask j i))

-- The digits below `w` of `~n`.
pub digit-complement : (w n i : ℕ) → n < 2 ^ w → i < w → digit (2 ^ w - 1 - n) i ≡ 1 - digit n i
digit-complement zero n i h k = absurd (omega arith)
digit-complement (suc w) n zero h k = ground arith
digit-complement (suc w) n (suc i) h k =
    let e : (2 ^ suc w - 1 - n) / 2 ≡ 2 ^ w - 1 - n / 2 = omega arith in
    let half : n / 2 < 2 ^ w = omega arith in
    let less : i < w = omega arith in rw e (digit-complement w (n / 2) i half less)

and_zero : (n a : ℕ) → digits (λ b. zero) min n a 0 ≡ 0
and_zero zero a = refl
and_zero (suc n) zero = refl
and_zero (suc n) (suc a) = rw (and_zero n (suc a / 2)) (ground arith)

doubled : (x j : ℕ) → x * 2 ^ j * 2 ≡ x * 2 ^ suc j
doubled x j = let e : 2 ^ suc j ≡ 2 ^ j * 2 = omega arith in rw e (mul_assoc x (2 ^ j) 2)

and_mask : (n a j : ℕ) → a ≤ n → digits (λ b. zero) min n a (2 ^ j) ≡ digit a j * 2 ^ j
and_mask zero zero j h = rw (digit-zero j) (omega arith)
and_mask zero (suc a) j h = absurd (omega arith)
and_mask (suc n) zero j h = rw (digit-zero j) (omega arith)
and_mask (suc n) (suc a) zero h = rw (and_zero n (suc a / 2)) (ground arith)
and_mask (suc n) (suc a) (suc j) h =
    let e : 2 ^ suc j / 2 ≡ 2 ^ j = omega arith in
    let d : 2 ^ suc j % 2 ≡ 0 = omega arith in
    rw (e, d)
      (rw (and_mask n (suc a / 2) j (omega arith))
        (ground (arith, doubled (digit (suc a / 2) j) j)))

-- The number that masking leaves: the digit, in its place.
pub bit_and-mask : (a j : ℕ) → bit_and a (2 ^ j) ≡ digit a j * 2 ^ j
bit_and-mask a j =
    let e : bit_and a (2 ^ j) ≡ digits (λ b. zero) min a a (2 ^ j) =
      (λ i. bit_and-bitwise a (2 ^ j) i) in
    rw e (and_mask a a j (omega arith))

digits-le : (n a b : ℕ) → a ≤ n → digits (λ b. zero) min n a b ≤ b
digits-le zero zero b h = omega arith
digits-le zero (suc a) b h = absurd (omega arith)
digits-le (suc n) zero b h = omega arith
digits-le (suc n) (suc a) b h =
    let high = digits-le n (suc a / 2) (b / 2) (omega arith) in
    let low : min (suc a % 2) (b % 2) ≤ b % 2 = ground arith in omega arith

pub bit_and-le : (a b : ℕ) → bit_and a b ≤ b
bit_and-le a b =
    let e : bit_and a b ≡ digits (λ b. zero) min a a b = (λ i. bit_and-bitwise a b i) in
    rw e (digits-le a a b (omega arith))
