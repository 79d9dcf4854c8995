-- ===== src/Stdlib/Number.antt =====
-- Which number atoi reads.
use calendarizador.Prelude.{
  ℕ, zero, suc, ◌+◌, ◌-◌, ◌*◌, ◌^◌, ◌≤◌, ◌<◌, ◌≡◌, refl, sym, ap, ◌∙◌, Bool, true, false, some,
  List, [], ◌∷◌, length, ◌==◌, arith,
}
use mathlib.Core.Path.{subst}
use calendarizador.Prelude.Int.{ℤ, pos, sub_ℕ, ◌-ℤ◌, ◌*ℤ◌, wrap32, Fits32, wrap32-eq_self}
use calendarizador.Memory.{Memory}
use calendarizador.Stdlib.Atoi.{
  is_space, is_digit, skip_space, parse_sign, next_value, parse_digits, with_sign, parse_number,
  atoi,
}

-- The characters `xs` are at `p`, and pass the test.
abbrev pub Run : (ℕ → Bool) → Memory → ℕ → List ℕ → Type 0
Run test m p [] = Unit {0}
Run test m p (x ∷ xs) = (m p ≡ x) × (test x ≡ true) × Run test m (suc p) xs

-- What digits mean behind a number `n`.
abbrev pub number : ℕ → List ℕ → ℕ
number n [] = n
number n (d ∷ ds) = number (n * 10 + (d - 48)) ds

number-le : (n : ℕ) (ds : List ℕ) → n ≤ number n ds
number-le n [] = omega arith
number-le n (d ∷ ds) = omega (arith, number-le (n * 10 + (d - 48)) ds)

skip_space-Run :
    (fuel : ℕ) (m : Memory) (p : ℕ) (xs : List ℕ)
    → Run is_space m p xs
    → is_space (m (p + length xs)) ≡ false
    → length xs < fuel
    → skip_space fuel m p ≡ some (p + length xs)
unfolding skip_space
skip_space-Run zero m p xs run end enough = absurd (omega arith)
skip_space-Run (suc fuel) m p [] run end enough =
    let e : p + 0 ≡ p = omega arith in
    let here : is_space (m p) ≡ false = subst (λ a. is_space (m a) ≡ false) e end in
    rw here (ap some (sym e))
skip_space-Run (suc fuel) m p (x ∷ xs) (e, space, run) end enough =
    let f : p + suc (length xs) ≡ suc p + length xs = omega arith in
    let here : is_space (m p) ≡ true = subst (λ c. is_space c ≡ true) (sym e) space in
    rw here (
      skip_space-Run fuel m (suc p) xs run (subst (λ a. is_space (m a) ≡ false) f end) (omega arith)
      ∙ ap some (sym f))

times_ten : (n : ℕ) → sub_ℕ 0 n *ℤ pos 10 ≡ sub_ℕ 0 (n * 10)
unfolding ◌*ℤ◌
times_ten zero = refl
times_ten (suc n) = ground arith

minus_digit : (n c : ℕ) → 48 ≤ c → sub_ℕ 0 n -ℤ sub_ℕ c 48 ≡ sub_ℕ 0 (n + (c - 48))
unfolding ◌-ℤ◌
minus_digit n c h = ground arith

opposite-Fits32 : (n : ℕ) → n ≤ 2 ^ 31 → Fits32 (sub_ℕ 0 n)
opposite-Fits32 zero h = (omega arith, omega arith)
opposite-Fits32 (suc n) h = (ground arith, ground arith)

next_value-eq :
    (n c : ℕ)
    → is_digit c ≡ true
    → n * 10 + (c - 48) ≤ 2 ^ 31
    → next_value (sub_ℕ 0 n) c ≡ sub_ℕ 0 (n * 10 + (c - 48))
unfolding next_value
next_value-eq n c digit small =
    let low : 48 ≤ c = ground arith in
    let first =
      ap wrap32 (times_ten n)
      ∙ wrap32-eq_self (sub_ℕ 0 (n * 10)) (opposite-Fits32 (n * 10) (omega arith)) in
    (λ k. wrap32 (first k -ℤ sub_ℕ c 48))
    ∙ ap wrap32 (minus_digit (n * 10) c low)
    ∙ wrap32-eq_self (sub_ℕ 0 (n * 10 + (c - 48))) (opposite-Fits32 (n * 10 + (c - 48)) small)

parse_digits-Run :
    (fuel : ℕ) (m : Memory) (p n : ℕ) (ds : List ℕ)
    → Run is_digit m p ds
    → is_digit (m (p + length ds)) ≡ false
    → length ds < fuel
    → number n ds ≤ 2 ^ 31
    → parse_digits fuel m p (sub_ℕ 0 n) ≡ some (sub_ℕ 0 (number n ds))
unfolding parse_digits
parse_digits-Run zero m p n ds run end enough small = absurd (omega arith)
parse_digits-Run (suc fuel) m p n [] run end enough small =
    let e : p + 0 ≡ p = omega arith in
    let here : is_digit (m p) ≡ false = subst (λ a. is_digit (m a) ≡ false) e end in rw here refl
parse_digits-Run (suc fuel) m p n (d ∷ ds) (e, digit, run) end enough small =
    let f : p + suc (length ds) ≡ suc p + length ds = omega arith in
    let le = number-le (n * 10 + (d - 48)) ds in
    let next : next_value (sub_ℕ 0 n) (m p) ≡ sub_ℕ 0 (n * 10 + (d - 48)) =
      ap (next_value (sub_ℕ 0 n)) e ∙ next_value-eq n d digit (omega arith) in
    let here : is_digit (m p) ≡ true = subst (λ c. is_digit c ≡ true) (sym e) digit in
    rw here (
      (λ k. parse_digits fuel m (suc p) (next k))
      ∙ parse_digits-Run fuel m (suc p) (n * 10 + (d - 48)) ds run
          (subst (λ a. is_digit (m a) ≡ false) f end) (omega arith) small)

positive : (n : ℕ) → n < 2 ^ 31 → with_sign false (sub_ℕ 0 n) ≡ pos n
unfolding with_sign ◌-ℤ◌
positive zero h = wrap32-eq_self (pos 0) (omega arith, omega arith)
positive (suc n) h =
    let e : pos 0 -ℤ sub_ℕ 0 (suc n) ≡ pos (suc n) = ground arith in
    ap wrap32 e ∙ wrap32-eq_self (pos (suc n)) (omega arith, omega arith)

pub data Sign : Type 0 where
  no_sign : Sign
  plus : Sign
  minus : Sign

-- The sign is at `p`; none is there where a character that is no sign and no space is.
abbrev pub SignAt : Memory → ℕ → Sign → Type 0
SignAt m p no_sign = (is_space (m p) ≡ false) × ((m p == 43) ≡ false) × ((m p == 45) ≡ false)
SignAt m p plus = m p ≡ 43
SignAt m p minus = m p ≡ 45

abbrev pub behind_sign : Sign → ℕ → ℕ
behind_sign no_sign p = p
behind_sign plus p = suc p
behind_sign minus p = suc p

abbrev pub signed : Sign → ℕ → ℤ
signed no_sign n = pos n
signed plus n = pos n
signed minus n = sub_ℕ 0 n

-- The value is an `int`: -2^31 is one, and 2^31 is not.
abbrev pub IsInt : Sign → ℕ → Type 0
IsInt no_sign n = n < 2 ^ 31
IsInt plus n = n < 2 ^ 31
IsInt minus n = n ≤ 2 ^ 31

int_bound : (sign : Sign) (n : ℕ) → IsInt sign n → n ≤ 2 ^ 31
int_bound no_sign n h = omega arith
int_bound plus n h = omega arith
int_bound minus n h = h

sign_ends_space : (m : Memory) (p : ℕ) (sign : Sign) → SignAt m p sign → is_space (m p) ≡ false
sign_ends_space m p no_sign at = at.0
sign_ends_space m p plus at = rw at refl
sign_ends_space m p minus at = rw at refl

parse_number-eq :
    (fuel : ℕ) (m : Memory) (p n : ℕ) (negative : Bool)
    → parse_digits fuel m p (sub_ℕ 0 0) ≡ some (sub_ℕ 0 n)
    → parse_number fuel m (negative, p) ≡ some (with_sign negative (sub_ℕ 0 n))
unfolding parse_number
parse_number-eq fuel m p n negative e = rw (parse_number, e) refl

parse_sign-cases :
    (fuel : ℕ) (m : Memory) (p n : ℕ) (sign : Sign)
    → SignAt m p sign
    → IsInt sign n
    → parse_digits fuel m (behind_sign sign p) (sub_ℕ 0 0) ≡ some (sub_ℕ 0 n)
    → parse_number fuel m (parse_sign m p) ≡ some (signed sign n)
unfolding with_sign
parse_sign-cases fuel m p n no_sign (_, not_plus, not_minus) small e =
    rw (not_plus, not_minus) (parse_number-eq fuel m p n false e ∙ ap some (positive n small))
parse_sign-cases fuel m p n plus at small e =
    rw at (parse_number-eq fuel m (suc p) n false e ∙ ap some (positive n small))
parse_sign-cases fuel m p n minus at small e = rw at (parse_number-eq fuel m (suc p) n true e)

-- On a string that is white space, an optional sign and digits, up to a character that is no digit,
-- atoi ends and gives the number that the digits mean, with its sign, where that is an `int`. Fuel is
-- enough that is more than the white space and more than the digits.
pub atoi-signed :
    (fuel : ℕ) (m : Memory) (p : ℕ) (spaces digits : List ℕ) (sign : Sign)
    → 0 < p
    → Run is_space m p spaces
    → SignAt m (p + length spaces) sign
    → Run is_digit m (behind_sign sign (p + length spaces)) digits
    → is_digit (m (behind_sign sign (p + length spaces) + length digits)) ≡ false
    → IsInt sign (number 0 digits)
    → length spaces < fuel
    → length digits < fuel
    → atoi fuel m p ≡ some (signed sign (number 0 digits))
unfolding atoi
atoi-signed fuel m p spaces digits sign not_null blank at run end small enough enough' =
    let ok : (p == 0) ≡ false = ground arith in
    let q = p + length spaces in
    let skip = skip_space-Run fuel m p spaces blank (sign_ends_space m q sign at) enough in
    let parse =
      parse_digits-Run fuel m (behind_sign sign q) 0 digits run end enough'
        (int_bound sign (number 0 digits) small) in
    rw (ok, skip) (parse_sign-cases fuel m q (number 0 digits) sign at small parse)
