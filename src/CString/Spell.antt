-- ===== src/CString/Spell.antt =====
-- The strings that memory holds, their lengths and the characters they have.
use calendarizador.Prelude.{
  ℕ, zero, suc, ◌%◌, ◌^◌, ◌<◌, ◌≡◌, ◌⊎◌, inl, inr, refl, Bool, true, false, ◌||◌, none, some, List,
  [], ◌∷◌, ◌==◌, arith, length, has, Bool-cases,
}
use calendarizador.Memory.{Memory}
use calendarizador.CString.{rounds, strlen, find_char, strchr, occurs}

-- The string at `p` is `xs`, with a null byte behind.
abbrev pub Spells : Memory → ℕ → List ℕ → Type 0
Spells m p [] = m p ≡ 0
Spells m p (x ∷ xs) = (m p ≡ x) × (0 < x) × Spells m (suc p) xs

abbrev pub IsBytes : Memory → Type 0
IsBytes m = (a : ℕ) → m a < 2 ^ 8

rounds-Spells :
    (fuel : ℕ) (m : Memory) (p : ℕ) (xs : List ℕ)
    → Spells m p xs
    → length xs < fuel
    → rounds fuel m p ≡ some (length xs)
unfolding rounds
rounds-Spells zero m p xs h enough = elim enough [ ]
rounds-Spells (suc fuel) m p [] h enough = rw h refl
rounds-Spells (suc fuel) m p (x ∷ xs) (e, nonzero, rest) enough =
    let go_on : (m p == 0) ≡ false = ground arith in
    rw (go_on, rounds-Spells fuel m (suc p) xs rest (omega arith)) refl

pub strlen-Spells :
    (fuel : ℕ) (m : Memory) (p : ℕ) (xs : List ℕ)
    → 0 < p
    → Spells m p xs
    → length xs < fuel
    → strlen fuel m p ≡ some (length xs)
unfolding strlen
strlen-Spells fuel m p xs hp h enough =
    let ok : (p == 0) ≡ false = ground arith in rw ok (rounds-Spells fuel m p xs h enough)

-- What strchr finds: the null byte counts as the last character.
abbrev pub hits : ℕ → List ℕ → Bool
hits c xs = has c xs || (c == 0)

find_char-cases :
    (fuel : ℕ) (m : Memory) (p c : ℕ) (xs : List ℕ)
    → Spells m p xs
    → length xs < fuel
    → (find_char fuel m p c ≡ some none) × (hits c xs ≡ false)
      ⊎ ((q : ℕ) × (find_char fuel m p c ≡ some (some q)) × (m q ≡ c) × (hits c xs ≡ true))
unfolding find_char
find_char-cases zero m p c xs h enough = elim enough [ ]
find_char-cases (suc fuel) m p c [] h enough = elim (Bool-cases (m p == c)) [
  | inl found ↦ inr (p, rw found refl, ground arith, ground arith)
  | inr other ↦ inl (rw (other, h) refl, ground arith)
]
find_char-cases (suc fuel) m p c (x ∷ xs) (e, nonzero, rest) enough = elim (Bool-cases (m p == c)) [
  | inl found ↦ inr (p, rw found refl, ground arith, ground arith)
  | inr other ↦
      let go_on : (m p == 0) ≡ false = ground arith in
      elim (find_char-cases fuel m (suc p) c xs rest (omega arith)) [
        | inl (r, absent) ↦ inl (rw (other, go_on) r, ground arith)
        | inr (q, r, at, present) ↦ inr (q, rw (other, go_on) r, at, ground arith)
      ]
]

pub occurs-hits :
    (fuel : ℕ) (m : Memory) (p c : ℕ) (xs : List ℕ)
    → 0 < p
    → Spells m p xs
    → length xs < fuel
    → c < 2 ^ 8
    → occurs fuel m p c ≡ some (hits c xs)
unfolding occurs strchr
occurs-hits fuel m p c xs hp h enough byte =
    let ok : (p == 0) ≡ false = ground arith in
    let same : c % 2 ^ 8 ≡ c = omega arith in
    elim (find_char-cases fuel m p c xs h enough) [
      | inl (r, absent) ↦ rw (occurs, strchr, ok, same, r, absent) refl
      | inr (q, r, at, present) ↦ rw (occurs, strchr, ok, same, r, present) refl
    ]
