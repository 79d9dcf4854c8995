-- ===== src/CString/Append.antt =====
-- Strings copied and appended within a size.
use calendarizador.Prelude.{
  ℕ, zero, suc, ◌+◌, ◌-◌, ◌≤◌, ◌<◌, ◌≡◌, ◌⊎◌, inl, inr, refl, ap, false, some, List, [], ◌∷◌, ◌++◌,
  ltb, ◌==◌, arith, if◌then◌else◌, length, take, Bool-cases,
}
use mathlib.Core.Path.{subst}
use calendarizador.Memory.{Memory, put, memcpy}
use calendarizador.Memory.Move.{memcpy-Copied}
use calendarizador.CString.{strlcpy}
use calendarizador.CString.Spell.{Spells, strlen-Spells}

-- A string stays where its bytes stay, and may move with them.
Spells-moved :
    (m m' : Memory) (p q : ℕ) (xs : List ℕ)
    → ((i : ℕ) → i ≤ length xs → m' (q + i) ≡ m (p + i))
    → Spells m p xs
    → Spells m' q xs
Spells-moved m m' p q [] same h = grind (arith, same 0)
Spells-moved m m' p q (x ∷ xs) same (e, nonzero, rest) = (
  grind (arith, same 0),
  nonzero,
  Spells-moved m m' (suc p) (suc q) xs (λ i le. grind (arith, same (suc i))) rest,
)

-- A copy of the first `k` characters with a null byte behind is a string.
take-Spells :
    (m m' : Memory) (p q k : ℕ) (xs : List ℕ)
    → k ≤ length xs
    → ((i : ℕ) → i < k → m' (q + i) ≡ m (p + i))
    → m' (q + k) ≡ 0
    → Spells m p xs
    → Spells m' q (take k xs)
take-Spells m m' p q zero xs fits same end h = grind arith
take-Spells m m' p q (suc k) [] fits same end h = elim fits [ ]
take-Spells m m' p q (suc k) (x ∷ xs) fits same end (e, nonzero, rest) = (
  grind (arith, same 0),
  nonzero,
  take-Spells m m' (suc p) (suc q) k xs (omega arith) (λ i lt. grind (arith, same (suc i)))
      (grind arith) rest,
)

take_all {ℓ} : {A : Type ℓ} (n : ℕ) (xs : List A) → length xs ≤ n → take (length xs) xs ≡ take n xs
take_all zero [] le = refl
take_all (suc n) [] le = refl
take_all zero (x ∷ xs) le = elim le [ ]
take_all (suc n) (x ∷ xs) le = ap (λ ys. x ∷ ys) (take_all n xs (omega arith))

-- The smaller of a length and the room for it, as strlcpy and strlcat compute it.
abbrev pub at_most : ℕ → ℕ → ℕ
at_most len room = if ltb len room then len else room

take-at_most {ℓ} :
    {A : Type ℓ} (room : ℕ) (xs : List A) → take (at_most (length xs) room) xs ≡ take room xs
take-at_most room xs = elim (Bool-cases (ltb (length xs) room)) [
  | inl short ↦ rw short (take_all room xs (ground arith))
  | inr long ↦ rw long refl
]

module _ (m : Memory) (dst : ℕ) where
  -- What strlcpy writes: as much of the string as fits with its null byte, and nothing else.
  abbrev pub CopiedWithin : ℕ → List ℕ → Memory → Type 0
  CopiedWithin size xs m' =
      ((size ≡ 0) ⊎ Spells m' dst (take (size - 1) xs))
      × ((a : ℕ) → (a < dst) ⊎ (dst + size ≤ a) → m' a ≡ m a)

  -- What strlcat makes of a destination that holds `ys`: nothing where the size leaves no room, and
  -- otherwise `ys` with as much of the source as fits, and nothing else.
  abbrev pub AppendedWithin : ℕ → List ℕ → List ℕ → Memory → Type 0
  AppendedWithin size xs ys m' =
      ((size ≤ length ys) × (m' ≡ m)
        ⊎ (length ys < size) × Spells m' dst (ys ++ take (size - length ys - 1) xs))
      × ((a : ℕ) → (a < dst + length ys) ⊎ (dst + size ≤ a) → m' a ≡ m a)

module _ (m : Memory) (fuel dst src : ℕ) (hd : 0 < dst) (hs : 0 < src) where
  -- As many characters as there is room for, written at `at` with a null byte behind them.
  terminated :
      (at room : ℕ) (xs : List ℕ)
      → 0 < at
      → Spells m src xs
      → (at ≤ src) ⊎ (src + length xs ≤ at)
      → (m' : Memory) × (memcpy m at src (at_most (length xs) room) ≡ some (at, m'))
        × Spells (put m' (at + at_most (length xs) room) 0) at (take room xs)
        × ((a : ℕ) → (a < at) ⊎ (at + room < a) → put m' (at + at_most (length xs) room) 0 a ≡ m a)
  terminated at room xs ha hx apart =
      let copy = at_most (length xs) room in
      let (m', run, c) = memcpy-Copied m at src copy ha hs (ground arith) in
      (
        m',
        run,
        subst (λ ys. Spells (put m' (at + copy) 0) at ys) (take-at_most room xs)
            (take-Spells m (put m' (at + copy) 0) src at copy xs (ground arith)
              (λ i lt. grind (arith, c (at + i))) (grind arith) hx),
        λ a out. grind (arith, c a),
      )

  -- With pointers that are not null, a string as the source that does not overlap the `size` bytes of
  -- the destination, and fuel beyond its length, strlcpy gives the length of the source. Unless the
  -- size is zero the destination then has the first size - 1 characters of the source, or all of them
  -- if there are fewer, as a string, and no byte outside of the destination changes.
  pub strlcpy-CopiedWithin :
      (size : ℕ) (xs : List ℕ)
      → Spells m src xs
      → length xs < fuel
      → (dst + size ≤ src) ⊎ (src + length xs < dst)
      → (m' : Memory) × (strlcpy fuel m dst src size ≡ some (length xs, m'))
        × CopiedWithin m dst size xs m'
  unfolding strlcpy
  strlcpy-CopiedWithin size xs hx enough apart =
      let okd : (dst == 0) ≡ false = ground arith in
      let oks : (src == 0) ≡ false = ground arith in
      let len = strlen-Spells fuel m src xs hs hx enough in
      elim (Bool-cases (size == 0)) [
        | inl empty ↦ (m, rw (okd, oks, len, empty) refl, (inl (ground arith), λ a out. refl))
        | inr some_room ↦
            let (m', run, h, kept) = terminated dst (size - 1) xs hd hx (ground arith) in
            (
              put m' (dst + at_most (length xs) (size - 1)) 0,
              rw (okd, oks, len, some_room, run) refl,
              (inr h, λ a out. kept a (ground arith)),
            )
      ]
