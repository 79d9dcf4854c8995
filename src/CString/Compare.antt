-- ===== src/CString/Compare.antt =====
-- The order of strings.
use calendarizador.Prelude.{
  ℕ, zero, suc, ◌<◌, ◌≡◌, ◌⊎◌, inl, inr, refl, sym, true, false, some, List, [], ◌∷◌, ltb, ◌==◌,
  arith, length, Bool-cases,
}
use calendarizador.Prelude.Int.{ℤ, pos, negsuc}
use calendarizador.Memory.{Memory}
use calendarizador.CString.{compare_from, strcmp}
use calendarizador.CString.Spell.{Spells}

-- The lexicographic order.
pub data Below : List ℕ → List ℕ → Type 0 where
  shorter : (y : ℕ) (ys : List ℕ) → Below [] (y ∷ ys)
  smaller : (x y : ℕ) (xs ys : List ℕ) → x < y → Below (x ∷ xs) (y ∷ ys)
  behind : (x y : ℕ) (xs ys : List ℕ) → x ≡ y → Below xs ys → Below (x ∷ xs) (y ∷ ys)

-- How two strings compare, and the number for it.
abbrev pub Compared : List ℕ → List ℕ → ℤ → Type 0
Compared xs ys r =
    (r ≡ pos 0) × (xs ≡ ys) ⊎ (r ≡ negsuc 0) × Below xs ys ⊎ (r ≡ pos 1) × Below ys xs

compare_from-Compared :
    (fuel : ℕ) (m : Memory) (a b : ℕ) (xs ys : List ℕ)
    → Spells m a xs
    → Spells m b ys
    → length xs < fuel
    → (r : ℤ) × (compare_from fuel m a b ≡ some r) × Compared xs ys r
unfolding compare_from
compare_from-Compared zero m a b xs ys hx hy enough = elim enough [ ]
compare_from-Compared (suc fuel) m a b [] [] hx hy enough =
    (pos 0, rw (hx, hy) refl, inl (refl, refl))
compare_from-Compared (suc fuel) m a b [] (y ∷ ys) hx (ey, ny, ry) enough =
    let lt : ltb 0 (m b) ≡ true = ground arith in
    (negsuc 0, rw (hx, lt) refl, inr (inl (refl, shorter y ys)))
compare_from-Compared (suc fuel) m a b (x ∷ xs) [] (ex, nx, rx) hy enough =
    let go_on : (m a == 0) ≡ false = ground arith in
    let lt : ltb (m a) 0 ≡ false = ground arith in
    let gt : ltb 0 (m a) ≡ true = ground arith in
    (pos 1, rw (hy, go_on, lt, gt) refl, inr (inr (refl, shorter x xs)))
compare_from-Compared (suc fuel) m a b (x ∷ xs) (y ∷ ys) (ex, nx, rx) (ey, ny, ry) enough =
    let go_on : (m a == 0) ≡ false = ground arith in
    elim (Bool-cases (m a == m b)) [
      | inl same ↦
          let e : x ≡ y = ground arith in
          let (r, run, c) =
            compare_from-Compared fuel m (suc a) (suc b) xs ys rx ry (omega arith) in
          (
            r,
            rw (go_on, same) run,
            elim c [
              | inl (z, eq) ↦ inl (z, λ i. e i ∷ eq i)
              | inr (inl (z, lt)) ↦ inr (inl (z, behind x y xs ys e lt))
              | inr (inr (z, gt)) ↦ inr (inr (z, behind y x ys xs (sym e) gt))
            ],
          )
      | inr differ ↦ elim (Bool-cases (ltb (m a) (m b))) [
        | inl lt ↦ (
          negsuc 0,
          rw (go_on, differ, lt) refl,
          inr (inl (refl, smaller x y xs ys (ground arith))),
        )
        | inr ge ↦
            let gt : ltb (m b) (m a) ≡ true = ground arith in
            (
              pos 1,
              rw (go_on, differ, ge, gt) refl,
              inr (inr (refl, smaller y x ys xs (ground arith))),
            )
      ]
    ]

-- On two strings with pointers that are not null and fuel beyond the length of the first, strcmp
-- ends. It gives zero if the strings are equal, -1 if the first is below the second in lexicographic
-- order by unsigned characters, and 1 if it is above.
pub strcmp-Compared :
    (fuel : ℕ) (m : Memory) (a b : ℕ) (xs ys : List ℕ)
    → 0 < a
    → 0 < b
    → Spells m a xs
    → Spells m b ys
    → length xs < fuel
    → (r : ℤ) × (strcmp fuel m a b ≡ some r) × Compared xs ys r
unfolding strcmp
strcmp-Compared fuel m a b xs ys ha hb hx hy enough =
    let oka : (a == 0) ≡ false = ground arith in
    let okb : (b == 0) ≡ false = ground arith in
    let (r, run, c) = compare_from-Compared fuel m a b xs ys hx hy enough in
    (r, rw (strcmp, oka, okb) run, c)
