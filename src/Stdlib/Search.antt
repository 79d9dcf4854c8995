-- ===== src/Stdlib/Search.antt =====
-- The search in a sorted array.
use calendarizador.Prelude.{
  ℕ, zero, suc, ◌+◌, ◌-◌, ◌*◌, ◌/◌, ◌^◌, ◌≤◌, ◌<◌, ◌≡◌, ◌≢◌, ◌⊎◌, inl, inr, refl, true, false,
  Option, none, some, ltb, arith, Bool-cases,
}
use native.Mathlib.Numerals.{unary_clauses}
use calendarizador.Prelude.Int.{ℤ, pos}
use calendarizador.Stdlib.{is_negative, is_positive, search_between, binary_search}

module _ {A : Type 0} (compare : A → A → ℤ) (key : A) (a : ℕ → A) where
  -- The array ascends as far as the key can tell: what is behind an element above the key is above
  -- the key, and what is before an element below it is below it.
  abbrev pub IsSearchable : ℕ → Type 0
  IsSearchable cnt =
      (i j : ℕ)
      → i ≤ j
      → j < cnt
      → ((is_negative (compare key (a i)) ≡ false) ⊎ (is_negative (compare key (a j)) ≡ true))
        × ((is_positive (compare key (a j)) ≡ false) ⊎ (is_positive (compare key (a i)) ≡ true))

  -- The key is not at `i`.
  abbrev pub Differs : ℕ → Type 0
  Differs i = compare key (a i) ≢ pos 0

  -- What binary_search gives: a place of the key, or a null pointer, and then there is none.
  abbrev pub Searched : ℕ → Option (Option ℕ) → Type 0
  Searched cnt r =
      ((m : ℕ) × (r ≡ some (some m)) × (m < cnt) × (compare key (a m) ≡ pos 0))
      ⊎ (r ≡ some none) × ((i : ℕ) → i < cnt → Differs i)

  is_zero : (z : ℤ) → is_negative z ≡ false → is_positive z ≡ false → z ≡ pos 0
  is_zero (pos zero) n p = refl
  is_zero (pos (suc z)) n p = ground arith
  is_zero (ℤ.negsuc z) n p = ground arith

  negative-Differs : (i : ℕ) → is_negative (compare key (a i)) ≡ true → Differs i
  negative-Differs i h e = ground (arith, e)

  positive-Differs : (i : ℕ) → is_positive (compare key (a i)) ≡ true → Differs i
  positive-Differs i h e = ground (arith, e)

  all_differ :
      (first last cnt : ℕ)
      → last ≤ first
      → ((i : ℕ) → i < first → Differs i)
      → ((i : ℕ) → last ≤ i → i < cnt → Differs i)
      → (i : ℕ) → i < cnt
      → Differs i
  all_differ first last cnt empty before behind i lt = elim (Bool-cases (ltb i first)) [
    | inl front ↦ before i (ground arith)
    | inr back ↦ behind i (ground arith) lt
  ]

  search_between-Searched :
      (k first last cnt : ℕ)
      → IsSearchable cnt
      → last ≤ cnt
      → last - first < 2 ^ k
      → ((i : ℕ) → i < first → Differs i)
      → ((i : ℕ) → last ≤ i → i < cnt → Differs i)
      → Searched cnt (search_between compare (suc k) key a first last)
  unfolding search_between
  search_between-Searched zero first last cnt sorted le fits before behind =
      let empty : ltb first last ≡ false = ground arith in
      inr (rw empty refl, all_differ first last cnt (ground arith) before behind)
  search_between-Searched (suc k) first last cnt sorted le fits before behind =
      let mid = first + (last - first) / 2 in
      let double : 2 ^ suc k ≡ 2 * 2 ^ k = simp unary_clauses (omega arith) in
      elim (Bool-cases (ltb first last)) [
        | inr empty ↦ inr (rw empty refl, all_differ first last cnt (ground arith) before behind)
        | inl nonempty ↦ elim (Bool-cases (is_negative (compare key (a mid)))) [
          | inl below ↦
              let above_key : (i : ℕ) → mid ≤ i → i < cnt → Differs i =
                λ i le_i lt. negative-Differs i (ground (arith, sorted mid i le_i lt)) in
              rw (nonempty, below)
                (search_between-Searched k first mid cnt sorted (ground arith) (omega arith) before
                  above_key)
          | inr not_below ↦ elim (Bool-cases (is_positive (compare key (a mid)))) [
            | inl above ↦
                let below_key : (i : ℕ) → i < suc mid → Differs i =
                  λ i lt. positive-Differs i (ground (arith, sorted i mid)) in
                rw (nonempty, not_below, above)
                  (search_between-Searched k (suc mid) last cnt sorted le (omega arith) below_key
                    behind)
            | inr not_above ↦ inl (
              mid,
              rw (nonempty, not_below, not_above) refl,
              ground arith,
              is_zero (compare key (a mid)) not_below not_above,
            )
          ]
        ]
      ]

  -- In an array that is sorted as the key sees it, with fewer than 2^k elements, the loop of
  -- binary_search ends after at most k rounds and its last test. It gives the place of an element
  -- that compares equal to the key, or a null pointer, and then no element of the array does.
  pub binary_search-Searched :
      (k cnt : ℕ)
      → IsSearchable cnt
      → cnt < 2 ^ k
      → Searched cnt (binary_search compare (suc k) key a cnt)
  unfolding binary_search
  binary_search-Searched k cnt sorted fits =
      search_between-Searched k 0 cnt cnt sorted (omega arith) (omega arith)
        (λ i lt. absurd (omega arith)) (λ i le lt. absurd (omega arith))
