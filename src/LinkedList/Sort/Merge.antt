-- ===== src/LinkedList/Sort/Merge.antt =====
-- The loop of inplace_merge: with fuel for every element it makes one sorted list of two, and keeps the order
-- of elements that are equal.
use calendarizador.Prelude.{
  ℕ, zero, suc, ◌+◌, ◌≤◌, Bool, true, false, ◌≡◌, refl, List, [], ◌∷◌, ◌++◌, All, Bool-cases, inl,
  inr, length, arith, keep, keep-append, All-append, sym, ◌⊎◌,
}
use mathlib.Core.List.{Perm, perm_middle, append-nil}
use mathlib.Core.List.Perm
use calendarizador.LinkedList.{merge_loop}
use calendarizador.LinkedList.Sort.Order.{IsOrder, AllAbove, IsSorted, AllAbove-trans}

module _ {ℓ} {A : Type ℓ} (less : A → A → Bool) where
  pub All-merge_loop :
      (P : A → Type 0) (n : ℕ) (xs ys : List A)
      → All P xs
      → All P ys
      → All P (merge_loop less n xs ys)
  unfolding merge_loop
  All-merge_loop P zero xs ys hx hy = All-append P xs ys hx hy
  All-merge_loop P (suc n) [] ys hx hy = hy
  All-merge_loop P (suc n) (x ∷ xs) [] hx hy = hx
  All-merge_loop P (suc n) (x ∷ xs) (y ∷ ys) hx hy = elim (Bool-cases (less y x)) [
    | inl move ↦ rw move (hy.0, All-merge_loop P n (x ∷ xs) ys hx hy.1)
    | inr stay ↦ rw stay (hx.0, All-merge_loop P n xs (y ∷ ys) hx.1 hy)
  ]

  pub merge_loop-perm : (n : ℕ) (xs ys : List A) → Perm (merge_loop less n xs ys) (xs ++ ys)
  unfolding merge_loop
  merge_loop-perm zero xs ys = Perm.refl _
  merge_loop-perm (suc n) [] ys = Perm.refl _
  merge_loop-perm (suc n) (x ∷ xs) [] = rw append-nil (Perm.refl _)
  merge_loop-perm (suc n) (x ∷ xs) (y ∷ ys) = elim (Bool-cases (less y x)) [
    | inl move ↦ rw move (
        Perm.trans (Perm.cons y (merge_loop-perm n (x ∷ xs) ys))
          (Perm.symm (perm_middle (x ∷ xs) ys)))
    | inr stay ↦ rw stay (Perm.cons x (merge_loop-perm n xs (y ∷ ys)))
  ]

module _ {ℓ} {A : Type ℓ} {less : A → A → Bool} (order : IsOrder less) where
  pub merge_loop-IsSorted :
      (n : ℕ) (xs ys : List A)
      → length xs + length ys ≤ n
      → IsSorted less xs
      → IsSorted less ys
      → IsSorted less (merge_loop less n xs ys)
  unfolding merge_loop
  merge_loop-IsSorted zero [] ys f hx hy = hy
  merge_loop-IsSorted zero (x ∷ xs) ys f hx hy = absurd (omega arith)
  merge_loop-IsSorted (suc n) [] ys f hx hy = hy
  merge_loop-IsSorted (suc n) (x ∷ xs) [] f hx hy = hx
  merge_loop-IsSorted (suc n) (x ∷ xs) (y ∷ ys) f hx hy = elim (Bool-cases (less y x)) [
    | inl move ↦
        let after = order.asymm y x move in
        rw move (
          All-merge_loop less (λ z. less z y ≡ false) n (x ∷ xs) ys
              (after, AllAbove-trans order y x xs after hx.0) hy.0,
          merge_loop-IsSorted n (x ∷ xs) ys (omega arith) hx hy.1,
        )
    | inr stay ↦ rw stay (
      All-merge_loop less (λ z. less z x ≡ false) n xs (y ∷ ys) hx.0
          (stay, AllAbove-trans order x y ys stay hy.0),
      merge_loop-IsSorted n xs (y ∷ ys) (omega arith) hx.1 hy,
    )
  ]

-- A test that only elements pass of which none comes before another.
abbrev pub IsClass {ℓ} : {A : Type ℓ} → (A → A → Bool) → (A → Bool) → Type ℓ
IsClass {A} less p = (a b : A) → p a ≡ true → p b ≡ true → less a b ≡ false

module _ {ℓ} {A : Type ℓ} {less : A → A → Bool} (order : IsOrder less) (p : A → Bool)
    (class : IsClass less p) where
  -- No element of the class stands in a sorted list behind one that comes after the class.
  pub keep-behind :
      (y x : A) (xs : List A)
      → p y ≡ true
      → less y x ≡ true
      → AllAbove less x xs
      → (p x ≡ false) × (keep p xs ≡ [])
  keep-behind y x [] py yx h = (not_in x yx, refl)
    where
      not_in : (z : A) → less y z ≡ true → p z ≡ false
      not_in z yz = elim (Bool-cases (p z)) [ inl pz ↦ cc (class y z py pz) | inr e ↦ e ]
  keep-behind y x (z ∷ zs) py yx h =
      let (no_x, none) = keep-behind y x zs py yx h.1 in (no_x, rw (not_z (Bool-cases (p z))) none)
    where
      not_z : (p z ≡ true) ⊎ (p z ≡ false) → p z ≡ false
      not_z (inl pz) = cc (order.trans x z y h.0 (class y z py pz))
      not_z (inr e) = e

  pub keep-merge_loop :
      (n : ℕ) (xs ys : List A)
      → IsSorted less xs
      → keep p (merge_loop less n xs ys) ≡ keep p xs ++ keep p ys
  unfolding merge_loop
  keep-merge_loop zero xs ys hx = keep-append p xs ys
  keep-merge_loop (suc n) [] ys hx = refl
  keep-merge_loop (suc n) (x ∷ xs) [] hx = sym (append-nil (keep p (x ∷ xs)))
  keep-merge_loop (suc n) (x ∷ xs) (y ∷ ys) hx = elim (Bool-cases (less y x)) [
    | inl move ↦ elim (Bool-cases (p y)) [
      | inl py ↦
          let (no_x, none) = keep-behind y x xs py move hx.0 in
          ground (arith, keep-merge_loop n (x ∷ xs) ys hx, no_x, none)
      | inr other ↦ ground (arith, keep-merge_loop n (x ∷ xs) ys hx)
    ]
    | inr stay ↦ ground (arith, keep-merge_loop n xs (y ∷ ys) hx.1)
  ]
