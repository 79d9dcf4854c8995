-- ===== src/LinkedList/Sort/Runs.antt =====
-- find_end_of_run: the run is sorted, and with the rest it is the list. The number of runs.
use calendarizador.Prelude.{
  ℕ, suc, ◌≤◌, Bool, ◌≡◌, refl, List, [], ◌∷◌, ◌++◌, Bool-cases, inl, inr, length, arith,
  if◌then◌else◌, sym,
}
use mathlib.Core.Path.{subst}
use calendarizador.LinkedList.{find_end_of_run}
use calendarizador.LinkedList.Sort.Order.{IsOrder, IsSorted, AllAbove-trans}

module _ {ℓ} {A : Type ℓ} (less : A → A → Bool) where
  abbrev pub run_of : A → List A → List A
  run_of a xs = (find_end_of_run less a xs).0

  abbrev pub rest_of : A → List A → List A
  rest_of a xs = (find_end_of_run less a xs).1

  pub run-append-rest : (a : A) (xs : List A) → run_of a xs ++ rest_of a xs ≡ xs
  unfolding find_end_of_run
  run-append-rest a [] = refl
  run-append-rest a (b ∷ xs) = ground (arith, run-append-rest b xs)

  -- How many places of the list, behind `a`, hold an element that comes before the one in front.
  pub descents : A → List A → ℕ
  descents a [] = 0
  descents a (b ∷ xs) = if less b a then suc (descents b xs) else descents b xs

  unfoldable pub run_count : List A → ℕ
  unfolding descents
  run_count [] = 0
  run_count (x ∷ xs) = suc (descents x xs)

  pub run_count-rest : (a : A) (xs : List A) → run_count (a ∷ xs) ≡ suc (run_count (rest_of a xs))
  unfolding run_count find_end_of_run
  run_count-rest a [] = refl
  run_count-rest a (b ∷ xs) = ground (arith, run_count-rest b xs)

  pub run_count-le-length : (xs : List A) → run_count xs ≤ length xs
  unfolding run_count
  run_count-le-length [] = omega arith
  run_count-le-length (x ∷ xs) = go x xs
    where
      go : (a : A) (ys : List A) → suc (descents a ys) ≤ suc (length ys)
      go a [] = omega arith
      go a (b ∷ ys) = ground (arith, go b ys)

  pub nil_of_run_count : (xs : List A) → run_count xs ≤ 0 → xs ≡ []
  unfolding run_count
  nil_of_run_count [] h = refl
  nil_of_run_count (x ∷ xs) h = absurd (omega arith)

  -- A sorted list in front adds one run at most.
  pub run_count-append :
      (xs ys : List A) → IsSorted less xs → run_count (xs ++ ys) ≤ suc (run_count ys)
  unfolding run_count
  run_count-append [] ys h = omega arith
  run_count-append (x ∷ []) [] h = omega arith
  run_count-append (x ∷ []) (y ∷ ys) h = ground arith
  run_count-append (x ∷ x' ∷ xs) ys h = rw h.0.0 (run_count-append (x' ∷ xs) ys h.1)

module _ {ℓ} {A : Type ℓ} {less : A → A → Bool} (order : IsOrder less) where
  pub run-IsSorted : (a : A) (xs : List A) → IsSorted less (a ∷ run_of less a xs)
  unfolding find_end_of_run
  run-IsSorted a [] = (tt, tt)
  run-IsSorted a (b ∷ xs) = elim (Bool-cases (less b a)) [
    | inl drop ↦
        let e : run_of less a (b ∷ xs) ≡ [] = rw (drop, run_of) in
        subst (λ r. IsSorted less (a ∷ r)) (sym e) (tt, tt)
    | inr keep ↦
        let e : run_of less a (b ∷ xs) ≡ b ∷ run_of less b xs = rw (keep, run_of) in
        let ih = run-IsSorted b xs in
        subst (λ r. IsSorted less (a ∷ r)) (sym e)
          ((keep, AllAbove-trans order a b (run_of less b xs) keep ih.0), ih)
  ]
