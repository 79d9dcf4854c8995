-- ===== src/LinkedList/Sort/Correct.antt =====
-- list_sort as a whole.
use calendarizador.Prelude.{
  ℕ, zero, suc, ◌<◌, ◌≡◌, Bool, Option, none, some, List, if◌then◌else◌, length, arith, ltb,
  Bool-cases, inl, inr, keep, ◌∙◌,
}
use mathlib.Core.List.{Perm}
use mathlib.Core.List.Perm
use calendarizador.LinkedList.{sort_pass, checked, sort_passes, list_sort}
use calendarizador.LinkedList.Sort.Order.{IsOrder, IsSorted, is_sorted-IsSorted}
use calendarizador.LinkedList.Sort.Runs.{run_count, run_count-le-length}
use calendarizador.LinkedList.Sort.Merge.{IsClass}
use calendarizador.LinkedList.Sort.Pass.{sort_pass-Passed}
use native.Mathlib.Nat.{le_refl}

-- `ys` is `xs` put in order: sorted, with the same elements as often, and with elements of which none
-- comes before another in the order in which they stood.
pub record IsSortOf {ℓ} {A : Type ℓ} (less : A → A → Bool) (ys xs : List A) : Type ℓ where
  pub sorted : IsSorted less ys
  pub same : Perm ys xs
  pub stable : (p : A → Bool) → IsClass less p → keep p ys ≡ keep p xs

module _ {ℓ} {A : Type ℓ} (less : A → A → Bool) (order : IsOrder less) where
  checked-IsSorted : (xs : List A) → IsSorted less xs → checked less xs ≡ some xs
  unfolding checked
  checked-IsSorted xs h = rw (is_sorted-IsSorted less xs h)

  sort_passes-sort_pass :
      (n : ℕ) (xs out : List A) (cnt : ℕ)
      → sort_pass less (length xs) xs ≡ some (out, cnt)
      → sort_passes less (suc n) xs
        ≡ (if ltb 1 cnt then sort_passes less n out else checked less out)
  unfolding sort_passes
  sort_passes-sort_pass n xs out cnt e = λ i. elim (e i) as (λ _. Option (List A)) [
    | none ↦ none
    | some (out, cnt) ↦ if ltb 1 cnt then sort_passes less n out else checked less out
  ]

  sort_passes-IsSortOf :
      (n : ℕ) (xs : List A)
      → run_count less xs < n
      → (ys : List A) × (sort_passes less n xs ≡ some ys) × IsSortOf less ys xs
  sort_passes-IsSortOf zero xs f = absurd (omega arith)
  sort_passes-IsSortOf (suc n) xs f =
      let (out, cnt, e, p) = sort_pass-Passed order (length xs) xs (le_refl _) in
      elim (Bool-cases (ltb 1 cnt)) [
        | inl more ↦
            let (ys, e', s) = sort_passes-IsSortOf n out (ground (arith, p.fewer, p.halved.0)) in
            (
              ys,
              sort_passes-sort_pass n xs out cnt e ∙ rw more e',
              record {
                sorted = s.sorted;
                same = Perm.trans s.same p.same;
                stable = λ q class. s.stable q class ∙ p.stable q class;
              },
            )
        | inr last ↦
            let sorted = p.done (ground arith) in
            (
              out,
              sort_passes-sort_pass n xs out cnt e ∙ rw last (checked-IsSorted out sorted),
              record { sorted = sorted; same = p.same; stable = p.stable },
            )
      ]

  -- For a comparison that is an order, list_sort ends on every list: its passes stop, its
  -- assertions hold, and the list that it leaves is sorted, holds the same elements as often, and
  -- keeps elements of which none comes before another in the order in which they stood.
  pub list_sort-IsSortOf :
      (xs : List A) → (ys : List A) × (list_sort less xs ≡ some ys) × IsSortOf less ys xs
  unfolding list_sort
  list_sort-IsSortOf xs =
      sort_passes-IsSortOf (suc (length xs)) xs (omega (arith, run_count-le-length less xs))
