-- ===== src/LinkedList.antt =====
-- pintos/src/lib/kernel/list.c, seen as sequences of elements: the interior elements of a list
-- from front to back. A pointer into a list is the position that splits its sequence.
pub mod Ordered
pub mod Links
pub mod Sort
use calendarizador.Prelude.{
  ℕ, zero, suc, ◌+◌, Bool, true, false, not, ◌||◌, ◌&&◌, Option, none, some, List, [], ◌∷◌, ◌++◌,
  length, if◌then◌else◌, ◌==◌, ltb,
}

module _ {ℓ} {A : Type ℓ} where
  abbrev pub list_push_back : List A → A → List A
  list_push_back xs x = xs ++ x ∷ []

  abbrev pub list_push_front : List A → A → List A
  list_push_front xs x = x ∷ xs

  abbrev pub list_front : List A → Option A
  list_front [] = none
  list_front (x ∷ xs) = some x

  abbrev pub list_empty : List A → Bool
  list_empty [] = true
  list_empty (x ∷ xs) = false

  abbrev pub list_size : List A → ℕ
  list_size xs = length xs

-- Removes the element at the address `e` from its list.
unfoldable pub list_remove : List ℕ → ℕ → List ℕ
list_remove [] e = []
list_remove (x ∷ xs) e = if x == e then xs else x ∷ list_remove xs e

module _ {ℓ} {A : Type ℓ} (less : A → A → Bool) where
  -- `is_sorted` compares each element with its predecessor.
  unfoldable pub is_sorted_after : A → List A → Bool
  is_sorted_after a [] = true
  is_sorted_after a (b ∷ xs) = not (less b a) && is_sorted_after b xs

  unfoldable pub is_sorted : List A → Bool
  unfolding is_sorted_after
  is_sorted [] = true
  is_sorted (x ∷ xs) = is_sorted_after x xs

  -- The `do` loop of `find_end_of_run`, behind the element `a`: the rest of the run, and what
  -- stands from its end on.
  unfoldable pub find_end_of_run : A → List A → List A × List A
  find_end_of_run a [] = ([], [])
  find_end_of_run a (b ∷ xs) =
      let (run, rest) = find_end_of_run b xs in if less b a then ([], b ∷ xs) else (b ∷ run, rest)

  -- The loop of inplace_merge, on one run `a0 … a1b0` and its neighbour `a1b0 … b1`: an element of the
  -- second that is less than the first is spliced in front of it. Fuel is the number of elements of
  -- both.
  unfoldable pub merge_loop : ℕ → List A → List A → List A
  merge_loop zero xs ys = xs ++ ys
  merge_loop (suc n) [] ys = ys
  merge_loop (suc n) (x ∷ xs) [] = x ∷ xs
  merge_loop (suc n) (x ∷ xs) (y ∷ ys) =
      let keep = merge_loop n xs (y ∷ ys) in
      let move = merge_loop n (x ∷ xs) ys in if not (less y x) then x ∷ keep else y ∷ move

  -- Both runs are asserted to be sorted.
  unfoldable pub inplace_merge : List A → List A → Option (List A)
  inplace_merge xs ys =
      if not (is_sorted xs)
      then none
      else if not (is_sorted ys)
      then none
      else some (merge_loop (length xs + length ys) xs ys)

  -- The merged runs, and then the rest of the pass from `b1`, which puts out `cnt` runs.
  unfoldable pub before_rest : Option (List A) → Option (List A × ℕ) → Option (List A × ℕ)
  before_rest none rest = none
  before_rest (some merged) none = none
  before_rest (some merged) (some (out, cnt)) = some (merged ++ out, suc cnt)

  -- The body of the `for` loop behind the search for the end of the first run, `a0 ∷ run`: `break`
  -- at the end of the list, or a merge with the second run and the rest of the pass.
  unfoldable pub merge_runs :
      (List A → Option (List A × ℕ)) → A → List A → List A → Option (List A × ℕ)
  unfolding find_end_of_run
  merge_runs rest_of_pass a0 run [] = some (a0 ∷ run, 1)
  merge_runs rest_of_pass a0 run (a1 ∷ ys) =
      let (run', b1) = find_end_of_run a1 ys in
      before_rest (inplace_merge (a0 ∷ run) (a1 ∷ run')) (rest_of_pass b1)

  -- The `for` loop: one pass over the list, and the number of runs that it puts out; fuel is the
  -- number of elements.
  unfoldable pub sort_pass : ℕ → List A → Option (List A × ℕ)
  unfolding merge_runs
  sort_pass zero [] = some ([], 0)
  sort_pass zero (a0 ∷ xs) = none
  sort_pass (suc n) [] = some ([], 0)
  sort_pass (suc n) (a0 ∷ xs) =
      let (run, a1b0) = find_end_of_run a0 xs in merge_runs (sort_pass n) a0 run a1b0

  -- The assertion at the end of list_sort.
  unfoldable pub checked : List A → Option (List A)
  unfolding is_sorted
  checked out = if is_sorted out then some out else none

  -- The outer `do … while (output_run_cnt > 1)`, on fuel for the passes; `none` is the failure of
  -- an assertion, or fuel that ran out.
  unfoldable pub sort_passes : ℕ → List A → Option (List A)
  unfolding sort_pass checked
  sort_passes zero xs = none
  sort_passes (suc n) xs = elim (sort_pass (length xs) xs) [
    | none ↦ none
    | some (out, cnt) ↦ let again = sort_passes n out in if ltb 1 cnt then again else checked out
  ]

  unfoldable pub list_sort : List A → Option (List A)
  unfolding sort_passes
  list_sort xs = sort_passes (suc (length xs)) xs

  -- The loop stops at the first element that `elem` is less than.
  unfoldable pub list_insert_ordered : A → List A → List A
  list_insert_ordered elem [] = elem ∷ []
  list_insert_ordered elem (e ∷ xs) =
      if less elem e then elem ∷ e ∷ xs else e ∷ list_insert_ordered elem xs

  -- What stays in the list behind `elem`, and what goes to `duplicates`.
  unfoldable pub unique_after : A → List A → List A × List A
  unique_after elem [] = ([], [])
  unique_after elem (next ∷ xs) =
      let same = not (less elem next) && not (less next elem) in
      let drop = unique_after elem xs in
      let keep = unique_after next xs in
      if same then (drop.0, next ∷ drop.1) else (next ∷ keep.0, keep.1)

  unfoldable pub list_unique : List A → List A → List A × List A
  unfolding unique_after
  list_unique [] duplicates = ([], duplicates)
  list_unique (elem ∷ xs) duplicates =
      let (kept, dropped) = unique_after elem xs in (elem ∷ kept, duplicates ++ dropped)

  unfoldable pub max_from : A → List A → A
  max_from max [] = max
  max_from max (e ∷ xs) = max_from (if less max e then e else max) xs

  unfoldable pub min_from : A → List A → A
  min_from min [] = min
  min_from min (e ∷ xs) = min_from (if less e min then e else min) xs

  -- An empty list gives its tail, `none` here.
  unfoldable pub list_max : List A → Option A
  unfolding max_from
  list_max [] = none
  list_max (x ∷ xs) = some (max_from x xs)

  unfoldable pub list_min : List A → Option A
  unfolding min_from
  list_min [] = none
  list_min (x ∷ xs) = some (min_from x xs)
