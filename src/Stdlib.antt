-- ===== src/Stdlib.antt =====
-- pintos/src/lib/stdlib.c: the sort of an array by a heap, and the search in a sorted array. An array
-- gives an index its element, whose bytes move together; the functions of the heap count from 1, as
-- in the code, and the search from 0. `none` is a loop that does not end within the fuel.
pub mod Rearranged
pub mod Heap
pub mod Heapify
pub mod Sort
pub mod Search
pub mod Atoi
pub mod Number
use calendarizador.Prelude.{
  ℕ, zero, suc, ◌+◌, ◌-◌, ◌*◌, ◌/◌, ◌%◌, ◌^◌, Bool, true, false, ◌&&◌, ◌||◌, Option, none, some,
  ltb, leb, ◌==◌, if◌then◌else◌,
}
use calendarizador.Prelude.Int.{ℤ, pos, negsuc}

abbrev pub is_positive : ℤ → Bool
is_positive (pos zero) = false
is_positive (pos (suc n)) = true
is_positive (negsuc n) = false

abbrev pub is_negative : ℤ → Bool
is_negative (pos n) = false
is_negative (negsuc n) = true

module _ {A : Type 0} where
  unfoldable pub do_swap : (ℕ → A) → ℕ → ℕ → ℕ → A
  do_swap array a_idx b_idx =
      λ k. if k == a_idx then array b_idx else if k == b_idx then array a_idx else array k

module _ {A : Type 0} (compare : A → A → ℤ) where
  abbrev pub do_compare : (ℕ → A) → ℕ → ℕ → ℤ
  do_compare array a_idx b_idx = compare (array a_idx) (array b_idx)

  -- `child` if it is in the heap and above `max`.
  unfoldable pub larger : (ℕ → A) → ℕ → ℕ → ℕ → ℕ
  larger array cnt child max =
      if leb child cnt && is_positive (do_compare array child max) then child else max

  -- The largest of an element and its children; the indices are of size_t.
  unfoldable pub largest : (ℕ → A) → ℕ → ℕ → ℕ
  largest array i cnt =
      let left = 2 * i % 2 ^ 32 in
      let right = (2 * i + 1) % 2 ^ 32 in larger array cnt right (larger array cnt left i)

  unfoldable pub heapify : ℕ → (ℕ → A) → ℕ → ℕ → Option (ℕ → A)
  heapify zero array i cnt = none
  heapify (suc fuel) array i cnt =
      let max = largest array i cnt in
      let rest = heapify fuel (do_swap array i max) max cnt in if max == i then some array else rest

  -- `for (; i > 0; i--) heapify (array, i, cnt)`
  unfoldable pub build_heap : (ℕ → A) → ℕ → ℕ → Option (ℕ → A)
  build_heap array zero cnt = some array
  build_heap array (suc i) cnt = elim (heapify cnt array (suc i) cnt) [
    | none ↦ none
    | some array' ↦ build_heap array' i cnt
  ]

  -- `for (; i > 1; i--)` with the rounds that swap the root to the end of the heap.
  unfoldable pub sort_heap : (ℕ → A) → ℕ → Option (ℕ → A)
  sort_heap array zero = some array
  sort_heap array (suc zero) = some array
  sort_heap array (suc (suc i)) = elim (heapify (suc i) (do_swap array 1 (suc (suc i))) 1 (suc i)) [
    | none ↦ none
    | some array' ↦ sort_heap array' (suc i)
  ]

  unfoldable pub sort : (ℕ → A) → ℕ → Option (ℕ → A)
  sort array cnt = elim (build_heap array (cnt / 2) cnt) [
    | none ↦ none
    | some array' ↦ sort_heap array' cnt
  ]

  -- The loop of binary_search; `some none` is a null pointer.
  unfoldable pub search_between : ℕ → A → (ℕ → A) → ℕ → ℕ → Option (Option ℕ)
  search_between zero key array first last = none
  search_between (suc fuel) key array first last =
      let middle = first + (last - first) / 2 in
      let below = search_between fuel key array first middle in
      let above = search_between fuel key array (suc middle) last in
      let cmp = compare key (array middle) in
      if ltb first last
      then if is_negative cmp then below else if is_positive cmp then above else some (some middle)
      else some none

  unfoldable pub binary_search : ℕ → A → (ℕ → A) → ℕ → Option (Option ℕ)
  binary_search fuel key array cnt = search_between fuel key array 0 cnt
