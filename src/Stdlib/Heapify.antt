-- ===== src/Stdlib/Heapify.antt =====
-- heapify makes a heap of a heap with one element out of place, and ends.
use calendarizador.Prelude.{
  ℕ, zero, suc, ◌+◌, ◌^◌, ◌≤◌, ◌<◌, ◌≡◌, inl, inr, refl, ap, ◌∙◌, some, ◌==◌, arith, Bool-cases,
}
use mathlib.Core.Path.{subst}
use calendarizador.Prelude.Int.{ℤ}
use calendarizador.Stdlib.{do_swap, largest, heapify}
use calendarizador.Stdlib.Rearranged.{
  Rearranged, Rearranged-refl, Rearranged-trans, do_swap-Rearranged,
}
use calendarizador.Stdlib.Heap.{
  IsCompare, IsChild, IsHeap, IsHeapBut, Le, largest-IsLargest, do_swap-first, do_swap-second,
  do_swap-other,
}

module _ {A : Type 0} {compare : A → A → ℤ} (order : IsCompare compare) where
  -- Where the element out of place is the largest of its family, the whole is a heap.
  settled :
      (a : ℕ → A) (i lo cnt : ℕ)
      → IsHeapBut compare a i lo cnt
      → ((c : ℕ) → IsChild i c → c ≤ cnt → Le compare (a c) (a i))
      → IsHeap compare a lo cnt
  settled a i lo cnt (others, family) children p c is le_p le_c = elim (Bool-cases (p == i)) [
    | inl same ↦
        let e : i ≡ p = ground arith in
        subst (λ q. (c : ℕ) → IsChild q c → c ≤ cnt → Le compare (a c) (a q)) e children c is le_c
    | inr ne ↦ others p c is le_p le_c (λ e. ground arith)
  ]

  -- Otherwise it goes down to the largest child, and only the children of that may be out of place.
  goes_down :
      (a : ℕ → A) (i m lo cnt : ℕ)
      → 1 ≤ i
      → lo ≤ i
      → IsHeapBut compare a i lo cnt
      → IsChild i m
      → m ≤ cnt
      → Le compare (a i) (a m)
      → ((c : ℕ) → IsChild i c → c ≤ cnt → Le compare (a c) (a m))
      → IsHeapBut compare (do_swap a i m) m lo cnt
  goes_down a i m lo cnt pos_i le_i (others, family) is_m le_m up largest_m =
      let at_i = do_swap-first a i m in
      let at_m = do_swap-second a i m in
      let at = do_swap-other a i m in
      (
        λ p c is le_p le_c ne. elim (Bool-cases (p == i)) [
          | inl same ↦ elim (Bool-cases (c == m)) [
            | inl both ↦ grind (arith, at_i, at_m)
            | inr sibling ↦ grind (arith, at_i, at c, largest_m c)
          ]
          | inr other ↦ elim (Bool-cases (c == i)) [
            | inl above ↦ grind (arith, at_i, at p, family p m)
            | inr apart ↦
                let c_kept = at c (λ e. ground arith) (λ e. ground arith) in
                let p_kept = at p (λ e. ground arith) ne in
                rw (c_kept, p_kept) (others p c is le_p le_c (λ e. ground arith))
          ]
        ],
        λ g c is_g is_c le_g le_c.
            let same : g ≡ i = omega arith in
            let c_kept = at c (λ e. omega arith) (λ e. omega arith) in
            let g_moved : do_swap a i m g ≡ a m = ap (do_swap a i m) same ∙ at_i in
            rw (c_kept, g_moved) (others m c is_c (omega arith) le_c (λ e. omega arith)),
      )

  -- A heap from `lo` with the elements of `a`.
  abbrev pub HeapOf : (ℕ → A) → ℕ → ℕ → (ℕ → A) → Type 0
  HeapOf a lo cnt b = IsHeap compare b lo cnt × Rearranged cnt a b

  pub heapify-HeapOf :
      (fuel : ℕ) (a : ℕ → A) (i lo cnt : ℕ)
      → 1 ≤ i
      → lo ≤ i
      → i ≤ cnt
      → cnt < 2 ^ 31
      → cnt < i + fuel
      → IsHeapBut compare a i lo cnt
      → (b : ℕ → A) × (heapify compare fuel a i cnt ≡ some b) × HeapOf a lo cnt b
  unfolding heapify
  heapify-HeapOf zero a i lo cnt pos_i le_i le_cnt small enough but = absurd (omega arith)
  heapify-HeapOf (suc fuel) a i lo cnt pos_i le_i le_cnt small enough but =
      let m = largest compare a i cnt in
      let (which, up, children) = largest-IsLargest order a i cnt le_cnt small in
      elim (Bool-cases (m == i)) [
        | inl same ↦
            let e : m ≡ i = ground arith in
            (
              a,
              rw same refl,
              (
                settled a i lo cnt but (
                    subst (λ j. (c : ℕ) → IsChild i c → c ≤ cnt → Le compare (a c) (a j)) e
                      children),
                Rearranged-refl cnt a,
              ),
            )
        | inr other ↦
            let child : IsChild i m × (m ≤ cnt) = ground arith in
            let next = goes_down a i m lo cnt pos_i le_i but child.0 child.1 up children in
            let (b, run, (heap, moved)) =
              heapify-HeapOf fuel (do_swap a i m) m lo cnt (omega arith) (omega arith) child.1 small
                (omega arith) next in
            (
              b,
              rw other run,
              (
                heap,
                Rearranged-trans (do_swap-Rearranged cnt a i m pos_i le_cnt (omega arith) child.1)
                    moved,
              ),
            )
      ]
