-- ===== src/Stdlib/Sort.antt =====
-- The sort of an array: a heap is built, and its root goes to the end again and again.
use calendarizador.Prelude.{
  ℕ, zero, suc, ◌/◌, ◌^◌, ◌≤◌, ◌<◌, ◌≡◌, inl, inr, refl, ◌∙◌, leb, some, ◌==◌, arith, Bool-cases,
}
use mathlib.Core.Path.{subst}
use calendarizador.Prelude.Int.{ℤ}
use calendarizador.Stdlib.{do_swap, build_heap, sort_heap, sort}
use calendarizador.Stdlib.Rearranged.{
  Rearranged, Rearranged-refl, Rearranged-trans, Rearranged-widen, do_swap-Rearranged,
}
use calendarizador.Stdlib.Heap.{
  IsCompare, IsHeap, IsHeapBut, Le, Le-refl, do_swap-second, do_swap-other,
}
use calendarizador.Stdlib.Heapify.{HeapOf, heapify-HeapOf}

-- The elements at 1 ... cnt ascend.
abbrev pub IsAscending : {A : Type 0} → (A → A → ℤ) → (ℕ → A) → ℕ → Type 0
IsAscending compare b cnt = (j k : ℕ) → 1 ≤ j → j ≤ k → k ≤ cnt → Le compare (b j) (b k)

module _ {A : Type 0} {compare : A → A → ℤ} (order : IsCompare compare) where
  build_heap-HeapOf :
      (a : ℕ → A) (i cnt : ℕ)
      → i ≤ cnt
      → cnt < 2 ^ 31
      → IsHeap compare a (suc i) cnt
      → (b : ℕ → A) × (build_heap compare a i cnt ≡ some b) × HeapOf order a 1 cnt b
  unfolding build_heap
  build_heap-HeapOf a zero cnt le small heap = (a, refl, (heap, Rearranged-refl cnt a))
  build_heap-HeapOf a (suc i) cnt le small heap =
      let but : IsHeapBut compare a (suc i) (suc i) cnt = (
        λ p c is le_p le_c ne. heap p c is (omega arith) le_c,
        λ g c is_g is_c le_g le_c. absurd (omega arith),
      ) in
      let (b, run, (heap1, moved)) =
        heapify-HeapOf order cnt a (suc i) (suc i) cnt (omega arith) (omega arith) le small
          (omega arith) but in
      let (b', run', (heap2, moved')) = build_heap-HeapOf b i cnt (omega arith) small heap1 in
      (b', rw (build_heap, run) run', (heap2, Rearranged-trans moved moved'))

  -- The root of a heap is not below any element.
  root_is_largest :
      (a : ℕ → A) (n bound k : ℕ)
      → IsHeap compare a 1 n
      → k ≤ bound
      → 1 ≤ k
      → k ≤ n
      → Le compare (a k) (a 1)
  root_is_largest a n zero k heap fits lo hi = absurd (omega arith)
  root_is_largest a n (suc bound) k heap fits lo hi = elim (Bool-cases (k == 1)) [
    | inl root ↦
        let e : 1 ≡ k = ground arith in subst (λ j. Le compare (a j) (a 1)) e (Le-refl order (a 1))
    | inr inner ↦
        let big : 2 ≤ k = ground arith in
        let p = k / 2 in
        order.chain (a k) (a p) (a 1) (heap p k (omega arith) (omega arith) hi)
          (root_is_largest a n bound p heap (omega arith) (omega arith) (omega arith))
  ]

  -- Behind `i` the array ascends, and nothing there is below what stands before it.
  abbrev IsTail : (ℕ → A) → ℕ → ℕ → Type 0
  IsTail a i cnt = (j k : ℕ) → 1 ≤ j → j ≤ k → i < k → k ≤ cnt → Le compare (a j) (a k)

  IsTail-grown :
      (a b : ℕ → A) (n cnt : ℕ)
      → IsHeap compare a 1 (suc n)
      → IsTail a (suc n) cnt
      → Rearranged n (do_swap a 1 (suc n)) b
      → IsTail b n cnt
  IsTail-grown a b n cnt heap tail moved j k lo le behind hi =
      let swapped =
        do_swap-Rearranged (suc n) a 1 (suc n) (omega arith) (omega arith) (omega arith)
          (omega arith) in
      let f = Rearranged-trans swapped (Rearranged-widen (omega arith) moved) in
      let from : (1 ≤ f.to j) × (f.to j ≤ k) = elim (Bool-cases (leb j (suc n))) [
        | inl front ↦ let (l, u) = f.inside j lo (ground arith) in (l, omega arith)
        | inr back ↦ let e = f.outside j (inr (ground arith)) in rw e (lo, le)
      ] in
      elim (Bool-cases (k == suc n)) [
        | inl end ↦
            let e : suc n ≡ k = ground arith in
            let last : b (suc n) ≡ a 1 =
              moved.moved (suc n)
              ∙ (λ i. do_swap a 1 (suc n) (moved.outside (suc n) (inr (omega arith)) i))
              ∙ do_swap-second a 1 (suc n) in
            let le_root =
              root_is_largest a (suc n) (suc n) (f.to j) heap (omega arith) from.0 (omega arith) in
            subst (λ k. Le compare (b j) (b k)) e (rw (last, f.moved j) le_root)
        | inr deep ↦
            let lt : suc n < k = ground arith in
            let kept : b k ≡ a k = f.moved k ∙ (λ i. a (f.outside k (inr lt) i)) in
            rw (kept, f.moved j) (tail (f.to j) k from.0 from.1 lt hi)
      ]

  sort_heap-IsAscending :
      (a : ℕ → A) (i cnt : ℕ)
      → i ≤ cnt
      → cnt < 2 ^ 31
      → IsHeap compare a 1 i
      → IsTail a i cnt
      → (b : ℕ → A) × (sort_heap compare a i ≡ some b)
        × IsAscending compare b cnt
        × Rearranged cnt a b
  unfolding sort_heap
  sort_heap-IsAscending a zero cnt le small heap tail =
      (a, refl, (λ j k lo le hi. tail j k lo le (omega arith) hi), Rearranged-refl cnt a)
  sort_heap-IsAscending a (suc zero) cnt le small heap tail = (
    a,
    refl,
    λ j k lo le hi. elim (Bool-cases (k == 1)) [
      | inl first ↦
          let e : j ≡ k = ground arith in
          subst (λ k. Le compare (a j) (a k)) e (Le-refl order (a j))
      | inr later ↦ tail j k lo le (ground arith) hi
    ],
    Rearranged-refl cnt a,
  )
  sort_heap-IsAscending a (suc (suc i)) cnt le small heap tail =
      let n = suc i in
      let a1 = do_swap a 1 (suc n) in
      let at = do_swap-other a 1 (suc n) in
      let but : IsHeapBut compare a1 1 1 n = (
        λ p c is le_p le_c ne.
            rw (at c (λ e. omega arith) (λ e. omega arith), at p ne (λ e. omega arith))
              (heap p c is le_p (omega arith)),
        λ g c is_g is_c le_g le_c. absurd (omega arith),
      ) in
      let (b, run, (heap1, moved)) =
        heapify-HeapOf order n a1 1 1 n (omega arith) (omega arith) (omega arith) (omega arith)
          (omega arith) but in
      let (b', run', ascending, moved') =
        sort_heap-IsAscending b (suc i) cnt (omega arith) small heap1
          (IsTail-grown a b n cnt heap tail moved) in
      (
        b',
        rw (sort_heap, run) run',
        ascending,
        Rearranged-trans
            (do_swap-Rearranged cnt a 1 (suc n) (omega arith) (omega arith) (omega arith) le)
            (Rearranged-trans (Rearranged-widen (omega arith) moved) moved'),
      )

  -- With a function that compares by a total preorder, and fewer than 2^31 elements, sort ends; the
  -- array then ascends, it has the same elements in another order, and nothing outside of it changes.
  pub sort-IsAscending :
      (a : ℕ → A) (cnt : ℕ)
      → cnt < 2 ^ 31
      → (b : ℕ → A) × (sort compare a cnt ≡ some b) × IsAscending compare b cnt × Rearranged cnt a b
  unfolding sort
  sort-IsAscending a cnt small =
      let leaves : IsHeap compare a (suc (cnt / 2)) cnt =
        λ p c is le_p le_c. absurd (omega arith) in
      let (h, run, (heap, moved)) = build_heap-HeapOf a (cnt / 2) cnt (omega arith) small leaves in
      let (b, run', ascending, moved') =
        sort_heap-IsAscending h cnt cnt (omega arith) small heap
          (λ j k lo le behind hi. absurd (omega arith)) in
      (b, rw (sort, run) run', ascending, Rearranged-trans moved moved')
