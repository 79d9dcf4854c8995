-- ===== src/Stdlib/Heap.antt =====
-- Heaps in an array, and what heapify does to one.
use calendarizador.Prelude.{
  ℕ, suc, ◌+◌, ◌*◌, ◌%◌, ◌^◌, ◌≤◌, ◌<◌, ◌≡◌, ◌≢◌, ◌⊎◌, inl, inr, refl, true, false, ◌&&◌, leb,
  arith, Bool-cases,
}
use mathlib.Core.Path.{subst}
use calendarizador.Prelude.Int.{ℤ}
use calendarizador.Stdlib.{is_positive, do_swap, larger, largest}

-- What sort asks of the function that compares: a total preorder, by the sign of its result.
pub record IsCompare {A : Type 0} (compare : A → A → ℤ) : Type 0 where
  pub flip : (x y : A) → is_positive (compare x y) ≡ true → is_positive (compare y x) ≡ false
  pub chain :
      (x y z : A)
      → is_positive (compare x y) ≡ false
      → is_positive (compare y z) ≡ false
      → is_positive (compare x z) ≡ false

abbrev pub IsChild : ℕ → ℕ → Type 0
IsChild i c = (c ≡ 2 * i) ⊎ (c ≡ suc (2 * i))

module _ {A : Type 0} where
  pub do_swap-first : (a : ℕ → A) (i j : ℕ) → do_swap a i j i ≡ a j
  unfolding do_swap
  do_swap-first a i j = ground arith

  pub do_swap-second : (a : ℕ → A) (i j : ℕ) → do_swap a i j j ≡ a i
  unfolding do_swap
  do_swap-second a i j = grind arith

  pub do_swap-other : (a : ℕ → A) (i j k : ℕ) → k ≢ i → k ≢ j → do_swap a i j k ≡ a k
  unfolding do_swap
  do_swap-other a i j k ni nj = ground arith

module _ {A : Type 0} (compare : A → A → ℤ) where
  -- `x` does not come after `y`.
  abbrev pub Le : A → A → Type 0
  Le x y = is_positive (compare x y) ≡ false

  -- Every child in `lo ... cnt` is at most its parent.
  abbrev pub IsHeap : (ℕ → A) → ℕ → ℕ → Type 0
  IsHeap a lo cnt = (p c : ℕ) → IsChild p c → lo ≤ p → c ≤ cnt → Le (a c) (a p)

  -- The same but for the children of `i`, which are at most the parent of `i`.
  abbrev pub IsHeapBut : (ℕ → A) → ℕ → ℕ → ℕ → Type 0
  IsHeapBut a i lo cnt =
      ((p c : ℕ) → IsChild p c → lo ≤ p → c ≤ cnt → p ≢ i → Le (a c) (a p))
      × ((g c : ℕ) → IsChild g i → IsChild i c → lo ≤ g → c ≤ cnt → Le (a c) (a g))

module _ {A : Type 0} {compare : A → A → ℤ} (order : IsCompare compare) where
  pub Le-refl : (x : A) → Le compare x x
  Le-refl x = elim (Bool-cases (is_positive (compare x x))) [
    | inl above ↦ order.flip x x above
    | inr le ↦ le
  ]

  -- `m` is `max` or the child, if that is in the heap, and not below either.
  abbrev IsLarger : (ℕ → A) → ℕ → ℕ → ℕ → ℕ → Type 0
  IsLarger a cnt child max m =
      ((m ≡ max) ⊎ (m ≡ child) × (child ≤ cnt))
      × Le compare (a max) (a m)
      × ((cnt < child) ⊎ Le compare (a child) (a m))

  larger-IsLarger :
      (a : ℕ → A) (cnt child max : ℕ) → IsLarger a cnt child max (larger compare a cnt child max)
  unfolding larger
  larger-IsLarger a cnt child max =
      elim (Bool-cases (leb child cnt && is_positive (compare (a child) (a max)))) [
        | inl up ↦
            let above : is_positive (compare (a child) (a max)) ≡ true = ground arith in
            rw (larger, up)
              (
                inr (refl, ground arith),
                order.flip (a child) (a max) above,
                inr (Le-refl (a child)),
              )
        | inr stay ↦ rw (larger, stay) (inl refl, Le-refl (a max), ground arith)
      ]

  -- `m` is `i` or one of its children, and the largest of them.
  abbrev pub IsLargest : (ℕ → A) → ℕ → ℕ → ℕ → Type 0
  IsLargest a i cnt m =
      ((m ≡ i) ⊎ IsChild i m × (m ≤ cnt))
      × Le compare (a i) (a m)
      × ((c : ℕ) → IsChild i c → c ≤ cnt → Le compare (a c) (a m))

  IsLarger-twice :
      (a : ℕ → A) (i cnt m1 m2 : ℕ)
      → IsLarger a cnt (2 * i) i m1
      → IsLarger a cnt (suc (2 * i)) m1 m2
      → IsLargest a i cnt m2
  IsLarger-twice a i cnt m1 m2 (which1, up1, child1) (which2, up2, child2) = (
    ground arith,
    order.chain (a i) (a m1) (a m2) up1 up2,
    λ c is le. elim is [
      | inl left ↦ elim child1 [
        | inl out ↦ absurd (omega arith)
        | inr below ↦ rw left (order.chain (a (2 * i)) (a m1) (a m2) below up2)
      ]
      | inr right ↦ elim child2 [ inl out ↦ absurd (omega arith) | inr below ↦ rw right below ]
    ],
  )

  pub largest-IsLargest :
      (a : ℕ → A) (i cnt : ℕ) → i ≤ cnt → cnt < 2 ^ 31 → IsLargest a i cnt (largest compare a i cnt)
  unfolding largest
  largest-IsLargest a i cnt le small =
      let l : 2 * i ≡ 2 * i % 2 ^ 32 = omega arith in
      let r : suc (2 * i) ≡ (2 * i + 1) % 2 ^ 32 = omega arith in
      let m1 = larger compare a cnt (2 * i) i in
      let m2 = larger compare a cnt (suc (2 * i)) m1 in
      subst (IsLargest a i cnt) (λ k. larger compare a cnt (r k) (larger compare a cnt (l k) i))
        (IsLarger-twice a i cnt m1 m2 (larger-IsLarger a cnt (2 * i) i)
          (larger-IsLarger a cnt (suc (2 * i)) m1))
