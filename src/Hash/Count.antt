-- ===== src/Hash/Count.antt =====
-- How often an element stands in the lists of an array, and how many elements there are.
use calendarizador.Prelude.{
  ℕ, zero, suc, ◌+◌, ◌-◌, ◌≤◌, ◌<◌, ◌≡◌, ◌⊎◌, inl, inr, refl, sym, ◌∙◌, false, ◌&&◌, List, [], ◌∷◌,
  ◌++◌, leb, ltb, ◌==◌, arith, if◌then◌else◌, length, length-append, Bool-cases,
}
use calendarizador.LinkedList.{list_remove}
use calendarizador.Hash.{elems_from, set_bucket}

abbrev pub count : ℕ → List ℕ → ℕ
count a [] = 0
count a (x ∷ xs) = (if x == a then 1 else 0) + count a xs

pub count-append : (a : ℕ) (xs ys : List ℕ) → count a (xs ++ ys) ≡ count a xs + count a ys
count-append a [] ys = omega arith
count-append a (x ∷ xs) ys = ground (arith, count-append a xs ys)

pub count-list_remove :
    (a : ℕ) (xs : List ℕ) (e : ℕ)
    → count a (list_remove xs e) ≡ count a xs - (if a == e then 1 else 0)
unfolding list_remove
count-list_remove a [] e = ground arith
count-list_remove a (x ∷ xs) e = elim (Bool-cases (x == e)) [
  | inl here ↦ rw here (ground arith)
  | inr other ↦ rw other (ground (arith, count-list_remove a xs e))
]

pub length-list_remove :
    (xs : List ℕ) (e : ℕ)
    → (count e xs ≡ 0) × (length (list_remove xs e) ≡ length xs)
      ⊎ (0 < count e xs) × (suc (length (list_remove xs e)) ≡ length xs)
unfolding list_remove
length-list_remove [] e = inl (refl, refl)
length-list_remove (x ∷ xs) e = elim (Bool-cases (x == e)) [
  | inl here ↦ rw here (inr (ground arith, refl))
  | inr other ↦ rw other (ground (arith, length-list_remove xs e))
]

pub count-pushed :
    (a : ℕ) (b : ℕ → List ℕ) (k e i : ℕ)
    → count a (set_bucket b k (e ∷ b k) i) ≡ count a (b i) + (if k == i && e == a then 1 else 0)
count-pushed a b k e i = elim (Bool-cases (k == i)) [
  | inl here ↦
      let p : k ≡ i = ground arith in
      let same : count a (b k) ≡ count a (b i) = (λ j. count a (b (p j))) in
      rw here (ground (arith, same))
  | inr other ↦ rw other (omega arith)
]

-- The number of elements of `n` lists from `i` on.
abbrev pub size : (ℕ → List ℕ) → ℕ → ℕ → ℕ
size b i n = length (elems_from b i n)

size-suc : (b : ℕ → List ℕ) (i n : ℕ) → size b i (suc n) ≡ length (b i) + size b (suc i) n
size-suc b i n = length-append (b i) (elems_from b (suc i) n)

size-set_outside :
    (b : ℕ → List ℕ) (k : ℕ) (l : List ℕ) (i n : ℕ)
    → (k < i) ⊎ (i + n ≤ k)
    → size (set_bucket b k l) i n ≡ size b i n
size-set_outside b k l i zero out = refl
size-set_outside b k l i (suc n) out =
    let rest = size-set_outside b k l (suc i) n (ground arith) in
    let ne : (k == i) ≡ false = ground arith in
    size-suc (set_bucket b k l) i n ∙ rw (ne, rest) (sym (size-suc b i n))

pub size-set_bucket :
    (b : ℕ → List ℕ) (k : ℕ) (l : List ℕ) (i n : ℕ)
    → i ≤ k
    → k < i + n
    → size (set_bucket b k l) i n + length (b k) ≡ size b i n + length l
size-set_bucket b k l i zero lo hi = absurd (omega arith)
size-set_bucket b k l i (suc n) lo hi =
    let before = size-suc b i n in
    let after = size-suc (set_bucket b k l) i n in
    elim (Bool-cases (k == i)) [
      | inl here ↦
          let rest = size-set_outside b k l (suc i) n (ground arith) in
          let e : i ≡ k = ground arith in
          let head : set_bucket b k l i ≡ l = rw here refl in
          let same : length (b i) ≡ length (b k) = (λ j. length (b (e j))) in
          let new : length (set_bucket b k l i) ≡ length l = (λ j. length (head j)) in omega arith
      | inr other ↦
          let rest = size-set_bucket b k l (suc i) n (ground arith) (omega arith) in
          let head : set_bucket b k l i ≡ b i = rw other refl in
          let same : length (set_bucket b k l i) ≡ length (b i) = (λ j. length (head j)) in
          omega arith
    ]

-- An element that stands once, in the list `k`, is taken from all lists.
pub size-removed :
    (b : ℕ → List ℕ) (e k i n : ℕ)
    → ((j : ℕ) → i ≤ j → j < i + n → count e (b j) ≡ (if j == k then 1 else 0))
    → size (λ j. list_remove (b j) e) i n + (if leb i k && ltb k (i + n) then 1 else 0) ≡ size b i n
size-removed b e k i zero once = ground arith
size-removed b e k i (suc n) once =
    let rest = size-removed b e k (suc i) n (λ j lo hi. once j (omega arith) (omega arith)) in
    let before = size-suc b i n in
    let after = size-suc (λ j. list_remove (b j) e) i n in
    let here = once i (omega arith) (omega arith) in ground (arith, length-list_remove (b i) e)
