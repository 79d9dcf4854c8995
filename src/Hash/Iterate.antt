-- ===== src/Hash/Iterate.antt =====
-- The iterator visits the elements in the order of hash_apply.
use calendarizador.Prelude.{
  ℕ, zero, suc, ◌-◌, ◌<◌, ◌≡◌, refl, sym, ap, none, some, List, [], ◌∷◌, ◌++◌, arith, length,
}
use mathlib.Core.Path.{subst}
use calendarizador.Hash.{
  Hash, HashIterator, elems_from, hash_first, next_bucket, hash_next, hash_cur, hash_apply,
}

-- The elements that the loop `while (hash_next (&i))` visits in at most `fuel` rounds.
abbrev pub visited : ℕ → Hash → HashIterator → List ℕ
visited zero h i = []
visited (suc fuel) h i =
    let next = hash_next h i in
    let rest = visited fuel h next in elim (hash_cur next) [ none ↦ [] | some e ↦ e ∷ rest ]

-- What an iterator in bucket `b` has left to visit.
abbrev left_of : Hash → ℕ → List ℕ → List ℕ
left_of h b behind = behind ++ elems_from h.buckets (suc b) (h.bucket_cnt - suc b)

-- A step gives the first of what is left, and leaves the rest.
abbrev Steps : Hash → List ℕ → HashIterator → Type 0
Steps h [] next = next.elem ≡ none
Steps h (e ∷ es) next = (next.elem ≡ some e) × (left_of h next.bucket next.behind ≡ es)

next_bucket-Steps :
    (h : Hash) (i n : ℕ)
    → n ≡ h.bucket_cnt - suc i
    → Steps h (elems_from h.buckets (suc i) n) (next_bucket h i n)
unfolding next_bucket
next_bucket-Steps h i zero e = refl
next_bucket-Steps h i (suc n) e =
    go (next_bucket-Steps h (suc i) n (omega arith)) (h.buckets (suc i)) refl
  where
    go :
        Steps h (elems_from h.buckets (suc (suc i)) n) (next_bucket h (suc i) n)
        → (b : List ℕ) → h.buckets (suc i) ≡ b
        → Steps h
            (h.buckets (suc i) ++ elems_from h.buckets (suc (suc i)) n)
            (next_bucket h i (suc n))
    go rest [] empty = rw (next_bucket, empty) rest
    go rest (x ∷ xs) full =
        let left : h.bucket_cnt - suc (suc i) ≡ n = omega arith in
        rw (next_bucket, full) (refl, ap (λ k. xs ++ elems_from h.buckets (suc (suc i)) k) left)

hash_next-Steps :
    (h : Hash) (i : HashIterator) (behind : List ℕ)
    → i.behind ≡ behind
    → Steps h (left_of h i.bucket behind) (hash_next h i)
unfolding hash_next
hash_next-Steps h i [] e =
    rw (hash_next, e) (next_bucket-Steps h i.bucket (h.bucket_cnt - suc i.bucket) refl)
hash_next-Steps h i (x ∷ xs) e = rw (hash_next, e) (refl, refl)

visited-left :
    (fuel : ℕ) (h : Hash) (i : HashIterator) (left : List ℕ)
    → left_of h i.bucket i.behind ≡ left
    → length left < fuel
    → visited fuel h i ≡ left
visited-left zero h i left e enough = absurd (omega arith)
visited-left (suc fuel) h i [] e enough =
    let step = subst (λ l. Steps h l (hash_next h i)) e (hash_next-Steps h i i.behind refl) in
    rw (visited, step) refl
visited-left (suc fuel) h i (x ∷ xs) e enough =
    let (found, rest) =
      subst (λ l. Steps h l (hash_next h i)) e (hash_next-Steps h i i.behind refl) in
    rw (visited, found)
      (ap (λ l. x ∷ l) (visited-left fuel h (hash_next h i) xs rest (omega arith)))

first_split : (b : ℕ → List ℕ) (n : ℕ) → 0 < n → elems_from b 0 n ≡ b 0 ++ elems_from b 1 (n - 1)
first_split b zero positive = absurd (omega arith)
first_split b (suc n) positive = ap (λ k. b 0 ++ elems_from b 1 k) (omega arith)

-- In a table with a bucket, the loop `while (hash_next (&i))` from hash_first ends, after one round
-- for each element, and visits the elements that hash_apply applies its action to, in that order.
pub hash_next-visited :
    (h : Hash) (fuel : ℕ)
    → 0 < h.bucket_cnt
    → length (hash_apply h) < fuel
    → visited fuel h (hash_first h) ≡ hash_apply h
unfolding hash_first hash_apply
hash_next-visited h fuel some_bucket enough =
    visited-left fuel h (hash_first h) (hash_apply h)
      (sym (first_split h.buckets h.bucket_cnt some_bucket)) enough
