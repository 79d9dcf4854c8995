-- ===== src/Hash/Rehash.antt =====
-- A table with another number of buckets holds the same set.
use calendarizador.Prelude.{
  ℕ, zero, suc, ◌+◌, ◌-◌, ◌/◌, ◌≤◌, ◌<◌, ◌≡◌, inl, inr, refl, ap, Bool, true, false, not, ◌&&◌,
  some, List, [], ◌∷◌, leb, ltb, ◌==◌, arith, if◌then◌else◌, length, length-append, Bool-cases,
}
use calendarizador.Bitmap.Digits.{bit_and-le}
use calendarizador.Hash.{
  Hash, no_elems, elems_from, set_bucket, turn_off_least_1bit, is_power_of_2, to_power_of_2,
  wanted_buckets, find_bucket, move_bucket, move_buckets, rehash,
}
use calendarizador.Hash.Count.{count, count-append, size, count-pushed, size-set_bucket}
use calendarizador.Hash.Table.{Holds, one_of, find_bucket-lt}

turn_off_least_1bit-le : (x : ℕ) → turn_off_least_1bit x ≤ x - 1
unfolding turn_off_least_1bit
turn_off_least_1bit-le x = bit_and-le x (x - 1)

power_contradiction : (a b : Bool) → a ≡ false → b ≡ true → (not a && b) ≡ false → ⊥
power_contradiction a b real last more = ground arith

not_power : (cnt : ℕ) → 0 < cnt → is_power_of_2 cnt ≡ false → (turn_off_least_1bit cnt == 0) ≡ false
unfolding is_power_of_2
not_power cnt positive more = elim (Bool-cases (turn_off_least_1bit cnt == 0)) [
  | inl last ↦
      let real : (cnt == 0) ≡ false = ground arith in
      absurd (power_contradiction (cnt == 0) (turn_off_least_1bit cnt == 0) real last more)
  | inr left ↦ left
]

-- The loop of rehash ends with a positive number.
to_power_of_2-positive :
    (fuel cnt : ℕ) → 0 < cnt → cnt ≤ fuel → (n : ℕ) × (to_power_of_2 fuel cnt ≡ some n) × (0 < n)
unfolding to_power_of_2
to_power_of_2-positive zero cnt positive enough = absurd (omega arith)
to_power_of_2-positive (suc fuel) cnt positive enough = elim (Bool-cases (is_power_of_2 cnt)) [
  | inl power ↦ (cnt, rw (to_power_of_2, power) refl, positive)
  | inr more ↦
      let next = turn_off_least_1bit cnt in
      let left : (next == 0) ≡ false = not_power cnt positive more in
      let (n, run, pos_n) =
        to_power_of_2-positive fuel next (ground arith)
          (omega (arith, turn_off_least_1bit-le cnt)) in
      (n, rw (to_power_of_2, more) run, pos_n)
]

wanted_buckets-positive : (elem_cnt : ℕ) → (n : ℕ) × (wanted_buckets elem_cnt ≡ some n) × (0 < n)
unfolding wanted_buckets
wanted_buckets-positive elem_cnt =
    let cnt = if ltb (elem_cnt / 2) 4 then 4 else elem_cnt / 2 in
    to_power_of_2-positive cnt cnt (ground arith) (omega arith)

module _ (hash : ℕ → ℕ) (cnt : ℕ) (some_bucket : 0 < cnt) where
  bucket : ℕ → ℕ
  bucket = find_bucket hash cnt

  move_bucket-count :
      (x j : ℕ) (es : List ℕ) (new : ℕ → List ℕ)
      → count x (move_bucket hash cnt es new j)
        ≡ count x (new j) + (if j == find_bucket hash cnt x then count x es else 0)
  unfolding move_bucket
  move_bucket-count x j [] new = ground arith
  move_bucket-count x j (e ∷ es) new =
      let i = find_bucket hash cnt e in
      let rest = move_bucket-count x j es (set_bucket new i (e ∷ new i)) in
      let pushed = count-pushed x new i e j in
      elim (Bool-cases (e == x)) [
        | inl same ↦
            let p : e ≡ x = ground arith in
            let b : find_bucket hash cnt e ≡ find_bucket hash cnt x = ap (find_bucket hash cnt) p in
            ground (arith, rest, pushed, b)
        | inr other ↦ ground (arith, rest, pushed)
      ]

  move_buckets-count :
      (x j i n : ℕ) (old new : ℕ → List ℕ)
      → count x (move_buckets hash cnt old i n new j)
        ≡ count x (new j)
          + (if j == find_bucket hash cnt x then count x (elems_from old i n) else 0)
  unfolding move_buckets
  move_buckets-count x j i zero old new = ground arith
  move_buckets-count x j i (suc n) old new =
      let rest = move_buckets-count x j (suc i) n old (move_bucket hash cnt (old i) new) in
      let moved = move_bucket-count x j (old i) new in
      let split = count-append x (old i) (elems_from old (suc i) n) in
      ground (arith, rest, moved, split)

  move_bucket-size :
      (es : List ℕ) (new : ℕ → List ℕ)
      → size (move_bucket hash cnt es new) 0 cnt ≡ size new 0 cnt + length es
  unfolding move_bucket
  move_bucket-size [] new = omega arith
  move_bucket-size (e ∷ es) new =
      let i = find_bucket hash cnt e in
      let rest = move_bucket-size es (set_bucket new i (e ∷ new i)) in
      let more =
        size-set_bucket new i (e ∷ new i) 0 cnt (omega arith)
          (omega (arith, find_bucket-lt hash cnt e some_bucket)) in
      omega arith

  move_buckets-size :
      (i n : ℕ) (old new : ℕ → List ℕ)
      → size (move_buckets hash cnt old i n new) 0 cnt ≡ size new 0 cnt + size old i n
  unfolding move_buckets
  move_buckets-size i zero old new = omega arith
  move_buckets-size i (suc n) old new =
      let rest = move_buckets-size (suc i) n old (move_bucket hash cnt (old i) new) in
      let moved = move_bucket-size (old i) new in
      let split = length-append (old i) (elems_from old (suc i) n) in omega arith

pub size-no_elems : (i n : ℕ) → size no_elems i n ≡ 0
size-no_elems i zero = refl
size-no_elems i (suc n) = size-no_elems (suc i) n

module _ {hash : ℕ → ℕ} {less : ℕ → ℕ → Bool} {h : Hash} {set : ℕ → Bool}
    (holds : Holds hash less h set) where
  -- Each element of the set is once among all elements.
  count-elems :
      (x i n : ℕ)
      → i + n ≤ h.bucket_cnt
      → count x (elems_from h.buckets i n) ≡ (
          if leb i (find_bucket hash h.bucket_cnt x)
            && ltb (find_bucket hash h.bucket_cnt x) (i + n)
          then one_of (set x)
          else 0)
  count-elems x i zero fits = ground arith
  count-elems x i (suc n) fits =
      let rest = count-elems x (suc i) n (omega arith) in
      let split = count-append x (h.buckets i) (elems_from h.buckets (suc i) n) in
      let own = holds.placed x i (omega arith) in ground (arith, rest, split, own)

  moved-Holds :
      (cnt : ℕ)
      → 0 < cnt
      → Holds hash less
          (record h {
            bucket_cnt = cnt;
            buckets = move_buckets hash cnt h.buckets 0 h.bucket_cnt no_elems;
          })
          set
  moved-Holds cnt some_bucket = record {
    some_bucket = some_bucket;
    placed = λ x i lt.
        let moved = move_buckets-count hash cnt some_bucket x i 0 h.bucket_cnt h.buckets no_elems in
        let all = count-elems x 0 h.bucket_cnt (omega arith) in
        let inside = find_bucket-lt hash h.bucket_cnt x holds.some_bucket in
        ground (arith, moved, all, inside);
    counted =
        let moved = move_buckets-size hash cnt some_bucket 0 h.bucket_cnt h.buckets no_elems in
        omega (arith, size-no_elems 0 cnt, holds.counted);
    word = holds.word;
    unique = holds.unique;
  }

  -- rehash ends, with or without memory for a new array, and the table holds the same set.
  pub rehash-Holds :
      (room : Bool) → (h' : Hash) × (rehash hash room h ≡ some h') × Holds hash less h' set
  unfolding rehash
  rehash-Holds room =
      let (cnt, wanted, some_bucket) = wanted_buckets-positive h.elem_cnt in
      elim (Bool-cases (cnt == h.bucket_cnt)) [
        | inl same ↦ (h, rw (rehash, wanted, same) refl, holds)
        | inr other ↦ elim (Bool-cases room) [
          | inr full ↦ (h, rw (rehash, wanted, other, full) refl, holds)
          | inl free ↦ (
            record h {
              bucket_cnt = cnt;
              buckets = move_buckets hash cnt h.buckets 0 h.bucket_cnt no_elems;
            },
            rw (rehash, wanted, other, free) refl,
            moved-Holds cnt some_bucket,
          )
        ]
      ]
