-- ===== src/Hash/Table.antt =====
-- The set of elements that a table holds, and the single steps on it.
use Prim.Native.Nat.{bit_and}
use calendarizador.Prelude.{
  ℕ, suc, ◌-◌, ◌^◌, ◌<◌, ◌≡◌, ◌⊎◌, inl, inr, refl, sym, ap, ◌∙◌, Bool, true, false, Option, none,
  some, List, [], ◌∷◌, ◌==◌, arith, if◌then◌else◌, Bool-cases,
}
use mathlib.Core.Path.{subst}
use calendarizador.Bitmap.Digits.{bit_and-le}
use calendarizador.Hash.{Hash, find_bucket, equals, find_elem, insert_elem, remove_elem, hash_find}
use calendarizador.Hash.Count.{
  count, size, count-list_remove, size-set_bucket, size-removed, count-pushed,
}

-- What a table asks of its functions: equality by `less` is an equivalence, and equal elements have
-- the same hash.
pub record IsHashable (hash : ℕ → ℕ) (less : ℕ → ℕ → Bool) : Type 0 where
  pub itself : (x : ℕ) → equals less x x ≡ true
  pub chain : (x y z : ℕ) → equals less x y ≡ true → equals less y z ≡ true → equals less x z ≡ true
  pub agree : (x y : ℕ) → equals less x y ≡ true → hash x ≡ hash y

-- One if the element is in the set, zero if not.
abbrev pub one_of : Bool → ℕ
one_of b = if b then 1 else 0

abbrev pub add : (ℕ → Bool) → ℕ → ℕ → Bool
add set e = λ x. if x == e then true else set x

abbrev pub drop : (ℕ → Bool) → ℕ → ℕ → Bool
drop set e = λ x. if x == e then false else set x

-- The table holds the set: each element once, in the bucket that its hash asks for, the number of
-- elements is right, and no two elements are equal.
pub record Holds (hash : ℕ → ℕ) (less : ℕ → ℕ → Bool) (h : Hash) (set : ℕ → Bool) : Type 0 where
  pub some_bucket : 0 < h.bucket_cnt
  pub placed :
      (x i : ℕ)
      → i < h.bucket_cnt
      → count x (h.buckets i) ≡ (if i == find_bucket hash h.bucket_cnt x then one_of (set x) else 0)
  pub counted : size h.buckets 0 h.bucket_cnt ≡ h.elem_cnt
  pub word : h.elem_cnt < 2 ^ 32
  pub unique : (x y : ℕ) → set x ≡ true → set y ≡ true → equals less x y ≡ true → x ≡ y

pub find_bucket-lt : (hash : ℕ → ℕ) (cnt e : ℕ) → 0 < cnt → find_bucket hash cnt e < cnt
unfolding find_bucket
find_bucket-lt hash cnt e some_bucket = omega (arith, bit_and-le (hash e) (cnt - 1))

module _ {hash : ℕ → ℕ} {less : ℕ → ℕ → Bool} (able : IsHashable hash less) where
  -- The result of a search for an element equal to `e`.
  abbrev pub Found : (ℕ → Bool) → ℕ → Option ℕ → Type 0
  Found set e r =
      ((x : ℕ) × (r ≡ some x) × (set x ≡ true) × (equals less x e ≡ true))
      ⊎ (r ≡ none) × ((x : ℕ) → set x ≡ true → equals less x e ≡ false)

  find_elem-cases :
      (xs : List ℕ) (e : ℕ)
      → ((x : ℕ) × (find_elem less xs e ≡ some x) × (0 < count x xs) × (equals less x e ≡ true))
        ⊎ (find_elem less xs e ≡ none) × ((x : ℕ) → 0 < count x xs → equals less x e ≡ false)
  unfolding find_elem
  find_elem-cases [] e = inr (refl, λ x some_x. absurd (omega arith))
  find_elem-cases (x ∷ xs) e = elim (Bool-cases (equals less x e)) [
    | inl same ↦ inl (x, rw same refl, ground arith, same)
    | inr differs ↦ elim (find_elem-cases xs e) [
      | inl (y, found, here, same) ↦ inl (y, rw differs found, ground arith, same)
      | inr (missed, all) ↦ inr (
        rw differs missed,
        λ y some_y. elim (Bool-cases (x == y)) [
          | inl first ↦
              let p : x ≡ y = ground arith in subst (λ z. equals less z e ≡ false) p differs
          | inr other ↦ all y (ground arith)
        ],
      )
    ]
  ]

  pub equals_sym : (x y : ℕ) → equals less x y ≡ true → equals less y x ≡ true
  equals_sym x y h = ground arith

  once-one_of : (b : Bool) → 0 < one_of b → b ≡ true
  once-one_of true h = refl
  once-one_of false h = absurd (omega arith)

  module _ {h : Hash} {set : ℕ → Bool} (holds : Holds hash less h set) where
    abbrev bucket : ℕ → ℕ
    bucket = find_bucket hash h.bucket_cnt

    bucket-lt : (e : ℕ) → bucket e < h.bucket_cnt
    bucket-lt e = find_bucket-lt hash h.bucket_cnt e holds.some_bucket

    equals-bucket : (x e : ℕ) → equals less x e ≡ true → bucket x ≡ bucket e
    unfolding find_bucket
    equals-bucket x e same = ap (λ n. bit_and n (h.bucket_cnt - 1)) (able.agree x e same)

    -- An element of the set is in its bucket, and an element of a bucket is in the set.
    count-own : (x : ℕ) → count x (h.buckets (bucket x)) ≡ one_of (set x)
    count-own x = ground (arith, holds.placed x (bucket x) (bucket-lt x))

    pub hash_find-Found : (e : ℕ) → Found set e (hash_find hash less h e)
    unfolding hash_find
    hash_find-Found e = elim (find_elem-cases (h.buckets (bucket e)) e) [
      | inl (x, found, here, same) ↦
          let own : count x (h.buckets (bucket x)) ≡ one_of (set x) = count-own x in
          let here_own : 0 < count x (h.buckets (bucket x)) =
            subst (λ i. 0 < count x (h.buckets i)) (sym (equals-bucket x e same)) here in
          inl (x, found, ground (arith, own, here_own), same)
      | inr (missed, all) ↦ inr (
        missed,
        λ x inside. elim (Bool-cases (equals less x e)) [
          | inr differs ↦ differs
          | inl same ↦
              let here : 0 < count x (h.buckets (bucket x)) = ground (arith, count-own x) in
              all x (subst (λ i. 0 < count x (h.buckets i)) (equals-bucket x e same) here)
        ],
      )
    ]

    pub insert_elem-Holds :
        (e : ℕ)
        → ((x : ℕ) → set x ≡ true → equals less x e ≡ false)
        → h.elem_cnt < 2 ^ 32 - 1
        → Holds hash less (insert_elem h (bucket e) e) (add set e)
    unfolding insert_elem
    insert_elem-Holds e new room =
        let absent : set e ≡ false = ground (arith, new e, able.itself e) in
        let equals_new : (x : ℕ) → set x ≡ true → equals less x e ≡ true → ⊥ =
          λ x inside same. ground (arith, new x inside) in
        record {
          some_bucket = holds.some_bucket;
          placed = λ x i lt.
              let pushed = count-pushed x h.buckets (bucket e) e i in
              elim (Bool-cases (x == e)) [
                | inl same ↦
                    let p : e ≡ x = ground arith in
                    let b : bucket e ≡ bucket x = ap bucket p in
                    let out : set x ≡ false = ap set (sym p) ∙ absent in
                    ground (arith, pushed, holds.placed x i lt, b, out)
                | inr other ↦ ground (arith, pushed, holds.placed x i lt)
              ];
          counted =
              let more =
                size-set_bucket h.buckets (bucket e) (e ∷ h.buckets (bucket e)) 0 h.bucket_cnt
                  (omega arith) (omega (arith, bucket-lt e)) in
              omega (arith, holds.counted, holds.word);
          word = omega arith;
          unique = λ x y hx hy same. elim (Bool-cases (x == e)) [
            | inl first ↦ elim (Bool-cases (y == e)) [
              | inl second ↦ ground arith
              | inr other ↦
                  let p : x ≡ e = ground arith in
                  absurd (
                    equals_new y (ground arith)
                      (equals_sym e y (subst (λ z. equals less z y ≡ true) p same)))
            ]
            | inr other ↦ elim (Bool-cases (y == e)) [
              | inl second ↦
                  let p : y ≡ e = ground arith in
                  absurd (equals_new x (ground arith) (subst (λ z. equals less x z ≡ true) p same))
              | inr both ↦ holds.unique x y (ground arith) (ground arith) same
            ]
          ];
        }

    size-remove_elem :
        (e : ℕ) → set e ≡ true → suc (size (remove_elem h e).buckets 0 h.bucket_cnt) ≡ h.elem_cnt
    unfolding remove_elem
    size-remove_elem e inside =
        let less_one =
          size-removed h.buckets e (bucket e) 0 h.bucket_cnt
            (λ j lo hi. ground (arith, holds.placed e j (omega arith))) in
        ground (arith, bucket-lt e, holds.counted)

    pub elem_cnt-remove_elem : (e : ℕ) → set e ≡ true → suc (remove_elem h e).elem_cnt ≡ h.elem_cnt
    unfolding remove_elem
    elem_cnt-remove_elem e inside = omega (arith, size-remove_elem e inside, holds.word)

    pub remove_elem-Holds : (e : ℕ) → set e ≡ true → Holds hash less (remove_elem h e) (drop set e)
    unfolding remove_elem
    remove_elem-Holds e inside = record {
      some_bucket = holds.some_bucket;
      placed = λ x i lt. ground (arith, count-list_remove x (h.buckets i) e, holds.placed x i lt);
      counted = omega (arith, size-remove_elem e inside, elem_cnt-remove_elem e inside);
      word = omega arith;
      unique = λ x y hx hy same. holds.unique x y (ground arith) (ground arith) same;
    }
