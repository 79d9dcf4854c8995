-- ===== src/LinkedList/Links/Remove.antt =====
-- An element is taken out of a chain.
use calendarizador.Prelude.{
  ℕ, ◌≡◌, inl, inr, sym, ◌∙◌, true, false, some, List, [], ◌∷◌, ◌++◌, ◌==◌, arith, has, Distinct,
  Bool-cases,
}
use calendarizador.Prelude.{differs}
use mathlib.Core.Path.{subst}
use calendarizador.LinkedList.Links.{Links, tail_of, is_interior, unlinked, list_unlink}
use calendarizador.LinkedList.Links.Segment.{
  Segment, first_of, Follows, IsLinked, Segment-split, Segment-join, Segment-prev, Segment-next,
  has-last_of, has-append, Distinct-apart, Distinct-front, Distinct-back, Distinct-remove,
}
use calendarizador.LinkedList.Links.Insert.{parts, has-first_of, Follows-kept}

Follows-of : (m : Links) (e : ℕ) (ys : List ℕ) (q : ℕ) → Segment m e ys q → Follows m ys q
Follows-of m e [] q h = tt
Follows-of m e (y ∷ ys) q (n, b, rest) = rest

module _ (m : Links) (e : ℕ) (behind : (m.prev e == e) ≡ false) where
  unlinked-next_before : (unlinked m e).next (m.prev e) ≡ m.next e
  unfolding unlinked
  unlinked-next_before = ground arith

  unlinked-next_other : (a : ℕ) → (a == m.prev e) ≡ false → (unlinked m e).next a ≡ m.next a
  unfolding unlinked
  unlinked-next_other a ne = ground arith

  unlinked-prev_behind : (unlinked m e).prev (m.next e) ≡ m.prev e
  unfolding unlinked
  unlinked-prev_behind = ground arith

  unlinked-prev_other : (a : ℕ) → (a == m.next e) ≡ false → (unlinked m e).prev a ≡ m.prev a
  unfolding unlinked
  unlinked-prev_other a ne = ground arith

  Segment-unlinked :
      (p : ℕ) (xs : List ℕ)
      → Segment m p xs e
      → Distinct (p ∷ xs)
      → has (m.next e) (p ∷ xs) ≡ false
      → Segment (unlinked m e) p xs (m.next e)
  Segment-unlinked p [] (n, back) d new = (
    subst (λ q. (unlinked m e).next q ≡ m.next e) back unlinked-next_before,
    unlinked-prev_behind ∙ back,
  )
  Segment-unlinked p (x ∷ xs) (n, back, rest) (first, d) new =
      let last = Segment-prev m x xs e rest in
      let inside : has (m.prev e) (x ∷ xs) ≡ true =
        subst (λ q. has q (x ∷ xs) ≡ true) (sym last) (has-last_of x xs) in
      let apart : (m.prev e == p) ≡ false = differs (m.prev e) p (x ∷ xs) inside first in
      (
        unlinked-next_other p (ground arith) ∙ n,
        unlinked-prev_other x (ground arith) ∙ back,
        Segment-unlinked x xs rest d (ground arith),
      )

-- From between the parts `xs` and `ys` of a list, list_remove takes the element.
module _ (m : Links) (l : ℕ) (xs ys : List ℕ) (e : ℕ) (list : IsLinked m l (xs ++ e ∷ ys)) where
  abbrev back_part : List ℕ
  back_part = ys ++ tail_of l ∷ []

  whole : Distinct ((l ∷ xs) ++ e ∷ back_part)
  whole = subst Distinct (parts l xs (e ∷ ys)) list.distinct

  real_parts : (has 0 (l ∷ xs) ≡ false) × (has 0 (e ∷ back_part) ≡ false)
  real_parts =
      let h = subst (λ zs. has 0 zs ≡ false) (parts l xs (e ∷ ys)) list.real in
      ground (arith, has-append 0 (l ∷ xs) (e ∷ back_part))

  front : Segment m l xs e × Segment m e ys (tail_of l)
  front = Segment-split m l xs (e ∷ ys) (tail_of l) list.chain

  next_is_first : m.next e ≡ first_of ys (tail_of l)
  next_is_first = Segment-next m e ys (tail_of l) front.1

  next_in_back : has (m.next e) back_part ≡ true
  next_in_back =
      subst (λ q. has q back_part ≡ true) (sym next_is_first) (has-first_of ys (tail_of l))

  prev_in_front : has (m.prev e) (l ∷ xs) ≡ true
  prev_in_front =
      subst (λ q. has q (l ∷ xs) ≡ true) (sym (Segment-prev m l xs e front.0)) (has-last_of l xs)

  outside_front : (a : ℕ) → has a (e ∷ back_part) ≡ true → has a (l ∷ xs) ≡ false
  outside_front a inside = elim (Bool-cases (has a (l ∷ xs))) [
    | inl both ↦
        let out = Distinct-apart (l ∷ xs) (e ∷ back_part) whole a both in absurd (ground arith)
    | inr outside ↦ outside
  ]

  behind : (m.prev e == e) ≡ false
  behind = differs (m.prev e) e (l ∷ xs) prev_in_front (outside_front e (ground arith))

  differs_front : (a c : ℕ) → has a back_part ≡ true → has c (l ∷ xs) ≡ true → (a == c) ≡ false
  differs_front a c inside front_c =
      let apart : (c == a) ≡ false =
        differs c a (l ∷ xs) front_c (outside_front a (ground arith)) in
      ground arith

  pub list_unlink-unlinked : list_unlink m e ≡ some (first_of ys (tail_of l), unlinked m e)
  unfolding list_unlink
  list_unlink-unlinked =
      let real : (e == 0) ≡ false = ground (arith, real_parts.1) in
      let prev_real : (m.prev e == 0) ≡ false =
        differs (m.prev e) 0 (l ∷ xs) prev_in_front real_parts.0 in
      let back_real : has 0 back_part ≡ false = ground (arith, real_parts.1) in
      let next_real : (m.next e == 0) ≡ false =
        differs (m.next e) 0 back_part next_in_back back_real in
      let ok : is_interior m e ≡ true = ground arith in
      let kept = unlinked-next_other m e behind e (ground (arith, behind)) in
      rw ok (λ i. some ((kept ∙ next_is_first) i, unlinked m e))

  pub IsLinked-remove : IsLinked (unlinked m e) l (xs ++ ys)
  IsLinked-remove = record {
    chain =
        Segment-join (unlinked m e) l xs ys (tail_of l)
          (subst (λ q. Segment (unlinked m e) l xs q) next_is_first
            (Segment-unlinked m e behind l xs front.0
              (Distinct-front (l ∷ xs) (e ∷ back_part) whole)
              (outside_front (m.next e) (ground (arith, next_in_back)))))
          (Follows-kept m (unlinked m e) ys (tail_of l)
            (λ a h.
              let inside : has a back_part ≡ true =
                ground (arith, has-append a ys (tail_of l ∷ [])) in
              unlinked-next_other m e behind a (differs_front a (m.prev e) inside prev_in_front))
            (λ a h ne.
              unlinked-prev_other m e behind a
                (subst (λ q. (a == q) ≡ false) (sym next_is_first) ne))
            (Distinct-back (l ∷ xs) back_part (Distinct-remove (l ∷ xs) back_part e whole))
            (Follows-of m e ys (tail_of l) front.1));
    distinct = subst Distinct (sym (parts l xs ys)) (Distinct-remove (l ∷ xs) back_part e whole);
    real =
        subst (λ zs. has 0 zs ≡ false) (sym (parts l xs ys))
          (ground (arith, real_parts, has-append 0 (l ∷ xs) back_part));
    head_end =
        unlinked-prev_other m e behind l (
          differs l (m.next e) (l ∷ xs) (ground arith)
            (outside_front (m.next e) (ground (arith, next_in_back))))
        ∙ list.head_end;
    tail_end =
        let last : has (tail_of l) back_part ≡ true =
          ground (arith, has-append (tail_of l) ys (tail_of l ∷ [])) in
        unlinked-next_other m e behind (tail_of l)
          (differs_front (tail_of l) (m.prev e) last prev_in_front)
        ∙ list.tail_end;
  }
