-- ===== src/LinkedList/Links/Insert.antt =====
-- An element is put into a chain.
use calendarizador.Prelude.{
  ℕ, ◌≡◌, inl, inr, refl, sym, ap, ◌∙◌, true, false, ◌||◌, some, List, [], ◌∷◌, ◌++◌, ◌==◌, arith,
  has, Distinct, Bool-cases,
}
use calendarizador.Prelude.{differs}
use mathlib.Core.Path.{subst}
use mathlib.Core.List.{append_assoc}
use calendarizador.LinkedList.Links.{Links, tail_of, is_interior, is_tail, linked, list_insert}
use calendarizador.LinkedList.Links.Segment.{
  Segment, first_of, Follows, IsLinked, Segment-split, Segment-join, Segment-prev, Segment-kept,
  has-last_of, has-append, Distinct-apart, Distinct-front, Distinct-back, Distinct-insert,
}

module _ (m : Links) (b e : ℕ) (apart : (b == e) ≡ false) (behind : (m.prev b == e) ≡ false) where
  linked-next_new : (linked m b e).next e ≡ b
  unfolding linked
  linked-next_new = ground arith

  linked-next_before : (linked m b e).next (m.prev b) ≡ e
  unfolding linked
  linked-next_before = ground arith

  linked-next_other :
      (a : ℕ) → (a == e) ≡ false → (a == m.prev b) ≡ false → (linked m b e).next a ≡ m.next a
  unfolding linked
  linked-next_other a ne nb = ground arith

  linked-prev_new : (linked m b e).prev e ≡ m.prev b
  unfolding linked
  linked-prev_new = ground arith

  linked-prev_before : (linked m b e).prev b ≡ e
  unfolding linked
  linked-prev_before = ground arith

  linked-prev_other :
      (a : ℕ) → (a == e) ≡ false → (a == b) ≡ false → (linked m b e).prev a ≡ m.prev a
  unfolding linked
  linked-prev_other a ne nb = ground arith

  -- The chain up to `b` ends at the new element.
  Segment-linked :
      (p : ℕ) (xs : List ℕ)
      → Segment m p xs b
      → Distinct (p ∷ xs)
      → has e (p ∷ xs) ≡ false
      → has b (p ∷ xs) ≡ false
      → Segment (linked m b e) p xs e
  Segment-linked p [] (n, back) d new_e new_b =
      (subst (λ q. (linked m b e).next q ≡ e) back linked-next_before, linked-prev_new ∙ back)
  Segment-linked p (x ∷ xs) (n, back, rest) (first, d) new_e new_b =
      let last = Segment-prev m x xs b rest in
      let inside : has (m.prev b) (x ∷ xs) ≡ true =
        subst (λ q. has q (x ∷ xs) ≡ true) (sym last) (has-last_of x xs) in
      (
        linked-next_other p (ground arith) (p_apart p x xs first inside) ∙ n,
        linked-prev_other x (ground arith) (ground arith) ∙ back,
        Segment-linked x xs rest d (ground arith) (ground arith),
      )
    where
      p_apart :
          (p x : ℕ) (xs : List ℕ)
          → has p (x ∷ xs) ≡ false
          → has (m.prev b) (x ∷ xs) ≡ true
          → (p == m.prev b) ≡ false
      p_apart p x xs first inside = elim (Bool-cases (p == m.prev b)) [
        | inl same ↦
            let q : m.prev b ≡ p = ground arith in
            let again = subst (λ a. has a (x ∷ xs) ≡ true) q inside in absurd (ground arith)
        | inr differ ↦ differ
      ]

-- All addresses of a list in two parts.
pub parts :
    (l : ℕ) (xs ys : List ℕ) → l ∷ (xs ++ ys) ++ tail_of l ∷ [] ≡ (l ∷ xs) ++ (ys ++ tail_of l ∷ [])
parts l xs ys = ap (λ zs. l ∷ zs) (append_assoc xs ys (tail_of l ∷ []))

-- A chain that begins at `e` with what followed the new element.
pub Segment-rest :
    (m : Links) (e : ℕ) (ys : List ℕ) (q : ℕ)
    → m.next e ≡ first_of ys q
    → m.prev (first_of ys q) ≡ e
    → Follows m ys q
    → Segment m e ys q
Segment-rest m e [] q n b f = (n, b)
Segment-rest m e (y ∷ ys) q n b f = (n, b, f)

pub has-first_of : (ys : List ℕ) (q : ℕ) → has (first_of ys q) (ys ++ q ∷ []) ≡ true
has-first_of [] q = ground arith
has-first_of (y ∷ ys) q = ground arith

-- What follows stays where the pointers along it stay.
pub Follows-kept :
    (m m' : Links) (ys : List ℕ) (q : ℕ)
    → ((a : ℕ) → has a ys ≡ true → m'.next a ≡ m.next a)
    → ((a : ℕ) → has a (ys ++ q ∷ []) ≡ true → (a == first_of ys q) ≡ false → m'.prev a ≡ m.prev a)
    → Distinct (ys ++ q ∷ [])
    → Follows m ys q
    → Follows m' ys q
Follows-kept m m' [] q next prev d f = tt
Follows-kept m m' (y ∷ ys) q next prev (first, d) f =
    Segment-kept m m' y ys q next
      (λ a h. prev a (ground arith) (differs a y (ys ++ q ∷ []) h first)) f

-- Between the parts `xs` and `ys` of a list, list_insert puts a new element.
module _ (m : Links) (l : ℕ) (xs ys : List ℕ) (e : ℕ) (list : IsLinked m l (xs ++ ys))
    (new : has e (l ∷ (xs ++ ys) ++ tail_of l ∷ []) ≡ false) (real_e : (e == 0) ≡ false) where
  abbrev before : ℕ
  before = first_of ys (tail_of l)

  abbrev back_part : List ℕ
  back_part = ys ++ tail_of l ∷ []

  whole : Distinct ((l ∷ xs) ++ back_part)
  whole = subst Distinct (parts l xs ys) list.distinct

  new_in_parts : (has e (l ∷ xs) ≡ false) × (has e back_part ≡ false)
  new_in_parts =
      let h = subst (λ zs. has e zs ≡ false) (parts l xs ys) new in
      ground (arith, has-append e (l ∷ xs) back_part)

  real_parts : (has 0 (l ∷ xs) ≡ false) × (has 0 back_part ≡ false)
  real_parts =
      let h = subst (λ zs. has 0 zs ≡ false) (parts l xs ys) list.real in
      ground (arith, has-append 0 (l ∷ xs) back_part)

  front : Segment m l xs before × Follows m ys (tail_of l)
  front = Segment-split m l xs ys (tail_of l) list.chain

  prev_in_front : has (m.prev before) (l ∷ xs) ≡ true
  prev_in_front =
      subst (λ q. has q (l ∷ xs) ≡ true) (sym (Segment-prev m l xs before front.0))
        (has-last_of l xs)

  apart : (before == e) ≡ false
  apart = differs before e back_part (has-first_of ys (tail_of l)) new_in_parts.1

  behind : (m.prev before == e) ≡ false
  behind = differs (m.prev before) e (l ∷ xs) prev_in_front new_in_parts.0

  before_outside : has before (l ∷ xs) ≡ false
  before_outside = elim (Bool-cases (has before (l ∷ xs))) [
    | inl inside ↦
        let out = Distinct-apart (l ∷ xs) back_part whole before inside in
        let there = has-first_of ys (tail_of l) in absurd (ground arith)
    | inr outside ↦ outside
  ]

  differs_back : (a c : ℕ) → has a back_part ≡ true → has c (l ∷ xs) ≡ true → (a == c) ≡ false
  differs_back a c inside front_c =
      differs a c back_part inside (Distinct-apart (l ∷ xs) back_part whole c front_c)

  follows : Follows (linked m before e) ys (tail_of l)
  follows =
      Follows-kept m (linked m before e) ys (tail_of l)
        (λ a h.
          let inside : has a back_part ≡ true = ground (arith, has-append a ys (tail_of l ∷ [])) in
          linked-next_other m before e apart behind a (differs a e back_part inside new_in_parts.1)
            (differs_back a (m.prev before) inside prev_in_front))
        (λ a h ne.
          linked-prev_other m before e apart behind a (differs a e back_part h new_in_parts.1) ne)
        (Distinct-back (l ∷ xs) back_part whole) front.1

  pub list_insert-linked : list_insert m before e ≡ some (linked m before e)
  unfolding list_insert
  list_insert-linked =
      let before_real : (before == 0) ≡ false =
        differs before 0 back_part (has-first_of ys (tail_of l)) real_parts.1 in
      let prev_real : (m.prev before == 0) ≡ false =
        differs (m.prev before) 0 (l ∷ xs) prev_in_front real_parts.0 in
      let ok : (is_interior m before || is_tail m before) ≡ true = ground arith in
      rw (ok, real_e) refl

  pub IsLinked-insert : IsLinked (linked m before e) l (xs ++ e ∷ ys)
  IsLinked-insert = record {
    chain =
        Segment-join (linked m before e) l xs (e ∷ ys) (tail_of l)
          (Segment-linked m before e apart behind l xs front.0
            (Distinct-front (l ∷ xs) back_part whole) new_in_parts.0 before_outside)
          (Segment-rest (linked m before e) e ys (tail_of l)
            (linked-next_new m before e apart behind) (linked-prev_before m before e apart behind)
            follows);
    distinct = subst Distinct (sym (parts l xs (e ∷ ys))) (
        Distinct-insert (l ∷ xs) back_part e whole
          (ground (arith, new_in_parts, has-append e (l ∷ xs) back_part)));
    real =
        subst (λ zs. has 0 zs ≡ false) (sym (parts l xs (e ∷ ys)))
          (ground (arith, real_parts, has-append 0 (l ∷ xs) (e ∷ back_part)));
    head_end =
        linked-prev_other m before e apart behind l
          (differs l e (l ∷ xs) (ground arith) new_in_parts.0)
          (differs l before (l ∷ xs) (ground arith) before_outside)
        ∙ list.head_end;
    tail_end =
        let last : has (tail_of l) back_part ≡ true =
          ground (arith, has-append (tail_of l) ys (tail_of l ∷ [])) in
        linked-next_other m before e apart behind (tail_of l)
          (differs (tail_of l) e back_part last new_in_parts.1)
          (differs_back (tail_of l) (m.prev before) last prev_in_front)
        ∙ list.tail_end;
  }
