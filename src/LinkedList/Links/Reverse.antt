-- ===== src/LinkedList/Links/Reverse.antt =====
-- list_reverse turns a chain around.
use calendarizador.Prelude.{
  Bool, ℕ, ◌<◌, ◌≡◌, refl, sym, ap, ◌∙◌, true, false, some, List, [], ◌∷◌, ◌++◌, ◌==◌, ◌||◌, arith,
  has, length, Distinct, differs,
}
use mathlib.Core.Path.{subst}
use calendarizador.LinkedList.Links.{
  Links, set_next, set_prev, tail_of, no_elements, turn_from, list_reverse,
}
use calendarizador.LinkedList.Links.Segment.{
  first_of, last_of, IsLinked, Segment-prev, has-append, has-last_of, Distinct-front,
}
use calendarizador.LinkedList.Links.Turn.{
  Turned, Segment-Chain, turn_from-Looped, reverse_onto, Back, Back-Segment, has-reverse_onto,
  Distinct-reverse_onto, reverse_onto-append,
}

not_first : (a z : ℕ) (zs : List ℕ) → has a (z ∷ zs) ≡ false → (z == a) ≡ false
not_first a z zs h = ground arith

not_behind : (a z : ℕ) (zs : List ℕ) → has a (z ∷ zs) ≡ false → has a zs ≡ false
not_behind a z zs h = ground arith

turn_test : (a b : ℕ) → (a == b) ≡ false → (b == a) ≡ false
turn_test a b h = ground arith

-- The two swaps of list_reverse behind the loop.
abbrev swap_ends : Links → ℕ → Links
swap_ends m l =
    let t = tail_of l in
    let m1 = set_prev (set_next m l (m.prev t)) t (m.next l) in
    let first = m1.next l in
    let last = m1.prev t in set_next (set_prev m1 first (m1.next last)) last (m1.prev first)

list_reverse-some :
    (fuel : ℕ) (m m1 : Links) (l : ℕ)
    → no_elements m l ≡ some false
    → turn_from fuel m l (m.next l) ≡ some m1
    → list_reverse fuel m l ≡ some (swap_ends m1 l)
unfolding list_reverse
list_reverse-some fuel m m1 l filled e = rw (list_reverse, filled, e) refl

module _ (m : Links) (l x y : ℕ) (first : m.next l ≡ x) (last : m.prev (tail_of l) ≡ y)
    (x_l : (x == l) ≡ false) (x_t : (x == tail_of l) ≡ false) (y_l : (y == l) ≡ false)
    (y_t : (y == tail_of l) ≡ false) where
  next_l : (swap_ends m l).next l ≡ y
  next_l = ground arith

  prev_t : (swap_ends m l).prev (tail_of l) ≡ x
  prev_t = ground arith

  next_x : (swap_ends m l).next x ≡ m.prev y
  next_x = ground arith

  prev_y : (swap_ends m l).prev y ≡ m.next x
  prev_y = ground arith

  next_other : (a : ℕ) → (a == x) ≡ false → (a == l) ≡ false → (swap_ends m l).next a ≡ m.next a
  next_other a ne ne' = ground arith

  prev_other :
      (a : ℕ) → (a == y) ≡ false → (a == tail_of l) ≡ false → (swap_ends m l).prev a ≡ m.prev a
  prev_other a ne ne' = ground arith

  Turned-Back :
      (p : ℕ) (xs : List ℕ)
      → m.next x ≡ l
      → m.prev p ≡ first_of xs (tail_of l)
      → y ≡ last_of p xs
      → Turned m p xs (tail_of l)
      → (p == tail_of l) ≡ false
      → Distinct (p ∷ xs)
      → has x xs ≡ false
      → has l xs ≡ false
      → has (tail_of l) xs ≡ false
      → Back (swap_ends m l) p xs l
  Turned-Back p [] next prev at_end turned p_t d no_x no_l no_t =
      (next_l ∙ at_end, subst (λ a. (swap_ends m l).prev a ≡ l) at_end (prev_y ∙ next))
  Turned-Back p (z ∷ zs) next prev at_end (back, on, turned) p_t (new, d) no_x no_l no_t =
      let inside : has y (z ∷ zs) ≡ true =
        subst (λ a. has a (z ∷ zs) ≡ true) (sym at_end) (has-last_of z zs) in
      let apart = differs y p (z ∷ zs) inside new in
      (
        next_other z (not_first x z zs no_x) (not_first l z zs no_l) ∙ back,
        prev_other p (turn_test y p apart) p_t ∙ prev,
        Turned-Back z zs next on at_end turned (not_first (tail_of l) z zs no_t) d
            (not_behind x z zs no_x) (not_behind l z zs no_l) (not_behind (tail_of l) z zs no_t),
      )

tail_new : (xs : List ℕ) (t : ℕ) → Distinct (xs ++ t ∷ []) → has t xs ≡ false
tail_new [] t d = refl
tail_new (x ∷ xs) t (new, d) = ground (arith, has-append x xs (t ∷ []), tail_new xs t d)

front_Distinct : (xs : List ℕ) (t : ℕ) → Distinct (xs ++ t ∷ []) → Distinct xs
front_Distinct xs t d = Distinct-front xs (t ∷ []) d

equal_test : {a b : ℕ} → a ≡ b → (a == b) ≡ true
equal_test e = ground arith

module _ (l : ℕ) (xs : List ℕ) (d : Distinct (l ∷ xs ++ tail_of l ∷ [])) where
  no_head : has l xs ≡ false
  no_head = ground (arith, has-append l xs (tail_of l ∷ []))

  no_tail : has (tail_of l) xs ≡ false
  no_tail = tail_new xs (tail_of l) d.1

head_tail : (l : ℕ) → has (tail_of l) (l ∷ []) ≡ false
head_tail l = ground arith

Turned-last :
    (m : Links) (p x : ℕ) (xs : List ℕ) (q : ℕ) → Turned m p (x ∷ xs) q → m.prev (last_of x xs) ≡ q
Turned-last m p x [] q (_, on, _) = on
Turned-last m p x (z ∷ zs) q (_, _, rest) = Turned-last m x z zs q rest

no_more : (b c : Bool) → ((b || false) || c) ≡ (b || c)
no_more true c = refl
no_more false c = refl

has-reversed : (a t : ℕ) (xs : List ℕ) → has a (reverse_onto xs [] ++ t ∷ []) ≡ has a (xs ++ t ∷ [])
has-reversed a t xs =
    has-append a (reverse_onto xs []) (t ∷ [])
    ∙ (λ k. has-reverse_onto a xs [] k || has a (t ∷ []))
    ∙ no_more (has a xs) (has a (t ∷ []))
    ∙ sym (has-append a xs (t ∷ []))

Distinct-reversed :
    (l t : ℕ) (xs : List ℕ)
    → Distinct (l ∷ xs ++ t ∷ [])
    → has t xs ≡ false
    → Distinct (l ∷ reverse_onto xs [] ++ t ∷ [])
Distinct-reversed l t xs (new, d) no_t = (
  has-reversed l t xs ∙ new,
  subst Distinct (sym (reverse_onto-append xs [] (t ∷ []))) (
      Distinct-reverse_onto xs (t ∷ []) (front_Distinct xs t d) (refl, tt)
        (λ a h. let other = differs a t xs h no_t in ground arith)),
)

real_reversed :
    (l t : ℕ) (xs : List ℕ)
    → has 0 (l ∷ xs ++ t ∷ []) ≡ false
    → has 0 (l ∷ reverse_onto xs [] ++ t ∷ []) ≡ false
real_reversed l t xs h = ground (arith, has-reversed 0 t xs)

-- What list_reverse does to an empty list, and to any other.
list_reverse-none :
    (fuel : ℕ) (m : Links) (l : ℕ) → no_elements m l ≡ some true → list_reverse fuel m l ≡ some m
unfolding list_reverse
list_reverse-none fuel m l e = rw (list_reverse, e) refl

-- Where the list is linked, list_reverse ends, and the list is linked then with its elements in the
-- opposite order. Fuel is enough that is more than the number of elements.
pub list_reverse-IsLinked :
    (fuel : ℕ) (m : Links) (l : ℕ) (xs : List ℕ)
    → IsLinked m l xs
    → length xs < fuel
    → (m' : Links) × (list_reverse fuel m l ≡ some m') × IsLinked m' l (reverse_onto xs [])
unfolding no_elements
list_reverse-IsLinked fuel m l [] list enough =
    let real : (l == 0) ≡ false = not_first 0 l (tail_of l ∷ []) list.real in
    let empty : no_elements m l ≡ some true = rw real (ap some (equal_test (list.chain.0))) in
    (m, list_reverse-none fuel m l empty, list)
list_reverse-IsLinked fuel m l (x ∷ xs) list enough =
    let t = tail_of l in
    let d = front_Distinct (x ∷ xs) t list.distinct.1 in
    let no_l = no_head l (x ∷ xs) list.distinct in
    let no_t = no_tail l (x ∷ xs) list.distinct in
    let y = last_of x xs in
    let y_l = differs y l (x ∷ xs) (has-last_of x xs) no_l in
    let y_t = differs y t (x ∷ xs) (has-last_of x xs) no_t in
    let x_l = not_first l x xs no_l in
    let x_t = not_first t x xs no_t in
    let filled : no_elements m l ≡ some false =
      rw (not_first 0 l (x ∷ xs ++ t ∷ []) list.real)
        (ap some (subst (λ a. (a == t) ≡ false) (sym list.chain.0) x_t)) in
    let (m1, e, r) =
      turn_from-Looped fuel m l l (x ∷ xs) (Segment-Chain m l (x ∷ xs) t list.chain) d no_t
        enough in
    let run = (λ k. turn_from fuel m l (list.chain.0 k)) ∙ e in
    let first : m1.next l ≡ x = r.next l no_l ∙ list.chain.0 in
    let last : m1.prev t ≡ y = r.prev t no_t ∙ Segment-prev m l (x ∷ xs) t list.chain in
    let back =
      Turned-Back m1 l x y first last x_l x_t y_l y_t x xs r.turned.0 r.turned.1 refl r.turned.2 x_t
        d d.0 (not_behind l x xs no_l) (not_behind t x xs no_t) in
    let start = next_x m1 l x y first last x_l x_t y_l y_t ∙ Turned-last m1 l x xs t r.turned in
    let l_t = not_first t l [] (head_tail l) in
    (
      swap_ends m1 l,
      list_reverse-some fuel m m1 l filled run,
      record {
        chain =
            Back-Segment (swap_ends m1 l) x xs [] l t back
              (start, prev_t m1 l x y first last x_l x_t y_l y_t);
        distinct = Distinct-reversed l t (x ∷ xs) list.distinct no_t;
        real = real_reversed l t (x ∷ xs) list.real;
        head_end =
            prev_other m1 l x y first last x_l x_t y_l y_t l (turn_test y l y_l) l_t
            ∙ r.prev l no_l
            ∙ list.head_end;
        tail_end =
            next_other m1 l x y first last x_l x_t y_l y_t t (turn_test x t x_t) (turn_test l t l_t)
            ∙ r.next t no_t
            ∙ list.tail_end;
      },
    )
