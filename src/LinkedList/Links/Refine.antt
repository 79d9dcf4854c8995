-- ===== src/LinkedList/Links/Refine.antt =====
-- The operations on pointers do to the sequence of a list what LinkedList says.
use calendarizador.Prelude.{
  ℕ, ◌<◌, ◌≡◌, inl, inr, refl, sym, ap, true, false, Option, none, some, List, [], ◌∷◌, ◌++◌, ◌==◌,
  arith, if◌then◌else◌, has, length, Bool-cases,
}
use calendarizador.Prelude.{differs}
use mathlib.Core.Path.{subst}
use mathlib.Core.List.{append-nil}
use calendarizador.LinkedList.{list_push_front, list_push_back, list_remove}
use calendarizador.LinkedList.Links.{
  Links, tail_of, list_begin, list_end, linked, unlinked, list_unlink, link_front, link_back,
  no_elements, first_element, list_back, list_pop_front, list_pop_back, taken,
}
use calendarizador.LinkedList.Links.Segment.{
  first_of, last_of, IsLinked, Segment-prev, Segment-next, has-append,
}
use calendarizador.LinkedList.Links.Insert.{list_insert-linked, IsLinked-insert}
use calendarizador.LinkedList.Links.Remove.{list_unlink-unlinked, IsLinked-remove}

-- The calls that change a list.
pub data ListCall : Type 0 where
  push_front push_back remove : (e : ℕ) → ListCall
  pop_front pop_back : ListCall

abbrev pub addresses : ℕ → List ℕ → List ℕ
addresses l xs = l ∷ xs ++ tail_of l ∷ []

-- A new element is on no list yet, an element to remove is on this one, and pops need an element.
abbrev pub Allowed : ℕ → List ℕ → ListCall → Type 0
Allowed l xs (push_front e) = (has e (addresses l xs) ≡ false) × ((e == 0) ≡ false)
Allowed l xs (push_back e) = (has e (addresses l xs) ≡ false) × ((e == 0) ≡ false)
Allowed l xs (remove e) = has e xs ≡ true
Allowed l xs pop_front = 0 < length xs
Allowed l xs pop_back = 0 < length xs

abbrev void : Option Links → Option (Option ℕ × Links)
void none = none
void (some m) = some (none, m)

abbrev valued : Option (ℕ × Links) → Option (Option ℕ × Links)
valued none = none
valued (some (r, m)) = some (some r, m)

-- The call, and its result if it has one.
abbrev pub links_call : Links → ℕ → ListCall → Option (Option ℕ × Links)
links_call m l (push_front e) = void (link_front m l e)
links_call m l (push_back e) = void (link_back m l e)
links_call m l (remove e) = valued (list_unlink m e)
links_call m l pop_front = valued (list_pop_front m l)
links_call m l pop_back = valued (list_pop_back m l)

-- What stands behind `e`, or the end `q`.
abbrev pub behind_of : List ℕ → ℕ → ℕ → ℕ
behind_of [] e q = q
behind_of (x ∷ xs) e q = if x == e then first_of xs q else behind_of xs e q

abbrev pub without_last : List ℕ → List ℕ
without_last [] = []
without_last (x ∷ []) = []
without_last (x ∷ y ∷ xs) = x ∷ without_last (y ∷ xs)

abbrev pub without_first : List ℕ → List ℕ
without_first [] = []
without_first (x ∷ xs) = xs

-- The sequence after the call, and its result.
abbrev pub sequence_call : ℕ → List ℕ → ListCall → Option ℕ × List ℕ
sequence_call l xs (push_front e) = (none, list_push_front xs e)
sequence_call l xs (push_back e) = (none, list_push_back xs e)
sequence_call l xs (remove e) = (some (behind_of xs e (tail_of l)), list_remove xs e)
sequence_call l xs pop_front = (some (first_of xs (tail_of l)), without_first xs)
sequence_call l xs pop_back = (some (last_of l xs), without_last xs)

-- A list is what stands before an element of it, the element, and what stands behind it.
split_at :
    (xs : List ℕ) (e q : ℕ)
    → has e xs ≡ true
    → (ys zs : List ℕ) × (xs ≡ ys ++ e ∷ zs)
      × (list_remove xs e ≡ ys ++ zs)
      × (behind_of xs e q ≡ first_of zs q)
unfolding list_remove
split_at [] e q h = absurd (ground arith)
split_at (x ∷ xs) e q h = elim (Bool-cases (x == e)) [
  | inl here ↦ let p : x ≡ e = ground arith in ([], xs, (λ i. p i ∷ xs), rw here refl, rw here refl)
  | inr other ↦
      let (ys, zs, parts, removed, behind) = split_at xs e q (ground arith) in
      (
        x ∷ ys,
        zs,
        ap (λ l. x ∷ l) parts,
        rw (list_remove, other) (ap (λ l. x ∷ l) removed),
        rw other behind,
      )
]

split_last : (x : ℕ) (xs : List ℕ) → x ∷ xs ≡ without_last (x ∷ xs) ++ last_of x xs ∷ []
split_last x [] = refl
split_last x (y ∷ xs) = ap (λ l. x ∷ l) (split_last y xs)

module _ (m : Links) (l : ℕ) where
  abbrev Refines : List ℕ → ListCall → Type 0
  Refines xs c =
      let (result, after) = sequence_call l xs c in
      (m' : Links) × (links_call m l c ≡ some (result, m')) × IsLinked m' l after

  list_is_real : (xs : List ℕ) → IsLinked m l xs → (l == 0) ≡ false
  list_is_real xs list = differs l 0 (addresses l xs) (ground arith) list.real

  push_front-Refines :
      (xs : List ℕ) (e : ℕ)
      → IsLinked m l xs
      → Allowed l xs (push_front e)
      → Refines xs (push_front e)
  unfolding link_front list_begin
  push_front-Refines xs e list (new, real) =
      let first = Segment-next m l xs (tail_of l) list.chain in
      let run = list_insert-linked m l [] xs e list new real in
      (
        linked m (first_of xs (tail_of l)) e,
        rw (link_front, list_begin, list_is_real xs list, first, run) refl,
        IsLinked-insert m l [] xs e list new real,
      )

  push_back-Refines :
      (xs : List ℕ) (e : ℕ)
      → IsLinked m l xs
      → Allowed l xs (push_back e)
      → Refines xs (push_back e)
  unfolding link_back list_end
  push_back-Refines xs e list (new, real) =
      let whole = sym (append-nil xs) in
      let list' = subst (IsLinked m l) whole list in
      let new' = subst (λ ys. has e (addresses l ys) ≡ false) whole new in
      let run = list_insert-linked m l xs [] e list' new' real in
      (
        linked m (tail_of l) e,
        rw (link_back, list_end, list_is_real xs list, run) refl,
        IsLinked-insert m l xs [] e list' new' real,
      )

  remove-Refines :
      (xs : List ℕ) (e : ℕ) → IsLinked m l xs → Allowed l xs (remove e) → Refines xs (remove e)
  remove-Refines xs e list inside =
      let (ys, zs, parts, removed, behind) = split_at xs e (tail_of l) inside in
      let list' = subst (IsLinked m l) parts list in
      (
        unlinked m e,
        rw (list_unlink-unlinked m l ys zs e list', behind) refl,
        subst (IsLinked (unlinked m e) l) (sym removed) (IsLinked-remove m l ys zs e list'),
      )

  no_elements-cons : (x : ℕ) (xs : List ℕ) → IsLinked m l (x ∷ xs) → no_elements m l ≡ some false
  unfolding no_elements
  no_elements-cons x xs list =
      let (n, b, rest) = list.chain in
      let ne : (m.next l == tail_of l) ≡ false = ground (
        arith,
        list.distinct.1,
        has-append x xs (tail_of l ∷ []),
        has-append (tail_of l) xs (tail_of l ∷ []),
      ) in
      rw (no_elements, list_is_real (x ∷ xs) list, ne) refl

  pop_front-Refines : (x : ℕ) (xs : List ℕ) → IsLinked m l (x ∷ xs) → Refines (x ∷ xs) pop_front
  unfolding list_pop_front first_element
  pop_front-Refines x xs list =
      let (n, b, rest) = list.chain in
      let run = list_unlink-unlinked m l [] xs x list in
      (
        unlinked m x,
        rw (list_pop_front, first_element, no_elements-cons x xs list, n, taken, run)
            (λ i. some (some (n i), unlinked m x)),
        IsLinked-remove m l [] xs x list,
      )

  pop_back-Refines : (x : ℕ) (xs : List ℕ) → IsLinked m l (x ∷ xs) → Refines (x ∷ xs) pop_back
  unfolding list_pop_back list_back
  pop_back-Refines x xs list =
      let z = last_of x xs in
      let before = without_last (x ∷ xs) in
      let list' = subst (IsLinked m l) (split_last x xs) list in
      let last : m.prev (tail_of l) ≡ z = Segment-prev m l (x ∷ xs) (tail_of l) list.chain in
      let run = list_unlink-unlinked m l before [] z list' in
      (
        unlinked m z,
        rw (list_pop_back, list_back, no_elements-cons x xs list, last, taken, run)
            (λ i. some (some (last i), unlinked m z)),
        subst (IsLinked (unlinked m z) l) (append-nil before)
            (IsLinked-remove m l before [] z list'),
      )

  -- On a list of elements that point at each other, and with a call that the list allows,
  -- list_push_front, list_push_back, list_remove, list_pop_front and list_pop_back do not fail. They
  -- change the sequence of the elements, and return an element, as the functions on sequences say, and
  -- the elements point at each other in the new order.
  pub links_call-Refines :
      (xs : List ℕ) (c : ListCall) → IsLinked m l xs → Allowed l xs c → Refines xs c
  links_call-Refines xs (push_front e) list ok = push_front-Refines xs e list ok
  links_call-Refines xs (push_back e) list ok = push_back-Refines xs e list ok
  links_call-Refines xs (remove e) list ok = remove-Refines xs e list ok
  links_call-Refines [] pop_front list ok = absurd (omega arith)
  links_call-Refines (x ∷ xs) pop_front list ok = pop_front-Refines x xs list
  links_call-Refines [] pop_back list ok = absurd (omega arith)
  links_call-Refines (x ∷ xs) pop_back list ok = pop_back-Refines x xs list
