-- ===== src/LinkedList/Links.antt =====
-- pintos/src/lib/kernel/list.c on the pointers of the elements. A memory gives the address of an
-- element the two pointers of its struct list_elem; 0 is NULL. A list at address `l` has its head there
-- and its tail behind it. `none` is a failed ASSERT.
pub mod Segment
pub mod Insert
pub mod Remove
pub mod Refine
pub mod Turn
pub mod Reverse
use calendarizador.Prelude.{
  ℕ, zero, suc, ◌+◌, Bool, true, false, not, ◌&&◌, ◌||◌, Option, none, some, ◌==◌, if◌then◌else◌,
}

pub record Links : Type 0 where
  pub next : ℕ → ℕ
  pub prev : ℕ → ℕ

abbrev pub set_next : Links → ℕ → ℕ → Links
set_next m e v = record m { next = λ a. if a == e then v else m.next a }

abbrev pub set_prev : Links → ℕ → ℕ → Links
set_prev m e v = record m { prev = λ a. if a == e then v else m.prev a }

-- struct list_elem has three pointers, and struct list two elements.
abbrev pub tail_of : ℕ → ℕ
tail_of l = l + 12

abbrev pub is_head : Links → ℕ → Bool
is_head m e = not (e == 0) && (m.prev e == 0) && not (m.next e == 0)

abbrev pub is_interior : Links → ℕ → Bool
is_interior m e = not (e == 0) && not (m.prev e == 0) && not (m.next e == 0)

abbrev pub is_tail : Links → ℕ → Bool
is_tail m e = not (e == 0) && not (m.prev e == 0) && (m.next e == 0)

unfoldable pub list_init : Links → ℕ → Option Links
list_init m l =
    if l == 0
    then none
    else some
        (set_next (set_prev (set_next (set_prev m l 0) l (tail_of l)) (tail_of l) l) (tail_of l) 0)

unfoldable pub list_begin : Links → ℕ → Option ℕ
list_begin m l = if l == 0 then none else some (m.next l)

unfoldable pub list_next : Links → ℕ → Option ℕ
list_next m e = if is_head m e || is_interior m e then some (m.next e) else none

unfoldable pub list_end : ℕ → Option ℕ
list_end l = if l == 0 then none else some (tail_of l)

unfoldable pub list_rbegin : Links → ℕ → Option ℕ
list_rbegin m l = if l == 0 then none else some (m.prev (tail_of l))

unfoldable pub list_prev : Links → ℕ → Option ℕ
list_prev m e = if is_interior m e || is_tail m e then some (m.prev e) else none

-- list_rend and list_head
unfoldable pub list_head : ℕ → Option ℕ
list_head l = if l == 0 then none else some l

-- The four assignments of list_insert.
unfoldable pub linked : Links → ℕ → ℕ → Links
linked m before e =
    let m1 = set_prev m e (m.prev before) in
    let m2 = set_next m1 e before in let m3 = set_next m2 (m2.prev before) e in set_prev m3 before e

unfoldable pub list_insert : Links → ℕ → ℕ → Option Links
unfolding linked
list_insert m before e =
    if not (is_interior m before || is_tail m before)
    then none
    else if e == 0
    then none
    else some (linked m before e)

-- The two assignments of list_remove.
unfoldable pub unlinked : Links → ℕ → Links
unlinked m e = let m1 = set_next m (m.prev e) (m.next e) in set_prev m1 (m1.next e) (m1.prev e)

unfoldable pub list_unlink : Links → ℕ → Option (ℕ × Links)
unfolding unlinked
list_unlink m e = if is_interior m e then some ((unlinked m e).next e, unlinked m e) else none

-- The assignments of list_splice, with `last` the last element to move.
unfoldable pub spliced : Links → ℕ → ℕ → ℕ → Links
spliced m before first last =
    let m1 = set_next m (m.prev first) (m.next last) in
    let m2 = set_prev m1 (m1.next last) (m1.prev first) in
    let m3 = set_prev m2 first (m2.prev before) in
    let m4 = set_next m3 last before in
    let m5 = set_next m4 (m4.prev before) first in set_prev m5 before last

unfoldable pub list_splice : Links → ℕ → ℕ → ℕ → Option Links
unfolding spliced list_prev
list_splice m before first last =
    if not (is_interior m before || is_tail m before)
    then none
    else if first == last
    then some m
    else elim (list_prev m last) [
      | none ↦ none
      | some last' ↦
          if is_interior m first && is_interior m last'
          then some (spliced m before first last')
          else none
    ]

abbrev pub insert_at : Links → Option ℕ → ℕ → Option Links
insert_at m none e = none
insert_at m (some before) e = list_insert m before e

unfoldable pub link_front : Links → ℕ → ℕ → Option Links
unfolding list_begin list_insert
link_front m l e = insert_at m (list_begin m l) e

unfoldable pub link_back : Links → ℕ → ℕ → Option Links
unfolding list_end list_insert
link_back m l e = insert_at m (list_end l) e

unfoldable pub no_elements : Links → ℕ → Option Bool
no_elements m l = if l == 0 then none else some (m.next l == tail_of l)

unfoldable pub first_element : Links → ℕ → Option ℕ
unfolding no_elements
first_element m l = elim (no_elements m l) [
  | none ↦ none
  | some empty ↦ if empty then none else some (m.next l)
]

unfoldable pub list_back : Links → ℕ → Option ℕ
unfolding no_elements
list_back m l = elim (no_elements m l) [
  | none ↦ none
  | some empty ↦ if empty then none else some (m.prev (tail_of l))
]

-- list_remove of an element that has been read.
abbrev pub taken : Links → Option ℕ → Option (ℕ × Links)
taken m none = none
taken m (some e) = elim (list_unlink m e) [ none ↦ none | some r ↦ some (e, r.1) ]

unfoldable pub list_pop_front : Links → ℕ → Option (ℕ × Links)
unfolding first_element list_unlink
list_pop_front m l = taken m (first_element m l)

unfoldable pub list_pop_back : Links → ℕ → Option (ℕ × Links)
unfolding list_back list_unlink
list_pop_back m l = taken m (list_back m l)

-- The loop of list_size, from element `e`.
unfoldable pub count_from : ℕ → Links → ℕ → ℕ → Option ℕ
unfolding list_next
count_from zero m l e = none
count_from (suc fuel) m l e = if e == tail_of l then some 0 else elim (list_next m e) [
  | none ↦ none
  | some e' ↦ elim (count_from fuel m l e') [ none ↦ none | some n ↦ some (suc n) ]
]

-- The loop of list_reverse, from element `e`, which swaps the pointers of each element.
unfoldable pub turn_from : ℕ → Links → ℕ → ℕ → Option Links
turn_from zero m l e = none
turn_from (suc fuel) m l e =
    let turned = set_next (set_prev m e (m.next e)) e (m.prev e) in
    let rest = turn_from fuel turned l (m.next e) in if e == tail_of l then some m else rest

unfoldable pub list_reverse : ℕ → Links → ℕ → Option Links
list_reverse fuel m l = elim (no_elements m l) [
  | none ↦ none
  | some empty ↦ if empty then some m else elim (turn_from fuel m l (m.next l)) [
    | none ↦ none
    | some m1 ↦
        let t = tail_of l in
        let m2 = set_prev (set_next m1 l (m1.prev t)) t (m1.next l) in
        let first = m2.next l in
        let last = m2.prev t in
        some (set_next (set_prev m2 first (m2.next last)) last (m2.prev first))
  ]
]
