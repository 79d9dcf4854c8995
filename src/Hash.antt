-- ===== src/Hash.antt =====
-- pintos/src/lib/kernel/hash.c: a table of lists of elements, which are addresses. The array of
-- buckets gives an index its list, of which `bucket_cnt` are in use. `room` is whether malloc, which
-- the table calls for a new array, has memory.
pub mod Count
pub mod Table
pub mod Rehash
pub mod Access
pub mod Iterate
use Prim.Native.Nat.{bit_and, bit_xor}
use calendarizador.Prelude.{
  ℕ, zero, suc, ◌+◌, ◌-◌, ◌*◌, ◌/◌, ◌%◌, ◌^◌, Bool, true, false, not, ◌&&◌, Option, none, some,
  List, [], ◌∷◌, ◌++◌, ltb, leb, ◌==◌, if◌then◌else◌,
}
use calendarizador.LinkedList.{list_remove, list_push_front}
use calendarizador.Memory.{Memory}

pub record Hash : Type 0 where
  pub elem_cnt : ℕ
  pub bucket_cnt : ℕ
  pub buckets : ℕ → List ℕ

abbrev pub no_elems : ℕ → List ℕ
no_elems i = []

-- The elements of `n` buckets from `i` on, in the order of hash_apply.
abbrev pub elems_from : (ℕ → List ℕ) → ℕ → ℕ → List ℕ
elems_from buckets i zero = []
elems_from buckets i (suc n) = buckets i ++ elems_from buckets (suc i) n

-- hash_init; it clears the table.
unfoldable pub hash_init : (room : Bool) → Option Hash
hash_init true = some (record { elem_cnt = 0; bucket_cnt = 4; buckets = no_elems })
hash_init false = none

-- hash_clear, with the elements that the destructor is called for.
unfoldable pub hash_clear : (has_destructor : Bool) → Hash → List ℕ × Hash
hash_clear has_destructor h = (
  if has_destructor then elems_from h.buckets 0 h.bucket_cnt else [],
  record h { elem_cnt = 0; buckets = no_elems },
)

-- hash_apply, with the elements that the action is called for.
unfoldable pub hash_apply : Hash → List ℕ
hash_apply h = elems_from h.buckets 0 h.bucket_cnt

abbrev pub hash_size : Hash → ℕ
hash_size h = h.elem_cnt

abbrev pub hash_empty : Hash → Bool
hash_empty h = h.elem_cnt == 0

unfoldable pub turn_off_least_1bit : ℕ → ℕ
turn_off_least_1bit x = bit_and x (x - 1)

unfoldable pub is_power_of_2 : ℕ → Bool
unfolding turn_off_least_1bit
is_power_of_2 x = not (x == 0) && (turn_off_least_1bit x == 0)

-- The while loop of rehash; each round clears a bit.
unfoldable pub to_power_of_2 : ℕ → ℕ → Option ℕ
unfolding is_power_of_2 turn_off_least_1bit
to_power_of_2 zero cnt = none
to_power_of_2 (suc fuel) cnt =
    let rest = to_power_of_2 fuel (turn_off_least_1bit cnt) in
    if is_power_of_2 cnt then some cnt else rest

-- The number of buckets that rehash wants for `elem_cnt` elements.
unfoldable pub wanted_buckets : ℕ → Option ℕ
unfolding to_power_of_2
wanted_buckets elem_cnt =
    let cnt = if ltb (elem_cnt / 2) 4 then 4 else elem_cnt / 2 in to_power_of_2 cnt cnt

-- `l` becomes the list of bucket `i`.
abbrev pub set_bucket : (ℕ → List ℕ) → ℕ → List ℕ → ℕ → List ℕ
set_bucket buckets i l = λ j. if i == j then l else buckets j

unfoldable pub insert_elem : Hash → ℕ → ℕ → Hash
insert_elem h i e = record h {
  elem_cnt = (h.elem_cnt + 1) % 2 ^ 32;
  buckets = set_bucket h.buckets i (list_push_front (h.buckets i) e);
}

-- The element leaves the list that it is on.
unfoldable pub remove_elem : Hash → ℕ → Hash
unfolding list_remove
remove_elem h e = record h {
  elem_cnt = (h.elem_cnt + (2 ^ 32 - 1)) % 2 ^ 32;
  buckets = λ i. list_remove (h.buckets i) e;
}

abbrev pub with_result : Option ℕ → Option Hash → Option (Option ℕ × Hash)
with_result old none = none
with_result old (some h) = some (old, h)

-- `hash` is the function that a table is made with.
module _ (hash : ℕ → ℕ) where
  -- The index of the bucket that find_bucket gives, of `cnt` buckets.
  unfoldable pub find_bucket : ℕ → ℕ → ℕ
  find_bucket cnt e = bit_and (hash e) (cnt - 1)

  -- The inner loop of rehash, over what is left of an old bucket; the list that an element comes
  -- from is given up.
  unfoldable pub move_bucket : ℕ → List ℕ → (ℕ → List ℕ) → ℕ → List ℕ
  unfolding find_bucket
  move_bucket cnt [] new = new
  move_bucket cnt (e ∷ es) new =
      let i = find_bucket cnt e in move_bucket cnt es (set_bucket new i (list_push_front (new i) e))

  -- The outer loop, with `n` old buckets to go, from `i`.
  unfoldable pub move_buckets : ℕ → (ℕ → List ℕ) → ℕ → ℕ → (ℕ → List ℕ) → ℕ → List ℕ
  unfolding move_bucket
  move_buckets cnt old i zero new = new
  move_buckets cnt old i (suc n) new = move_buckets cnt old (suc i) n (move_bucket cnt (old i) new)

  unfoldable pub rehash : (room : Bool) → Hash → Option Hash
  unfolding wanted_buckets move_buckets
  rehash room h = elim (wanted_buckets h.elem_cnt) [
    | none ↦ none
    | some cnt ↦
        if cnt == h.bucket_cnt
        then some h
        else if not room
        then some h
        else some (record h {
          bucket_cnt = cnt;
          buckets = move_buckets cnt h.buckets 0 h.bucket_cnt no_elems;
        })
  ]

-- `less` is the function that compares elements.
module _ (less : ℕ → ℕ → Bool) where
  abbrev pub equals : ℕ → ℕ → Bool
  equals x y = not (less x y) && not (less y x)

  unfoldable pub find_elem : List ℕ → ℕ → Option ℕ
  find_elem [] e = none
  find_elem (x ∷ xs) e = let rest = find_elem xs e in if equals x e then some x else rest

module _ (hash : ℕ → ℕ) (less : ℕ → ℕ → Bool) where
  unfoldable pub hash_find : Hash → ℕ → Option ℕ
  unfolding find_bucket find_elem
  hash_find h e = find_elem less (h.buckets (find_bucket hash h.bucket_cnt e)) e

  -- `none` in the result is a null pointer.
  unfoldable pub hash_insert : (room : Bool) → Hash → ℕ → Option (Option ℕ × Hash)
  unfolding hash_find insert_elem rehash
  hash_insert room h new = elim (hash_find h new) [
    | none ↦
        with_result none (rehash hash room (insert_elem h (find_bucket hash h.bucket_cnt new) new))
    | some old ↦ with_result (some old) (rehash hash room h)
  ]

  unfoldable pub hash_replace : (room : Bool) → Hash → ℕ → Option (Option ℕ × Hash)
  unfolding hash_find insert_elem remove_elem rehash
  hash_replace room h new =
      let i = find_bucket hash h.bucket_cnt new in
      elim (hash_find h new) [
        | none ↦ with_result none (rehash hash room (insert_elem h i new))
        | some old ↦
            with_result (some old) (rehash hash room (insert_elem (remove_elem h old) i new))
      ]

  unfoldable pub hash_delete : (room : Bool) → Hash → ℕ → Option (Option ℕ × Hash)
  unfolding hash_find remove_elem rehash
  hash_delete room h e = elim (hash_find h e) [
    | none ↦ some (none, h)
    | some found ↦ with_result (some found) (rehash hash room (remove_elem h found))
  ]

-- An iterator: the index of its bucket, what stands behind its element there, and the element;
-- `none` is a null pointer, or the head of the first bucket at the start.
pub record HashIterator : Type 0 where
  pub bucket : ℕ
  pub behind : List ℕ
  pub elem : Option ℕ

unfoldable pub hash_first : Hash → HashIterator
hash_first h = record { bucket = 0; behind = h.buckets 0; elem = none }

-- The while loop of hash_next with `n` buckets behind the one at index `i`.
unfoldable pub next_bucket : Hash → ℕ → ℕ → HashIterator
next_bucket h i zero = record { bucket = suc i; behind = []; elem = none }
next_bucket h i (suc n) =
    let rest = next_bucket h (suc i) n in
    elim (h.buckets (suc i)) [
      | [] ↦ rest
      | e ∷ es ↦ record { bucket = suc i; behind = es; elem = some e }
    ]

unfoldable pub hash_next : Hash → HashIterator → HashIterator
unfolding next_bucket
hash_next h i = elim i.behind [
  | [] ↦ next_bucket h i.bucket (h.bucket_cnt - suc i.bucket)
  | e ∷ es ↦ record { bucket = i.bucket; behind = es; elem = some e }
]

abbrev pub hash_cur : HashIterator → Option ℕ
hash_cur i = i.elem

-- The hash of the bytes in a buffer, so far `hash`.
unfoldable pub hash_bytes_from : Memory → ℕ → ℕ → ℕ → ℕ
hash_bytes_from m hash buf zero = hash
hash_bytes_from m hash buf (suc size) =
    hash_bytes_from m (bit_xor (hash * 16777619 % 2 ^ 32) (m buf)) (suc buf) size

unfoldable pub hash_bytes : Memory → ℕ → ℕ → Option ℕ
unfolding hash_bytes_from
hash_bytes m buf size = if buf == 0 then none else some (hash_bytes_from m 2166136261 buf size)

unfoldable pub hash_string_from : ℕ → Memory → ℕ → ℕ → Option ℕ
hash_string_from zero m hash s = none
hash_string_from (suc fuel) m hash s =
    let rest = hash_string_from fuel m (bit_xor (hash * 16777619 % 2 ^ 32) (m s)) (suc s) in
    if m s == 0 then some hash else rest

unfoldable pub hash_string : ℕ → Memory → ℕ → Option ℕ
unfolding hash_string_from
hash_string fuel m s = if s == 0 then none else hash_string_from fuel m 2166136261 s
