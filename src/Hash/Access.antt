-- ===== src/Hash/Access.antt =====
-- The operations of a table, as operations on the set that it holds.
use calendarizador.Prelude.{
  ℕ, ◌-◌, ◌^◌, ◌<◌, ◌≡◌, inl, inr, refl, Bool, true, false, Option, none, some, arith, Bool-cases,
}
use mathlib.Core.Path.{subst}
use calendarizador.Hash.{Hash, hash_init, equals, hash_insert, hash_replace, hash_delete}
use calendarizador.Hash.Table.{
  IsHashable, Holds, Found, add, drop, hash_find-Found, equals_sym, elem_cnt-remove_elem,
  insert_elem-Holds, remove_elem-Holds,
}
use calendarizador.Hash.Rehash.{rehash-Holds, size-no_elems}

-- The calls that change a table, each with its element.
pub data Access : Type 0 where
  insert replace delete : (e : ℕ) → Access

abbrev pub element : Access → ℕ
element (insert e) = e
element (replace e) = e
element (delete e) = e

abbrev pub access : (ℕ → ℕ) → (ℕ → ℕ → Bool) → Bool → Hash → Access → Option (Option ℕ × Hash)
access hash less room h (insert e) = hash_insert hash less room h e
access hash less room h (replace e) = hash_replace hash less room h e
access hash less room h (delete e) = hash_delete hash less room h e

-- The set without an element that was found.
abbrev pub without : (ℕ → Bool) → Option ℕ → ℕ → Bool
without set none = set
without set (some x) = drop set x

-- The set after a call that found `old`.
abbrev pub set_after : (ℕ → Bool) → Option ℕ → Access → ℕ → Bool
set_after set none (insert e) = add set e
set_after set (some x) (insert e) = set
set_after set old (replace e) = add (without set old) e
set_after set old (delete e) = without set old

module _ {hash : ℕ → ℕ} {less : ℕ → ℕ → Bool} (able : IsHashable hash less) where
  -- A new table holds the empty set.
  pub hash_init-Holds : (h : Hash) → hash_init true ≡ some h → Holds hash less h (λ x. false)
  unfolding hash_init
  hash_init-Holds h e =
      subst (λ h. Holds hash less h (λ x. false)) (from_some e)
        (record {
          some_bucket = omega arith;
          placed = λ x i lt. ground arith;
          counted = size-no_elems 0 4;
          word = omega arith;
          unique = λ x y hx hy same. absurd (ground arith);
        })
    where
      from_some : {a : Hash} → some a ≡ some h → a ≡ h
      from_some {a = a} p = λ i. elim (p i) as (λ _. Hash) [ none ↦ a | some b ↦ b ]

  -- Without the element that is equal to `e`, no element is.
  differs_still :
      {h : Hash} {set : ℕ → Bool}
      → Holds hash less h set
      → (e x : ℕ) → set x ≡ true
      → equals less x e ≡ true
      → (y : ℕ) → drop set x y ≡ true
      → equals less y e ≡ false
  differs_still {h = h} {set = set} holds e x inside same y rest =
      elim (Bool-cases (equals less y e)) [
        | inr differs ↦ differs
        | inl both ↦
            let back = equals_sym able x e same in
            let p : y ≡ x = holds.unique y x (ground arith) inside (able.chain y e x both back) in
            absurd (ground arith)
      ]

  module _ {h : Hash} {set : ℕ → Bool} (holds : Holds hash less h set) (room : Bool)
      (small : h.elem_cnt < 2 ^ 32 - 1) where
    abbrev Accessed : Access → Type 0
    Accessed a =
        (old : Option ℕ) × (h' : Hash) × (access hash less room h a ≡ some (old, h'))
        × Found able set (element a) old
        × Holds hash less h' (set_after set old a)

    insert-Accessed : (e : ℕ) → Accessed (insert e)
    unfolding hash_insert
    insert-Accessed e = elim (hash_find-Found able holds e) [
      | inl (x, found, inside, same) ↦
          let (h', run, holds') = rehash-Holds holds room in
          (some x, h', rw (hash_insert, found, run) refl, inl (x, refl, inside, same), holds')
      | inr (missed, differ) ↦
          let (h', run, holds') = rehash-Holds (insert_elem-Holds able holds e differ small) room in
          (none, h', rw (hash_insert, missed, run) refl, inr (refl, differ), holds')
    ]

    delete-Accessed : (e : ℕ) → Accessed (delete e)
    unfolding hash_delete
    delete-Accessed e = elim (hash_find-Found able holds e) [
      | inl (x, found, inside, same) ↦
          let (h', run, holds') = rehash-Holds (remove_elem-Holds able holds x inside) room in
          (some x, h', rw (hash_delete, found, run) refl, inl (x, refl, inside, same), holds')
      | inr (missed, differ) ↦ (none, h, rw (hash_delete, missed) refl, inr (refl, differ), holds)
    ]

    replace-Accessed : (e : ℕ) → Accessed (replace e)
    unfolding hash_replace
    replace-Accessed e = elim (hash_find-Found able holds e) [
      | inl (x, found, inside, same) ↦
          let others : (y : ℕ) → drop set x y ≡ true → equals less y e ≡ false =
            λ y rest. differs_still holds e x inside same y rest in
          let removed = remove_elem-Holds able holds x inside in
          let (h', run, holds') =
            rehash-Holds
              (insert_elem-Holds able removed e others
                (omega (arith, small, elem_cnt-remove_elem able holds x inside)))
              room in
          (some x, h', rw (hash_replace, found, run) refl, inl (x, refl, inside, same), holds')
      | inr (missed, differ) ↦
          let (h', run, holds') = rehash-Holds (insert_elem-Holds able holds e differ small) room in
          (none, h', rw (hash_replace, missed, run) refl, inr (refl, differ), holds')
    ]

    -- With functions that the table can use, fewer than 2^32 - 1 elements, and memory for a new array
    -- or not, hash_insert, hash_replace and hash_delete end on a table that holds a set. The result is
    -- an element of the set that is equal to the argument, or a null pointer, and then there is none.
    -- The new table holds the set with the argument added if no equal element was found (insert), with
    -- the element found taken out and the argument added (replace), or with it taken out (delete).
    pub access-Accessed : (a : Access) → Accessed a
    access-Accessed (insert e) = insert-Accessed e
    access-Accessed (replace e) = replace-Accessed e
    access-Accessed (delete e) = delete-Accessed e
