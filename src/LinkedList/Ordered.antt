-- ===== src/LinkedList/Ordered.antt =====
-- list_insert_ordered, list_unique, list_max and list_min.
use calendarizador.Prelude.{
  ◌≡◌, refl, sym, Bool, true, false, some, List, [], ◌∷◌, ◌++◌, arith, All, keep, Bool-cases, inl,
  inr, if◌then◌else◌, ap,
}
use mathlib.Core.List.{Perm, perm_middle, append-nil}
use mathlib.Core.List.Perm
use mathlib.Core.Path.{subst}
use calendarizador.LinkedList.{list_insert_ordered, max_from, min_from, list_max, list_min}
use calendarizador.LinkedList.Sort.Order.{IsOrder, IsSorted, AllAbove-trans}
use calendarizador.LinkedList.Sort.Merge.{IsClass, keep-behind}

module _ {ℓ} {A : Type ℓ} (less : A → A → Bool) where
  pub All-list_insert_ordered :
      (P : A → Type 0) (e : A) (xs : List A)
      → P e
      → All P xs
      → All P (list_insert_ordered less e xs)
  unfolding list_insert_ordered
  All-list_insert_ordered P e [] h hs = (h, tt)
  All-list_insert_ordered P e (x ∷ xs) h hs = elim (Bool-cases (less e x)) [
    | inl before ↦ rw before (h, hs)
    | inr after ↦ rw after (hs.0, All-list_insert_ordered P e xs h hs.1)
  ]

  pub list_insert_ordered-perm :
      (e : A) (xs : List A) → Perm (list_insert_ordered less e xs) (e ∷ xs)
  unfolding list_insert_ordered
  list_insert_ordered-perm e [] = Perm.refl _
  list_insert_ordered-perm e (x ∷ xs) = elim (Bool-cases (less e x)) [
    | inl before ↦ rw before (Perm.refl _)
    | inr after ↦
        rw after
          (Perm.trans (Perm.cons x (list_insert_ordered-perm e xs)) (perm_middle (x ∷ []) xs))
  ]

-- What list_insert_ordered makes of a sorted list: the new element stands behind those that it is
-- equal to.
pub record IsInsertOf {ℓ} {A : Type ℓ} (less : A → A → Bool) (e : A) (ys xs : List A) : Type ℓ where
  pub sorted : IsSorted less ys
  pub same : Perm ys (e ∷ xs)
  pub behind_equals : (p : A → Bool) → IsClass less p → keep p ys ≡ keep p xs ++ keep p (e ∷ [])

module _ {ℓ} {A : Type ℓ} {less : A → A → Bool} (order : IsOrder less) where
  list_insert_ordered-IsSorted :
      (e : A) (xs : List A) → IsSorted less xs → IsSorted less (list_insert_ordered less e xs)
  unfolding list_insert_ordered
  list_insert_ordered-IsSorted e [] h = (tt, tt)
  list_insert_ordered-IsSorted e (x ∷ xs) h = elim (Bool-cases (less e x)) [
    | inl before ↦
        let after = order.asymm e x before in
        rw before ((after, AllAbove-trans order e x xs after h.0), h)
    | inr after ↦ rw after (
      All-list_insert_ordered less (λ z. less z x ≡ false) e xs after h.0,
      list_insert_ordered-IsSorted e xs h.1,
    )
  ]

  keep-list_insert_ordered :
      (p : A → Bool) (class : IsClass less p) (e : A) (xs : List A)
      → IsSorted less xs
      → keep p (list_insert_ordered less e xs) ≡ keep p xs ++ keep p (e ∷ [])
  unfolding list_insert_ordered
  keep-list_insert_ordered p class e [] h = refl
  keep-list_insert_ordered p class e (x ∷ xs) h = elim (Bool-cases (less e x)) [
    | inl before ↦ elim (Bool-cases (p e)) [
      | inl pe ↦
          let (no_x, none) = keep-behind order p class e x xs pe before h.0 in
          ground (arith, no_x, none)
      | inr other ↦ rw (before, other) (sym (append-nil (keep p (x ∷ xs))))
    ]
    | inr after ↦ ground (arith, keep-list_insert_ordered p class e xs h.1)
  ]

  -- Put into a sorted list, an element stands in order and behind those that it is equal to; the
  -- others keep their order.
  pub list_insert_ordered-IsInsertOf :
      (e : A) (xs : List A)
      → IsSorted less xs
      → IsInsertOf less e (list_insert_ordered less e xs) xs
  list_insert_ordered-IsInsertOf e xs h = record {
    sorted = list_insert_ordered-IsSorted e xs h;
    same = list_insert_ordered-perm less e xs;
    behind_equals = λ p class. keep-list_insert_ordered p class e xs h;
  }

-- `r` comes from `xs`; by `before r` it beats all in front of it, and by `not_after r` none behind
-- it beats it.
pub record IsFirst {ℓ} {A : Type ℓ} (less : A → A → Bool) (r : A) (xs : List A) : Type ℓ where
  pub front : List A
  pub back : List A
  pub split : xs ≡ front ++ r ∷ back
  pub beats : All (λ x. less x r ≡ true) front
  pub unbeaten : All (λ x. less r x ≡ false) back

module _ {ℓ} {A : Type ℓ} {less : A → A → Bool} (order : IsOrder less) where
  lt-of-lt-le : (a b c : A) → less a b ≡ true → less c b ≡ false → less a c ≡ true
  lt-of-lt-le a b c ab cb = elim (Bool-cases (less a c)) [
    | inl h ↦ h
    | inr h ↦ cc (order.trans b c a cb h)
  ]

  lt-of-le-lt : (a b c : A) → less b a ≡ false → less b c ≡ true → less a c ≡ true
  lt-of-le-lt a b c ba bc = elim (Bool-cases (less a c)) [
    | inl h ↦ h
    | inr h ↦ cc (order.trans c a b h ba)
  ]

  -- The front of a list is not beaten by its maximum in strict order only if it is it.
  le-IsFirst : (m : A) (xs : List A) (r : A) → IsFirst less r (m ∷ xs) → less r m ≡ false
  le-IsFirst m xs r f = go f.front f.split f.beats
    where
      irrefl : less r r ≡ false
      irrefl = elim (Bool-cases (less r r)) [ inl h ↦ cc (order.asymm r r h) | inr h ↦ h ]

      go :
          (front : List A)
          → m ∷ xs ≡ front ++ r ∷ f.back
          → All (λ x. less x r ≡ true) front
          → less r m ≡ false
      go [] e b = cc irrefl
      go (y ∷ ys) e b = cc (order.asymm y r b.0)

  max_from-IsFirst : (m : A) (xs : List A) → IsFirst less (max_from less m xs) (m ∷ xs)
  unfolding max_from
  max_from-IsFirst m [] = record { front = []; back = []; split = refl; beats = tt; unbeaten = tt }
  max_from-IsFirst m (e ∷ xs) = elim (Bool-cases (less m e)) [
    | inl up ↦ rw up (take_up up (max_from-IsFirst e xs))
    | inr stay ↦ rw stay (take_stay stay (max_from-IsFirst m xs))
  ]
    where
      take_up : {r : A} → less m e ≡ true → IsFirst less r (e ∷ xs) → IsFirst less r (m ∷ e ∷ xs)
      take_up {r} up f = record {
        front = m ∷ f.front;
        back = f.back;
        split = ap (λ l. m ∷ l) f.split;
        beats = (lt-of-lt-le m e r up (le-IsFirst e xs r f), f.beats);
        unbeaten = f.unbeaten;
      }

      take_stay : {r : A} → less m e ≡ false → IsFirst less r (m ∷ xs) → IsFirst less r (m ∷ e ∷ xs)
      take_stay {r} stay f = go f.front f.split f.beats
        where
          go :
              (front : List A)
              → m ∷ xs ≡ front ++ r ∷ f.back
              → All (λ x. less x r ≡ true) front
              → IsFirst less r (m ∷ e ∷ xs)
          go [] s b = record {
            front = [];
            back = e ∷ f.back;
            split = cc;
            beats = tt;
            unbeaten = (cc, f.unbeaten);
          }
          go (y ∷ ys) s b = record {
            front = m ∷ e ∷ ys;
            back = f.back;
            split = cc;
            beats = (cc, (lt-of-le-lt e m r stay cc, b.1));
            unbeaten = f.unbeaten;
          }

  -- list_max of a list with elements is one of them; those in front of it are less than it, and it
  -- is less than none behind it.
  pub list_max-IsFirst :
      (x : A) (xs : List A) → (r : A) × (list_max less (x ∷ xs) ≡ some r) × IsFirst less r (x ∷ xs)
  unfolding list_max
  list_max-IsFirst x xs = (max_from less x xs, refl, max_from-IsFirst x xs)

abbrev flip {ℓ} : {A : Type ℓ} → (A → A → Bool) → A → A → Bool
flip less a b = less b a

module _ {ℓ} {A : Type ℓ} (less : A → A → Bool) where
  min_from-eq-max_from : (m : A) (xs : List A) → min_from less m xs ≡ max_from (flip less) m xs
  unfolding min_from max_from
  min_from-eq-max_from m [] = refl
  min_from-eq-max_from m (e ∷ xs) = min_from-eq-max_from (if less e m then e else m) xs

module _ {ℓ} {A : Type ℓ} {less : A → A → Bool} (order : IsOrder less) where
  flip-IsOrder : IsOrder (flip less)
  flip-IsOrder = record {
    asymm = λ a b h. order.asymm b a h;
    trans = λ a b c h k. order.trans c b a k h;
  }

  -- list_min of a list with elements is one of them; it is less than those in front of it, and none
  -- behind it is less than it.
  pub list_min-IsFirst :
      (x : A) (xs : List A)
      → (r : A) × (list_min less (x ∷ xs) ≡ some r) × IsFirst (flip less) r (x ∷ xs)
  unfolding list_min
  list_min-IsFirst x xs = (
    min_from less x xs,
    refl,
    subst (λ r. IsFirst (flip less) r (x ∷ xs)) (sym (min_from-eq-max_from less x xs))
        (max_from-IsFirst flip-IsOrder x xs),
  )
