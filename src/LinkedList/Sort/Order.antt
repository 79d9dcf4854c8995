-- ===== src/LinkedList/Sort/Order.antt =====
-- What list_sort relies on of its comparison, and what it is for a list to be sorted.
use calendarizador.Prelude.{Bool, true, false, ◌≡◌, refl, List, [], ◌∷◌, All, All-imp}
use calendarizador.Prelude.Int.{ℤ, ltb_ℤ, ltb_ℤ_asymm, ltb_ℤ_trans}
use calendarizador.LinkedList.{is_sorted_after, is_sorted}

pub record IsOrder {ℓ} {A : Type ℓ} (less : A → A → Bool) : Type ℓ where
  pub asymm : (a b : A) → less a b ≡ true → less b a ≡ false
  pub trans : (a b c : A) → less b a ≡ false → less c b ≡ false → less c a ≡ false

module _ {ℓ} {A : Type ℓ} (less : A → A → Bool) where
  -- Nothing in the list comes before `a`.
  abbrev pub AllAbove : A → List A → Type 0
  AllAbove a xs = All (λ x. less x a ≡ false) xs

  abbrev pub IsSorted : List A → Type 0
  IsSorted [] = Unit
  IsSorted (x ∷ xs) = AllAbove x xs × IsSorted xs

  pub is_sorted_after-IsSorted :
      (a : A) (xs : List A) → IsSorted (a ∷ xs) → is_sorted_after less a xs ≡ true
  unfolding is_sorted_after
  is_sorted_after-IsSorted a [] h = refl
  is_sorted_after-IsSorted a (b ∷ xs) h = rw h.0.0 (is_sorted_after-IsSorted b xs h.1)

  -- The assertion at the end of list_sort holds of a sorted list.
  pub is_sorted-IsSorted : (xs : List A) → IsSorted xs → is_sorted less xs ≡ true
  unfolding is_sorted
  is_sorted-IsSorted [] h = refl
  is_sorted-IsSorted (x ∷ xs) h = is_sorted_after-IsSorted x xs h

module _ {ℓ} {A : Type ℓ} {less : A → A → Bool} (order : IsOrder less) where
  pub AllAbove-trans :
      (a b : A) (xs : List A) → less b a ≡ false → AllAbove less b xs → AllAbove less a xs
  AllAbove-trans a b xs h k =
      All-imp (λ x. less x b ≡ false) (λ x. less x a ≡ false) xs (λ x. order.trans a b x h) k

-- Comparing by an integer key is an order, upward and downward.
pub by_key-IsOrder {ℓ} : {A : Type ℓ} (key : A → ℤ) → IsOrder (λ (a b : A). ltb_ℤ (key a) (key b))
by_key-IsOrder key = record {
  asymm = λ a b h. ltb_ℤ_asymm (key a) (key b) h;
  trans = λ a b c h k. ltb_ℤ_trans (key a) (key b) (key c) h k;
}

pub by_key_down-IsOrder {ℓ} :
    {A : Type ℓ} (key : A → ℤ) → IsOrder (λ (a b : A). ltb_ℤ (key b) (key a))
by_key_down-IsOrder key = record {
  asymm = λ a b h. ltb_ℤ_asymm (key b) (key a) h;
  trans = λ a b c h k. ltb_ℤ_trans (key c) (key b) (key a) k h;
}
