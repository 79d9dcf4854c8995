-- ===== src/Prelude/Perms.antt =====
-- Lists of numbers with the same elements: the same members, and as distinct.
use native.Mathlib.Nat.{ℕ_set}
use calendarizador.Prelude.{
  ℕ, suc, ◌≤◌, ◌≡◌, refl, sym, ◌∙◌, true, false, List, [], ◌∷◌, ◌==◌, if◌then◌else◌, has, Distinct,
  arith, Bool-cases, inl, inr,
}
use mathlib.Core.List.{Perm, foldr}
use mathlib.Core.List.Perm

-- How often a number is in a list.
abbrev tally : ℕ → ℕ → ℕ → ℕ
tally a x n = if a == x then suc n else n

tally_comm : (a x y n : ℕ) → tally a x (tally a y n) ≡ tally a y (tally a x n)
tally_comm a x y n = elim (Bool-cases (a == x)) [
  | inl here ↦ rw here (elim (Bool-cases (a == y)) [ inl h ↦ rw h refl | inr h ↦ rw h refl ])
  | inr other ↦ rw other refl
]

abbrev times : ℕ → List ℕ → ℕ
times a xs = foldr (tally a) 0 xs

times-Perm : (a : ℕ) {xs ys : List ℕ} → Perm xs ys → times a xs ≡ times a ys
times-Perm a p = Perm.foldr-eq ℕ_set (tally a) (tally_comm a) p 0

has-times : (a : ℕ) (xs : List ℕ) → has a xs ≡ (if times a xs == 0 then false else true)
has-times a [] = refl
has-times a (x ∷ xs) = ground (arith, has-times a xs)

times-Distinct : (a : ℕ) (xs : List ℕ) → Distinct xs → times a xs ≤ 1
times-Distinct a [] d = omega arith
times-Distinct a (x ∷ xs) (new, d) =
    ground (arith, has-times x xs, has-times a xs, times-Distinct a xs d)

Distinct-times : (xs : List ℕ) → ((a : ℕ) → times a xs ≤ 1) → Distinct xs
Distinct-times [] h = tt
Distinct-times (x ∷ xs) h =
    (ground (arith, has-times x xs, h x), Distinct-times xs (λ a. ground (arith, h a)))

pub has-Perm : (a : ℕ) {xs ys : List ℕ} → Perm xs ys → has a xs ≡ has a ys
has-Perm a {xs} {ys} p =
    has-times a xs ∙ (λ i. if times-Perm a p i == 0 then false else true) ∙ sym (has-times a ys)

pub Distinct-Perm : {xs ys : List ℕ} → Perm xs ys → Distinct xs → Distinct ys
Distinct-Perm {xs} {ys} p d =
    Distinct-times ys (λ a. omega (arith, times-Perm a p, times-Distinct a xs d))
