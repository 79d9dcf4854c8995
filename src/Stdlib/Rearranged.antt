-- ===== src/Stdlib/Rearranged.antt =====
-- Arrays with the same elements in another order.
use calendarizador.Prelude.{
  ℕ, ◌≤◌, ◌<◌, ◌≡◌, ◌⊎◌, inl, inr, refl, ap, ◌∙◌, ◌==◌, arith, if◌then◌else◌, Bool-cases,
}
use calendarizador.Stdlib.{do_swap}

-- `b` has the elements of `a`, and those at the indices 1 ... n in another order.
pub record Rearranged {A : Type 0} (n : ℕ) (a b : ℕ → A) : Type 0 where
  pub to : ℕ → ℕ
  pub back : ℕ → ℕ
  pub moved : (k : ℕ) → b k ≡ a (to k)
  pub to_back : (k : ℕ) → to (back k) ≡ k
  pub back_to : (k : ℕ) → back (to k) ≡ k
  pub inside : (k : ℕ) → 1 ≤ k → k ≤ n → (1 ≤ to k) × (to k ≤ n)
  pub outside : (k : ℕ) → (k ≡ 0) ⊎ (n < k) → to k ≡ k

module _ {A : Type 0} where
  pub Rearranged-refl : (n : ℕ) (a : ℕ → A) → Rearranged n a a
  Rearranged-refl n a = record {
    to = λ k. k;
    back = λ k. k;
    moved = λ k. refl;
    to_back = λ k. refl;
    back_to = λ k. refl;
    inside = λ k lo hi. (lo, hi);
    outside = λ k out. refl;
  }

  pub Rearranged-trans :
      {n : ℕ} {a b c : ℕ → A} → Rearranged n a b → Rearranged n b c → Rearranged n a c
  Rearranged-trans f g = record {
    to = λ k. f.to (g.to k);
    back = λ k. g.back (f.back k);
    moved = λ k. g.moved k ∙ f.moved (g.to k);
    to_back = λ k. ap f.to (g.to_back (f.back k)) ∙ f.to_back k;
    back_to = λ k. ap g.back (f.back_to (g.to k)) ∙ g.back_to k;
    inside = λ k lo hi. let (lo', hi') = g.inside k lo hi in f.inside (g.to k) lo' hi';
    outside = λ k out. ap f.to (g.outside k out) ∙ f.outside k out;
  }

  pub Rearranged-widen : {n n' : ℕ} {a b : ℕ → A} → n ≤ n' → Rearranged n a b → Rearranged n' a b
  Rearranged-widen {n = n} {n' = n'} le f = record {
    to = f.to;
    back = f.back;
    moved = f.moved;
    to_back = f.to_back;
    back_to = f.back_to;
    inside = λ k lo hi. ground (arith, f.inside k lo, f.outside k);
    outside = λ k out. f.outside k (ground arith);
  }

  pub do_swap-Rearranged :
      (n : ℕ) (a : ℕ → A) (i j : ℕ) → 1 ≤ i → i ≤ n → 1 ≤ j → j ≤ n → Rearranged n a (do_swap a i j)
  unfolding do_swap
  do_swap-Rearranged n a i j li hi lj hj =
      let swap : ℕ → ℕ = λ k. if k == i then j else if k == j then i else k in
      record {
        to = swap;
        back = swap;
        moved = λ k. grind arith;
        to_back = λ k. ground arith;
        back_to = λ k. ground arith;
        inside = λ k lo up. elim (Bool-cases (k == i)) [
          | inl first ↦ rw first (lj, hj)
          | inr other ↦ elim (Bool-cases (k == j)) [
            | inl second ↦ rw (other, second) (li, hi)
            | inr apart ↦ rw (other, apart) (lo, up)
          ]
        ];
        outside = λ k out. ground arith;
      }
