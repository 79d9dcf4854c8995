-- ===== src/LinkedList/Sort/Pass.antt =====
-- One pass of list_sort: it merges neighbouring runs, and puts out half as many.
use calendarizador.Prelude.{
  ℕ, zero, suc, ◌+◌, ◌≤◌, ◌≡◌, refl, sym, ap, ◌∙◌, Bool, Option, some, List, [], ◌∷◌, ◌++◌, length,
  arith, length-append, keep, keep-append,
}
use mathlib.Core.Path.{subst, ap₂}
use mathlib.Core.List.{Perm, append_assoc, append-nil}
use mathlib.Core.List.Perm
use calendarizador.LinkedList.{merge_loop, inplace_merge, before_rest, merge_runs, sort_pass}
use calendarizador.LinkedList.Sort.Order.{IsOrder, IsSorted, is_sorted-IsSorted}
use calendarizador.LinkedList.Sort.Runs.{
  run_of, rest_of, run-append-rest, run_count, run_count-rest, run_count-append, nil_of_run_count,
  run-IsSorted,
}
use calendarizador.LinkedList.Sort.Merge.{
  merge_loop-perm, merge_loop-IsSorted, IsClass, keep-merge_loop,
}

-- What a pass over `xs` makes of it.
pub record Passed {ℓ} {A : Type ℓ} (less : A → A → Bool) (xs out : List A) (cnt : ℕ) : Type ℓ where
  pub same : Perm out xs
  pub fewer : run_count less out ≤ cnt
  pub halved : (cnt + cnt ≤ run_count less xs + 1) × (run_count less xs ≤ cnt + cnt)
  pub done : cnt ≤ 1 → IsSorted less out
  pub stable : (p : A → Bool) → IsClass less p → keep p out ≡ keep p xs

module _ {ℓ} {A : Type ℓ} {less : A → A → Bool} (order : IsOrder less) where
  abbrev merged : A → List A → A → List A → List A
  merged a xs b ys = merge_loop less (length (a ∷ xs) + length (b ∷ ys)) (a ∷ xs) (b ∷ ys)

  merged-IsSorted :
      (a : A) (xs : List A) (b : A) (ys : List A)
      → IsSorted less (a ∷ xs)
      → IsSorted less (b ∷ ys)
      → IsSorted less (merged a xs b ys)
  merged-IsSorted a xs b ys hx hy =
      merge_loop-IsSorted order _ (a ∷ xs) (b ∷ ys) (omega arith) hx hy

  -- A list is its first two runs and what stands behind them.
  first_runs :
      (a : A) (xs : List A) (b : A) (ys : List A)
      → rest_of less a xs ≡ b ∷ ys
      → ((a ∷ run_of less a xs) ++ b ∷ run_of less b ys) ++ rest_of less b ys ≡ a ∷ xs
  first_runs a xs b ys e =
      append_assoc (a ∷ run_of less a xs) (b ∷ run_of less b ys) (rest_of less b ys)
      ∙ ap (λ l. (a ∷ run_of less a xs) ++ b ∷ l) (run-append-rest less b ys)
      ∙ ap (λ l. (a ∷ run_of less a xs) ++ l) (sym e)
      ∙ ap (λ l. a ∷ l) (run-append-rest less a xs)

  keep_first_runs :
      (p : A → Bool) (a : A) (xs : List A) (b : A) (ys : List A)
      → rest_of less a xs ≡ b ∷ ys
      → (keep p (a ∷ run_of less a xs) ++ keep p (b ∷ run_of less b ys))
          ++ keep p (rest_of less b ys)
        ≡ keep p (a ∷ xs)
  keep_first_runs p a xs b ys e =
      ap (λ l. l ++ keep p (rest_of less b ys))
        (sym (keep-append p (a ∷ run_of less a xs) (b ∷ run_of less b ys)))
      ∙ sym (keep-append p ((a ∷ run_of less a xs) ++ b ∷ run_of less b ys) (rest_of less b ys))
      ∙ ap (keep p) (first_runs a xs b ys e)

  -- A merged pair of runs in front of the rest of the pass.
  Passed-cons :
      (a : A) (xs : List A) (b : A) (ys out : List A) (cnt : ℕ)
      → rest_of less a xs ≡ b ∷ ys
      → Passed less (rest_of less b ys) out cnt
      → Passed less (a ∷ xs) (merged a (run_of less a xs) b (run_of less b ys) ++ out) (suc cnt)
  Passed-cons a xs b ys out cnt e p =
      let sorted =
        merged-IsSorted a (run_of less a xs) b (run_of less b ys) (run-IsSorted order a xs)
          (run-IsSorted order b ys) in
      let runs : run_count less (a ∷ xs) ≡ suc (suc (run_count less (rest_of less b ys))) =
        run_count-rest less a xs
        ∙ ap (λ l. suc (run_count less l)) e
        ∙ ap suc (run_count-rest less b ys) in
      record {
        same =
            subst (λ l. Perm (merged a (run_of less a xs) b (run_of less b ys) ++ out) l)
              (first_runs a xs b ys e) (Perm.append (merge_loop-perm less _ _ _) p.same);
        fewer = omega (
          arith,
          p.fewer,
          run_count-append less (merged a (run_of less a xs) b (run_of less b ys)) out sorted,
        );
        halved = omega (arith, runs, p.halved.0, p.halved.1);
        done = λ one.
            let none_left : out ≡ [] = nil_of_run_count less out (omega (arith, p.fewer)) in
            subst (λ l. IsSorted less (merged a (run_of less a xs) b (run_of less b ys) ++ l))
              (sym none_left) (rw append-nil sorted);
        stable = λ q class.
            keep-append q (merged a (run_of less a xs) b (run_of less b ys)) out
            ∙ ap₂ ◌++◌
                (keep-merge_loop order q class _ (a ∷ run_of less a xs) (b ∷ run_of less b ys)
                  (run-IsSorted order a xs))
                (p.stable q class)
            ∙ keep_first_runs q a xs b ys e;
      }

  -- The last run of a pass stays as it is.
  Passed-one :
      (a : A) (xs : List A) → rest_of less a xs ≡ [] → Passed less (a ∷ xs) (a ∷ run_of less a xs) 1
  Passed-one a xs e =
      let whole : run_of less a xs ≡ xs =
        sym (append-nil (run_of less a xs))
        ∙ ap (λ l. run_of less a xs ++ l) (sym e)
        ∙ run-append-rest less a xs in
      let runs : run_count less (a ∷ xs) ≡ 1 =
        run_count-rest less a xs ∙ ap (λ l. suc (run_count less l)) e ∙ unfold run_count in refl in
      record {
        same = subst (λ l. Perm (a ∷ l) (a ∷ xs)) (sym whole) (Perm.refl _);
        fewer = subst (λ l. run_count less (a ∷ l) ≤ 1) (sym whole) (omega (arith, runs));
        halved = omega (arith, runs);
        done = λ one. run-IsSorted order a xs;
        stable = λ q class. ap (λ l. keep q (a ∷ l)) whole;
      }

  Passed-nil : Passed less [] [] 0
  unfolding run_count
  Passed-nil = record {
    same = Perm.refl _;
    fewer = omega arith;
    halved = omega arith;
    done = λ one. tt;
    stable = λ q class. refl;
  }

  length-rest : (a : A) (xs : List A) → length (rest_of less a xs) ≤ length xs
  length-rest a xs = omega (
    arith,
    ap length (run-append-rest less a xs),
    length-append (run_of less a xs) (rest_of less a xs),
  )

  -- The assertions of inplace_merge hold of two runs.
  inplace_merge-merged :
      (a : A) (xs : List A) (b : A) (ys : List A)
      → IsSorted less (a ∷ xs)
      → IsSorted less (b ∷ ys)
      → inplace_merge less (a ∷ xs) (b ∷ ys) ≡ some (merged a xs b ys)
  unfolding inplace_merge
  inplace_merge-merged a xs b ys hx hy =
      rw (is_sorted-IsSorted less (a ∷ xs) hx, is_sorted-IsSorted less (b ∷ ys) hy) refl

  -- A pass with fuel for each element does not fail.
  abbrev pub PassResult : List A → Option (List A × ℕ) → Type ℓ
  PassResult xs r = (out : List A) × (cnt : ℕ) × (r ≡ some (out, cnt)) × Passed less xs out cnt

  pub sort_pass-Passed : (n : ℕ) (xs : List A) → length xs ≤ n → PassResult xs (sort_pass less n xs)
  unfolding sort_pass before_rest
  sort_pass-Passed zero [] f = ([], 0, refl, Passed-nil)
  sort_pass-Passed zero (x ∷ xs) f = absurd (omega arith)
  sort_pass-Passed (suc n) [] f = ([], 0, refl, Passed-nil)
  sort_pass-Passed (suc n) (a ∷ xs) f = go (rest_of less a xs) refl (λ b ys e.
      sort_pass-Passed n (rest_of less b ys)
        (omega (arith, length-rest a xs, length-rest b ys, ap length e)))
    where
      step : List A → Option (List A × ℕ)
      step rest = merge_runs less (sort_pass less n) a (run_of less a xs) rest

      go :
          (rest : List A)
          → rest_of less a xs ≡ rest
          → ((b : A) (ys : List A)
              → rest_of less a xs ≡ b ∷ ys
              → PassResult (rest_of less b ys) (sort_pass less n (rest_of less b ys)))
          → PassResult (a ∷ xs) (step rest)
      go [] e ih = (a ∷ run_of less a xs, 1, refl, Passed-one a xs e)
      go (b ∷ ys) e ih =
          let (out, cnt, run, p) = ih b ys e in
          let merge =
            inplace_merge-merged a (run_of less a xs) b (run_of less b ys) (run-IsSorted order a xs)
              (run-IsSorted order b ys) in
          (
            merged a (run_of less a xs) b (run_of less b ys) ++ out,
            suc cnt,
            (λ i. before_rest less (merge i) (run i)),
            Passed-cons a xs b ys out cnt e p,
          )
