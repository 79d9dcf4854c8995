-- ===== src/Sjf/Lookup.antt =====
-- The estimates by name: get_total_exec finds the first thread of a name, or registers a new one.
use calendarizador.Prelude.{
  ◌≡◌, ◌⊎◌, refl, true, false, Option, none, some, List, [], ◌∷◌, ◌++◌, ℕ, arith, All, Bool-cases,
  inl, inr,
}
use calendarizador.Prelude.Int.{ℤ, pos}
use calendarizador.LinkedList.{list_push_back}
use calendarizador.Kernel.{Ptr, Thread, Kernel}
use calendarizador.Sjf.{same_name, find_total_exec, get_total_exec}

-- A live page whose name is not the name.
abbrev pub IsOther : Kernel → List ℕ → Ptr → Type 0
IsOther k name t = (th : Thread) × (k.threads t ≡ some th) × (same_name th.name name ≡ false)

-- The first thread of the list with the name.
pub record FirstNamed (k : Kernel) (name : List ℕ) (ts : List Ptr) (th : Thread) : Type 0 where
  pub t : Ptr
  pub front : List Ptr
  pub back : List Ptr
  pub split : ts ≡ front ++ t ∷ back
  pub live : k.threads t ≡ some th
  pub named : same_name th.name name ≡ true
  pub others : All (IsOther k name) front

module _ (k : Kernel) (name : List ℕ) (t : Ptr) (ts : List Ptr) (th : Thread)
    (live : k.threads t ≡ some th) where
  find-here :
      same_name th.name name ≡ true → find_total_exec name (t ∷ ts) k ≡ some (some th.total_exec, k)
  unfolding find_total_exec
  find-here same = ground arith

  find-later :
      {r : Option ℤ}
      → same_name th.name name ≡ false
      → find_total_exec name ts k ≡ some (r, k)
      → find_total_exec name (t ∷ ts) k ≡ some (r, k)
  unfolding find_total_exec
  find-later other e = ground arith

find_total_exec-cases :
    (k : Kernel) (name : List ℕ) (ts : List Ptr)
    → All (λ t. (th : Thread) × (k.threads t ≡ some th)) ts
    → ((th : Thread) × (find_total_exec name ts k ≡ some (some th.total_exec, k))
        × FirstNamed k name ts th)
      ⊎ (find_total_exec name ts k ≡ some (none, k)) × All (IsOther k name) ts
unfolding find_total_exec
find_total_exec-cases k name [] all = inr (refl, tt)
find_total_exec-cases k name (t ∷ ts) all =
    let (th, live) = all.0 in
    elim (Bool-cases (same_name th.name name)) [
      | inl same ↦ inl (
        th,
        find-here k name t ts th live same,
        record {
          t = t;
          front = [];
          back = ts;
          split = refl;
          live = live;
          named = same;
          others = tt;
        },
      )
      | inr other ↦ elim (find_total_exec-cases k name ts all.1) [
        | inl (th', e, f) ↦ inl (
          th',
          find-later k name t ts th live other e,
          record {
            t = f.t;
            front = t ∷ f.front;
            back = f.back;
            split = λ i. t ∷ f.split i;
            live = f.live;
            named = f.named;
            others = ((th, live, other), f.others);
          },
        )
        | inr (e, others) ↦
            inr (find-later k name t ts th live other e, ((th, live, other), others))
      ]
    ]

-- Where the threads of all_all_list are live pages, get_total_exec of a live page does not fail. It
-- gives the estimate of the first of them with the name of the thread and changes nothing, or, where
-- none has that name, it gives 0 and puts the thread at the end of the list.
pub get_total_exec-cases :
    (k : Kernel) (t : Ptr) (own : Thread)
    → k.threads t ≡ some own
    → All (λ u. (th : Thread) × (k.threads u ≡ some th)) k.all_all_list
    → ((th : Thread) × (get_total_exec t k ≡ some (th.total_exec, k))
        × FirstNamed k own.name k.all_all_list th)
      ⊎ (get_total_exec t k
          ≡ some (pos 0, record k { all_all_list = list_push_back k.all_all_list t }))
        × All (IsOther k own.name) k.all_all_list
unfolding get_total_exec
get_total_exec-cases k t own live all = elim (find_total_exec-cases k own.name k.all_all_list all) [
  | inl (th, e, f) ↦ inl (th, ground arith, f)
  | inr (e, others) ↦ inr (ground arith, others)
]
