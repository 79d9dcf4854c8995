-- ===== src/Tick/Sorting.antt =====
-- The order of the ready list under the multi-level feedback queue.
use calendarizador.Prelude.{
  ◌≡◌, refl, ◌∙◌, Bool, true, false, Option, none, some, List, [], ◌∷◌, All, has, keep, arith,
}
use mathlib.Core.List.{Perm}
use mathlib.Core.List.Perm
use calendarizador.Prelude.Perms.{has-Perm, Distinct-Perm}
use calendarizador.Prelude.Int.{ℤ, ◌≤ℤ◌, eqb_ℤ}
use calendarizador.LinkedList.Sort.Order.{IsOrder, IsSorted, by_key_down-IsOrder}
use calendarizador.LinkedList.Sort.Merge.{IsClass}
use calendarizador.LinkedList.Sort.Correct.{list_sort-IsSortOf}
use calendarizador.Kernel.{Ptr, Thread, Kernel}
use calendarizador.Scheduler.Invariant.{Place, IsConsistent, ready_live}
use calendarizador.Mlfqs.{priority_of, priority_cmp}
use calendarizador.Tick.{sort_ready}

-- Both are live, and the priority of `u` is not above that of `t`.
abbrev pub AtLeast : (Ptr → Option Thread) → Ptr → Ptr → Type 0
AtLeast threads t u =
    (a b : Thread) × (threads t ≡ some a) × (threads u ≡ some b) × (b.priority ≤ℤ a.priority)

-- No thread of the list has a lower priority than one behind it.
abbrev pub Descends : (Ptr → Option Thread) → List Ptr → Type 0
Descends threads [] = Unit {0}
Descends threads (t ∷ ts) = All (AtLeast threads t) ts × Descends threads ts

abbrev pub has_priority : (Ptr → Option Thread) → ℤ → Ptr → Bool
has_priority threads p t = elim (threads t) [ none ↦ false | some th ↦ eqb_ℤ th.priority p ]

-- The list of ready threads has been put in the order of their priorities.
pub record Prioritised (k : Kernel) (place : Ptr → Place) (ts : List Ptr) : Type 0 where
  pub descends : Descends k.threads ts
  pub same : Perm ts k.ready_list
  pub in_turn :
      (p : ℤ) → keep (has_priority k.threads p) ts ≡ keep (has_priority k.threads p) k.ready_list
  pub consistent : IsConsistent (record k { ready_list = ts }) place

priority_cmp-IsOrder : (k : Kernel) → IsOrder (priority_cmp k.threads)
unfolding priority_cmp
priority_cmp-IsOrder k = by_key_down-IsOrder (priority_of k.threads)

module _ (threads : Ptr → Option Thread) where
  AtLeast-cmp :
      (t u : Ptr) (a b : Thread)
      → threads t ≡ some a
      → threads u ≡ some b
      → priority_cmp threads u t ≡ false
      → AtLeast threads t u
  unfolding priority_cmp
  AtLeast-cmp t u a b ea eb h = (a, b, ea, eb, ground (arith, ea, eb, h))

  has_priority-IsClass : (p : ℤ) → IsClass (priority_cmp threads) (has_priority threads p)
  unfolding priority_cmp
  has_priority-IsClass p t u ht hu = ground arith

  All-AtLeast :
      (t : Ptr) (ts : List Ptr) (a : Thread)
      → threads t ≡ some a
      → ((u : Ptr) → has u ts ≡ true → (th : Thread) × (threads u ≡ some th))
      → All (λ u. priority_cmp threads u t ≡ false) ts
      → All (AtLeast threads t) ts
  All-AtLeast t [] a ea live h = tt
  All-AtLeast t (u ∷ ts) a ea live (h, rest) =
      let (b, eb) = live u (ground arith) in
      (AtLeast-cmp t u a b ea eb h, All-AtLeast t ts a ea (λ v i. live v (ground arith)) rest)

  IsSorted-Descends :
      (ts : List Ptr)
      → ((u : Ptr) → has u ts ≡ true → (th : Thread) × (threads u ≡ some th))
      → IsSorted (priority_cmp threads) ts
      → Descends threads ts
  IsSorted-Descends [] live h = tt
  IsSorted-Descends (t ∷ ts) live (h, rest) =
      let (a, ea) = live t (ground arith) in
      let behind : (u : Ptr) → has u ts ≡ true → (th : Thread) × (threads u ≡ some th) =
        λ v i. live v (ground arith) in
      (All-AtLeast t ts a ea behind h, IsSorted-Descends ts behind rest)

module _ (k : Kernel) (place : Ptr → Place) (con : IsConsistent k place) where
  reordered-IsConsistent :
      (ts : List Ptr) → Perm ts k.ready_list → IsConsistent (record k { ready_list = ts }) place
  reordered-IsConsistent ts same = record {
    queues = record {
      ready_place = λ t h. con.queues.ready_place t (has-Perm t (Perm.symm same) ∙ h);
      ready_distinct = Distinct-Perm (Perm.symm same) con.queues.ready_distinct;
      wait_place = con.queues.wait_place;
      wait_distinct = con.queues.wait_distinct;
    };
    statuses = record { on_ready = con.statuses.on_ready; on_wait = con.statuses.on_wait };
    current_runs = con.current_runs;
    current_place = con.current_place;
    idle_page = con.idle_page;
    idle_place = con.idle_place;
    masked = con.masked;
  }

  -- While the invariant holds, sort_ready does not fail. It puts a list of the same threads in place of
  -- the ready list, in which no thread stands before one of a higher priority, and threads of one
  -- priority stand in the order in which they stood. It changes nothing else, and the invariant holds.
  pub sort_ready-Prioritised :
      (ts : List Ptr) × (sort_ready k ≡ some (tt, record k { ready_list = ts }))
      × Prioritised k place ts
  unfolding sort_ready
  sort_ready-Prioritised =
      let (ts, e, s) =
        list_sort-IsSortOf (priority_cmp k.threads) (priority_cmp-IsOrder k) k.ready_list in
      (
        ts,
        rw e refl,
        record {
          descends =
              IsSorted-Descends k.threads ts
                (λ u h. ready_live con u (has-Perm u (Perm.symm s.same) ∙ h)) s.sorted;
          same = s.same;
          in_turn = λ p. s.stable (has_priority k.threads p) (has_priority-IsClass k.threads p);
          consistent = reordered-IsConsistent ts s.same;
        },
      )
