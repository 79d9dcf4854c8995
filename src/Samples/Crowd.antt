-- ===== src/Samples/Crowd.antt =====
-- The theorem on cond_broadcast at work, on a kernel in which two threads wait for a condition.
use calendarizador.Prelude.{
  ◌≡◌, refl, ap, ◌∙◌, true, Option, none, some, List, [], ◌∷◌, ◌==◌, arith, if◌then◌else◌, has,
  Distinct, Bool-cases, inl, inr,
}
use calendarizador.Kernel.{Ptr, running, blocked, SemaRef, waiter_sema, Thread, Kernel, eq_sema}
use calendarizador.Scheduler.Invariant.{Place, nowhere, waits, IsConsistent}
use calendarizador.Synch.{cond_broadcast}
use calendarizador.Synch.Up.{eq_of_eq_sema}
use calendarizador.Synch.Condition.{Broadcast, cond_broadcast-Broadcast}
use calendarizador.Samples.{sample_thread, sample}

abbrev crowd_threads : Ptr → Option Thread
crowd_threads t =
    if t == 1
    then some (sample_thread 1 running)
    else if t == 2
    then some (sample_thread 2 blocked)
    else if t == 3
    then some (sample_thread 3 blocked)
    else if t == 4
    then some (sample_thread 4 blocked)
    else none

abbrev crowd_waiters : SemaRef → List Ptr
crowd_waiters s =
    if eq_sema (waiter_sema 3) s then 3 ∷ [] else if eq_sema (waiter_sema 4) s then 4 ∷ [] else []

-- Thread 1 runs and holds lock 8, and threads 3 and 4 wait for the condition 5, each on its semaphore.
abbrev crowd : Kernel
crowd = record sample {
  threads = crowd_threads;
  semas = λ s. record { value = 0; waiters = crowd_waiters s };
  conditions = λ c. if c == 5 then 3 ∷ 4 ∷ [] else [];
  ready_list = [];
  wait_list = [];
}

abbrev crowd_place : Ptr → Place
crowd_place t =
    if t == 3 then waits (waiter_sema 3) else if t == 4 then waits (waiter_sema 4) else nowhere

crowd_waiters-place :
    (s : SemaRef) (t : Ptr) → has t (crowd_waiters s) ≡ true → crowd_place t ≡ waits s
crowd_waiters-place s t h = elim (Bool-cases (eq_sema (waiter_sema 3) s)) [
  | inl three ↦
      let e : t ≡ 3 = ground arith in
      ap crowd_place e ∙ ap (λ r. waits r) (eq_of_eq_sema (waiter_sema 3) s three)
  | inr other ↦ elim (Bool-cases (eq_sema (waiter_sema 4) s)) [
    | inl four ↦
        let e : t ≡ 4 = ground arith in
        ap crowd_place e ∙ ap (λ r. waits r) (eq_of_eq_sema (waiter_sema 4) s four)
    | inr no_one ↦ absurd (ground arith)
  ]
]

crowd_waiters-Distinct : (s : SemaRef) → Distinct (crowd_waiters s)
crowd_waiters-Distinct s = ground arith

crowd-IsConsistent : IsConsistent crowd crowd_place
crowd-IsConsistent = record {
  queues = record {
    ready_place = λ t h. absurd (ground arith);
    ready_distinct = tt;
    wait_place = crowd_waiters-place;
    wait_distinct = crowd_waiters-Distinct;
  };
  statuses = record { on_ready = λ t ne p. ground arith; on_wait = λ t s ne p. ground arith };
  current_runs = refl;
  current_place = refl;
  idle_page = refl;
  idle_place = refl;
  masked = λ h. ground arith;
}

broadcast_example :
    (k' : Kernel) × (cond_broadcast 5 8 crowd ≡ some (tt, k')) × Broadcast crowd 5 (3 ∷ 4 ∷ []) k'
broadcast_example =
    cond_broadcast-Broadcast 5 8 crowd crowd_place crowd-IsConsistent refl refl (refl, (refl, tt))
