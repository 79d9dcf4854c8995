-- ===== src/Scheduler/Schedule.antt =====
-- schedule restores the invariant.
use calendarizador.Prelude.{
  ◌≡◌, ◌≢◌, refl, true, false, some, List, [], ◌∷◌, ◌==◌, arith, has, Distinct, Bool-cases, inl,
  inr, ==_iff,
}
use mathlib.Core.Path.{subst}
use calendarizador.Kernel.{
  SemaRef, Ptr, running, ready, dying, intr_off, Thread, Kernel, eq_status, update,
}
use calendarizador.Scheduler.{schedule}
use calendarizador.Scheduler.Switch.{
  NextIs, switched, kept, schedule_switches, schedule_idles, schedule_stays, schedule_stays_idle,
}
use calendarizador.Scheduler.Invariant.{
  Place, nowhere, in_ready, waits, IsConsistent, IsStopped, is_page, page_thread, in_status-is_page,
}

-- The thread that runs next leaves its queue.
module _ (k : Kernel) (place : Ptr → Place) (th nt : Thread) (next : Ptr) (rest : List Ptr)
    (stop : IsStopped k place) (here : k.threads k.current ≡ some th)
    (there : k.threads next ≡ some nt) (valid : is_page k next ≡ true)
    (other : (k.current == next) ≡ false)
    (left : (t : Ptr) → has t rest ≡ true → has t k.ready_list ≡ true) (distinct : Distinct rest)
    (gone : has next rest ≡ false) (unwaited : (s : SemaRef) → place next ≢ waits s)
    (off : k.level ≡ intr_off) where
  pub switched-IsConsistent : IsConsistent (switched k next rest th nt) (update place next nowhere)
  switched-IsConsistent = record {
    queues = record {
      ready_place = λ t h. ground (arith, stop.queues.ready_place t, left t);
      ready_distinct = distinct;
      wait_place = λ s t h. ground (arith, stop.queues.wait_place s t, unwaited s);
      wait_distinct = stop.queues.wait_distinct;
    };
    statuses = record {
      on_ready = λ t ne p. ground (arith, stop.on_ready t);
      on_wait = λ t s ne p. ground (arith, stop.on_wait t s);
    };
    current_runs = ground arith;
    current_place = ground arith;
    idle_page = ground (arith, stop.idle_page);
    idle_place = ground (arith, stop.idle_place);
    masked = λ h. off;
  }

-- What schedule leaves: the front of the ready list runs, or the idle thread where it is empty.
pub record Scheduled (k : Kernel) (place : Ptr → Place) (k' : Kernel) : Type 0 where
  pub consistent : IsConsistent k' (update place k'.current nowhere)
  pub taken : NextIs k k'.current k'.ready_list
  pub off : k'.level ≡ intr_off
  pub semas : k'.semas ≡ k.semas

module _ (k : Kernel) (place : Ptr → Place) (th : Thread) (stop : IsStopped k place)
    (off : k.level ≡ intr_off) (here : k.threads k.current ≡ some th)
    (stopped : eq_status th.status running ≡ false)
    (alive : eq_status th.status dying ≡ false) where
  kept-IsConsistent :
      (rest : List Ptr)
      → ((t : Ptr) → has t rest ≡ true → has t k.ready_list ≡ true)
      → Distinct rest
      → has k.current rest ≡ false
      → ((s : SemaRef) → place k.current ≢ waits s)
      → IsConsistent (kept k rest th) (update place k.current nowhere)
  kept-IsConsistent rest left distinct gone unwaited = record {
    queues = record {
      ready_place = λ t h. ground (arith, stop.queues.ready_place t, left t);
      ready_distinct = distinct;
      wait_place = λ s t h. ground (arith, stop.queues.wait_place s t, unwaited s);
      wait_distinct = stop.queues.wait_distinct;
    };
    statuses = record {
      on_ready = λ t ne p. ground (arith, stop.on_ready t);
      on_wait = λ t s ne p. ground (arith, stop.on_wait t s);
    };
    current_runs = ground (arith, stop.current_page);
    current_place = ground arith;
    idle_page = ground (arith, stop.idle_page);
    idle_place = ground (arith, stop.idle_place);
    masked = λ h. off;
  }

  -- With `next` at the front of the ready list.
  schedule-front :
      (next : Ptr) (rest : List Ptr)
      → k.ready_list ≡ next ∷ rest
      → (k' : Kernel) × (schedule k ≡ some (tt, k')) × Scheduled k place k'
  schedule-front next rest queue =
      let in_queue : place next ≡ in_ready = stop.queues.ready_place next (ground arith) in
      let valid : is_page k next ≡ true =
        in_status-is_page k next ready (stop.on_ready next in_queue) in
      let (nt, there, magic, real) = page_thread k next valid in
      let distinct : Distinct (next ∷ rest) = subst Distinct queue stop.queues.ready_distinct in
      let left : (t : Ptr) → has t rest ≡ true → has t k.ready_list ≡ true = λ t h. ground arith in
      let unwaited : (s : SemaRef) → place next ≢ waits s = λ s w. cc in
      elim (Bool-cases (k.current == next)) [
        | inl same ↦
            let is_current : k.current ≡ next = (==_iff k.current next).0 same in
            (
              kept k rest th,
              schedule_stays k th off here stopped (ground arith) (ground arith) rest
                  (ground arith),
              record {
                consistent =
                    kept-IsConsistent rest left distinct.1 (ground arith)
                      (λ s w. unwaited s (ground arith));
                taken = inl (ground arith);
                off = off;
                semas = refl;
              },
            )
        | inr other ↦ (
          switched k next rest th nt,
          schedule_switches k th off here stopped next nt alive there magic real other rest queue,
          record {
            consistent =
                switched-IsConsistent k place th nt next rest stop here there valid other left
                  distinct.1 distinct.0 unwaited off;
            taken = inl queue;
            off = off;
            semas = refl;
          },
        )
      ]

  schedule-idle :
      k.ready_list ≡ [] → (k' : Kernel) × (schedule k ≡ some (tt, k')) × Scheduled k place k'
  schedule-idle queue =
      let next = k.idle_thread in
      let (nt, there, magic, real) = page_thread k next stop.idle_page in
      let unwaited : (s : SemaRef) → place next ≢ waits s = λ s w. cc stop.idle_place in
      elim (Bool-cases (k.current == next)) [
        | inl same ↦
            let is_current : k.current ≡ next = (==_iff k.current next).0 same in
            (
              kept k [] th,
              schedule_stays_idle k th off here stopped (ground arith) (ground arith) queue
                  is_current,
              record {
                consistent =
                    kept-IsConsistent [] (λ t h. cc) tt refl (λ s w. unwaited s (ground arith));
                taken = inr (queue, is_current, refl);
                off = off;
                semas = refl;
              },
            )
        | inr other ↦ (
          switched k next [] th nt,
          schedule_idles k th off here stopped next nt alive there magic real other queue refl,
          record {
            consistent =
                switched-IsConsistent k place th nt next [] stop here there stop.idle_page other
                  (λ t h. cc) tt refl unwaited off;
            taken = inr (queue, refl, refl);
            off = off;
            semas = refl;
          },
        )
      ]

  -- With interrupts off, and where the running thread has been put in a state that is neither running
  -- nor dying and on the queue of that state, schedule does not fail. The front of the ready list
  -- runs, or the idle thread if the list is empty, and the invariant of a running kernel holds again.
  -- No semaphore changes.
  pub schedule-Scheduled : (k' : Kernel) × (schedule k ≡ some (tt, k')) × Scheduled k place k'
  schedule-Scheduled = go k.ready_list refl
    where
      go :
          (queue : List Ptr)
          → k.ready_list ≡ queue
          → (k' : Kernel) × (schedule k ≡ some (tt, k')) × Scheduled k place k'
      go [] e = schedule-idle e
      go (next ∷ rest) e = schedule-front next rest e
