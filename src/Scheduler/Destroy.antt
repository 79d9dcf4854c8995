-- ===== src/Scheduler/Destroy.antt =====
-- schedule when the thread that stops is dying: its page is freed.
use calendarizador.Prelude.{
  ◌≡◌, ◌≢◌, refl, true, false, none, some, List, [], ◌∷◌, ◌==◌, arith, has, Distinct, inl, inr,
}
use mathlib.Core.Path.{subst}
use calendarizador.Kernel.{
  Ptr, null, SemaRef, running, ready, dying, intr_off, Thread, Kernel, eq_status, thread_magic,
  update,
}
use calendarizador.Scheduler.{schedule}
use calendarizador.Scheduler.Switch.{NextIs, switched}
use calendarizador.Scheduler.Invariant.{
  Place, nowhere, in_ready, waits, IsConsistent, IsStopped, is_page, page_thread, in_status-is_page,
}

abbrev pub destroyed : Kernel → Ptr → List Ptr → Thread → Thread → Kernel
destroyed k next rest th nt =
    let k' = switched k next rest th nt in record k' { threads = update k'.threads k.current none }

-- What schedule leaves of a dying thread.
pub record Destroyed (k : Kernel) (place : Ptr → Place) (k' : Kernel) : Type 0 where
  pub consistent : IsConsistent k' (update place k'.current nowhere)
  pub taken : NextIs k k'.current k'.ready_list
  pub freed : k'.threads k.current ≡ none
  pub all_list : k'.all_list ≡ k.all_list
  pub total_wait_time : k'.total_wait_time ≡ k.total_wait_time

module _ (k : Kernel) (place : Ptr → Place) (th : Thread) (stop : IsStopped k place)
    (off : k.level ≡ intr_off) (here : k.threads k.current ≡ some th)
    (dies : eq_status th.status dying ≡ true) (temporary : (k.current == k.initial_thread) ≡ false)
    (fifo : k.sjf ≡ false) (queued_nowhere : place k.current ≡ nowhere)
    (not_idle : (k.current == k.idle_thread) ≡ false) where
  stopped : eq_status th.status running ≡ false
  stopped = ground arith

  module _ (next : Ptr) (nt : Thread) (there : k.threads next ≡ some nt)
      (magic : (nt.magic == thread_magic) ≡ true) (real : (next == null) ≡ false)
      (other : (k.current == next) ≡ false) (own : (k.current == null) ≡ false) where
    schedule_destroys :
        (rest : List Ptr)
        → k.ready_list ≡ next ∷ rest
        → schedule k ≡ some (tt, destroyed k next rest th nt)
    unfolding schedule
    schedule_destroys rest queue = ground arith

    schedule_destroys_idle :
        k.ready_list ≡ [] → next ≡ k.idle_thread → schedule k ≡ some (tt, destroyed k next [] th nt)
    unfolding schedule
    schedule_destroys_idle queue is_idle = ground arith

    destroyed-IsConsistent :
        (rest : List Ptr)
        → ((t : Ptr) → has t rest ≡ true → has t k.ready_list ≡ true)
        → Distinct rest
        → has next rest ≡ false
        → ((s : SemaRef) → place next ≢ waits s)
        → IsConsistent (destroyed k next rest th nt) (update place next nowhere)
    destroyed-IsConsistent rest left distinct gone unwaited = record {
      queues = record {
        ready_place = λ t h. ground (arith, stop.queues.ready_place t, left t);
        ready_distinct = distinct;
        wait_place = λ s t h. ground (arith, stop.queues.wait_place s t, unwaited s);
        wait_distinct = stop.queues.wait_distinct;
      };
      statuses = record {
        on_ready = λ t ne p. ground (arith, stop.on_ready t, queued_nowhere);
        on_wait = λ t s ne p. ground (arith, stop.on_wait t s, queued_nowhere);
      };
      current_runs = ground arith;
      current_place = ground arith;
      idle_page = ground (arith, stop.idle_page);
      idle_place = ground (arith, stop.idle_place);
      masked = λ h. off;
    }

  schedule-front_dies :
      (own : (k.current == null) ≡ false) (next : Ptr) (rest : List Ptr)
      → k.ready_list ≡ next ∷ rest
      → (k' : Kernel) × (schedule k ≡ some (tt, k')) × Destroyed k place k'
  schedule-front_dies own next rest queue =
      let in_queue : place next ≡ in_ready = stop.queues.ready_place next (ground arith) in
      let valid : is_page k next ≡ true =
        in_status-is_page k next ready (stop.on_ready next in_queue) in
      let (nt, there, magic, real) = page_thread k next valid in
      let distinct : Distinct (next ∷ rest) = subst Distinct queue stop.queues.ready_distinct in
      let other : (k.current == next) ≡ false = ground (arith, queued_nowhere, in_queue) in
      (
        destroyed k next rest th nt,
        schedule_destroys next nt there magic real other own rest queue,
        record {
          consistent =
              destroyed-IsConsistent next nt there magic real other own rest (λ t h. ground arith)
                distinct.1 distinct.0 (λ s w. cc);
          taken = inl queue;
          freed = ground arith;
          all_list = refl;
          total_wait_time = refl;
        },
      )

  schedule-idle_dies :
      (own : (k.current == null) ≡ false)
      → k.ready_list ≡ []
      → (k' : Kernel) × (schedule k ≡ some (tt, k')) × Destroyed k place k'
  schedule-idle_dies own queue =
      let next = k.idle_thread in
      let (nt, there, magic, real) = page_thread k next stop.idle_page in
      (
        destroyed k next [] th nt,
        schedule_destroys_idle next nt there magic real not_idle own queue refl,
        record {
          consistent =
              destroyed-IsConsistent next nt there magic real not_idle own [] (λ t h. cc) tt refl
                (λ s w. cc stop.idle_place);
          taken = inr (queue, refl, refl);
          freed = ground arith;
          all_list = refl;
          total_wait_time = refl;
        },
      )

  -- schedule finds a thread to run, and the page of the dying one is freed.
  pub schedule-Destroyed :
      (k.current == null) ≡ false
      → (k' : Kernel) × (schedule k ≡ some (tt, k')) × Destroyed k place k'
  schedule-Destroyed own = go k.ready_list refl
    where
      go :
          (queue : List Ptr)
          → k.ready_list ≡ queue
          → (k' : Kernel) × (schedule k ≡ some (tt, k')) × Destroyed k place k'
      go [] e = schedule-idle_dies own e
      go (next ∷ rest) e = schedule-front_dies own next rest e
