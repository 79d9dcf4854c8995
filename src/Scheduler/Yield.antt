-- ===== src/Scheduler/Yield.antt =====
-- thread_yield: the thread goes to the back of the ready list, and its front runs.
use calendarizador.Prelude.{
  ◌≡◌, ◌≢◌, ◌⊎◌, refl, sym, Bool, true, false, some, List, [], ◌∷◌, ◌==◌, Option, arith,
  if◌then◌else◌, has-snoc, Distinct-snoc, Bool-cases, inl, inr,
}
use mathlib.Core.Path.{subst}
use calendarizador.Prelude.Int.{wrap32}
use calendarizador.LinkedList.{list_push_back}
use calendarizador.Kernel.{
  Ptr, null, running, ready, eq_status, thread_magic, intr_off, Thread, Kernel, set_level, update,
}
use calendarizador.Scheduler.{is_special, schedule, start_waiting, thread_yield}
use calendarizador.Scheduler.Schedule.{schedule-Scheduled}
use calendarizador.Scheduler.Invariant.{
  Place, nowhere, in_ready, IsConsistent, IsStopped, page_thread, in_status-is_page,
  current_not_ready,
}

-- The ready list with the thread that yields, and where that thread stands then.
abbrev pub queue_yield : Kernel → List Ptr
queue_yield k =
    if k.current == k.idle_thread then k.ready_list else list_push_back k.ready_list k.current

abbrev pub place_yield : Kernel → (Ptr → Place) → Ptr → Place
place_yield k place = if k.current == k.idle_thread then place else update place k.current in_ready

-- The thread that yields.
abbrev pub yielding : Kernel → Thread → Thread
yielding k th = record th { frames = set_level k.level ∷ th.frames }

-- Where thread_yield calls schedule; `threads` and `th` are as start_waiting leaves them.
abbrev pub requeued : Kernel → (Ptr → Option Thread) → Thread → List Ptr → Kernel
requeued k threads th queue = record k {
  level = intr_off;
  ready_list = queue;
  threads =
      update (update threads k.current (some (yielding k th))) k.current
        (some (record (yielding k th) { status = ready }));
}

module _ (k : Kernel) (outside : k.in_external_intr ≡ false) (th : Thread)
    (here : k.threads k.current ≡ some th) (runs : eq_status th.status running ≡ true)
    (magic : (th.magic == thread_magic) ≡ true) (real : (k.current == null) ≡ false) where
  abbrev timed : Thread
  timed = record th { recent_wait = wrap32 k.ticks }

  start_plain :
      is_special k k.current ≡ false
      → start_waiting k.current k
        ≡ some (tt, record k { threads = update k.threads k.current (some timed) })
  unfolding start_waiting
  start_plain e = ground arith

  start_special : is_special k k.current ≡ true → start_waiting k.current k ≡ some (tt, k)
  unfolding start_waiting
  start_special e = ground arith

  module _ (threads : Ptr → Option Thread) (th' : Thread)
      (start : start_waiting k.current k ≡ some (tt, record k { threads = threads }))
      (kept : threads k.current ≡ some th') {k' : Kernel} where
    yields :
        (k.current == k.idle_thread) ≡ false
        → schedule (requeued k threads th' (list_push_back k.ready_list k.current)) ≡ some (tt, k')
        → thread_yield k ≡ some (tt, k')
    unfolding thread_yield
    yields n sched = ground arith

    yields_idle :
        (k.current == k.idle_thread) ≡ true
        → schedule (requeued k threads th' k.ready_list) ≡ some (tt, k')
        → thread_yield k ≡ some (tt, k')
    unfolding thread_yield
    yields_idle n sched = ground arith

module _ (k : Kernel) (place : Ptr → Place) (con : IsConsistent k place)
    (outside : k.in_external_intr ≡ false) (th : Thread)
    (here : k.threads k.current ≡ some th) where
  -- What start_waiting leaves, in both cases.
  record Started : Type 0 where
    threads : Ptr → Option Thread
    own : Thread
    start : start_waiting k.current k ≡ some (tt, record k { threads = threads })
    own_kept : threads k.current ≡ some own
    own_magic : (own.magic == thread_magic) ≡ true
    others : (t : Ptr) → t ≢ k.current → threads t ≡ k.threads t

  started :
      eq_status th.status running ≡ true
      → (th.magic == thread_magic) ≡ true
      → (k.current == null) ≡ false
      → Started
  started runs magic real = elim (Bool-cases (is_special k k.current)) [
    | inl special ↦ record {
      threads = k.threads;
      own = th;
      start = start_special k outside th here runs magic real special;
      own_kept = here;
      own_magic = magic;
      others = λ t ne. refl;
    }
    | inr plain ↦ record {
      threads = update k.threads k.current (some (timed k outside th here runs magic real));
      own = timed k outside th here runs magic real;
      start = start_plain k outside th here runs magic real plain;
      own_kept = ground arith;
      own_magic = magic;
      others = λ t ne. ground arith;
    }
  ]

  module _ (s : Started) (real : (k.current == null) ≡ false) where
    abbrev stop_in : List Ptr → Kernel
    stop_in queue = requeued k s.threads s.own queue

    IsStopped-plain :
        (k.current == k.idle_thread) ≡ false
        → IsStopped
            (stop_in (list_push_back k.ready_list k.current))
            (update place k.current in_ready)
    IsStopped-plain n = record {
      queues = record {
        ready_place =
            λ t h. ground (arith, has-snoc t k.ready_list k.current, con.queues.ready_place t);
        ready_distinct =
            Distinct-snoc k.ready_list k.current con.queues.ready_distinct (current_not_ready con);
        wait_place = λ r t h. ground (arith, con.queues.wait_place r t, con.current_place);
        wait_distinct = con.queues.wait_distinct;
      };
      on_ready = λ t p. ground (arith, con.statuses.on_ready t, s.others t, s.own_magic);
      on_wait = λ t r p. ground (arith, con.statuses.on_wait t r, s.others t, con.current_place);
      current_page = ground (arith, s.own_magic);
      idle_page = ground (arith, con.idle_page, s.others k.idle_thread);
      idle_place = ground (arith, con.idle_place);
    }

    IsStopped-idle : (k.current == k.idle_thread) ≡ true → IsStopped (stop_in k.ready_list) place
    IsStopped-idle n = record {
      queues = record {
        ready_place = con.queues.ready_place;
        ready_distinct = con.queues.ready_distinct;
        wait_place = con.queues.wait_place;
        wait_distinct = con.queues.wait_distinct;
      };
      on_ready = λ t p. ground (arith, con.statuses.on_ready t, s.others t, con.current_place);
      on_wait = λ t r p. ground (arith, con.statuses.on_wait t r, s.others t, con.current_place);
      current_page = ground (arith, s.own_magic);
      idle_page = ground (arith, con.idle_page, s.others k.idle_thread, s.own_magic);
      idle_place = ground (arith, con.idle_place);
    }

-- What thread_yield leaves.
pub record Yielded (k : Kernel) (place : Ptr → Place) (k' : Kernel) : Type 0 where
  pub next :
      (queue_yield k ≡ k'.current ∷ k'.ready_list)
      ⊎ (queue_yield k ≡ []) × (k'.current ≡ k.idle_thread) × (k'.ready_list ≡ [])
  pub consistent : IsConsistent k' (update (place_yield k place) k'.current nowhere)
  pub semas : k'.semas ≡ k.semas

-- The same by the result of the test for the idle thread.
Yielded-of :
    (k : Kernel) (place : Ptr → Place) (k' : Kernel) (b : Bool)
    → (k.current == k.idle_thread) ≡ b
    → (let queue = if b then k.ready_list else list_push_back k.ready_list k.current in
        (queue ≡ k'.current ∷ k'.ready_list)
        ⊎ (queue ≡ []) × (k'.current ≡ k.idle_thread) × (k'.ready_list ≡ []))
    → IsConsistent k'
        (update (if b then place else update place k.current in_ready) k'.current nowhere)
    → k'.semas ≡ k.semas
    → Yielded k place k'
Yielded-of k place k' b e next consistent semas = record {
  next =
      subst
        (λ b'.
          let queue = if b' then k.ready_list else list_push_back k.ready_list k.current in
          (queue ≡ k'.current ∷ k'.ready_list)
          ⊎ (queue ≡ []) × (k'.current ≡ k.idle_thread) × (k'.ready_list ≡ []))
        (sym e) next;
  consistent =
      subst
        (λ b'.
          IsConsistent k'
            (update (if b' then place else update place k.current in_ready) k'.current nowhere))
        (sym e) consistent;
  semas = semas;
}

-- While the invariant holds, thread_yield does not fail outside an interrupt. The thread goes to the
-- back of the ready list, unless it is the idle thread, and then the front of the list runs, or
-- the idle thread if the list is empty. The invariant still holds, and no semaphore changes.
pub thread_yield-Yielded :
    (k : Kernel) (place : Ptr → Place)
    → IsConsistent k place
    → k.in_external_intr ≡ false
    → (k' : Kernel) × (thread_yield k ≡ some (tt, k')) × Yielded k place k'
thread_yield-Yielded k place con outside =
    let (th, here, magic, real) =
      page_thread k k.current (in_status-is_page k k.current running con.current_runs) in
    let runs : eq_status th.status running ≡ true = ground arith in
    let s = started k place con outside th here runs magic real in
    elim (Bool-cases (k.current == k.idle_thread)) [
      | inl idle ↦
          let (k', sched, sch) =
            schedule-Scheduled (stop_in k place con outside th here s real k.ready_list) place
              (record (yielding k s.own) { status = ready })
              (IsStopped-idle k place con outside th here s real idle) refl (ground arith) refl
              refl in
          (
            k',
            yields_idle k outside th here runs magic real s.threads s.own s.start s.own_kept idle
                sched,
            Yielded-of k place k' true idle sch.taken sch.consistent sch.semas,
          )
      | inr other ↦
          let (k', sched, sch) =
            schedule-Scheduled
              (stop_in k place con outside th here s real (list_push_back k.ready_list k.current))
              (update place k.current in_ready) (record (yielding k s.own) { status = ready })
              (IsStopped-plain k place con outside th here s real other) refl (ground arith) refl
              refl in
          (
            k',
            yields k outside th here runs magic real s.threads s.own s.start s.own_kept other sched,
            Yielded-of k place k' false other sch.taken sch.consistent sch.semas,
          )
    ]
