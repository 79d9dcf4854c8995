-- ===== src/Scheduler/Invariant.antt =====
-- The queues of the kernel and the states of the threads on them. `place` says for each thread on
-- which queue it is: a thread is on one queue at most, as struct thread has one `elem`.
use calendarizador.Prelude.{
  ◌≡◌, ◌≢◌, Bool, true, false, none, some, ◌==◌, ◌&&◌, not, arith, has, Distinct, Option-cases,
  Bool-cases, inl, inr,
}
use calendarizador.Kernel.{
  Ptr, null, intr_off, ThreadStatus, running, ready, blocked, SemaRef, Thread, Kernel, thread_magic,
  in_status,
}

pub data Place : Type 0 where
  nowhere in_ready : Place
  waits : SemaRef → Place

-- Whether `t` is the page of a thread.
abbrev pub is_page : Kernel → Ptr → Bool
is_page k t = elim (k.threads t) [
  | none ↦ false
  | some th ↦ th.magic == thread_magic && not (t == null)
]

pub record Queues (k : Kernel) (place : Ptr → Place) : Type 0 where
  pub ready_place : (t : Ptr) → has t k.ready_list ≡ true → place t ≡ in_ready
  pub ready_distinct : Distinct k.ready_list
  pub wait_place : (s : SemaRef) (t : Ptr) → has t (k.semas s).waiters ≡ true → place t ≡ waits s
  pub wait_distinct : (s : SemaRef) → Distinct (k.semas s).waiters

-- Each thread but `but` is in the state that its queue asks for.
pub record Statuses (k : Kernel) (place : Ptr → Place) (but : Ptr) : Type 0 where
  pub on_ready : (t : Ptr) → t ≢ but → place t ≡ in_ready → in_status k t ready ≡ true
  pub on_wait : (t : Ptr) (s : SemaRef) → t ≢ but → place t ≡ waits s → in_status k t blocked ≡ true

-- What holds whenever a thread runs, once the idle thread has started.
pub record IsConsistent (k : Kernel) (place : Ptr → Place) : Type 0 where
  pub queues : Queues k place
  pub statuses : Statuses k place k.current
  pub current_runs : in_status k k.current running ≡ true
  pub current_place : place k.current ≡ nowhere
  pub idle_page : is_page k k.idle_thread ≡ true
  pub idle_place : place k.idle_thread ≡ nowhere
  pub masked : k.in_external_intr ≡ true → k.level ≡ intr_off  -- no interrupt inside a handler

-- What schedule needs: the thread that stops has been put in its new state and on its queue.
pub record IsStopped (k : Kernel) (place : Ptr → Place) : Type 0 where
  pub queues : Queues k place
  pub on_ready : (t : Ptr) → place t ≡ in_ready → in_status k t ready ≡ true
  pub on_wait : (t : Ptr) (s : SemaRef) → place t ≡ waits s → in_status k t blocked ≡ true
  pub current_page : is_page k k.current ≡ true
  pub idle_page : is_page k k.idle_thread ≡ true
  pub idle_place : place k.idle_thread ≡ nowhere

-- The record behind the address of a page.
pub page_thread :
    (k : Kernel) (t : Ptr)
    → is_page k t ≡ true
    → (th : Thread) × (k.threads t ≡ some th)
      × ((th.magic == thread_magic) ≡ true)
      × ((t == null) ≡ false)
page_thread k t h = elim (Option-cases (k.threads t)) [
  | inl missing ↦ absurd (ground arith)
  | inr (th, e) ↦ (th, e, ground arith, ground arith)
]

pub in_status-is_page :
    (k : Kernel) (t : Ptr) (st : ThreadStatus) → in_status k t st ≡ true → is_page k t ≡ true
in_status-is_page k t st h = ground arith

module _ {k : Kernel} {place : Ptr → Place} (con : IsConsistent k place) where
  pub current_not_ready : has k.current k.ready_list ≡ false
  current_not_ready = elim (Bool-cases (has k.current k.ready_list)) [
    | inl h ↦ cc (con.current_place, con.queues.ready_place k.current h)
    | inr h ↦ h
  ]

  pub ready-in_status : (t : Ptr) → has t k.ready_list ≡ true → in_status k t ready ≡ true
  ready-in_status t h =
      con.statuses.on_ready t (λ e. absurd (ground (arith, e, current_not_ready)))
        (con.queues.ready_place t h)

  -- A ready thread is a live page, and so is the current thread.
  pub ready_live : (t : Ptr) → has t k.ready_list ≡ true → (th : Thread) × (k.threads t ≡ some th)
  ready_live t h =
      let (th, e, _, _) = page_thread k t (in_status-is_page k t ready (ready-in_status t h)) in
      (th, e)

  pub current_live : (th : Thread) × (k.threads k.current ≡ some th)
  current_live =
      let (th, e, _, _) =
        page_thread k k.current (in_status-is_page k k.current running con.current_runs) in
      (th, e)
