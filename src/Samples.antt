-- ===== src/Samples.antt =====
-- A small kernel: thread 1 is initial, runs and holds lock 8, 2 is the idle thread, 3 is ready, and 4 waits on
-- its timer semaphore: it sleeps. Its lemmas show that the invariant holds of it.
mod Runs
mod Library
mod Systems
mod Numbers
mod Storage
mod Witnesses
mod Crowd
use calendarizador.Prelude.{
  ℕ, ◌≡◌, refl, Bool, true, false, Option, none, some, List, [], ◌∷◌, ◌==◌, arith, if◌then◌else◌,
  has, Distinct, replicate, Bool-cases, inl, inr, ◌*◌, ◌∙◌,
}
use calendarizador.Synch.Up.{eq_of_eq_sema}
use calendarizador.Prelude.Int.{ℤ, pos}
use calendarizador.Kernel.{
  Ptr, ThreadStatus, running, ready, blocked, intr_off, intr_on, SemaRef, timer_sema, Semaphore,
  Thread, Kernel, thread_magic, eq_sema, eq_status, update,
}
use calendarizador.Scheduler.Invariant.{Place, nowhere, in_ready, waits, IsConsistent, IsStopped}

-- A thread with a priority and a running time of its own.
abbrev pub sample_thread : ℕ → ThreadStatus → Thread
sample_thread n st = record {
  tid = pos n;
  status = st;
  name = n ∷ [];
  stack = 4096 * n;
  recent_wait = pos 0;
  total_wait = pos 0;
  repeat = pos 0;
  prio = replicate 10 (pos 0);
  pos = 0;
  iobound = false;
  ticks = pos 0;
  curr_exec = pos 0;
  total_exec = pos 0;
  priority = pos n;
  nice = pos 0;
  recent_cpu = pos 0;
  wakeup_time = pos (2 * n);
  magic = thread_magic;
  frames = [];
}

abbrev pub sample_threads : Ptr → Option Thread
sample_threads t =
    if t == 1
    then some (sample_thread 1 running)
    else if t == 2
    then some (sample_thread 2 blocked)
    else if t == 3
    then some (sample_thread 3 ready)
    else if t == 4
    then some (sample_thread 4 blocked)
    else none

abbrev pub sample_sema : SemaRef
sample_sema = timer_sema 4

abbrev pub sample_waiters : Bool → List Ptr
sample_waiters b = if b then 4 ∷ [] else []

abbrev pub sample_semas : SemaRef → Semaphore
sample_semas s = record { value = 0; waiters = sample_waiters (eq_sema sample_sema s) }

abbrev pub sample : Kernel
sample = record {
  current = 1;
  threads = sample_threads;
  semas = sample_semas;
  holders = λ l. if l == 8 then 1 else 0;
  conditions = λ c. [];
  ready_list = 3 ∷ [];
  all_list = 1 ∷ 2 ∷ 3 ∷ 4 ∷ [];
  all_all_list = [];
  wait_list = 4 ∷ [];
  idle_thread = 2;
  initial_thread = 1;
  idle_ticks = pos 0;
  kernel_ticks = pos 0;
  thread_ticks = 0;
  thread_mlfqs = false;
  roundrobin = true;
  fcfs = false;
  sjf = false;
  threads_print = false;
  total_ready_threads = pos 0;
  total_wait_time = pos 0;
  load_avg = pos 0;
  next_tid = pos 5;
  ticks = pos 10;
  level = intr_on;
  in_external_intr = false;
  yield_on_return = false;
}

abbrev pub sample_place : Ptr → Place
sample_place t = if t == 3 then in_ready else if t == 4 then waits sample_sema else nowhere

sample_waiter :
    (b : Bool) (s : SemaRef) (t : Ptr)
    → eq_sema sample_sema s ≡ b
    → has t (sample_waiters b) ≡ true
    → (t ≡ 4) × (sample_sema ≡ s)
sample_waiter true s t e h = (ground arith, eq_of_eq_sema sample_sema s e)
sample_waiter false s t e h = absurd (ground arith)

sample_waiter-place :
    (place : Ptr → Place) (s : SemaRef) (t : Ptr)
    → place 4 ≡ waits sample_sema
    → has t (sample_semas s).waiters ≡ true
    → place t ≡ waits s
sample_waiter-place place s t there h =
    let (four, same) = sample_waiter (eq_sema sample_sema s) s t refl h in
    rw four (there ∙ (λ i. waits (same i)))

sample_waiters-Distinct : (b : Bool) → Distinct (sample_waiters b)
sample_waiters-Distinct true = (refl, tt)
sample_waiters-Distinct false = tt

pub sample-IsConsistent : IsConsistent sample sample_place
sample-IsConsistent = record {
  queues = record {
    ready_place = λ t h. ground arith;
    ready_distinct = (refl, tt);
    wait_place = λ s t h. sample_waiter-place sample_place s t refl h;
    wait_distinct = λ s. sample_waiters-Distinct (eq_sema sample_sema s);
  };
  statuses = record { on_ready = λ t ne p. ground arith; on_wait = λ t s ne p. ground arith };
  current_runs = refl;
  current_place = refl;
  idle_page = refl;
  idle_place = refl;
  masked = λ h. ground arith;
}

-- The same kernel where thread 1 has been blocked, and schedule has not run yet.
abbrev pub stopped : Kernel
stopped = record sample {
  level = intr_off;
  threads = update sample_threads 1 (some (sample_thread 1 blocked));
}

pub stopped-IsStopped : IsStopped stopped sample_place
stopped-IsStopped = record {
  queues = record {
    ready_place = sample-IsConsistent.queues.ready_place;
    ready_distinct = sample-IsConsistent.queues.ready_distinct;
    wait_place = sample-IsConsistent.queues.wait_place;
    wait_distinct = sample-IsConsistent.queues.wait_distinct;
  };
  on_ready = λ t p. ground arith;
  on_wait = λ t s p. ground arith;
  current_page = refl;
  idle_page = refl;
  idle_place = refl;
}

abbrev pub thread_3 : ℕ → Thread
thread_3 n = record (sample_thread 3 running) { repeat = pos n }

-- Thread 3 runs, which has been switched back to `n` times, and thread 1 is blocked.
abbrev pub thread_3_runs : ℕ → Kernel
thread_3_runs n = record sample {
  current = 3;
  ready_list = [];
  threads = update (update sample_threads 1 (some (sample_thread 1 blocked))) 3 (some (thread_3 n));
}

abbrev pub place_3 : Ptr → Place
place_3 t = if t == 4 then waits sample_sema else nowhere

pub thread_3_runs-IsConsistent : (n : ℕ) → IsConsistent (thread_3_runs n) place_3
thread_3_runs-IsConsistent n = record {
  queues = record {
    ready_place = λ t h. ground arith;
    ready_distinct = tt;
    wait_place = λ s t h. sample_waiter-place place_3 s t refl h;
    wait_distinct = λ s. sample_waiters-Distinct (eq_sema sample_sema s);
  };
  statuses = record { on_ready = λ t ne p. ground arith; on_wait = λ t s ne p. ground arith };
  current_runs = refl;
  current_place = refl;
  idle_page = refl;
  idle_place = refl;
  masked = λ h. ground arith;
}
