-- ===== src/Lifecycle/Exit.antt =====
-- The end of a thread.
use calendarizador.Prelude.{ℕ, suc, ◌≡◌, refl, true, false, none, some, ◌==◌, arith}
use calendarizador.Prelude.Int.{ℤ, pos, ◌/ℤ◌, ◌+ℤ◌, div_const, wrap32}
use calendarizador.LinkedList.{list_remove}
use calendarizador.Kernel.{
  Ptr, null, running, dying, intr_off, Thread, Kernel, ◌>>=◌, eq_status, thread_magic, update, load,
  lift,
}
use calendarizador.Scheduler.{is_special, schedule}
use calendarizador.Scheduler.Switch.{NextIs}
use calendarizador.Scheduler.Destroy.{schedule-Destroyed}
use calendarizador.Scheduler.Invariant.{Place, nowhere, IsConsistent, IsStopped}
use calendarizador.Lifecycle.{mean_wait, add_wait, thread_exit}

-- An ordinary thread, neither the initial nor the idle one, that has never been switched back to
-- ends the kernel by a divide error when it exits. Conditions: the invariant holds, no interrupt is
-- being handled, and the algorithm is not shortest job first.
pub thread_exit-faults :
    (k : Kernel) (place : Ptr → Place) (th : Thread)
    → IsConsistent k place
    → k.in_external_intr ≡ false
    → k.sjf ≡ false
    → is_special k k.current ≡ false
    → k.threads k.current ≡ some th
    → th.repeat ≡ pos 0
    → thread_exit k ≡ none
unfolding thread_exit add_wait mean_wait ◌/ℤ◌
thread_exit-faults k place th con outside fifo plain here never = ground (arith, con.current_runs)

-- Where thread_exit calls schedule.
abbrev pub leaving : Kernel → Thread → ℕ → Kernel
leaving k th n = record k {
  level = intr_off;
  total_wait_time = wrap32 (k.total_wait_time +ℤ div_const th.total_wait n);
  all_list = list_remove k.all_list k.current;
  threads = update k.threads k.current (some (record th { status = dying }));
}

mean_wait-some :
    (th : Thread) (n : ℕ)
    → th.repeat ≡ pos (suc n)
    → mean_wait th ≡ some (div_const th.total_wait (suc n))
unfolding mean_wait ◌/ℤ◌ div_const
mean_wait-some th n counted = ground arith

add_wait-some :
    (k : Kernel) (t : Ptr) (th : Thread) (n : ℕ)
    → k.threads t ≡ some th
    → th.repeat ≡ pos (suc n)
    → add_wait t k
      ≡ some (
        tt,
        record k {
          total_wait_time = wrap32 (k.total_wait_time +ℤ div_const th.total_wait (suc n));
        },
      )
unfolding add_wait
add_wait-some k t th n here counted =
    rw (here, load, ◌>>=◌) (rw (mean_wait-some th n counted, lift, ◌>>=◌) refl)

module _ (k : Kernel) (th : Thread) (n : ℕ) (outside : k.in_external_intr ≡ false)
    (fifo : k.sjf ≡ false) (plain : is_special k k.current ≡ false)
    (here : k.threads k.current ≡ some th) (counted : th.repeat ≡ pos (suc n))
    (runs : eq_status th.status running ≡ true) (magic : (th.magic == thread_magic) ≡ true)
    (real : (k.current == null) ≡ false) where
  exit_from :
      {k' : Kernel} {added : ℤ}
      → add_wait k.current (record k { level = intr_off })
        ≡ some (tt, record k { level = intr_off; total_wait_time = added })
      → schedule (record (leaving k th (suc n)) { total_wait_time = added }) ≡ some (tt, k')
      → thread_exit k ≡ some (tt, k')
  unfolding thread_exit
  exit_from wait sched = ground arith

  exit-schedule :
      {k' : Kernel}
      → schedule (leaving k th (suc n)) ≡ some (tt, k')
      → thread_exit k ≡ some (tt, k')
  exit-schedule sched =
      exit_from (add_wait-some (record k { level = intr_off }) k.current th n here counted) sched

-- What the exit of an ordinary thread leaves, which has been switched back to `n` times.
pub record Exited (k : Kernel) (place : Ptr → Place) (th : Thread) (n : ℕ) (k' : Kernel)
    : Type 0 where
  pub consistent : IsConsistent k' (update place k'.current nowhere)
  pub next : NextIs k k'.current k'.ready_list
  pub freed : k'.threads k.current ≡ none
  pub all_list : k'.all_list ≡ list_remove k.all_list k.current
  pub mean_added : k'.total_wait_time ≡ wrap32 (k.total_wait_time +ℤ div_const th.total_wait n)

module _ (k : Kernel) (place : Ptr → Place) (th : Thread) (n : ℕ) (con : IsConsistent k place)
    (outside : k.in_external_intr ≡ false) (fifo : k.sjf ≡ false)
    (plain : is_special k k.current ≡ false) (here : k.threads k.current ≡ some th)
    (counted : th.repeat ≡ pos (suc n)) where
  leaving-IsStopped : IsStopped (leaving k th (suc n)) place
  leaving-IsStopped = record {
    queues = record {
      ready_place = con.queues.ready_place;
      ready_distinct = con.queues.ready_distinct;
      wait_place = con.queues.wait_place;
      wait_distinct = con.queues.wait_distinct;
    };
    on_ready = λ t p. ground (arith, con.statuses.on_ready t, con.current_place);
    on_wait = λ t s p. ground (arith, con.statuses.on_wait t s, con.current_place);
    current_page = ground (arith, con.current_runs);
    idle_page = ground (arith, con.idle_page);
    idle_place = con.idle_place;
  }

  -- The exit of an ordinary thread, neither the initial nor the idle one, that has been switched back
  -- to at least once: while the invariant holds, outside an interrupt and without shortest job first,
  -- thread_exit does not fail. The mean of the thread's waits is added to total_wait_time, the thread
  -- leaves all_list, the front of the ready list runs or else the idle thread, and the page of the
  -- thread is freed. The invariant still holds.
  pub thread_exit-Exited :
      (k' : Kernel) × (thread_exit k ≡ some (tt, k')) × Exited k place th (suc n) k'
  thread_exit-Exited =
      let real : (k.current == null) ≡ false = ground (arith, con.current_runs) in
      let magic : (th.magic == thread_magic) ≡ true = ground (arith, con.current_runs) in
      let runs : eq_status th.status running ≡ true = ground (arith, con.current_runs) in
      let (k', sched, d) =
        schedule-Destroyed (leaving k th (suc n)) place (record th { status = dying })
          leaving-IsStopped refl (ground arith) refl (ground arith) fifo con.current_place
          (ground arith) real in
      (
        k',
        exit-schedule k th n outside fifo plain here counted runs magic real sched,
        record {
          consistent = d.consistent;
          next = d.taken;
          freed = d.freed;
          all_list = d.all_list;
          mean_added = d.total_wait_time;
        },
      )
