-- ===== src/Scheduler/Unblock.antt =====
-- thread_unblock puts a blocked thread at the back of the ready list, and changes nothing else.
use calendarizador.Prelude.{◌≡◌, ◌≢◌, refl, true, some, arith, Bool-cases, inl, inr, Option-cases}
use calendarizador.Prelude.Int.{wrap32}
use calendarizador.LinkedList.{list_push_back}
use calendarizador.Kernel.{Ptr, ready, blocked, intr_off, Thread, Kernel, in_status, update}
use calendarizador.Scheduler.{is_special, thread_unblock}

-- The fields of the kernel that neither the run queue nor a semaphore is kept in.
pub record SameRest (k k' : Kernel) : Type 0 where
  pub current : k'.current ≡ k.current
  pub idle_thread : k'.idle_thread ≡ k.idle_thread
  pub initial_thread : k'.initial_thread ≡ k.initial_thread
  pub level : k'.level ≡ k.level
  pub in_external_intr : k'.in_external_intr ≡ k.in_external_intr
  pub wait_list : k'.wait_list ≡ k.wait_list
  pub all_list : k'.all_list ≡ k.all_list
  pub ticks : k'.ticks ≡ k.ticks
  pub holders : k'.holders ≡ k.holders
  pub conditions : k'.conditions ≡ k.conditions

pub record Unblocked (k : Kernel) (t : Ptr) (k' : Kernel) : Type 0 where
  pub ready_list : k'.ready_list ≡ list_push_back k.ready_list t
  pub others : (u : Ptr) → u ≢ t → k'.threads u ≡ k.threads u
  pub is_ready : in_status k' t ready ≡ true
  pub semas : k'.semas ≡ k.semas
  pub rest : SameRest k k'

module _ (k : Kernel) (t : Ptr) (blocked_t : in_status k t blocked ≡ true)
    (masked : k.in_external_intr ≡ true → k.level ≡ intr_off) where
  woken : Thread → Kernel
  woken th = record k {
    ready_list = list_push_back k.ready_list t;
    threads = update k.threads t (some (record th { status = ready }));
  }

  -- Its waiting time starts to count.
  timed : Thread → Kernel
  timed th =
      let th' = record th { recent_wait = wrap32 k.ticks } in
      record k {
        ready_list = list_push_back k.ready_list t;
        threads = update (update k.threads t (some th')) t (some (record th' { status = ready }));
      }

  -- Where an interrupt handler runs with interrupts off, thread_unblock of a blocked thread does not
  -- fail: the thread is ready and at the back of the ready list; the other threads, the semaphores and
  -- the interrupt level stay as they are.
  pub thread_unblock-Unblocked :
      (k' : Kernel) × (thread_unblock t k ≡ some (tt, k')) × Unblocked k t k'
  unfolding thread_unblock woken timed
  thread_unblock-Unblocked = elim (Option-cases (k.threads t)) [
    | inl missing ↦ absurd (ground arith)
    | inr (th, e) ↦ elim (Bool-cases (is_special k t)) [
      | inl special ↦ (
        woken th,
        ground arith,
        record {
          ready_list = refl;
          others = λ u ne. ground arith;
          is_ready = ground arith;
          semas = refl;
          rest = ground arith;
        },
      )
      | inr plain ↦ (
        timed th,
        ground arith,
        record {
          ready_list = refl;
          others = λ u ne. ground arith;
          is_ready = ground arith;
          semas = refl;
          rest = ground arith;
        },
      )
    ]
  ]
