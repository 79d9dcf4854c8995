-- ===== src/Samples/Witnesses.antt =====
-- The theorems on the kernel at work, on the small kernel.
use calendarizador.Prelude.{
  ◌≢◌, ◌<◌, false, if◌then◌else◌, ◌≡◌, ◌+◌, ◌*◌, ◌/◌, ◌≤◌, ◌⊎◌, ◌==◌, inr, All, refl, true, false,
  Option, none, some, List, [], ◌∷◌, arith,
}
use calendarizador.Scheduler.Invariant.{Place, nowhere, in_ready, IsConsistent}
use calendarizador.Prelude.Int.{pos}
use calendarizador.FixedPoint.{f_one}
use calendarizador.LinkedList.Ordered.{IsInsertOf}
use calendarizador.Kernel.{Ptr, running, ready, blocked, Thread, Kernel, quantum}
use calendarizador.Scheduler.{schedule, thread_unblock, thread_yield}
use calendarizador.Scheduler.Schedule.{Scheduled, schedule-Scheduled}
use calendarizador.Scheduler.Unblock.{Unblocked, thread_unblock-Unblocked}
use calendarizador.Scheduler.Yield.{Yielded, thread_yield-Yielded}
use calendarizador.Synch.{sema_down, sema_up}
use calendarizador.Synch.Up.{Raised, sema_up-Raised}
use calendarizador.Synch.Down.{Lowered, Waits, sema_down-cases}
use calendarizador.Mlfqs.{refresh_priority, record_priority, new_recent_cpu}
use calendarizador.Mlfqs.Averages.{decay, new_recent_cpu-decays}
use calendarizador.Mlfqs.Priority.{
  IsHistory, IsNearest, SameBut, Recorded, record_priority_lem, refresh_priority-refreshed,
  changed_at, refreshed, is_refreshed,
}
use calendarizador.Sjf.{get_total_exec}
use calendarizador.Sjf.Lookup.{FirstNamed, IsOther, get_total_exec-cases}
use calendarizador.Tick.{sort_ready}
use calendarizador.Tick.Sorting.{Prioritised, sort_ready-Prioritised}
use calendarizador.Tick.RoundRobin.{Ticked, tick_roundrobin-slice}
use calendarizador.Lifecycle.{thread_exit}
use calendarizador.Lifecycle.Exit.{Exited, thread_exit-Exited, thread_exit-faults}
use calendarizador.Timer.{enqueue_sleeper, wakeup_cmp, wake_loop}
use calendarizador.Timer.Sleepers.{asleep, enqueue_sleeper-IsInsertOf}
use calendarizador.Timer.Due.{Woken}
use calendarizador.Timer.Wake.{wake_loop-Woken}
use calendarizador.Synch.{lock_release}
use calendarizador.Synch.Lock.{Released, lock_release-cases}
use calendarizador.Samples.{
  sample_thread, sample, sample_place, sample_sema, sample-IsConsistent, stopped, stopped-IsStopped,
  thread_3, thread_3_runs, place_3, thread_3_runs-IsConsistent,
}

yield_example :
    (k' : Kernel) × (thread_yield sample ≡ some (tt, k')) × Yielded sample sample_place k'
yield_example = thread_yield-Yielded sample sample_place sample-IsConsistent refl

up_example :
    (k' : Kernel) × (sema_up sample_sema sample ≡ some (tt, k'))
    × Raised sample sample_place sample_sema k'
up_example = sema_up-Raised sample sample_place sample_sema sample-IsConsistent

down_example :
    (k' : Kernel) × (sema_down sample_sema sample ≡ some (tt, k'))
    × (Lowered sample sample_place sample_sema k' ⊎ Waits sample sample_place sample_sema k')
down_example =
    sema_down-cases sample sample_place sample_sema sample-IsConsistent refl
      (λ e. absurd (omega arith))

unblock_example : (k' : Kernel) × (thread_unblock 4 sample ≡ some (tt, k')) × Unblocked sample 4 k'
unblock_example = thread_unblock-Unblocked sample 4 refl (λ h. ground arith)

schedule_example :
    (k' : Kernel) × (schedule stopped ≡ some (tt, k')) × Scheduled stopped sample_place k'
schedule_example =
    schedule-Scheduled stopped sample_place (sample_thread 1 blocked) stopped-IsStopped refl refl
      refl refl

-- Threads 1 and 3 have run before.
abbrev known : Kernel
known = record sample { all_all_list = 1 ∷ 3 ∷ [] }

lookup_example :
    ((th : Thread) × (get_total_exec 3 known ≡ some (th.total_exec, known))
      × FirstNamed known (3 ∷ []) (1 ∷ 3 ∷ []) th)
    ⊎ (get_total_exec 3 known ≡ some (pos 0, record known { all_all_list = 1 ∷ 3 ∷ 3 ∷ [] }))
      × All (IsOther known (3 ∷ [])) (1 ∷ 3 ∷ [])
lookup_example =
    get_total_exec-cases known 3 (sample_thread 3 ready) refl
      ((sample_thread 1 running, refl), ((sample_thread 3 ready, refl), tt))

refresh_example :
    (threads : Ptr → Option Thread) × (refresh_priority sample
      ≡ some (tt, record sample { threads = threads }))
    × ((u : Ptr) → threads u ≡ changed_at refreshed sample.threads (is_refreshed sample u) u)
refresh_example = refresh_priority-refreshed sample sample_place sample-IsConsistent

record_priority_example :
    IsHistory (record_priority (pos 70) (sample_thread 1 running))
    × IsNearest (pos 70) (record_priority (pos 70) (sample_thread 1 running)).priority
    × Recorded
        (pos 70)
        (sample_thread 1 running)
        (record_priority (pos 70) (sample_thread 1 running))
    × SameBut (sample_thread 1 running) (record_priority (pos 70) (sample_thread 1 running))
record_priority_example = record_priority_lem (pos 70) (sample_thread 1 running) (refl, omega arith)

-- Threads 3 and 4 are ready, in this order.
abbrev both_ready : Kernel
both_ready = record sample {
  threads = λ t. if t == 4 then some (sample_thread 4 ready) else sample.threads t;
  semas = λ s. record { value = 0; waiters = [] };
  ready_list = 3 ∷ 4 ∷ [];
  wait_list = [];
}

abbrev both_ready_place : Ptr → Place
both_ready_place t = if t == 3 then in_ready else if t == 4 then in_ready else nowhere

both_ready-IsConsistent : IsConsistent both_ready both_ready_place
both_ready-IsConsistent = record {
  queues = record {
    ready_place = λ t h. ground arith;
    ready_distinct = (refl, (refl, tt));
    wait_place = λ s t h. absurd (ground arith);
    wait_distinct = λ s. tt;
  };
  statuses = record { on_ready = λ t ne p. ground arith; on_wait = λ t s ne p. ground arith };
  current_runs = refl;
  current_place = refl;
  idle_page = refl;
  idle_place = refl;
  masked = λ h. ground arith;
}

ready_example :
    (ts : List Ptr) × (sort_ready both_ready ≡ some (tt, record both_ready { ready_list = ts }))
    × Prioritised both_ready both_ready_place ts
ready_example = sort_ready-Prioritised both_ready both_ready_place both_ready-IsConsistent

slice_example :
    (7 < quantum)
      × Ticked (record sample { in_external_intr = true }) 1 (sample_thread 1 running) 7 7 false
    ⊎ (7 ≡ quantum)
      × Ticked (record sample { in_external_intr = true }) 1 (sample_thread 1 running) 7 0 true
slice_example =
    tick_roundrobin-slice (record sample { in_external_intr = true }) 1 (sample_thread 1 running)
      refl refl refl 7 (omega arith)

-- Thread 3 runs for the first time.
exit_example : thread_exit (thread_3_runs 0) ≡ none
exit_example =
    thread_exit-faults (thread_3_runs 0) place_3 (thread_3 0) (thread_3_runs-IsConsistent 0) refl
      refl refl refl refl

second_exit_example :
    (k' : Kernel) × (thread_exit (thread_3_runs 1) ≡ some (tt, k'))
    × Exited (thread_3_runs 1) place_3 (thread_3 1) 1 k'
second_exit_example =
    thread_exit-Exited (thread_3_runs 1) place_3 (thread_3 1) 0 (thread_3_runs-IsConsistent 1) refl
      refl refl refl refl

sleep_example :
    (ts : List Ptr) × (enqueue_sleeper 1 (pos 5) sample
      ≡ some (
        tt,
        record sample {
          threads = asleep sample 1 (sample_thread 1 running) (pos 5);
          wait_list = ts;
        },
      ))
    × IsInsertOf
        (wakeup_cmp (asleep sample 1 (sample_thread 1 running) (pos 5)))
        1
        ts
        sample.wait_list
sleep_example =
    enqueue_sleeper-IsInsertOf sample 1 (sample_thread 1 running) (pos 5) refl refl refl (tt, tt)

wake_example :
    (k' : Kernel) × (wake_loop (4 ∷ []) sample ≡ some (tt, k')) × Woken sample (4 ∷ []) k'
wake_example =
    wake_loop-Woken (4 ∷ []) sample sample_place sample-IsConsistent refl (refl, tt)
      (record { page = sample_thread 4 blocked; live = refl; alone = inr refl }, tt)

release_example :
    (sample.holders 8 ≢ sample.current) × (lock_release 8 sample ≡ none)
    ⊎ (sample.holders 8 ≡ sample.current)
      × (k' : Kernel) × (lock_release 8 sample ≡ some (tt, k'))
      × Released sample sample_place 8 k'
release_example = lock_release-cases sample sample_place 8 sample-IsConsistent

decay_example :
    (new_recent_cpu
        (pos 16384)
        (record (sample_thread 1 running) { recent_cpu = pos 30000; nice = pos 2 })
      ≡ some (pos (decay 16384 * 30000 / f_one + 2 * f_one)))
    × (decay 16384 * 30000 / f_one + 2 * f_one ≤ 30000 + 2 * f_one)
decay_example =
    new_recent_cpu-decays 16384 30000 2
      (record (sample_thread 1 running) { recent_cpu = pos 30000; nice = pos 2 }) refl refl
      (omega arith) (omega arith)
