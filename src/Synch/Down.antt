-- ===== src/Synch/Down.antt =====
-- sema_down: the value shrinks, or the thread waits.
use calendarizador.Prelude.{
  ◌-◌, ◌≡◌, ◌≢◌, ◌⊎◌, refl, sym, true, false, some, ◌∷◌, ◌==◌, arith, has, has-snoc, Distinct-snoc,
  Bool-cases, inl, inr,
}
use calendarizador.LinkedList.{list_push_back}
use calendarizador.Kernel.{
  Ptr, running, blocked, intr_off, SemaRef, Thread, Kernel, down_loop, in_status, eq_sema, update,
  update_sema,
}
use calendarizador.Scheduler.{schedule, thread_block}
use calendarizador.Scheduler.Switch.{NextIs}
use calendarizador.Scheduler.Schedule.{Scheduled, schedule-Scheduled}
use calendarizador.Scheduler.Invariant.{
  Place, nowhere, waits, IsConsistent, IsStopped, page_thread, in_status-is_page,
}
use calendarizador.Synch.{sema_down}
use calendarizador.Synch.Up.{eq_of_eq_sema, eq_sema_refl}

-- The value was not zero.
pub record Lowered (k : Kernel) (place : Ptr → Place) (s : SemaRef) (k' : Kernel) : Type 0 where
  pub positive : (k.semas s).value ≢ 0
  pub result : k' ≡ record k {
    semas = update_sema k.semas s (record (k.semas s) { value = (k.semas s).value - 1 });
  }
  pub consistent : IsConsistent k' place

-- The value was zero: the thread is the last waiter and blocked, and another thread runs.
pub record Waits (k : Kernel) (place : Ptr → Place) (s : SemaRef) (k' : Kernel) : Type 0 where
  pub zero_value : (k.semas s).value ≡ 0
  pub last_waiter : (k'.semas s).waiters ≡ list_push_back (k.semas s).waiters k.current
  pub value_stays : (k'.semas s).value ≡ 0
  pub next : NextIs k k'.current k'.ready_list
  pub other_runs : k'.current ≢ k.current
  pub is_blocked : in_status k' k.current blocked ≡ true
  pub consistent : IsConsistent k' (update (update place k.current (waits s)) k'.current nowhere)

module _ (k : Kernel) (place : Ptr → Place) (s : SemaRef) (con : IsConsistent k place)
    (outside : k.in_external_intr ≡ false) (not_idle : k.current ≢ k.idle_thread) where
  -- The value is not zero: it is taken down by one, and nothing else changes.
  abbrev lowered : Kernel
  lowered = record k {
    semas = update_sema k.semas s (record (k.semas s) { value = (k.semas s).value - 1 });
  }

  down-pos : (((k.semas s).value == 0) ≡ false) → sema_down s k ≡ some (tt, lowered)
  unfolding sema_down
  down-pos e = ground arith

  lowered-IsConsistent : IsConsistent lowered place
  lowered-IsConsistent = record {
    queues = record {
      ready_place = con.queues.ready_place;
      ready_distinct = con.queues.ready_distinct;
      wait_place = λ r t h.
          ground (arith, con.queues.wait_place r t, con.queues.wait_place s t, eq_of_eq_sema s r);
      wait_distinct = λ r. ground (arith, con.queues.wait_distinct r, con.queues.wait_distinct s);
    };
    statuses = record { on_ready = con.statuses.on_ready; on_wait = con.statuses.on_wait };
    current_runs = con.current_runs;
    current_place = con.current_place;
    idle_page = con.idle_page;
    idle_place = con.idle_place;
    masked = con.masked;
  }

  module _ (th : Thread) (here : k.threads k.current ≡ some th) where
    abbrev asleep : Thread
    asleep = record th { frames = down_loop s k.level ∷ th.frames; status = blocked }

    -- The state in which thread_block calls schedule.
    abbrev queued : Kernel
    queued = record k {
      level = intr_off;
      semas =
          update_sema k.semas s
            (record (k.semas s) { waiters = list_push_back (k.semas s).waiters k.current });
      threads =
          update
            (update k.threads k.current
              (some (record th { frames = down_loop s k.level ∷ th.frames })))
            k.current (some asleep);
    }

    down-zero :
        {k' : Kernel}
        → (((k.semas s).value == 0) ≡ true)
        → schedule queued ≡ some (tt, k')
        → sema_down s k ≡ some (tt, k')
    unfolding sema_down thread_block
    down-zero e sched = ground (arith, con.current_runs)

    queued-IsStopped : IsStopped queued (update place k.current (waits s))
    queued-IsStopped = record {
      queues = record {
        ready_place = λ t h. ground (arith, con.queues.ready_place t, con.current_place);
        ready_distinct = con.queues.ready_distinct;
        wait_place = λ r t h. ground (
          arith,
          has-snoc t (k.semas s).waiters k.current,
          con.queues.wait_place r t,
          con.queues.wait_place s t,
          eq_of_eq_sema s r,
          eq_sema_refl s,
          con.current_place,
        );
        wait_distinct = λ r. elim (Bool-cases (eq_sema s r)) [
          | inl same ↦
              rw same (
                Distinct-snoc (k.semas s).waiters k.current (con.queues.wait_distinct s)
                  not_waiting)
          | inr other ↦ rw other (con.queues.wait_distinct r)
        ];
      };
      on_ready = λ t p. ground (arith, con.statuses.on_ready t);
      on_wait = λ t r p. ground (arith, con.statuses.on_wait t r, con.current_runs);
      current_page = ground (arith, con.current_runs);
      idle_page = ground (arith, con.idle_page);
      idle_place = ground (arith, con.idle_place);
    }
      where
        not_waiting : has k.current (k.semas s).waiters ≡ false
        not_waiting = elim (Bool-cases (has k.current (k.semas s).waiters)) [
          | inl h ↦ cc (con.current_place, con.queues.wait_place s k.current h)
          | inr h ↦ h
        ]

    waits_from :
        {k' : Kernel}
        → (((k.semas s).value == 0) ≡ true)
        → Scheduled queued (update place k.current (waits s)) k'
        → Waits k place s k'
    waits_from {k'} e sch =
        let away : k'.current ≢ k.current = λ same. leaves sch.taken same in
        record {
          zero_value = ground arith;
          last_waiter = ground (arith, sch.semas, eq_sema_refl s);
          value_stays = ground (arith, sch.semas, eq_sema_refl s);
          next = sch.taken;
          other_runs = away;
          is_blocked =
              sch.consistent.statuses.on_wait k.current s (λ h. away (sym h)) (ground arith);
          consistent = sch.consistent;
        }
      where
        leaves : NextIs queued k'.current k'.ready_list → k'.current ≡ k.current → ⊥
        leaves (inl e) same =
            cc (con.current_place, con.queues.ready_place k.current (ground arith))
        leaves (inr (e, idle, r)) same = not_idle (cc)

  -- While the invariant holds, sema_down does not fail outside an interrupt, in a thread other than
  -- the idle one. If the value is not zero it is taken down by 1 and nothing else changes. If it is
  -- zero the thread is put behind the other waiters, is blocked, and the thread at the front of the
  -- ready list runs, or the idle thread. The invariant still holds.
  pub sema_down-cases :
      (k' : Kernel) × (sema_down s k ≡ some (tt, k')) × (Lowered k place s k' ⊎ Waits k place s k')
  sema_down-cases = elim (Bool-cases ((k.semas s).value == 0)) [
    | inl z ↦
        let (th, here, _, _) =
          page_thread k k.current (in_status-is_page k k.current running con.current_runs) in
        let (k', sched, sch) =
          schedule-Scheduled (queued th here) (update place k.current (waits s)) (asleep th here)
            (queued-IsStopped th here) refl (ground arith) refl refl in
        (k', down-zero th here z sched, inr (waits_from th here z sch))
    | inr p ↦ (
      lowered,
      down-pos p,
      inl (record { positive = ground arith; result = refl; consistent = lowered-IsConsistent }),
    )
  ]
