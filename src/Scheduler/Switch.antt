-- ===== src/Scheduler/Switch.antt =====
-- What schedule does, in one equation for each way that it can go.
use calendarizador.Prelude.{◌≡◌, ◌⊎◌, true, false, some, List, [], ◌∷◌, ◌==◌, arith}
use calendarizador.Prelude.Int.{ℤ, pos, ◌-ℤ◌, ◌+ℤ◌, wrap32}
use calendarizador.Kernel.{
  Ptr, null, running, dying, intr_off, Thread, Kernel, after_schedule, eq_status, thread_magic,
  update, ◌>>=◌, ◌>>◌, assert, load,
}
use calendarizador.Scheduler.{noted_ready, noted_print, schedule, next_thread_to_run, is_thread}

self : (a : Ptr) → (a == a) ≡ true
self a = ground arith

-- The thread that next_thread_to_run takes, and the ready list without it.
abbrev pub NextIs : Kernel → Ptr → List Ptr → Type 0
NextIs k next rest =
    (k.ready_list ≡ next ∷ rest) ⊎ (k.ready_list ≡ []) × (next ≡ k.idle_thread) × (rest ≡ [])

-- The thread that stops, and the one that is switched to.
abbrev pub suspended : Thread → Ptr → Thread
suspended th next = record th { frames = after_schedule next ∷ th.frames }

abbrev pub waited : ℤ → Thread → Thread
waited now th = record th {
  recent_wait = pos 0;
  total_wait = wrap32 (th.total_wait +ℤ wrap32 (now -ℤ th.recent_wait));
}

abbrev pub resumed : ℤ → Thread → Thread
resumed now th = record (waited now th) { status = running }

abbrev pub switched : Kernel → Ptr → List Ptr → Thread → Thread → Kernel
switched k next rest th nt = record k {
  current = next;
  ready_list = rest;
  thread_ticks = 0;
  threads =
      update
        (update (update k.threads k.current (some (suspended th next))) next
          (some (waited k.ticks nt)))
        next (some (resumed k.ticks nt));
}

abbrev pub counted : Thread → Thread
counted th = record th { repeat = wrap32 (th.repeat +ℤ pos 1) }

-- The thread switches to itself.
abbrev pub kept : Kernel → List Ptr → Thread → Kernel
kept k rest th =
    let went_on = record k {
      ready_list = rest;
      thread_ticks = 0;
      threads =
          update (update k.threads k.current (some (waited k.ticks th))) k.current
            (some (resumed k.ticks th));
    } in
    record went_on {
      threads = update went_on.threads k.current (some (counted (resumed k.ticks th)));
      total_ready_threads = noted_ready went_on k.current;
      threads_print = noted_print went_on k.current;
    }

module _ (k : Kernel) (th : Thread) (off : k.level ≡ intr_off)
    (here : k.threads k.current ≡ some th) (stopped : eq_status th.status running ≡ false) where
  module _ (next : Ptr) (nt : Thread) (alive : eq_status th.status dying ≡ false)
      (there : k.threads next ≡ some nt) (magic : (nt.magic == thread_magic) ≡ true)
      (real : (next == null) ≡ false) (other : (k.current == next) ≡ false) where
    pub schedule_switches :
        (rest : List Ptr)
        → k.ready_list ≡ next ∷ rest
        → schedule k ≡ some (tt, switched k next rest th nt)
    unfolding schedule
    schedule_switches rest queue = ground arith

    pub schedule_idles :
        k.ready_list ≡ [] → next ≡ k.idle_thread → schedule k ≡ some (tt, switched k next [] th nt)
    unfolding schedule
    schedule_idles queue is_idle = ground arith

  module _ (magic : (th.magic == thread_magic) ≡ true) (real : (k.current == null) ≡ false) where
    pub schedule_stays :
        (rest : List Ptr) → k.ready_list ≡ k.current ∷ rest → schedule k ≡ some (tt, kept k rest th)
    unfolding schedule
    schedule_stays rest queue =
        rw (queue, next_thread_to_run)
          (rw (off, ◌>>=◌, ◌>>◌)
            (rw (here, load, ◌>>=◌, ◌>>◌)
              (rw (stopped) (
                rw (real, is_thread)
                  (rw (here, load, ◌>>=◌)
                    (rw (magic, assert) (rw (self k.current) (ground arith))))))))

    pub schedule_stays_idle :
        k.ready_list ≡ [] → k.current ≡ k.idle_thread → schedule k ≡ some (tt, kept k [] th)
    unfolding schedule
    schedule_stays_idle queue is_idle =
        rw (queue, next_thread_to_run)
          (rw (off, ◌>>=◌, ◌>>◌)
            (rw (here, load, ◌>>=◌, ◌>>◌)
              (rw stopped (
                rw (← is_idle) (
                  rw (real, is_thread)
                    (rw (here, load, ◌>>=◌)
                      (rw (magic, assert) (rw (self k.current) (ground arith)))))))))
