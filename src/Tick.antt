-- ===== src/Tick.antt =====
-- thread_tick of pintos/src/threads/thread.c: what a timer tick does under each algorithm.
pub mod Sorting
pub mod RoundRobin
use calendarizador.Prelude.{
  ℕ, ◌+◌, ◌*◌, ◌%◌, ◌^◌, Bool, true, false, ◌&&◌, Option, none, some, List, [], ◌∷◌, leb, ◌==◌,
  if◌then◌else◌,
}
use calendarizador.Prelude.Int.{ℤ, pos, negsuc, pos_part, neg_part, ◌+ℤ◌, wrap32, wrap64, leb_ℤ}
use calendarizador.LinkedList.{list_sort}
use calendarizador.FixedPoint.{add_int}
use calendarizador.Kernel.{
  Ptr, running, Thread, Kernel, quantum, timer_freq, eq_status, K, ◌>>=◌, ◌>>◌, pure, get, modify,
  lift, load, edit, when, intr_yield_on_return, timer_ticks,
}
use calendarizador.Scheduler.{thread_current, thread_foreach, is_special}
use calendarizador.Mlfqs.{priority_cmp, refresh_load_avg, refresh_cpu, refresh_priority}

abbrev pub divides : ℕ → ℤ → Bool
divides d a = (pos_part a + neg_part a) % d == 0

unfoldable pub sort_ready : K (Unit {0})
unfolding priority_cmp
sort_ready = do
  k ← get
  sorted ← lift (list_sort (priority_cmp k.threads) k.ready_list)
  modify (λ k. record k { ready_list = sorted })

unfoldable pub count_tick : Ptr → K (Unit {0})
count_tick cur = modify λ k.
    if is_special k cur
    then record k { idle_ticks = wrap64 (k.idle_ticks +ℤ pos 1) }
    else record k { kernel_ticks = wrap64 (k.kernel_ticks +ℤ pos 1) }

unfoldable pub tick_sjf : Ptr → K (Unit {0})
tick_sjf cur = edit cur (λ th. record th { curr_exec = wrap32 (th.curr_exec +ℤ pos 1) })

unfoldable pub tick_roundrobin : Ptr → K (Unit {0})
unfolding intr_yield_on_return
tick_roundrobin cur = do
  edit cur (λ th. record th { ticks = wrap32 (th.ticks +ℤ pos 1) })
  th ← load cur
  when (leb_ℤ (pos quantum) th.ticks)
      (do intr_yield_on_return; edit cur (λ th. record th { ticks = pos 0 }))

-- The part of the mlfqs branch behind the test for an empty ready list, whose front is `next`.
unfoldable pub tick_mlfqs_ready : Ptr → Ptr → K (Unit {0})
unfolding timer_ticks refresh_load_avg thread_foreach refresh_cpu refresh_priority sort_ready
    intr_yield_on_return
tick_mlfqs_ready cur next = do
  now ← timer_ticks
  when (divides timer_freq now) (do refresh_load_avg; thread_foreach refresh_cpu)
  th ← load cur
  when (eq_status th.status running)
      (edit cur (λ th. record th { recent_cpu = add_int th.recent_cpu (pos 1) }))
  when (divides (timer_freq * 4) now) (do refresh_priority; sort_ready)
  modify (λ k. record k { thread_ticks = (k.thread_ticks + 1) % 2 ^ 32 })
  k ← get
  here ← load cur
  there ← load next
  when (leb quantum k.thread_ticks && leb_ℤ here.priority there.priority)
      (do intr_yield_on_return; sort_ready)

unfoldable pub tick_mlfqs : Ptr → K (Unit {0})
unfolding tick_mlfqs_ready
tick_mlfqs cur = do
  k ← get
  elim k.ready_list [ [] ↦ pure tt | next ∷ _ ↦ tick_mlfqs_ready cur next ]

unfoldable pub thread_tick : K (Unit {0})
unfolding thread_current count_tick tick_sjf tick_roundrobin tick_mlfqs
thread_tick = do
  cur ← thread_current
  count_tick cur
  k ← get
  if k.sjf
      then tick_sjf cur
      else if k.roundrobin
      then tick_roundrobin cur
      else if k.thread_mlfqs
      then tick_mlfqs cur
      else pure tt
