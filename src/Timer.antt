-- ===== src/Timer.antt =====
-- pintos/src/devices/timer.c: sleeping threads, the timer interrupt and the calibration of busy
-- waiting; and the external-interrupt part of intr_handler in pintos/src/threads/interrupt.c.
pub mod Due
pub mod Sleepers
pub mod Wake
use calendarizador.Prelude.{
  ℕ, zero, suc, ◌+◌, ◌*◌, ◌/◌, ◌%◌, ◌^◌, Bool, true, false, not, Option, none, some, List, [], ◌∷◌,
  ltb, leb, ◌==◌, if◌then◌else◌,
}
use calendarizador.Prelude.Int.{ℤ, pos, negsuc, ◌+ℤ◌, ◌-ℤ◌, ◌*ℤ◌, div_const, wrap64, ltb_ℤ, leb_ℤ}
use calendarizador.LinkedList.{list_insert_ordered}
use calendarizador.Kernel.{
  Ptr, timer_sema, Thread, Kernel, timer_freq, K, ◌>>=◌, ◌>>◌, pure, get, modify, assert, when,
  load, edit, is_off, intr_get_level, intr_context, timer_ticks,
}
use calendarizador.Scheduler.{thread_current, thread_yield}
use calendarizador.Synch.{sema_up, sema_down}
use calendarizador.Tick.{thread_tick}

abbrev pub wakeup_of : (Ptr → Option Thread) → Ptr → ℤ
wakeup_of threads t = elim (threads t) [ none ↦ pos 0 | some th ↦ th.wakeup_time ]

-- wakeup_cmp of thread.c, which reads both pages without a test: one that is not live counts as 0.
unfoldable pub wakeup_cmp : (Ptr → Option Thread) → Ptr → Ptr → Bool
wakeup_cmp threads left right = ltb_ℤ (wakeup_of threads left) (wakeup_of threads right)

-- timer_elapsed
unfoldable pub timer_elapsed : ℤ → K ℤ
unfolding timer_ticks
timer_elapsed then_ticks = do now ← timer_ticks; pure (wrap64 (now -ℤ then_ticks))

-- timer_sleep, up to sema_down
unfoldable pub enqueue_sleeper : Ptr → ℤ → K (Unit {0})
unfolding timer_ticks
enqueue_sleeper t ticks = do
  now ← timer_ticks
  edit t (λ th. record th { wakeup_time = wrap64 (now +ℤ ticks) })
  modify (λ k. record k { wait_list = list_insert_ordered (wakeup_cmp k.threads) t k.wait_list })

unfoldable pub timer_sleep : ℤ → K (Unit {0})
unfolding thread_current enqueue_sleeper sema_down
timer_sleep ticks =
    if ltb_ℤ ticks (pos 0)
    then pure tt
    else do t ← thread_current; enqueue_sleeper t ticks; sema_down (timer_sema t)

-- The while loop of timer_interrupt, over what is left of wait_list.
unfoldable pub wake_loop : List Ptr → K (Unit {0})
wake_loop [] = pure tt
wake_loop (t ∷ ts) = do
  k ← get
  th ← load t
  if ltb_ℤ k.ticks th.wakeup_time
      then pure tt
      else do sema_up (timer_sema t); modify (λ k. record k { wait_list = ts }); wake_loop ts

unfoldable pub timer_interrupt : K (Unit {0})
unfolding thread_tick wake_loop
timer_interrupt = do
  modify (λ k. record k { ticks = wrap64 (k.ticks +ℤ pos 1) })
  thread_tick
  k ← get
  wake_loop k.wait_list

-- intr_handler, for the vector of the timer.
unfoldable pub intr_handler : K (Unit {0})
unfolding intr_get_level intr_context timer_interrupt thread_yield
intr_handler = do
  level ← intr_get_level
  assert (is_off level)
  external ← intr_context
  assert (not external)
  modify (λ k. record k { in_external_intr = true; yield_on_return = false })
  timer_interrupt
  level ← intr_get_level
  assert (is_off level)
  external ← intr_context
  assert external
  modify (λ k. record k { in_external_intr = false })
  k ← get
  when k.yield_on_return thread_yield

-- The ticks of `num / denom` seconds, rounded toward zero; `denom` is a positive constant.
unfoldable pub sleep_ticks : ℤ → ℕ → ℤ
sleep_ticks num denom = div_const (wrap64 (num *ℤ pos timer_freq)) denom

-- busy_wait changes nothing that the kernel keeps.
unfoldable pub real_time_delay : ℤ → ℕ → K (Unit {0})
real_time_delay num denom = assert (denom % 1000 == 0)

unfoldable pub real_time_sleep : ℤ → ℕ → K (Unit {0})
unfolding sleep_ticks intr_get_level timer_sleep real_time_delay
real_time_sleep num denom = do
  level ← intr_get_level
  assert (not (is_off level))
  let ticks = sleep_ticks num denom
  if ltb_ℤ (pos 0) ticks then timer_sleep ticks else real_time_delay num denom

unfoldable pub timer_msleep : ℤ → K (Unit {0})
unfolding real_time_sleep
timer_msleep ms = real_time_sleep ms 1000

unfoldable pub timer_usleep : ℤ → K (Unit {0})
unfolding real_time_sleep
timer_usleep us = real_time_sleep us 1000000

unfoldable pub timer_nsleep : ℤ → K (Unit {0})
unfolding real_time_sleep
timer_nsleep ns = real_time_sleep ns 1000000000
