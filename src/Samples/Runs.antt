-- ===== src/Samples/Runs.antt =====
-- Runs of the kernel.
use calendarizador.Prelude.{◌≡◌, refl, [], ◌∷◌, ℕ, zero, suc}
use calendarizador.Prelude.Int.{◌+ℤ◌, ◌-ℤ◌, wrap32, wrap64}
use calendarizador.Kernel.{Kernel, ◌>>◌, after, timer_sema}
use calendarizador.Scheduler.{schedule, start_waiting, thread_yield, thread_block, thread_unblock}
use calendarizador.Synch.{sema_down, sema_up, wake_first}
use calendarizador.Timer.{timer_interrupt, wake_loop}
use calendarizador.Tick.{thread_tick, tick_roundrobin}
use calendarizador.System.{resume, timer_tick}
use calendarizador.Samples.{sample}

program : Unit {0}
unfolding schedule start_waiting thread_yield thread_block thread_unblock sema_down sema_up
    wake_first resume timer_tick timer_interrupt wake_loop thread_tick tick_roundrobin ◌+ℤ◌ ◌-ℤ◌
    wrap32 wrap64
program = tt

-- Thread 1 yields to thread 3, which yields back: thread 1 goes on at the end of its own call.
ping_pong :
    ((after thread_yield sample).current ≡ 3)
    × ((after (thread_yield >> thread_yield) sample).current ≡ 1)
    × ((after (thread_yield >> thread_yield >> resume >> resume) sample).ready_list ≡ 3 ∷ [])
unfolding program
ping_pong = (refl, refl, refl)

-- Thread 4 is woken and waits behind thread 3.
woken : (after (sema_up (timer_sema 4)) sample).ready_list ≡ 3 ∷ 4 ∷ []
unfolding program
woken = refl

-- The kernel behind `n` timer interrupts, each with its return where the thread is not switched.
abbrev ticks : ℕ → Kernel → Kernel
ticks zero k = k
ticks (suc n) k = after (timer_tick >> resume) (ticks n k)

-- The first tick wakes thread 4; the seventh ends the slice of thread 1, and thread 3 runs.
slice :
    ((after timer_tick sample).ready_list ≡ 3 ∷ 4 ∷ [])
    × ((ticks 6 sample).current ≡ 1)
    × ((after timer_tick (ticks 6 sample)).current ≡ 3)
unfolding program
slice = (refl, refl, refl)
