-- ===== src/Samples/Systems.antt =====
-- The theorems on whole runs of the kernel at work.
use calendarizador.Prelude.{ℕ, ◌≡◌, refl, some, arith}
use calendarizador.Prelude.Int.{◌+ℤ◌, ◌-ℤ◌, wrap32, wrap64}
use calendarizador.Kernel.{Kernel, intr_on, after, timer_sema}
use calendarizador.Scheduler.{schedule, start_waiting, thread_yield, thread_unblock}
use calendarizador.Scheduler.Invariant.{Place, IsConsistent}
use calendarizador.Synch.{sema_up, wake_first}
use calendarizador.Timer.{timer_interrupt, wake_loop}
use calendarizador.Tick.{thread_tick, tick_roundrobin}
use calendarizador.System.{timer_tick, call, up, calls, interrupts, Reach, here, later}
use calendarizador.System.Clock.{Advanced, interrupts_in, Reach-Advanced}
use calendarizador.System.Fairness.{Turns, Ran, start, yields, ready-Ran}
use calendarizador.Samples.{sample, sample_place, sample-IsConsistent}

-- Thread 1 yields, and thread 3 runs.
abbrev yielded : Kernel
yielded = after thread_yield sample

sample_yields : thread_yield sample ≡ some (tt, yielded)
unfolding schedule start_waiting thread_yield ◌+ℤ◌ ◌-ℤ◌ wrap32 wrap64
sample_yields = refl

abbrev one_turn : Turns sample 1 yielded
one_turn = yields start refl sample_yields

fair_example : Ran 3 one_turn × ((place' : ℕ → Place) × IsConsistent yielded place')
fair_example =
    ready-Ran sample yielded sample_place 3 0 1 one_turn sample-IsConsistent refl (omega arith)

-- Thread 1 wakes thread 4, and then the timer interrupts it.
abbrev raised : Kernel
raised = after (sema_up (timer_sema 4)) sample

abbrev ticked : Kernel
ticked = after timer_tick raised

sample_raises : call (up (timer_sema 4)) sample ≡ some (tt, raised)
unfolding call thread_unblock sema_up wake_first start_waiting ◌+ℤ◌ ◌-ℤ◌ wrap32 wrap64
sample_raises = refl

raised_level : raised.level ≡ intr_on
unfolding thread_unblock sema_up wake_first start_waiting ◌+ℤ◌ ◌-ℤ◌ wrap32 wrap64
raised_level = refl

raised_ticks : timer_tick raised ≡ some (tt, ticked)
unfolding call thread_unblock sema_up wake_first start_waiting timer_tick timer_interrupt wake_loop
    thread_tick tick_roundrobin ◌+ℤ◌ ◌-ℤ◌ wrap32 wrap64
raised_ticks = refl

abbrev call_and_tick : Reach sample ticked
call_and_tick =
    later (later here (calls (up (timer_sema 4)) refl refl sample_raises))
      (interrupts raised_level raised_ticks)

clock_example : Advanced (interrupts_in call_and_tick) sample ticked
clock_example = Reach-Advanced call_and_tick
