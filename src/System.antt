-- ===== src/System.antt =====
-- The whole kernel as a step relation: the running thread calls a function, a call of it goes on
-- where it left off, or the timer interrupts it. The order of steps is arbitrary.
pub mod Steady
pub mod Threads
pub mod Services
pub mod Clock
pub mod Fairness
use calendarizador.Prelude.{ℕ, ◌≡◌, Option, none, some, List, [], ◌∷◌}
use calendarizador.Prelude.Int.{ℤ}
use calendarizador.Kernel.{
  Ptr, intr_on, intr_off, SemaRef, Frame, kernel_thread, after_schedule, set_level, down_loop,
  take_lock, reacquire, take_tid, create_rest, start_rest, idle_loop, idle_halt, iret, Thread,
  Kernel, K, ◌>>=◌, ◌>>◌, pure, get, modify, load, edit, push_frame, intr_enable, intr_set_level,
}
use calendarizador.Scheduler.{schedule_end, thread_yield}
use calendarizador.Mlfqs.{thread_set_priority, thread_set_nice}
use calendarizador.Synch.{
  sema_down, sema_try_down, sema_up, down_step, lock_acquire, take_lock_step, lock_try_acquire,
  lock_release, cond_wait, cond_signal, cond_broadcast,
}
use calendarizador.Lifecycle.{
  thread_create, take_tid_step, create_rest_step, start_rest_step, thread_exit, idle,
  idle_loop_step, idle_halt_step, thread_start,
}
use calendarizador.Timer.{timer_sleep, intr_handler}

-- The calls that the code of a thread makes.
pub data Call : Type 0 where
  yield exit : Call
  create : (page : Ptr) (name : List ℕ) (priority : ℤ) → Call
  start : (idle_started : ℕ) (page : Ptr) → Call
  run_idle : (idle_started : ℕ) → Call
  down up try_down : SemaRef → Call
  acquire release try_acquire : (lock : ℕ) → Call
  wait signal broadcast : (cond lock : ℕ) → Call
  sleep : ℤ → Call
  set_priority set_nice : ℤ → Call

unfoldable pub call : Call → K (Unit {0})
call yield = thread_yield
call exit = thread_exit
call (create page name priority) = thread_create page name priority
call (start s page) = thread_start s page
call (run_idle s) = idle s
call (down s) = sema_down s
call (up s) = sema_up s
call (try_down s) = sema_try_down s >> pure tt
call (acquire l) = lock_acquire l
call (release l) = lock_release l
call (try_acquire l) = lock_try_acquire l >> pure tt
call (wait c l) = cond_wait c l
call (signal c l) = cond_signal c l
call (broadcast c l) = cond_broadcast c l
call (sleep n) = timer_sleep n
call (set_priority p) = thread_set_priority p
call (set_nice n) = thread_set_nice n

-- A return into frame `f` of thread `cur`, which has been taken off its stack.
unfoldable pub return_to : Ptr → Frame → K (Unit {0})
return_to cur kernel_thread = intr_enable >> pure tt
return_to cur (after_schedule next) = schedule_end cur next
return_to cur (set_level l) = intr_set_level l >> pure tt
return_to cur (down_loop s l) = down_step s l
return_to cur (take_lock l) = take_lock_step l
return_to cur (reacquire l) = lock_acquire l
return_to cur (take_tid t) = take_tid_step t
return_to cur (create_rest t) = create_rest_step t
return_to cur (start_rest s) = start_rest_step s
return_to cur idle_loop = idle_loop_step
return_to cur idle_halt = idle_halt_step
return_to cur iret = modify (λ k. record k { level = intr_on })

-- The frame that the running thread goes on at; `none` if it runs its own code.
abbrev pub top_frame : List Frame → Option (Frame × List Frame)
top_frame [] = none
top_frame (f ∷ fs) = some (f, fs)

unfoldable pub resume : K (Unit {0})
unfolding return_to
resume = do
  k ← get
  th ← load k.current
  elim th.frames [
    | [] ↦ pure tt
    | f ∷ fs ↦ do edit k.current (λ th. record th { frames = fs }); return_to k.current f
  ]

-- The processor takes the interrupt: it turns interrupts off until the iret.
unfoldable pub timer_tick : K (Unit {0})
unfolding intr_handler
timer_tick = do modify (λ k. record k { level = intr_off }); push_frame iret; intr_handler

pub data Step (k : Kernel) : Kernel → Type 0 where
  calls :
      {th : Thread} {k' : Kernel} (c : Call)
      → k.threads k.current ≡ some th
      → th.frames ≡ []
      → call c k ≡ some (tt, k')
      → Step k k'
  returns : {k' : Kernel} → resume k ≡ some (tt, k') → Step k k'
  interrupts : {k' : Kernel} → k.level ≡ intr_on → timer_tick k ≡ some (tt, k') → Step k k'

pub data Reach (k : Kernel) : Kernel → Type 0 where
  here : Reach k k
  later : {m n : Kernel} → Reach k m → Step m n → Reach k n
