-- ===== src/System/Threads.antt =====
-- The scheduler and the synchronization leave clock, policy and pages as Steady says.
use calendarizador.Prelude.{ℕ, Option, none, some, List, [], ◌∷◌, refl, arith}
use calendarizador.Kernel.{Ptr, IntrLevel, SemaRef, Kernel, K, modify, update}
use calendarizador.Kernel.Keeps.{Keeps, Outcome, Keeps-modify}
use calendarizador.Scheduler.{
  is_thread, running_thread, thread_current, next_thread_to_run, destroy_dying,
  thread_schedule_tail, schedule_end, schedule, foreach, thread_foreach, thread_block,
  start_waiting, thread_unblock, thread_yield,
}
use calendarizador.Synch.{
  sema_init, down_step, sema_down, sema_try_down, wake_first, sema_up, lock_held_by_current_thread,
  lock_acquire, take_lock_step, lock_try_acquire, lock_release, cond_wait, signal_first,
  cond_signal, broadcast_loop, cond_broadcast,
}
use calendarizador.System.Steady.{Steady, steady, steady_level, Steady-modify, Steady-bind}

pub is_thread-Steady : (t : Ptr) → Keeps Steady (is_thread t)
unfolding is_thread
is_thread-Steady t = search steady depth 30

pub running_thread-Steady : Keeps Steady running_thread
unfolding running_thread
running_thread-Steady = search steady depth 30

pub thread_current-Steady : Keeps Steady thread_current
unfolding thread_current
thread_current-Steady = search (steady, is_thread-Steady, running_thread-Steady) depth 30

next_thread_to_run-Steady : Keeps Steady next_thread_to_run
unfolding next_thread_to_run
next_thread_to_run-Steady = record { run = λ k. go k k.ready_list }
  where
    go :
        (k : Kernel) (queue : List Ptr)
        → Outcome (Steady k) (elim queue as (λ _. Option (Ptr × Kernel)) [
          | [] ↦ some (k.idle_thread, k)
          | t ∷ ts ↦ some (t, record k { ready_list = ts })
        ])
    go k [] = record { clock = refl; policy_kept = refl; paged = λ h. h }
    go k (t ∷ ts) = record { clock = refl; policy_kept = refl; paged = λ h. h }

destroy-Steady :
    (prev : Ptr) → Keeps Steady (modify (λ k. record k { threads = update k.threads prev none }))
destroy-Steady prev =
    Keeps-modify Steady
      (λ k. record { clock = refl; policy_kept = refl; paged = λ h t. ground (arith, h t) })

destroy_dying-Steady : (cur prev : Ptr) → Keeps Steady (destroy_dying cur prev)
unfolding destroy_dying
destroy_dying-Steady cur prev = search (steady_level, destroy-Steady) depth 30

thread_schedule_tail-Steady : (prev : Ptr) → Keeps Steady (thread_schedule_tail prev)
unfolding thread_schedule_tail
thread_schedule_tail-Steady prev =
    search (steady_level, running_thread-Steady, destroy_dying-Steady) depth 30

pub schedule_end-Steady : (cur next : Ptr) → Keeps Steady (schedule_end cur next)
unfolding schedule_end
schedule_end-Steady cur next = search steady depth 30

pub schedule-Steady : Keeps Steady schedule
unfolding schedule
schedule-Steady =
    search
      (
        steady_level, running_thread-Steady, is_thread-Steady, next_thread_to_run-Steady,
        thread_schedule_tail-Steady, schedule_end-Steady,
      )
      depth 30

foreach-Steady :
    (func : Ptr → K (Unit {0}))
    → ((t : Ptr) → Keeps Steady (func t))
    → (ts : List Ptr) → Keeps Steady (foreach func ts)
unfolding foreach
foreach-Steady func h [] = search steady depth 30
foreach-Steady func h (t ∷ ts) = Steady-bind (h t) (λ _. foreach-Steady func h ts)

pub thread_foreach-Steady :
    (func : Ptr → K (Unit {0}))
    → ((t : Ptr) → Keeps Steady (func t))
    → Keeps Steady (thread_foreach func)
unfolding thread_foreach
thread_foreach-Steady func h = search (steady_level, foreach-Steady func h) depth 30

pub thread_block-Steady : Keeps Steady thread_block
unfolding thread_block
thread_block-Steady = search (steady_level, thread_current-Steady, schedule-Steady) depth 30

start_waiting-Steady : (t : Ptr) → Keeps Steady (start_waiting t)
unfolding start_waiting
start_waiting-Steady t = search steady_level depth 30

pub thread_unblock-Steady : (t : Ptr) → Keeps Steady (thread_unblock t)
unfolding thread_unblock
thread_unblock-Steady t = search (steady_level, start_waiting-Steady, is_thread-Steady) depth 30

pub thread_yield-Steady : Keeps Steady thread_yield
unfolding thread_yield
thread_yield-Steady =
    search (steady_level, thread_current-Steady, start_waiting-Steady, schedule-Steady) depth 30

pub ruleset steady_threads = (
  steady_level, is_thread-Steady, running_thread-Steady, thread_current-Steady, schedule-Steady,
  schedule_end-Steady, thread_block-Steady, thread_unblock-Steady, thread_yield-Steady,
)

-- pintos/src/threads/synch.c
pub sema_init-Steady : (s : SemaRef) (value : ℕ) → Keeps Steady (sema_init s value)
unfolding sema_init
sema_init-Steady s value = search steady

pub down_step-Steady : (s : SemaRef) (l : IntrLevel) → Keeps Steady (down_step s l)
unfolding down_step
down_step-Steady s l = search steady_threads depth 30

pub sema_down-Steady : (s : SemaRef) → Keeps Steady (sema_down s)
unfolding sema_down
sema_down-Steady s = search (steady_threads, down_step-Steady) depth 30

pub sema_try_down-Steady : (s : SemaRef) → Keeps Steady (sema_try_down s)
unfolding sema_try_down
sema_try_down-Steady s = search steady_threads depth 30

wake_first-Steady : (s : SemaRef) (ts : List Ptr) → Keeps Steady (wake_first s ts)
unfolding wake_first
wake_first-Steady s [] = search steady
wake_first-Steady s (t ∷ ts) = search steady_threads depth 30

pub sema_up-Steady : (s : SemaRef) → Keeps Steady (sema_up s)
unfolding sema_up
sema_up-Steady s = search (steady_threads, wake_first-Steady) depth 30

pub lock_held-Steady : (lock : ℕ) → Keeps Steady (lock_held_by_current_thread lock)
unfolding lock_held_by_current_thread
lock_held-Steady lock = search steady_threads depth 30

pub take_lock_step-Steady : (lock : ℕ) → Keeps Steady (take_lock_step lock)
unfolding take_lock_step
take_lock_step-Steady lock = search steady_threads depth 30

pub lock_acquire-Steady : (lock : ℕ) → Keeps Steady (lock_acquire lock)
unfolding lock_acquire
lock_acquire-Steady lock = search (steady_threads, lock_held-Steady, sema_down-Steady) depth 30

pub lock_try_acquire-Steady : (lock : ℕ) → Keeps Steady (lock_try_acquire lock)
unfolding lock_try_acquire
lock_try_acquire-Steady lock =
    search (steady_threads, lock_held-Steady, sema_try_down-Steady, take_lock_step-Steady) depth 30

pub lock_release-Steady : (lock : ℕ) → Keeps Steady (lock_release lock)
unfolding lock_release
lock_release-Steady lock = search (steady_threads, lock_held-Steady, sema_up-Steady) depth 30

pub cond_wait-Steady : (cond lock : ℕ) → Keeps Steady (cond_wait cond lock)
unfolding cond_wait
cond_wait-Steady cond lock =
    search
      (steady_threads, lock_held-Steady, sema_init-Steady, lock_release-Steady, sema_down-Steady)
      depth 40

signal_first-Steady : (cond : ℕ) (ts : List Ptr) → Keeps Steady (signal_first cond ts)
unfolding signal_first
signal_first-Steady cond [] = search steady
signal_first-Steady cond (t ∷ ts) = search (steady, sema_up-Steady) depth 30

pub cond_signal-Steady : (cond lock : ℕ) → Keeps Steady (cond_signal cond lock)
unfolding cond_signal
cond_signal-Steady cond lock =
    search (steady_threads, lock_held-Steady, signal_first-Steady) depth 30

broadcast_loop-Steady : (cond lock : ℕ) (ts : List Ptr) → Keeps Steady (broadcast_loop cond lock ts)
unfolding broadcast_loop
broadcast_loop-Steady cond lock [] = search steady
broadcast_loop-Steady cond lock (t ∷ ts) =
    Steady-bind (cond_signal-Steady cond lock) (λ _. broadcast_loop-Steady cond lock ts)

pub cond_broadcast-Steady : (cond lock : ℕ) → Keeps Steady (cond_broadcast cond lock)
unfolding cond_broadcast
cond_broadcast-Steady cond lock = search (steady, broadcast_loop-Steady) depth 30

pub ruleset steady_synch = (
  steady_threads, sema_init-Steady, down_step-Steady, sema_down-Steady, sema_try_down-Steady,
  sema_up-Steady, take_lock_step-Steady, lock_acquire-Steady, lock_try_acquire-Steady,
  lock_release-Steady, cond_wait-Steady, cond_signal-Steady, cond_broadcast-Steady,
)
