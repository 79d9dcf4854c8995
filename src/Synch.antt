-- ===== src/Synch.antt =====
-- pintos/src/threads/synch.c: semaphores, locks and condition variables. A call that sleeps ends at
-- its thread_block; what stands behind it is a frame of the sleeping thread.
pub mod Up
pub mod Down
pub mod Lock
pub mod Signal
pub mod Condition
use calendarizador.Prelude.{
  ℕ, ◌+◌, ◌-◌, ◌%◌, ◌^◌, Bool, true, false, not, Option, none, some, List, [], ◌∷◌, ◌==◌,
  if◌then◌else◌,
}
use calendarizador.LinkedList.{list_push_back}
use calendarizador.Kernel.{
  Ptr, null, IntrLevel, SemaRef, waiter_sema, lock_sema, Frame, down_loop, take_lock, reacquire,
  Semaphore, Kernel, update, K, ◌>>=◌, ◌>>◌, pure, get, modify, assert, when, push_frame, set_sema,
  intr_context, intr_disable, intr_set_level,
}
use calendarizador.Scheduler.{thread_current, thread_block, thread_unblock}

unfoldable pub sema_init : SemaRef → ℕ → K (Unit {0})
sema_init s value = set_sema s (record { value = value; waiters = [] })

-- The while loop of sema_down and what follows it.
unfoldable pub down_step : SemaRef → IntrLevel → K (Unit {0})
unfolding thread_current intr_set_level
down_step s old_level = do
  k ← get
  let v = k.semas s
  if v.value == 0
      then (do
        cur ← thread_current
        set_sema s (record v { waiters = list_push_back v.waiters cur })
        push_frame (down_loop s old_level)
        thread_block)
      else (do set_sema s (record v { value = v.value - 1 }); intr_set_level old_level; pure tt)

unfoldable pub sema_down : SemaRef → K (Unit {0})
unfolding intr_context intr_disable down_step
sema_down s = do
  external ← intr_context
  assert (not external)
  old_level ← intr_disable
  down_step s old_level

unfoldable pub sema_try_down : SemaRef → K Bool
unfolding intr_disable intr_set_level
sema_try_down s = do
  old_level ← intr_disable
  k ← get
  let v = k.semas s
  let success = not (v.value == 0)
  when success (set_sema s (record v { value = v.value - 1 }))
  intr_set_level old_level
  pure success

-- The test and the thread_unblock of sema_up.
unfoldable pub wake_first : SemaRef → List Ptr → K (Unit {0})
wake_first s [] = pure tt
wake_first s (t ∷ ts) = do
  k ← get
  set_sema s (record (k.semas s) { waiters = ts })
  thread_unblock t

unfoldable pub sema_up : SemaRef → K (Unit {0})
unfolding intr_disable wake_first intr_set_level
sema_up s = do
  old_level ← intr_disable
  k ← get
  wake_first s (k.semas s).waiters
  k ← get
  set_sema s (record (k.semas s) { value = ((k.semas s).value + 1) % 2 ^ 32 })
  intr_set_level old_level
  pure tt

abbrev pub set_holder : ℕ → Ptr → K (Unit {0})
set_holder lock t = modify (λ k. record k { holders = update k.holders lock t })

unfoldable pub lock_init : ℕ → K (Unit {0})
unfolding sema_init
lock_init lock = do set_holder lock null; sema_init (lock_sema lock) 1

unfoldable pub lock_held_by_current_thread : ℕ → K Bool
unfolding thread_current
lock_held_by_current_thread lock = do k ← get; cur ← thread_current; pure (k.holders lock == cur)

-- `take_lock` is the assignment to the holder, behind sema_down.
unfoldable pub lock_acquire : ℕ → K (Unit {0})
unfolding intr_context sema_down
lock_acquire lock = do
  external ← intr_context
  assert (not external)
  held ← lock_held_by_current_thread lock
  assert (not held)
  push_frame (take_lock lock)
  sema_down (lock_sema lock)

unfoldable pub take_lock_step : ℕ → K (Unit {0})
unfolding thread_current
take_lock_step lock = do cur ← thread_current; set_holder lock cur

unfoldable pub lock_try_acquire : ℕ → K Bool
unfolding sema_try_down take_lock_step
lock_try_acquire lock = do
  held ← lock_held_by_current_thread lock
  assert (not held)
  success ← sema_try_down (lock_sema lock)
  when success (take_lock_step lock)
  pure success

unfoldable pub lock_release : ℕ → K (Unit {0})
lock_release lock = do
  held ← lock_held_by_current_thread lock
  assert held
  set_holder lock null
  sema_up (lock_sema lock)

abbrev pub set_condition : ℕ → List Ptr → K (Unit {0})
set_condition cond ts = modify (λ k. record k { conditions = update k.conditions cond ts })

unfoldable pub cond_init : ℕ → K (Unit {0})
cond_init cond = set_condition cond []

-- `reacquire` is the lock_acquire behind sema_down.
unfoldable pub cond_wait : ℕ → ℕ → K (Unit {0})
unfolding intr_context lock_held_by_current_thread thread_current sema_init lock_release sema_down
cond_wait cond lock = do
  external ← intr_context
  assert (not external)
  held ← lock_held_by_current_thread lock
  assert held
  cur ← thread_current
  sema_init (waiter_sema cur) 0
  k ← get
  set_condition cond (list_push_back (k.conditions cond) cur)
  lock_release lock
  push_frame (reacquire lock)
  sema_down (waiter_sema cur)

-- cond_signal on the waiters of the condition.
unfoldable pub signal_first : ℕ → List Ptr → K (Unit {0})
unfolding sema_up
signal_first cond [] = pure tt
signal_first cond (t ∷ ts) = do set_condition cond ts; sema_up (waiter_sema t)

unfoldable pub cond_signal : ℕ → ℕ → K (Unit {0})
unfolding intr_context lock_held_by_current_thread signal_first
cond_signal cond lock = do
  external ← intr_context
  assert (not external)
  held ← lock_held_by_current_thread lock
  assert held
  k ← get
  signal_first cond (k.conditions cond)

-- The while loop of cond_broadcast: each round signals the front of the waiters.
unfoldable pub broadcast_loop : ℕ → ℕ → List Ptr → K (Unit {0})
unfolding cond_signal
broadcast_loop cond lock [] = pure tt
broadcast_loop cond lock (t ∷ ts) = do cond_signal cond lock; broadcast_loop cond lock ts

unfoldable pub cond_broadcast : ℕ → ℕ → K (Unit {0})
unfolding broadcast_loop
cond_broadcast cond lock = do k ← get; broadcast_loop cond lock (k.conditions cond)
