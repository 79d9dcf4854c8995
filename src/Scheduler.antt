-- ===== src/Scheduler.antt =====
-- pintos/src/threads/thread.c: the run queue and the switch of threads. `schedule` ends at
-- switch_threads; what stands behind it is the frame `after_schedule` of the thread that is
-- switched to, with the locals of that thread's own call.
pub mod Unblock
pub mod Switch
pub mod Destroy
pub mod Invariant
pub mod Schedule
pub mod Yield
use calendarizador.Prelude.{
  ℕ, Bool, true, false, not, ◌&&◌, ◌||◌, Option, none, some, List, [], ◌∷◌, ◌==◌, if◌then◌else◌,
}
use calendarizador.Prelude.Int.{ℤ, pos, ◌+ℤ◌, ◌-ℤ◌, wrap32}
use calendarizador.LinkedList.{list_push_back, list_size}
use calendarizador.Kernel.{
  Ptr, null, ThreadStatus, running, ready, blocked, dying, IntrLevel, Frame, after_schedule,
  set_level, Thread, Kernel, thread_magic, eq_status, update, K, ◌>>=◌, ◌>>◌, pure, get, modify,
  assert, when, load, edit, push_frame, is_off, intr_get_level, intr_context, intr_disable,
  intr_set_level, timer_ticks,
}

-- Whether thread `t` is one of the two that take no part in the statistics.
abbrev pub is_special : Kernel → Ptr → Bool
is_special k t = t == k.idle_thread || t == k.initial_thread

unfoldable pub is_thread : Ptr → K Bool
is_thread t = if t == null then pure false else do th ← load t; pure (th.magic == thread_magic)

-- The page that the stack pointer lies in.
unfoldable pub running_thread : K Ptr
running_thread = do k ← get; pure k.current

unfoldable pub thread_current : K Ptr
unfolding running_thread is_thread
thread_current = do
  t ← running_thread
  valid ← is_thread t
  assert valid
  th ← load t
  assert (eq_status th.status running)
  pure t

unfoldable pub next_thread_to_run : K Ptr
next_thread_to_run k = elim k.ready_list [
  | [] ↦ some (k.idle_thread, k)
  | t ∷ ts ↦ some (t, record k { ready_list = ts })
]

-- The end of the previous thread, in thread_schedule_tail.
unfoldable pub destroy_dying : Ptr → Ptr → K (Unit {0})
destroy_dying cur prev = if prev == null then pure tt else do
  k ← get
  th ← load prev
  when (eq_status th.status dying && not (prev == k.initial_thread)) (do
    assert (not (prev == cur))
    when (not k.sjf) (modify λ k. record k { threads = update k.threads prev none }))

unfoldable pub thread_schedule_tail : Ptr → K (Unit {0})
unfolding running_thread timer_ticks intr_get_level destroy_dying
thread_schedule_tail prev = do
  cur ← running_thread
  now ← timer_ticks
  edit cur (λ th.
      let waited = wrap32 (now -ℤ th.recent_wait) in
      record th { recent_wait = pos 0; total_wait = wrap32 (th.total_wait +ℤ waited) })
  level ← intr_get_level
  assert (is_off level)
  edit cur (λ th. record th { status = running })
  modify (λ k. record k { thread_ticks = 0 })
  destroy_dying cur prev

-- Whether schedule prints the ready list: once, at the first switch to an ordinary thread.
unfoldable pub prints_ready : Kernel → Ptr → Bool
prints_ready k next = not (is_special k next) && k.threads_print

unfoldable pub noted_ready : Kernel → Ptr → ℤ
unfolding prints_ready
noted_ready k next =
    if prints_ready k next then pos (list_size k.ready_list) else k.total_ready_threads

unfoldable pub noted_print : Kernel → Ptr → Bool
unfolding prints_ready
noted_print k next = if prints_ready k next then false else k.threads_print

-- schedule, behind the switch: `cur` and `next` are its locals.
unfoldable pub schedule_end : Ptr → Ptr → K (Unit {0})
schedule_end cur next = do
  modify (λ k. record k {
    total_ready_threads = noted_ready k next;
    threads_print = noted_print k next;
  })
  edit cur (λ th. record th { repeat = wrap32 (th.repeat +ℤ pos 1) })

unfoldable pub schedule : K (Unit {0})
unfolding running_thread next_thread_to_run intr_get_level is_thread thread_schedule_tail
    schedule_end
schedule = do
  cur ← running_thread
  next ← next_thread_to_run
  level ← intr_get_level
  assert (is_off level)
  th ← load cur
  assert (not (eq_status th.status running))
  valid ← is_thread next
  assert valid
  if cur == next then (do thread_schedule_tail null; schedule_end cur next) else (do
    push_frame (after_schedule next)
    modify (λ k. record k { current = next })
    thread_schedule_tail cur)

-- thread_foreach, over what is left of all_list.
unfoldable pub foreach : (Ptr → K (Unit {0})) → List Ptr → K (Unit {0})
foreach func [] = pure tt
foreach func (t ∷ ts) = do func t; foreach func ts

unfoldable pub thread_foreach : (Ptr → K (Unit {0})) → K (Unit {0})
unfolding intr_get_level foreach
thread_foreach func = do
  level ← intr_get_level
  assert (is_off level)
  k ← get
  foreach func k.all_list

unfoldable pub thread_block : K (Unit {0})
unfolding intr_context intr_get_level thread_current
thread_block = do
  external ← intr_context
  assert (not external)
  level ← intr_get_level
  assert (is_off level)
  cur ← thread_current
  edit cur (λ th. record th { status = blocked })
  schedule

-- The wait of an ordinary thread starts to count.
unfoldable pub start_waiting : Ptr → K (Unit {0})
unfolding timer_ticks
start_waiting t = do
  k ← get
  when (not (is_special k t))
      (do now ← timer_ticks; edit t (λ th. record th { recent_wait = wrap32 now }))

unfoldable pub thread_unblock : Ptr → K (Unit {0})
unfolding start_waiting is_thread intr_disable intr_set_level
thread_unblock t = do
  start_waiting t
  valid ← is_thread t
  assert valid
  old_level ← intr_disable
  th ← load t
  assert (eq_status th.status blocked)
  modify (λ k. record k { ready_list = list_push_back k.ready_list t })
  edit t (λ th. record th { status = ready })
  intr_set_level old_level
  pure tt

-- `set_level` is what is left to do when the thread runs again.
unfoldable pub thread_yield : K (Unit {0})
unfolding thread_current intr_context intr_disable
thread_yield = do
  cur ← thread_current
  start_waiting cur
  external ← intr_context
  assert (not external)
  old_level ← intr_disable
  push_frame (set_level old_level)
  k ← get
  when (not (cur == k.idle_thread))
      (modify λ k. record k { ready_list = list_push_back k.ready_list cur })
  edit cur (λ th. record th { status = ready })
  schedule
