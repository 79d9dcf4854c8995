-- ===== src/Mlfqs.antt =====
-- The multi-level feedback queue of pintos/src/threads/thread.c: load average, recent CPU time and
-- the priorities that follow from them.
pub mod Averages
pub mod Priority
use calendarizador.Prelude.{
  ℕ, suc, ◌+◌, Bool, true, false, not, ◌&&◌, Option, none, some, List, [], ◌∷◌, ◌==◌, set,
  if◌then◌else◌,
}
use calendarizador.Prelude.Int.{ℤ, pos, negsuc, ◌+ℤ◌, ◌-ℤ◌, ◌*ℤ◌, wrap32, ltb_ℤ}
use calendarizador.LinkedList.{list_size}
use calendarizador.FixedPoint.{
  int_to_fp, fp_to_int_round, add_fp, add_int, mult_fp, mult_int, div_fp, div_int,
}
use calendarizador.Kernel.{
  Ptr, Thread, Kernel, pri_min, pri_max, K, ◌>>=◌, ◌>>◌, pure, get, modify, lift, load, edit, when,
}
use calendarizador.Scheduler.{thread_current, running_thread}

abbrev pub priority_of : (Ptr → Option Thread) → Ptr → ℤ
priority_of threads t = elim (threads t) [ none ↦ pos 0 | some th ↦ th.priority ]

-- The thread with the higher priority comes first. The code reads both pages without a test; a page
-- that is not live counts as 0 here, and while the invariant holds no ready thread is one.
unfoldable pub priority_cmp : (Ptr → Option Thread) → Ptr → Ptr → Bool
priority_cmp threads left right = ltb_ℤ (priority_of threads right) (priority_of threads left)

-- The two tests that keep a priority between PRI_MIN and PRI_MAX.
unfoldable pub clamp_priority : ℤ → ℤ
clamp_priority pri =
    if ltb_ℤ (pos pri_max) pri
    then pos pri_max
    else if ltb_ℤ pri (pos pri_min)
    then pos pri_min
    else pri

unfoldable pub new_priority : Thread → Option ℤ
new_priority th = elim (div_int th.recent_cpu (pos 4)) [
  | none ↦ none
  | some quarter ↦
      some (wrap32 (wrap32 (pos pri_max -ℤ fp_to_int_round quarter) -ℤ wrap32 (th.nice *ℤ pos 2)))
]

-- The history takes the value before it is clamped, and at most ten of them.
unfoldable pub record_priority : ℤ → Thread → Thread
unfolding clamp_priority
record_priority pri th =
    if th.pos == 10 then record th { priority = clamp_priority pri } else record th {
      priority = clamp_priority pri;
      prio = set th.prio th.pos pri;
      pos = suc th.pos;
    }

unfoldable pub refresh_priority_thread : Ptr → K (Unit {0})
unfolding new_priority record_priority
refresh_priority_thread t = do
  th ← load t
  pri ← lift (new_priority th)
  edit t (record_priority pri)

-- The loop of refresh_priority over what is left of the ready list.
unfoldable pub refresh_ready : Ptr → List Ptr → K (Unit {0})
unfolding refresh_priority_thread
refresh_ready initial [] = pure tt
refresh_ready initial (t ∷ ts) = do
  when (not (t == initial)) (refresh_priority_thread t)
  refresh_ready initial ts

unfoldable pub refresh_priority : K (Unit {0})
unfolding running_thread
refresh_priority = do
  r ← running_thread
  k ← get
  refresh_ready k.initial_thread k.ready_list
  refresh_priority_thread r

unfoldable pub new_recent_cpu : ℤ → Thread → Option ℤ
new_recent_cpu load_avg th =
    let first_term = mult_int load_avg (pos 2) in
    let second_term = add_int first_term (pos 1) in
    elim (div_fp first_term second_term) [
      | none ↦ none
      | some third_term ↦ some (add_int (mult_fp third_term th.recent_cpu) th.nice)
    ]

unfoldable pub refresh_cpu : Ptr → K (Unit {0})
unfolding new_recent_cpu
refresh_cpu t = do
  k ← get
  when (not (t == k.idle_thread)) (do
    th ← load t
    cpu ← lift (new_recent_cpu k.load_avg th)
    edit t (λ th. record th { recent_cpu = cpu }))

-- `load_avg * 59 / 60 + ready_length / 60`, in the source's operations.
unfoldable pub new_load_avg : ℤ → ℕ → Option ℤ
new_load_avg load_avg ready_length = elim (div_int (mult_int load_avg (pos 59)) (pos 60)) [
  | none ↦ none
  | some old ↦ elim (div_int (int_to_fp (pos ready_length)) (pos 60)) [
    | none ↦ none
    | some new ↦ some (add_fp old new)
  ]
]

-- The source also counts the current thread, in a variable that it does not use.
unfoldable pub refresh_load_avg : K (Unit {0})
unfolding thread_current new_load_avg
refresh_load_avg = do
  thread_current
  k ← get
  avg ← lift (new_load_avg k.load_avg (list_size k.ready_list))
  modify (λ k. record k { load_avg = avg })

unfoldable pub thread_set_priority : ℤ → K (Unit {0})
unfolding thread_current refresh_priority
thread_set_priority new_priority = do
  cur ← thread_current
  edit cur (λ th. record th { priority = new_priority })
  k ← get
  when k.thread_mlfqs refresh_priority

unfoldable pub thread_get_priority : K ℤ
unfolding thread_current
thread_get_priority = do cur ← thread_current; th ← load cur; pure th.priority

unfoldable pub thread_set_nice : ℤ → K (Unit {0})
unfolding thread_current refresh_priority
thread_set_nice nice = do
  cur ← thread_current
  edit cur (λ th. record th { nice = nice })
  k ← get
  when k.thread_mlfqs refresh_priority

unfoldable pub thread_get_nice : K ℤ
unfolding thread_current
thread_get_nice = do cur ← thread_current; th ← load cur; pure th.nice

unfoldable pub thread_get_load_avg : K ℤ
thread_get_load_avg = do k ← get; pure (fp_to_int_round (mult_int k.load_avg (pos 100)))

unfoldable pub thread_get_recent_cpu : K ℤ
unfolding running_thread
thread_get_recent_cpu = do
  t ← running_thread
  th ← load t
  pure (fp_to_int_round (mult_int th.recent_cpu (pos 100)))
