-- ===== src/Lifecycle.antt =====
-- pintos/src/threads/thread.c: how threads are made and how they end, and the idle thread.
pub mod Exit
use calendarizador.Prelude.{
  ℕ, ◌+◌, ◌-◌, ◌%◌, Bool, true, false, not, ◌&&◌, ◌||◌, Option, none, some, List, [], ◌∷◌, ◌==◌,
  replicate, take, set, if◌then◌else◌,
}
use calendarizador.Prelude.Int.{ℤ, pos, ◌+ℤ◌, ◌/ℤ◌, wrap32, leb_ℤ}
use calendarizador.LinkedList.{list_push_back, list_remove, list_sort}
use calendarizador.Kernel.{
  Ptr, null, running, blocked, dying, timer_sema, plain_sema, kernel_thread, take_tid, create_rest,
  start_rest, idle_loop, idle_halt, Thread, Kernel, thread_magic, pri_min, pri_max, tid_lock,
  intr_on, K, ◌>>=◌, ◌>>◌, pure, get, modify, assert, when, lift, load, store, edit, push_frame,
  is_off, intr_get_level, intr_context, intr_enable, intr_disable, intr_set_level,
}
use calendarizador.Scheduler.{
  is_special, is_thread, running_thread, thread_current, thread_foreach, schedule, thread_block,
  thread_unblock,
}
use calendarizador.Sjf.{
  same_name, duration_cmp, get_total_exec, get_total_exec_each, calc_new_total_exec,
}
use calendarizador.Synch.{sema_init, sema_up, sema_down, lock_init, lock_acquire, lock_release}

abbrev pub page_size : ℕ
page_size = 4096

abbrev pub main_name : List ℕ
main_name = b'm' ∷ b'a' ∷ b'i' ∷ b'n' ∷ []

abbrev pub idle_name : List ℕ
idle_name = b'i' ∷ b'd' ∷ b'l' ∷ b'e' ∷ []

abbrev pub s_name : List ℕ
s_name = b's' ∷ []

-- The record that init_thread writes before it calls other functions: memset, then the fields.
-- strlcpy keeps 15 bytes of the name.
unfoldable pub new_thread : Ptr → List ℕ → ℤ → Thread
new_thread t name priority = record {
  tid = pos 0;
  status = blocked;
  name = take 15 name;
  stack = t + page_size;
  recent_wait = pos 0;
  total_wait = pos 0;
  repeat = pos 0;
  prio = replicate 10 (pos 0);
  pos = 0;
  iobound = false;
  ticks = pos 0;
  curr_exec = pos 0;
  total_exec = pos 0;
  priority = priority;
  nice = pos 0;
  recent_cpu = pos 0;
  wakeup_time = pos 0;
  magic = thread_magic;
  frames = [];
}

unfoldable pub init_thread : Ptr → List ℕ → ℤ → K (Unit {0})
unfolding new_thread sema_init get_total_exec same_name
init_thread t name priority = do
  assert (not (t == null))
  assert (leb_ℤ (pos pri_min) priority && leb_ℤ priority (pos pri_max))
  store t (new_thread t name priority)
  sema_init (timer_sema t) 0
  k ← get
  when k.sjf (do total ← get_total_exec t; edit t (λ th. record th { total_exec = total }))
  when (not (same_name name idle_name) && not (same_name name s_name))
      (edit t (λ th. record th { prio = set th.prio th.pos priority }))
  modify (λ k. record k { all_list = list_push_back k.all_list t })

-- allocate_tid, up to lock_acquire; the assignment of its result to `t->tid` belongs to the frame.
unfoldable pub allocate_tid : Ptr → K (Unit {0})
unfolding lock_acquire
allocate_tid t = do push_frame (take_tid t); lock_acquire tid_lock

unfoldable pub take_tid_step : Ptr → K (Unit {0})
unfolding lock_release
take_tid_step t = do
  k ← get
  let tid = k.next_tid
  modify (λ k. record k { next_tid = wrap32 (tid +ℤ pos 1) })
  lock_release tid_lock
  edit t (λ th. record th { tid = tid })

unfoldable pub thread_init : K (Unit {0})
unfolding intr_get_level lock_init running_thread init_thread allocate_tid
thread_init = do
  level ← intr_get_level
  assert (is_off level)
  lock_init tid_lock
  modify (λ k. record k {
    ready_list = [];
    all_list = [];
    total_wait_time = pos 0;
    total_ready_threads = pos 0;
    all_all_list = if k.sjf then [] else k.all_all_list;
  })
  t ← running_thread
  modify (λ k. record k { initial_thread = t })
  init_thread t main_name (pos 0)
  edit t (λ th. record th { status = running })
  allocate_tid t

unfoldable pub alloc_frame : Ptr → ℕ → K (Unit {0})
unfolding is_thread
alloc_frame t size = do
  valid ← is_thread t
  assert valid
  assert (size % 4 == 0)
  edit t (λ th. record th { stack = th.stack - size })

-- `page` is what palloc_get_page returns; the function that the thread runs is not NULL. The result,
-- the tid of the new thread or TID_ERROR, is left out: a call goes on behind a switch of threads in a
-- frame, which returns nothing, and the tid is in the page.
unfoldable pub thread_create : Ptr → List ℕ → ℤ → K (Unit {0})
unfolding init_thread allocate_tid
thread_create page name priority =
    if page == null
    then pure tt
    else do init_thread page name priority; push_frame (create_rest page); allocate_tid page

-- struct kernel_thread_frame, switch_entry_frame and switch_threads_frame have 12, 4 and 28 bytes.
unfoldable pub create_rest_step : Ptr → K (Unit {0})
unfolding intr_disable alloc_frame intr_set_level thread_unblock
create_rest_step t = do
  old_level ← intr_disable
  alloc_frame t 12
  alloc_frame t 4
  alloc_frame t 28
  edit t (λ th. record th { frames = kernel_thread ∷ [] })
  intr_set_level old_level
  thread_unblock t

unfoldable pub thread_start : (idle_started : ℕ) → Ptr → K (Unit {0})
unfolding sema_init thread_create
thread_start idle_started page = do
  sema_init (plain_sema idle_started) 0
  push_frame (start_rest idle_started)
  thread_create page idle_name (pos pri_min)

unfoldable pub start_rest_step : (idle_started : ℕ) → K (Unit {0})
unfolding intr_enable sema_down
start_rest_step idle_started = do intr_enable; sema_down (plain_sema idle_started)

-- What thread_exit adds to total_wait_time. The division faults where the thread was never
-- switched back to.
unfoldable pub mean_wait : Thread → Option ℤ
mean_wait th = th.total_wait /ℤ th.repeat

unfoldable pub exit_sjf : Ptr → K (Unit {0})
unfolding calc_new_total_exec thread_foreach get_total_exec_each list_sort duration_cmp
exit_sjf t = do
  th ← load t
  calc_new_total_exec th.total_exec th.curr_exec
  thread_foreach get_total_exec_each
  k ← get
  sorted ← lift (list_sort (duration_cmp k.threads) k.ready_list)
  modify (λ k. record k { ready_list = sorted })

unfoldable pub add_wait : Ptr → K (Unit {0})
unfolding mean_wait
add_wait t = do
  th ← load t
  mean ← lift (mean_wait th)
  modify (λ k. record k { total_wait_time = wrap32 (k.total_wait_time +ℤ mean) })

unfoldable pub thread_exit : K (Unit {0})
unfolding intr_context thread_current intr_disable exit_sjf
thread_exit = do
  external ← intr_context
  assert (not external)
  t ← thread_current
  intr_disable
  k ← get
  when k.sjf (exit_sjf t)
  when (not (is_special k t)) (add_wait t)
  modify (λ k. record k { all_list = list_remove k.all_list t })
  cur ← thread_current
  edit cur (λ th. record th { status = dying })
  schedule

unfoldable pub set_bound : Bool → K (Unit {0})
unfolding running_thread
set_bound bound = do t ← running_thread; edit t (λ th. record th { iobound = bound })

unfoldable pub idle : (idle_started : ℕ) → K (Unit {0})
unfolding thread_current sema_up
idle idle_started = do
  cur ← thread_current
  modify (λ k. record k { idle_thread = cur })
  push_frame idle_loop
  sema_up (plain_sema idle_started)

unfoldable pub idle_loop_step : K (Unit {0})
unfolding intr_disable thread_block
idle_loop_step = do intr_disable; push_frame idle_halt; thread_block

-- `sti; hlt`
unfoldable pub idle_halt_step : K (Unit {0})
idle_halt_step = do modify (λ k. record k { level = intr_on }); push_frame idle_loop
