-- ===== src/System/Services.antt =====
-- The algorithms, the life cycle and the timer leave clock, policy and pages as Steady says; the
-- timer interrupt advances the clock by one tick.
use calendarizador.Prelude.{
  ℕ, false, Option, none, some, List, [], ◌∷◌, ◌≡◌, refl, inl, inr, arith, Bool-cases, ◌==◌,
}
use calendarizador.Prelude.Int.{ℤ, pos}
use calendarizador.Kernel.{Ptr, null, timer_sema, Thread, K, ◌>>◌, pure, modify, store}
use calendarizador.Kernel.Keeps.{Keeps, Keeps-store}
use calendarizador.LinkedList.{list_push_back}
use calendarizador.Sjf.{find_total_exec, get_total_exec, get_total_exec_each, calc_new_total_exec}
use calendarizador.Mlfqs.{
  record_priority, refresh_priority_thread, refresh_ready, refresh_priority, refresh_cpu,
  refresh_load_avg, thread_set_priority, thread_set_nice,
}
use calendarizador.Scheduler.{thread_foreach}
use calendarizador.Tick.{
  sort_ready, count_tick, tick_sjf, tick_roundrobin, tick_mlfqs_ready, tick_mlfqs, thread_tick,
}
use calendarizador.Lifecycle.{
  new_thread, init_thread, allocate_tid, take_tid_step, alloc_frame, thread_create,
  create_rest_step, thread_start, start_rest_step, exit_sjf, add_wait, thread_exit, idle,
  idle_loop_step, idle_halt_step,
}
use calendarizador.Timer.{enqueue_sleeper, timer_sleep, wake_loop}
use calendarizador.System.Steady.{
  Steady, steady, steady_level, Steady-modify, Steady-bind, Steady-get, Steady-load, Steady-if,
  Steady-pure, Steady-when,
}
use calendarizador.System.Threads.{
  sema_up-Steady, steady_threads, steady_synch, thread_foreach-Steady,
}

-- Shortest job first.
find_total_exec-Steady : (name : List ℕ) (ts : List Ptr) → Keeps Steady (find_total_exec name ts)
unfolding find_total_exec
find_total_exec-Steady name [] = search steady
find_total_exec-Steady name (t ∷ ts) =
    Steady-bind (Steady-load t) (λ th. Steady-if _ (Steady-pure _) (find_total_exec-Steady name ts))

registered-Steady :
    (t : Ptr) (found : Option ℤ)
    → Keeps Steady (elim found as (λ _. K ℤ) [
      | some total ↦ pure total
      | none ↦
          modify (λ k. record k { all_all_list = list_push_back k.all_all_list t }) >> pure (pos 0)
    ])
registered-Steady t none = search steady
registered-Steady t (some total) = search steady

pub get_total_exec-Steady : (t : Ptr) → Keeps Steady (get_total_exec t)
unfolding get_total_exec
get_total_exec-Steady t = Steady-bind (Steady-load t) (λ th.
    Steady-bind Steady-get
      (λ k. Steady-bind (find_total_exec-Steady th.name k.all_all_list) (registered-Steady t)))

get_total_exec_each-Steady : (t : Ptr) → Keeps Steady (get_total_exec_each t)
unfolding get_total_exec_each
get_total_exec_each-Steady t = search (steady, get_total_exec-Steady) depth 30

calc_new_total_exec-Steady : (old recent : ℤ) → Keeps Steady (calc_new_total_exec old recent)
unfolding calc_new_total_exec
calc_new_total_exec-Steady old recent = search steady_threads depth 30

-- The feedback queue.
record_priority-magic : (pri : ℤ) (th : Thread) → (record_priority pri th).magic ≡ th.magic
unfolding record_priority
record_priority-magic pri th = ground arith

refresh_priority_thread-Steady : (t : Ptr) → Keeps Steady (refresh_priority_thread t)
unfolding refresh_priority_thread
refresh_priority_thread-Steady t = search (steady, record_priority-magic) depth 30

refresh_ready-Steady : (initial : Ptr) (ts : List Ptr) → Keeps Steady (refresh_ready initial ts)
unfolding refresh_ready
refresh_ready-Steady initial [] = search steady
refresh_ready-Steady initial (t ∷ ts) =
    Steady-bind (Steady-when _ (refresh_priority_thread-Steady t))
      (λ _. refresh_ready-Steady initial ts)

refresh_priority-Steady : Keeps Steady refresh_priority
unfolding refresh_priority
refresh_priority-Steady =
    search (steady_threads, refresh_ready-Steady, refresh_priority_thread-Steady) depth 30

refresh_cpu-Steady : (t : Ptr) → Keeps Steady (refresh_cpu t)
unfolding refresh_cpu
refresh_cpu-Steady t = search steady depth 30

refresh_load_avg-Steady : Keeps Steady refresh_load_avg
unfolding refresh_load_avg
refresh_load_avg-Steady = search steady_threads depth 30

pub thread_set_priority-Steady : (p : ℤ) → Keeps Steady (thread_set_priority p)
unfolding thread_set_priority
thread_set_priority-Steady p = search (steady_threads, refresh_priority-Steady) depth 30

pub thread_set_nice-Steady : (n : ℤ) → Keeps Steady (thread_set_nice n)
unfolding thread_set_nice
thread_set_nice-Steady n = search (steady_threads, refresh_priority-Steady) depth 30

-- The scheduler's tick.
sort_ready-Steady : Keeps Steady sort_ready
unfolding sort_ready
sort_ready-Steady = search steady depth 30

count_tick-Steady : (cur : Ptr) → Keeps Steady (count_tick cur)
unfolding count_tick
count_tick-Steady cur = Steady-modify (λ k. ground arith) (λ k. ground arith) (λ k. ground arith)

tick_sjf-Steady : (cur : Ptr) → Keeps Steady (tick_sjf cur)
unfolding tick_sjf
tick_sjf-Steady cur = search steady

tick_roundrobin-Steady : (cur : Ptr) → Keeps Steady (tick_roundrobin cur)
unfolding tick_roundrobin
tick_roundrobin-Steady cur = search steady_level depth 30

refresh_cpu_each-Steady : Keeps Steady (thread_foreach refresh_cpu)
refresh_cpu_each-Steady = thread_foreach-Steady refresh_cpu refresh_cpu-Steady

tick_mlfqs_ready-Steady : (cur next : Ptr) → Keeps Steady (tick_mlfqs_ready cur next)
unfolding tick_mlfqs_ready
tick_mlfqs_ready-Steady cur next =
    search
      (
        steady_level, refresh_load_avg-Steady, refresh_cpu_each-Steady, refresh_priority-Steady,
        sort_ready-Steady,
      )
      fits 4000 depth 60

front-Steady :
    (cur : Ptr) (queue : List Ptr)
    → Keeps Steady
        (elim queue as (λ _. K (Unit {0})) [ [] ↦ pure tt | next ∷ _ ↦ tick_mlfqs_ready cur next ])
front-Steady cur [] = search steady
front-Steady cur (next ∷ ts) = tick_mlfqs_ready-Steady cur next

tick_mlfqs-Steady : (cur : Ptr) → Keeps Steady (tick_mlfqs cur)
unfolding tick_mlfqs
tick_mlfqs-Steady cur = Steady-bind Steady-get (λ k. front-Steady cur k.ready_list)

pub thread_tick-Steady : Keeps Steady thread_tick
unfolding thread_tick
thread_tick-Steady =
    search
      (
        steady_threads, count_tick-Steady, tick_sjf-Steady, tick_roundrobin-Steady,
        tick_mlfqs-Steady,
      )
      fits 4000 depth 40

-- The life cycle.
new_page-Steady :
    (t : Ptr) (name : List ℕ) (priority : ℤ)
    → (t == null) ≡ false
    → Keeps Steady (store t (new_thread t name priority))
unfolding new_thread
new_page-Steady t name priority real =
    Keeps-store Steady t (new_thread t name priority)
      (λ k. record { clock = refl; policy_kept = refl; paged = λ h a. ground (arith, h a) })

-- A page that the allocator gives is not null, and init_thread makes it that of a thread.
pub init_thread-Steady :
    (t : Ptr) (name : List ℕ) (priority : ℤ) → Keeps Steady (init_thread t name priority)
unfolding init_thread
init_thread-Steady t name priority = elim (Bool-cases (t == null)) [
  | inl missing ↦ rw (init_thread, missing) (record { run = λ k. tt })
  | inr real ↦
      search (steady_synch, new_page-Steady, real, get_total_exec-Steady) fits 4000 depth 60
]

allocate_tid-Steady : (t : Ptr) → Keeps Steady (allocate_tid t)
unfolding allocate_tid
allocate_tid-Steady t = search steady_synch depth 30

pub take_tid_step-Steady : (t : Ptr) → Keeps Steady (take_tid_step t)
unfolding take_tid_step
take_tid_step-Steady t = search steady_synch depth 30

alloc_frame-Steady : (t : Ptr) (size : ℕ) → Keeps Steady (alloc_frame t size)
unfolding alloc_frame
alloc_frame-Steady t size = search steady_threads depth 30

pub thread_create-Steady :
    (page : Ptr) (name : List ℕ) (priority : ℤ) → Keeps Steady (thread_create page name priority)
unfolding thread_create
thread_create-Steady page name priority =
    search (steady_synch, init_thread-Steady, allocate_tid-Steady) depth 30

pub create_rest_step-Steady : (t : Ptr) → Keeps Steady (create_rest_step t)
unfolding create_rest_step
create_rest_step-Steady t = search (steady_threads, alloc_frame-Steady) depth 40

pub thread_start-Steady : (s : ℕ) (page : Ptr) → Keeps Steady (thread_start s page)
unfolding thread_start
thread_start-Steady s page = search (steady_synch, thread_create-Steady) depth 30

pub start_rest_step-Steady : (s : ℕ) → Keeps Steady (start_rest_step s)
unfolding start_rest_step
start_rest_step-Steady s = search steady_synch depth 30

get_total_execs-Steady : Keeps Steady (thread_foreach get_total_exec_each)
get_total_execs-Steady = thread_foreach-Steady get_total_exec_each get_total_exec_each-Steady

exit_sjf-Steady : (t : Ptr) → Keeps Steady (exit_sjf t)
unfolding exit_sjf
exit_sjf-Steady t =
    search (steady, calc_new_total_exec-Steady, get_total_execs-Steady) fits 4000 depth 40

add_wait-Steady : (t : Ptr) → Keeps Steady (add_wait t)
unfolding add_wait
add_wait-Steady t = search steady depth 30

pub thread_exit-Steady : Keeps Steady thread_exit
unfolding thread_exit
thread_exit-Steady = search (steady_threads, exit_sjf-Steady, add_wait-Steady) fits 4000 depth 60

pub idle-Steady : (s : ℕ) → Keeps Steady (idle s)
unfolding idle
idle-Steady s = search steady_synch depth 30

pub idle_loop_step-Steady : Keeps Steady idle_loop_step
unfolding idle_loop_step
idle_loop_step-Steady = search steady_threads depth 30

pub idle_halt_step-Steady : Keeps Steady idle_halt_step
unfolding idle_halt_step
idle_halt_step-Steady = search steady_threads depth 30

-- The timer.
enqueue_sleeper-Steady : (t : Ptr) (ticks : ℤ) → Keeps Steady (enqueue_sleeper t ticks)
unfolding enqueue_sleeper
enqueue_sleeper-Steady t ticks = search steady_level depth 30

pub timer_sleep-Steady : (ticks : ℤ) → Keeps Steady (timer_sleep ticks)
unfolding timer_sleep
timer_sleep-Steady ticks = search (steady_synch, enqueue_sleeper-Steady) depth 30

pub wake_loop-Steady : (ts : List Ptr) → Keeps Steady (wake_loop ts)
unfolding wake_loop
wake_loop-Steady [] = search steady
wake_loop-Steady (t ∷ ts) = Steady-bind Steady-get (λ k. Steady-bind (Steady-load t) (λ th.
    Steady-if _ (Steady-pure _) (
      Steady-bind (sema_up-Steady (timer_sema t)) (λ _.
        Steady-bind (Steady-modify (λ k. refl) (λ k. refl) (λ k. refl))
          (λ _. wake_loop-Steady ts)))))
