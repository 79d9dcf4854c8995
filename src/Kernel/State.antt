-- ===== src/Kernel/State.antt =====
-- struct thread (threads/thread.h), struct semaphore (threads/synch.h) and the variables of
-- threads/thread.c, threads/synch.c, devices/timer.c and threads/interrupt.c.
use calendarizador.Prelude.{ℕ, Bool, true, false, Option, List, ◌==◌, if◌then◌else◌}
use calendarizador.Prelude.Int.{ℤ}

-- The address of a page that holds a thread; 0 is NULL.
abbrev pub Ptr : Type 0
Ptr = ℕ

abbrev pub null : Ptr
null = 0

pub data ThreadStatus : Type 0 where
  running ready blocked dying : ThreadStatus

pub data IntrLevel : Type 0 where
  intr_off intr_on : IntrLevel

-- Where a semaphore lies: in a thread's page, on the stack of a thread that waits on a condition,
-- in a lock, or elsewhere.
pub data SemaRef : Type 0 where
  timer_sema waiter_sema : Ptr → SemaRef
  lock_sema plain_sema : ℕ → SemaRef

-- What a thread does when the function that it is in returns: the saved stack of the thread, one
-- frame for each call that has not finished.
pub data Frame : Type 0 where
  kernel_thread : Frame  -- switch_entry, then kernel_thread
  after_schedule : (next : Ptr) → Frame  -- schedule, behind switch_threads
  set_level : IntrLevel → Frame  -- intr_set_level (old_level) at a function's end
  down_loop : SemaRef → IntrLevel → Frame  -- the while loop of sema_down
  take_lock : (lock : ℕ) → Frame  -- lock_acquire, behind sema_down
  reacquire : (lock : ℕ) → Frame  -- cond_wait, behind sema_down
  take_tid : (t : Ptr) → Frame  -- allocate_tid, behind lock_acquire, and the store of its result
  create_rest : (t : Ptr) → Frame  -- thread_create, behind allocate_tid
  start_rest : (idle_started : ℕ) → Frame  -- thread_start, behind thread_create
  idle_loop idle_halt : Frame  -- the loop of idle, and its part behind thread_block
  iret : Frame  -- the return from an external interrupt

pub record Semaphore : Type 0 where
  pub value : ℕ
  pub waiters : List Ptr

pub record Thread : Type 0 where
  pub tid : ℤ
  pub status : ThreadStatus
  pub name : List ℕ
  pub stack : ℕ
  pub recent_wait : ℤ
  pub total_wait : ℤ
  pub repeat : ℤ
  pub prio : List ℤ
  pub pos : ℕ
  pub iobound : Bool
  pub ticks : ℤ
  pub curr_exec : ℤ
  pub total_exec : ℤ
  pub priority : ℤ
  pub nice : ℤ
  pub recent_cpu : ℤ
  pub wakeup_time : ℤ
  pub magic : ℕ
  pub frames : List Frame

pub record Kernel : Type 0 where
  pub current : Ptr  -- the page that the stack pointer lies in
  pub threads : Ptr → Option Thread  -- `none` at an address that is no live page
  pub semas : SemaRef → Semaphore
  pub holders : ℕ → Ptr  -- the holder of each lock
  pub conditions : ℕ → List Ptr  -- the waiters of each condition variable
  pub ready_list : List Ptr
  pub all_list : List Ptr
  pub all_all_list : List Ptr
  pub wait_list : List Ptr
  pub idle_thread : Ptr
  pub initial_thread : Ptr
  pub idle_ticks : ℤ
  pub kernel_ticks : ℤ
  pub thread_ticks : ℕ
  pub thread_mlfqs : Bool
  pub roundrobin : Bool
  pub fcfs : Bool
  pub sjf : Bool
  pub threads_print : Bool
  pub total_ready_threads : ℤ
  pub total_wait_time : ℤ
  pub load_avg : ℤ
  pub next_tid : ℤ
  pub ticks : ℤ
  pub level : IntrLevel
  pub in_external_intr : Bool
  pub yield_on_return : Bool

abbrev pub thread_magic : ℕ
thread_magic = 0xcd6abf4b

abbrev pub pri_min : ℕ
pri_min = 0

abbrev pub pri_max : ℕ
pri_max = 63

abbrev pub quantum : ℕ
quantum = 7

abbrev pub timer_freq : ℕ
timer_freq = 100

-- The lock `tid_lock` of thread.c.
abbrev pub tid_lock : ℕ
tid_lock = 0

abbrev pub eq_status : ThreadStatus → ThreadStatus → Bool
eq_status running running = true
eq_status ready ready = true
eq_status blocked blocked = true
eq_status dying dying = true
eq_status _ _ = false

abbrev pub eq_sema : SemaRef → SemaRef → Bool
eq_sema (timer_sema a) (timer_sema b) = a == b
eq_sema (waiter_sema a) (waiter_sema b) = a == b
eq_sema (lock_sema a) (lock_sema b) = a == b
eq_sema (plain_sema a) (plain_sema b) = a == b
eq_sema _ _ = false

abbrev pub update {ℓ} : {A : Type ℓ} → (ℕ → A) → ℕ → A → ℕ → A
update f i a j = if i == j then a else f j

abbrev pub update_sema : (SemaRef → Semaphore) → SemaRef → Semaphore → SemaRef → Semaphore
update_sema f i a j = if eq_sema i j then a else f j
