-- ===== src/Timer/Due.antt =====
-- Which sleepers are due, and what waking one of them leaves of the others.
use calendarizador.Prelude.{
  ◌≡◌, ◌⊎◌, refl, sym, ◌∙◌, Bool, true, false, Option, none, some, List, [], ◌∷◌, ◌++◌, ◌==◌, arith,
  if◌then◌else◌, has, inl, inr, All,
}
use mathlib.Core.List.{append-nil}
use calendarizador.Prelude.Int.{ℤ, ltb_ℤ}
use calendarizador.Kernel.{Ptr, SemaRef, timer_sema, Semaphore, Thread, Kernel, eq_sema}
use calendarizador.Scheduler.Invariant.{Place, IsConsistent}
use calendarizador.Synch.Up.{Raised, raised}

-- The sleepers at the front of the list whose time has come, and those from the first on whose time
-- has not.
abbrev pub is_due : ℤ → Option Thread → Bool
is_due now none = true
is_due now (some th) = if ltb_ℤ now th.wakeup_time then false else true

abbrev pub due_of : (Ptr → Option Thread) → ℤ → List Ptr → List Ptr
due_of threads now [] = []
due_of threads now (t ∷ ts) = if is_due now (threads t) then t ∷ due_of threads now ts else []

abbrev pub asleep_of : (Ptr → Option Thread) → ℤ → List Ptr → List Ptr
asleep_of threads now [] = []
asleep_of threads now (t ∷ ts) = if is_due now (threads t) then asleep_of threads now ts else t ∷ ts

-- A thread on the list is a live page, and nobody but itself waits on its timer_sema. It does not wait
-- there yet if it was interrupted in front of its sema_down.
pub record IsSleeper (k : Kernel) (t : Ptr) : Type 0 where
  pub page : Thread
  pub live : k.threads t ≡ some page
  pub alone : ((k.semas (timer_sema t)).waiters ≡ []) ⊎ ((k.semas (timer_sema t)).waiters ≡ t ∷ [])

-- The threads of the list that wait.
abbrev pub waiting_of : (SemaRef → Semaphore) → List Ptr → List Ptr
waiting_of semas [] = []
waiting_of semas (t ∷ ts) = (semas (timer_sema t)).waiters ++ waiting_of semas ts

pub record Woken (k : Kernel) (ts : List Ptr) (k' : Kernel) : Type 0 where
  pub place : Ptr → Place
  pub consistent : IsConsistent k' place
  pub wait_list : k'.wait_list ≡ asleep_of k.threads k.ticks ts
  pub ready_list : k'.ready_list ≡ k.ready_list ++ waiting_of k.semas (due_of k.threads k.ticks ts)
  pub up :
      All
        (λ t. k'.semas (timer_sema t) ≡ raised (k.semas (timer_sema t)))
        (due_of k.threads k.ticks ts)
  pub other_semas :
      (s : SemaRef)
      → All (λ t. eq_sema (timer_sema t) s ≡ false) (due_of k.threads k.ticks ts)
      → k'.semas s ≡ k.semas s

pub with_wait_list :
    (k : Kernel) (place : Ptr → Place) (ts : List Ptr)
    → IsConsistent k place
    → IsConsistent (record k { wait_list = ts }) place
with_wait_list k place ts con = record {
  queues = record {
    ready_place = con.queues.ready_place;
    ready_distinct = con.queues.ready_distinct;
    wait_place = con.queues.wait_place;
    wait_distinct = con.queues.wait_distinct;
  };
  statuses = record { on_ready = con.statuses.on_ready; on_wait = con.statuses.on_wait };
  current_runs = con.current_runs;
  current_place = con.current_place;
  idle_page = con.idle_page;
  idle_place = con.idle_place;
  masked = con.masked;
}

-- The lists depend on the memory of their own threads only.
module _ (f g : Ptr → Option Thread) (now : ℤ) where
  pub due_of-memory : (ts : List Ptr) → All (λ t. f t ≡ g t) ts → due_of f now ts ≡ due_of g now ts
  due_of-memory [] e = refl
  due_of-memory (t ∷ ts) e = λ i. if is_due now (e.0 i) then t ∷ due_of-memory ts e.1 i else []

  pub asleep_of-memory :
      (ts : List Ptr) → All (λ t. f t ≡ g t) ts → asleep_of f now ts ≡ asleep_of g now ts
  asleep_of-memory [] e = refl
  asleep_of-memory (t ∷ ts) e =
      λ i. if is_due now (e.0 i) then asleep_of-memory ts e.1 i else t ∷ ts

-- What sema_up on the timer semaphore of `t` leaves of the threads behind `t`.
module _ (k : Kernel) (place : Ptr → Place) (t : Ptr) (k1 : Kernel)
    (r : Raised k place (timer_sema t) k1) (s : IsSleeper k t) where
  pub thread_kept : (u : Ptr) → (u == t) ≡ false → k1.threads u ≡ k.threads u
  thread_kept u ne = r.others u (elim s.alone [ inl e ↦ rw e refl | inr e ↦ rw e (ground arith) ])

  pub IsSleeper-kept :
      (ts : List Ptr) (u : Ptr)
      → (u == t) ≡ false
      → IsSleeper k u
      → IsSleeper (record k1 { wait_list = ts }) u
  IsSleeper-kept ts u ne su =
      let sema : k1.semas (timer_sema u) ≡ k.semas (timer_sema u) =
        r.other_semas (timer_sema u) (ground arith) in
      record { page = su.page; live = thread_kept u ne ∙ su.live; alone = rw sema su.alone }

  pub sleepers_kept :
      (rest ts : List Ptr)
      → has t ts ≡ false
      → All (IsSleeper k) ts
      → All (IsSleeper (record k1 { wait_list = rest })) ts
  sleepers_kept rest [] out all = tt
  sleepers_kept rest (u ∷ us) out all =
      (IsSleeper-kept rest u (ground arith) all.0, sleepers_kept rest us (ground arith) all.1)

  pub memory_kept : (ts : List Ptr) → has t ts ≡ false → All (λ u. k1.threads u ≡ k.threads u) ts
  memory_kept [] out = tt
  memory_kept (u ∷ us) out = (thread_kept u (ground arith), memory_kept us (ground arith))

  pub waiting_kept :
      (ts : List Ptr) → has t ts ≡ false → waiting_of k1.semas ts ≡ waiting_of k.semas ts
  waiting_kept [] out = refl
  waiting_kept (u ∷ us) out =
      let sema : k1.semas (timer_sema u) ≡ k.semas (timer_sema u) =
        r.other_semas (timer_sema u) (ground arith) in
      λ i. (sema i).waiters ++ waiting_kept us (ground arith) i

pub due_of-absent :
    (threads : Ptr → Option Thread) (now : ℤ) (t : Ptr) (ts : List Ptr)
    → has t ts ≡ false
    → has t (due_of threads now ts) ≡ false
due_of-absent threads now t [] h = refl
due_of-absent threads now t (u ∷ us) h = ground (arith, due_of-absent threads now t us)

-- A sleeper whose time has not come ends the loop, and so does the end of the list.
pub wake_loop-stops :
    (k : Kernel) (place : Ptr → Place) (ts : List Ptr)
    → IsConsistent k place
    → k.wait_list ≡ ts
    → due_of k.threads k.ticks ts ≡ []
    → asleep_of k.threads k.ticks ts ≡ ts
    → Woken k ts k
wake_loop-stops k place ts con list none_due all_asleep = record {
  place = place;
  consistent = con;
  wait_list = list ∙ sym all_asleep;
  ready_list = rw none_due (sym (append-nil k.ready_list));
  up = rw none_due tt;
  other_semas = λ s h. refl;
}
