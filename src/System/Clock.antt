-- ===== src/System/Clock.antt =====
-- Every run of the kernel: the clock counts the timer interrupts, the policy stays, and every live
-- page is that of a thread.
use calendarizador.Prelude.{ℕ, zero, suc, List, [], ◌∷◌, ◌≡◌, refl, ap, ◌∙◌}
use calendarizador.Prelude.Int.{ℤ, pos, ◌+ℤ◌, wrap64}
use calendarizador.Kernel.{
  Ptr, Frame, kernel_thread, after_schedule, set_level, down_loop, take_lock, reacquire, take_tid,
  create_rest, start_rest, idle_loop, idle_halt, iret, Kernel, K, ◌>>=◌, ◌>>◌, edit, modify, pure,
}
use calendarizador.Kernel.Keeps.{Keeps, Keeps-compose, Keeps-modify, Keeps-outcome}
use calendarizador.Timer.{timer_interrupt, intr_handler}
use calendarizador.System.{
  Call, yield, exit, create, start, run_idle, down, up, try_down, acquire, release, try_acquire,
  wait, signal, broadcast, sleep, set_priority, set_nice, call, return_to, resume, timer_tick,
  calls, returns, interrupts, Reach, here, later,
}
use calendarizador.System.Steady.{
  Steady, IsPaged, policy, steady, steady_level, Steady-bind, Steady-get, Steady-load, Steady-edit,
  Steady-modify, Steady-push_frame,
}
use calendarizador.System.Threads.{steady_threads, steady_synch}
use calendarizador.System.Services.{
  thread_set_priority-Steady, thread_set_nice-Steady, thread_tick-Steady, take_tid_step-Steady,
  thread_create-Steady, create_rest_step-Steady, thread_start-Steady, start_rest_step-Steady,
  thread_exit-Steady, idle-Steady, idle_loop_step-Steady, idle_halt_step-Steady, timer_sleep-Steady,
  wake_loop-Steady,
}

call-Steady : (c : Call) → Keeps Steady (call c)
unfolding call
call-Steady yield = search steady_threads
call-Steady exit = thread_exit-Steady
call-Steady (create page name priority) = thread_create-Steady page name priority
call-Steady (start s page) = thread_start-Steady s page
call-Steady (run_idle s) = idle-Steady s
call-Steady (down s) = search steady_synch
call-Steady (up s) = search steady_synch
call-Steady (try_down s) = search steady_synch
call-Steady (acquire l) = search steady_synch
call-Steady (release l) = search steady_synch
call-Steady (try_acquire l) = search steady_synch
call-Steady (wait c l) = search steady_synch
call-Steady (signal c l) = search steady_synch
call-Steady (broadcast c l) = search steady_synch
call-Steady (sleep n) = timer_sleep-Steady n
call-Steady (set_priority p) = thread_set_priority-Steady p
call-Steady (set_nice n) = thread_set_nice-Steady n

return_to-Steady : (cur : Ptr) (f : Frame) → Keeps Steady (return_to cur f)
unfolding return_to
return_to-Steady cur kernel_thread = search steady_level
return_to-Steady cur (after_schedule next) = search steady_threads
return_to-Steady cur (set_level l) = search steady_level
return_to-Steady cur (down_loop s l) = search steady_synch
return_to-Steady cur (take_lock l) = search steady_synch
return_to-Steady cur (reacquire l) = search steady_synch
return_to-Steady cur (take_tid t) = take_tid_step-Steady t
return_to-Steady cur (create_rest t) = create_rest_step-Steady t
return_to-Steady cur (start_rest s) = start_rest_step-Steady s
return_to-Steady cur idle_loop = idle_loop_step-Steady
return_to-Steady cur idle_halt = idle_halt_step-Steady
return_to-Steady cur iret = search steady

top-Steady :
    (cur : Ptr) (frames : List Frame)
    → Keeps Steady (elim frames as (λ _. K (Unit {0})) [
      | [] ↦ pure tt
      | f ∷ fs ↦ do edit cur (λ th. record th { frames = fs }); return_to cur f
    ])
top-Steady cur [] = search steady
top-Steady cur (f ∷ fs) = Steady-bind (Steady-edit cur _ (λ th. refl)) (λ _. return_to-Steady cur f)

resume-Steady : Keeps Steady resume
unfolding resume
resume-Steady =
    Steady-bind Steady-get
      (λ k. Steady-bind (Steady-load k.current) (λ th. top-Steady k.current th.frames))

-- The tick counter after `n` more ticks; it is an int64_t.
abbrev pub advance : ℕ → ℤ → ℤ
advance zero now = now
advance (suc n) now = wrap64 (advance n now +ℤ pos 1)

-- What holds between two kernels with `n` timer interrupts between them.
pub record Advanced (n : ℕ) (k k' : Kernel) : Type 0 where
  pub clock : k'.ticks ≡ advance n k.ticks
  pub policy_kept : policy k' ≡ policy k
  pub paged : IsPaged k → IsPaged k'

Advanced-Steady : (n : ℕ) (k m k' : Kernel) → Advanced n k m → Steady m k' → Advanced n k k'
Advanced-Steady n k m k' a s = record {
  clock = s.clock ∙ a.clock;
  policy_kept = s.policy_kept ∙ a.policy_kept;
  paged = λ h. s.paged (a.paged h);
}

Steady-Advanced : (n : ℕ) (k m k' : Kernel) → Steady k m → Advanced n m k' → Advanced n k k'
Steady-Advanced n k m k' s a = record {
  clock = a.clock ∙ ap (advance n) s.clock;
  policy_kept = a.policy_kept ∙ s.policy_kept;
  paged = λ h. a.paged (s.paged h);
}

Advanced-later :
    (n : ℕ) (k m k' : Kernel) → Advanced n k m → Advanced 1 m k' → Advanced (suc n) k k'
Advanced-later n k m k' a b = record {
  clock = b.clock ∙ ap (advance 1) a.clock;
  policy_kept = b.policy_kept ∙ a.policy_kept;
  paged = λ h. b.paged (a.paged h);
}

Ticks-first :
    {A B : Type 0} {m : K A} {f : A → K B}
    → Keeps (Advanced 1) m
    → ((a : A) → Keeps Steady (f a))
    → Keeps (Advanced 1) (m >>= f)
Ticks-first = Keeps-compose (Advanced-Steady 1)

Ticks-then :
    {A B : Type 0} {m : K A} {f : A → K B}
    → Keeps Steady m
    → ((a : A) → Keeps (Advanced 1) (f a))
    → Keeps (Advanced 1) (m >>= f)
Ticks-then = Keeps-compose (Steady-Advanced 1)

counts : Keeps (Advanced 1) (modify (λ k. record k { ticks = wrap64 (k.ticks +ℤ pos 1) }))
counts =
    Keeps-modify (Advanced 1) (λ k. record { clock = refl; policy_kept = refl; paged = λ h. h })

timer_interrupt-Advanced : Keeps (Advanced 1) timer_interrupt
unfolding timer_interrupt
timer_interrupt-Advanced = Ticks-first counts (λ _.
    Steady-bind thread_tick-Steady
      (λ _. Steady-bind Steady-get (λ k. wake_loop-Steady k.wait_list)))

intr_handler-Advanced : Keeps (Advanced 1) intr_handler
unfolding intr_handler
intr_handler-Advanced =
    search (steady_threads, Ticks-first, Ticks-then, timer_interrupt-Advanced) fits 6000 depth 40

timer_tick-Advanced : Keeps (Advanced 1) timer_tick
unfolding timer_tick
timer_tick-Advanced =
    Ticks-then (Steady-modify (λ k. refl) (λ k. refl) (λ k. refl))
      (λ _. Ticks-then (Steady-push_frame iret) (λ _. intr_handler-Advanced))

-- The timer interrupts in a run.
abbrev pub interrupts_in : {k k' : Kernel} → Reach k k' → ℕ
interrupts_in here = 0
interrupts_in (later r (calls c current running e)) = interrupts_in r
interrupts_in (later r (returns e)) = interrupts_in r
interrupts_in (later r (interrupts level e)) = suc (interrupts_in r)

-- In every run of the kernel, whatever the order of calls, returns and timer interrupts, the clock of
-- the last state is that of the first advanced by the number of timer interrupts, the scheduling
-- policy is the same, and if at first every live page was that of a thread, not null and with its
-- magic number, then so is every live page at the end.
pub Reach-Advanced : {k k' : Kernel} (r : Reach k k') → Advanced (interrupts_in r) k k'
Reach-Advanced here = record { clock = refl; policy_kept = refl; paged = λ h. h }
Reach-Advanced (later r (calls c current running e)) =
    Advanced-Steady (interrupts_in r) _ _ _ (Reach-Advanced r) (Keeps-outcome (call-Steady c) e)
Reach-Advanced (later r (returns e)) =
    Advanced-Steady (interrupts_in r) _ _ _ (Reach-Advanced r) (Keeps-outcome resume-Steady e)
Reach-Advanced (later r (interrupts level e)) =
    Advanced-later (interrupts_in r) _ _ _ (Reach-Advanced r) (Keeps-outcome timer_tick-Advanced e)
