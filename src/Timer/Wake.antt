-- ===== src/Timer/Wake.antt =====
-- Whom a tick of the timer wakes.
use calendarizador.Prelude.{
  ◌≡◌, ◌⊎◌, refl, sym, ◌∙◌, Bool, true, false, some, List, [], ◌∷◌, ◌++◌, arith, if◌then◌else◌, has,
  Distinct, Bool-cases, inl, inr, All,
}
use mathlib.Core.List.{append-nil, append_assoc}
use mathlib.Core.Path.{subst}
use calendarizador.Prelude.Int.{ltb_ℤ}
use calendarizador.Kernel.{Ptr, timer_sema, Thread, Kernel, eq_sema}
use calendarizador.Scheduler.Invariant.{Place, IsConsistent}
use calendarizador.Synch.{sema_up}
use calendarizador.Synch.Up.{Raised, ready_up, place_up, raised, sema_up-Raised}
use calendarizador.Timer.{wake_loop}
use calendarizador.Timer.Due.{
  due_of, asleep_of, is_due, IsSleeper, Woken, waiting_of, with_wait_list, due_of-memory,
  asleep_of-memory, sleepers_kept, memory_kept, waiting_kept, due_of-absent, wake_loop-stops,
}

ready_up-alone :
    (queue waiters : List Ptr) (t : Ptr)
    → (waiters ≡ []) ⊎ (waiters ≡ t ∷ [])
    → ready_up queue waiters ≡ queue ++ waiters
ready_up-alone queue waiters t (inl e) = rw e (sym (append-nil queue))
ready_up-alone queue waiters t (inr e) = rw e refl

no_timer_sema :
    (t : Ptr) (ts : List Ptr)
    → has t ts ≡ false
    → All (λ u. eq_sema (timer_sema u) (timer_sema t) ≡ false) ts
no_timer_sema t [] h = tt
no_timer_sema t (u ∷ us) h = (ground arith, no_timer_sema t us (ground arith))

-- One round of the loop in front of what the rest of it does.
module _ (k : Kernel) (place : Ptr → Place) (t : Ptr) (ts : List Ptr) (k1 k3 : Kernel)
    (r : Raised k place (timer_sema t) k1) (s : IsSleeper k t)
    (late : is_due k.ticks (k.threads t) ≡ true) (out : has t ts ≡ false)
    (w : Woken (record k1 { wait_list = ts }) ts k3) where
  same_due : due_of k1.threads k1.ticks ts ≡ due_of k.threads k.ticks ts
  same_due =
      due_of-memory k1.threads k.threads k1.ticks ts (memory_kept k place t k1 r s ts out)
      ∙ (λ i. due_of k.threads (r.rest.ticks i) ts)

  same_asleep : asleep_of k1.threads k1.ticks ts ≡ asleep_of k.threads k.ticks ts
  same_asleep =
      asleep_of-memory k1.threads k.threads k1.ticks ts (memory_kept k place t k1 r s ts out)
      ∙ (λ i. asleep_of k.threads (r.rest.ticks i) ts)

  due : List Ptr
  due = due_of k.threads k.ticks ts

  due_out : has t due ≡ false
  unfolding due
  due_out = due_of-absent k.threads k.ticks t ts out

  next_ready : k3.ready_list ≡ k.ready_list ++ waiting_of k.semas (t ∷ due)
  unfolding due
  next_ready =
      w.ready_list
      ∙ (λ i. k1.ready_list ++ waiting_of k1.semas (same_due i))
      ∙ (λ i. k1.ready_list ++ waiting_kept k place t k1 r s due due_out i)
      ∙ (λ i. r.ready_list i ++ waiting_of k.semas due)
      ∙ (λ i.
          ready_up-alone k.ready_list (k.semas (timer_sema t)).waiters t s.alone i
          ++ waiting_of k.semas due)
      ∙ append_assoc k.ready_list (k.semas (timer_sema t)).waiters (waiting_of k.semas due)

  own_up : k3.semas (timer_sema t) ≡ raised (k.semas (timer_sema t))
  unfolding due
  own_up =
      w.other_semas (timer_sema t) (
        subst (All (λ u. eq_sema (timer_sema u) (timer_sema t) ≡ false)) (sym same_due)
          (no_timer_sema t due due_out))
      ∙ r.sema

  others_up :
      (us : List Ptr)
      → has t us ≡ false
      → All (λ u. k3.semas (timer_sema u) ≡ raised (k1.semas (timer_sema u))) us
      → All (λ u. k3.semas (timer_sema u) ≡ raised (k.semas (timer_sema u))) us
  others_up [] h all = tt
  others_up (u ∷ us) h all =
      let sema : k1.semas (timer_sema u) ≡ k.semas (timer_sema u) =
        r.other_semas (timer_sema u) (ground arith) in
      (all.0 ∙ (λ i. raised (sema i)), others_up us (ground arith) all.1)

  Woken-cons : Woken k (t ∷ ts) k3
  unfolding due
  Woken-cons = record {
    place = w.place;
    consistent = w.consistent;
    wait_list = rw late (w.wait_list ∙ same_asleep);
    ready_list = rw late next_ready;
    up = rw late (
      own_up,
      others_up due due_out (
          subst (All (λ u. k3.semas (timer_sema u) ≡ raised (k1.semas (timer_sema u)))) same_due
            w.up),
    );
    other_semas = λ q h.
        let h' =
          subst
            (λ (b : Bool). All (λ u. eq_sema (timer_sema u) q ≡ false) (if b then t ∷ due else []))
            late h in
        w.other_semas q (subst (All (λ u. eq_sema (timer_sema u) q ≡ false)) (sym same_due) h'.1)
        ∙ r.other_semas q h'.0;
  }

module _ (k : Kernel) (t : Ptr) (ts : List Ptr) (th : Thread) (live : k.threads t ≡ some th) where
  loop_stops : ltb_ℤ k.ticks th.wakeup_time ≡ true → wake_loop (t ∷ ts) k ≡ some (tt, k)
  unfolding wake_loop
  loop_stops early = ground arith

  loop_goes_on :
      {k1 k3 : Kernel}
      → ltb_ℤ k.ticks th.wakeup_time ≡ false
      → sema_up (timer_sema t) k ≡ some (tt, k1)
      → wake_loop ts (record k1 { wait_list = ts }) ≡ some (tt, k3)
      → wake_loop (t ∷ ts) k ≡ some (tt, k3)
  unfolding wake_loop
  loop_goes_on late up run = ground arith

-- While the invariant holds and the list of sleeping threads has distinct sleepers, the loop of
-- timer_interrupt does not fail. It takes the threads whose time has come from the front of the list,
-- up to the first whose time has not. Each of their semaphores is raised and no other, and those
-- that wait are put at the back of the ready list in this order. The invariant still holds.
pub wake_loop-Woken :
    (ts : List Ptr) (k : Kernel) (place : Ptr → Place)
    → IsConsistent k place
    → k.wait_list ≡ ts
    → Distinct ts
    → All (IsSleeper k) ts
    → (k' : Kernel) × (wake_loop ts k ≡ some (tt, k')) × Woken k ts k'
unfolding wake_loop
wake_loop-Woken [] k place con list distinct sleepers =
    (k, refl, wake_loop-stops k place [] con list refl refl)
wake_loop-Woken (t ∷ ts) k place con list distinct sleepers =
    let s = sleepers.0 in
    elim (Bool-cases (ltb_ℤ k.ticks s.page.wakeup_time)) [
      | inl early ↦
          let not_due : is_due k.ticks (k.threads t) ≡ false = rw (s.live, early) refl in
          (
            k,
            loop_stops k t ts s.page s.live early,
            wake_loop-stops k place (t ∷ ts) con list (rw not_due refl) (rw not_due refl),
          )
      | inr late ↦
          let due : is_due k.ticks (k.threads t) ≡ true = rw (s.live, late) refl in
          let (k1, up, r) = sema_up-Raised k place (timer_sema t) con in
          let (k3, run, w) =
            wake_loop-Woken ts (record k1 { wait_list = ts })
              (place_up place (k.semas (timer_sema t)).waiters)
              (with_wait_list k1 (place_up place (k.semas (timer_sema t)).waiters) ts r.consistent)
              refl distinct.1 (sleepers_kept k place t k1 r s ts ts distinct.0 sleepers.1) in
          (
            k3,
            loop_goes_on k t ts s.page s.live late up run,
            Woken-cons k place t ts k1 k3 r s due distinct.0 w,
          )
    ]
