-- ===== src/Synch/Up.antt =====
-- sema_up: the value grows, and the first waiter becomes ready.
use calendarizador.Prelude.{
  ◌+◌, ◌%◌, ◌^◌, ◌≡◌, refl, true, false, some, List, [], ◌∷◌, arith, has, has-snoc, Distinct-snoc,
  Bool-cases, inl, inr,
}
use calendarizador.LinkedList.{list_push_back}
use calendarizador.Kernel.{
  Ptr, blocked, intr_off, SemaRef, Semaphore, Kernel, in_status, eq_sema, update, update_sema,
}
use calendarizador.Scheduler.{thread_unblock}
use calendarizador.Scheduler.Unblock.{SameRest, Unblocked, thread_unblock-Unblocked}
use calendarizador.Scheduler.Invariant.{Place, in_ready, waits, IsConsistent}
use calendarizador.Synch.{sema_up}

-- Where the threads are when sema_up has run.
abbrev pub place_up : (Ptr → Place) → List Ptr → Ptr → Place
place_up place [] = place
place_up place (t ∷ ts) = update place t in_ready

abbrev pub ready_up : List Ptr → List Ptr → List Ptr
ready_up queue [] = queue
ready_up queue (t ∷ ts) = list_push_back queue t

abbrev pub rest_up : List Ptr → List Ptr
rest_up [] = []
rest_up (t ∷ ts) = ts

abbrev pub raised : Semaphore → Semaphore
raised v = record { value = (v.value + 1) % 2 ^ 32; waiters = rest_up v.waiters }

pub record Raised (k : Kernel) (place : Ptr → Place) (s : SemaRef) (k' : Kernel) : Type 0 where
  pub consistent : IsConsistent k' (place_up place (k.semas s).waiters)
  pub sema : k'.semas s ≡ raised (k.semas s)
  pub other_semas : (r : SemaRef) → eq_sema s r ≡ false → k'.semas r ≡ k.semas r
  pub ready_list : k'.ready_list ≡ ready_up k.ready_list (k.semas s).waiters
  pub rest : SameRest k k'
  pub others : (u : Ptr) → has u (k.semas s).waiters ≡ false → k'.threads u ≡ k.threads u

pub eq_of_eq_sema : (s r : SemaRef) → eq_sema s r ≡ true → s ≡ r
eq_of_eq_sema s r h = ground arith

pub eq_sema_refl : (s : SemaRef) → eq_sema s s ≡ true
eq_sema_refl s = ground arith

module _ (k : Kernel) (place : Ptr → Place) (s : SemaRef) (con : IsConsistent k place) where
  -- The end of sema_up, where `k3` is the state behind thread_unblock.
  abbrev finish : Kernel → Kernel
  finish k3 = record k3 {
    level = k.level;
    semas =
        update_sema k3.semas s (record (k3.semas s) { value = ((k3.semas s).value + 1) % 2 ^ 32 });
  }

  abbrev taken : List Ptr → Kernel
  taken ts = record k {
    level = intr_off;
    semas = update_sema k.semas s (record (k.semas s) { waiters = ts });
  }

  up-nil :
      (k.semas s).waiters ≡ [] → sema_up s k ≡ some (tt, finish (record k { level = intr_off }))
  unfolding sema_up
  up-nil e = ground (arith, con.masked)

  up-cons :
      (t : Ptr) (ts : List Ptr) (k3 : Kernel)
      → (k.semas s).waiters ≡ t ∷ ts
      → thread_unblock t (taken ts) ≡ some (tt, k3)
      → k3.in_external_intr ≡ k.in_external_intr
      → sema_up s k ≡ some (tt, finish k3)
  unfolding sema_up
  up-cons t ts k3 e u same = ground (arith, con.masked)

  abbrev idled : Kernel
  idled = record k { level = intr_off }

  Raised-nil : (k.semas s).waiters ≡ [] → Raised k place s (finish idled)
  Raised-nil e = record {
    consistent = rw e (record {
      queues = record {
        ready_place = con.queues.ready_place;
        ready_distinct = con.queues.ready_distinct;
        wait_place = λ r t h.
            ground (arith, con.queues.wait_place r t, con.queues.wait_place s t, eq_of_eq_sema s r);
        wait_distinct = λ r. ground (arith, con.queues.wait_distinct r, con.queues.wait_distinct s);
      };
      statuses = record { on_ready = con.statuses.on_ready; on_wait = con.statuses.on_wait };
      current_runs = con.current_runs;
      current_place = con.current_place;
      idle_page = con.idle_page;
      idle_place = con.idle_place;
      masked = con.masked;
    });
    sema = ground (arith, eq_sema_refl s);
    other_semas = λ r ne. ground arith;
    ready_list = rw e;
    rest = ground arith;
    others = λ u h. refl;
  }

  module _ (t : Ptr) (ts : List Ptr) (k3 : Kernel) (e : (k.semas s).waiters ≡ t ∷ ts)
      (u : Unblocked (taken ts) t k3) where
    Raised-cons : Raised k place s (finish k3)
    Raised-cons = record {
      consistent = rw e (record {
        queues = record {
          ready_place = λ v h.
              ground (arith, u.ready_list, has-snoc v k.ready_list t, con.queues.ready_place v);
          ready_distinct =
              rw u.ready_list (Distinct-snoc k.ready_list t con.queues.ready_distinct not_ready);
          wait_place = λ r v h. ground (
            arith,
            u.semas,
            e,
            eq_of_eq_sema s r,
            con.queues.wait_place r v,
            con.queues.wait_place s v,
            con.queues.wait_distinct s,
          );
          wait_distinct = λ r. ground (
            arith,
            u.semas,
            e,
            eq_of_eq_sema s r,
            con.queues.wait_distinct r,
            con.queues.wait_distinct s,
          );
        };
        statuses = record {
          on_ready = λ v ne p.
              ground (arith, u.others v, u.is_ready, u.rest.current, con.statuses.on_ready v);
          on_wait =
              λ v r ne p. ground (arith, u.others v, u.rest.current, con.statuses.on_wait v r);
        };
        current_runs =
            ground (arith, u.others k.current, con.current_runs, con.current_place, waiting);
        current_place = ground (arith, con.current_place, waiting);
        idle_page = ground (arith, u.others k.idle_thread, u.is_ready);
        idle_place = ground (arith, con.idle_place, waiting);
        masked = ground (arith, con.masked);
      });
      sema = ground (arith, u.semas, eq_sema_refl s);
      other_semas = λ r ne. ground (arith, u.semas);
      ready_list = rw e u.ready_list;
      rest = ground (arith, u.rest);
      others = λ v h. u.others v (λ same. ground (arith, same));
    }
      where
        waiting : place t ≡ waits s
        waiting = con.queues.wait_place s t (ground arith)

        not_ready : has t k.ready_list ≡ false
        not_ready = elim (Bool-cases (has t k.ready_list)) [
          | inl h ↦ cc (waiting, con.queues.ready_place t h)
          | inr h ↦ h
        ]

  -- While the invariant holds, sema_up does not fail. It adds 1 to the value (modulo 2^32), and the
  -- first waiter, if there is one, goes to the back of the ready list; the other waiters, the other
  -- semaphores and the memory of the other threads stay. The invariant still holds.
  pub sema_up-Raised : (k' : Kernel) × (sema_up s k ≡ some (tt, k')) × Raised k place s k'
  sema_up-Raised = go (k.semas s).waiters refl
    where
      go :
          (queue : List Ptr)
          → (k.semas s).waiters ≡ queue
          → (k' : Kernel) × (sema_up s k ≡ some (tt, k')) × Raised k place s k'
      go [] e = (finish idled, up-nil e, Raised-nil e)
      go (t ∷ ts) e =
          let sleeps : in_status k t blocked ≡ true =
            con.statuses.on_wait t s
              (λ same. cc (con.queues.wait_place s t (ground arith), con.current_place))
              (con.queues.wait_place s t (ground arith)) in
          let (k3, woke, u) = thread_unblock-Unblocked (taken ts) t sleeps (λ h. refl) in
          (finish k3, up-cons t ts k3 e woke u.rest.in_external_intr, Raised-cons t ts k3 e u)
