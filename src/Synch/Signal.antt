-- ===== src/Synch/Signal.antt =====
-- Condition variables: who is woken by a signal.
use calendarizador.Prelude.{ℕ, ◌≡◌, refl, true, false, none, some, List, [], ◌∷◌, ◌==◌, has, arith}
use calendarizador.Kernel.{Ptr, SemaRef, waiter_sema, Kernel, eq_sema, update}
use calendarizador.Scheduler.Invariant.{Place, IsConsistent}
use calendarizador.Synch.{signal_first, cond_signal}
use calendarizador.Synch.Up.{raised, place_up, ready_up, sema_up-Raised}
use calendarizador.Synch.Lock.{held_lem}

-- `t` has been taken off the waiters of the condition, of which `ts` are left, and its semaphore has
-- been raised.
pub record Signalled (k : Kernel) (place : Ptr → Place) (cond t : ℕ) (ts : List Ptr) (k' : Kernel)
    : Type 0 where
  pub consistent : IsConsistent k' (place_up place (k.semas (waiter_sema t)).waiters)
  pub conditions : k'.conditions ≡ update k.conditions cond ts
  pub sema : k'.semas (waiter_sema t) ≡ raised (k.semas (waiter_sema t))
  pub other_semas : (r : SemaRef) → eq_sema (waiter_sema t) r ≡ false → k'.semas r ≡ k.semas r
  pub ready_list : k'.ready_list ≡ ready_up k.ready_list (k.semas (waiter_sema t)).waiters
  pub current : k'.current ≡ k.current
  pub holders : k'.holders ≡ k.holders
  pub external : k'.in_external_intr ≡ k.in_external_intr
  pub others :
      (u : Ptr) → has u (k.semas (waiter_sema t)).waiters ≡ false → k'.threads u ≡ k.threads u

module _ (k : Kernel) (place : Ptr → Place) (con : IsConsistent k place) where
  abbrev pub left_with : ℕ → List Ptr → Kernel
  left_with cond ts = record k { conditions = update k.conditions cond ts }

  pub left_with-IsConsistent : (cond : ℕ) (ts : List Ptr) → IsConsistent (left_with cond ts) place
  left_with-IsConsistent cond ts = record {
    queues = record {
      ready_place = con.queues.ready_place;
      ready_distinct = con.queues.ready_distinct;
      wait_place = con.queues.wait_place;
      wait_distinct = con.queues.wait_distinct;
    };
    statuses = record { on_ready = con.statuses.on_ready; on_wait = con.statuses.on_wait };
    current_runs = con.current_runs;
    current_place = con.current_place;
    idle_page = con.idle_page;
    idle_place = con.idle_place;
    masked = con.masked;
  }

  pub signal_first-Signalled :
      (cond t : ℕ) (ts : List Ptr)
      → (k' : Kernel) × (signal_first cond (t ∷ ts) k ≡ some (tt, k'))
        × Signalled k place cond t ts k'
  unfolding signal_first
  signal_first-Signalled cond t ts =
      let (k', up, r) =
        sema_up-Raised (left_with cond ts) place (waiter_sema t) (left_with-IsConsistent cond ts) in
      (
        k',
        rw (signal_first, up) refl,
        record {
          consistent = r.consistent;
          conditions = r.rest.conditions;
          sema = r.sema;
          other_semas = r.other_semas;
          ready_list = r.ready_list;
          current = r.rest.current;
          holders = r.rest.holders;
          external = r.rest.in_external_intr;
          others = r.others;
        },
      )

  pub cond_signal-held :
      (cond lock : ℕ)
      → k.in_external_intr ≡ false
      → (k.holders lock == k.current) ≡ true
      → cond_signal cond lock k ≡ signal_first cond (k.conditions cond) k
  unfolding cond_signal
  cond_signal-held cond lock outside held = ground (arith, held_lem k place lock con)

  cond_signal-other :
      (cond lock : ℕ) → (k.holders lock == k.current) ≡ false → cond_signal cond lock k ≡ none
  unfolding cond_signal
  cond_signal-other cond lock other = ground (arith, held_lem k place lock con)

  signal_first-empty : (cond : ℕ) → signal_first cond [] k ≡ some (tt, k)
  unfolding signal_first
  signal_first-empty cond = refl
