-- ===== src/Synch/Lock.antt =====
-- Locks: who holds them, and how they are passed on.
use calendarizador.Prelude.{
  ℕ, ◌-◌, ◌≡◌, ◌≢◌, ◌⊎◌, true, false, none, some, ◌==◌, arith, Bool-cases, inl, inr,
}
use calendarizador.Kernel.{Ptr, null, lock_sema, SemaRef, Kernel, eq_sema, update, update_sema}
use calendarizador.Scheduler.Invariant.{Place, IsConsistent}
use calendarizador.Synch.{sema_up, lock_held_by_current_thread, lock_try_acquire, lock_release}
use calendarizador.Synch.Up.{raised, ready_up, place_up, sema_up-Raised}

-- The lock is free, its semaphore has been raised, and the first waiter is ready.
pub record Released (k : Kernel) (place : Ptr → Place) (lock : ℕ) (k' : Kernel) : Type 0 where
  pub consistent : IsConsistent k' (place_up place (k.semas (lock_sema lock)).waiters)
  pub free : k'.holders lock ≡ null
  pub other_holders : (l : ℕ) → (l ≡ lock) ⊎ (k'.holders l ≡ k.holders l)
  pub sema : k'.semas (lock_sema lock) ≡ raised (k.semas (lock_sema lock))
  pub other_semas : (r : SemaRef) → (eq_sema (lock_sema lock) r ≡ true) ⊎ (k'.semas r ≡ k.semas r)
  pub ready_list : k'.ready_list ≡ ready_up k.ready_list (k.semas (lock_sema lock)).waiters
  pub current : k'.current ≡ k.current

-- The lock has been taken: its value was not zero.
abbrev pub acquired : Kernel → ℕ → Kernel
acquired k lock = record k {
  semas =
      update_sema k.semas (lock_sema lock)
        (record (k.semas (lock_sema lock)) { value = (k.semas (lock_sema lock)).value - 1 });
  holders = update k.holders lock k.current;
}

module _ (k : Kernel) (place : Ptr → Place) (lock : ℕ) (con : IsConsistent k place) where
  abbrev unheld : Kernel
  unheld = record k { holders = update k.holders lock null }

  unheld-IsConsistent : IsConsistent unheld place
  unheld-IsConsistent = record {
    queues = record {
      ready_place = con.queues.ready_place;
      ready_distinct = con.queues.ready_distinct;
      wait_place = con.queues.wait_place;
      wait_distinct = con.queues.wait_distinct;
    };
    statuses = record { on_ready = con.statuses.on_ready; on_wait = con.statuses.on_wait };
    current_runs = con.current_runs;
    current_place = con.current_place;
    idle_page = con.idle_page;
    idle_place = con.idle_place;
    masked = con.masked;
  }

  pub held_lem : lock_held_by_current_thread lock k ≡ some (k.holders lock == k.current, k)
  unfolding lock_held_by_current_thread
  held_lem = ground (arith, con.current_runs)

  release-held :
      {k' : Kernel}
      → (k.holders lock == k.current) ≡ true
      → sema_up (lock_sema lock) unheld ≡ some (tt, k')
      → lock_release lock k ≡ some (tt, k')
  unfolding lock_release
  release-held held up = ground (arith, held_lem)

  release-other : (k.holders lock == k.current) ≡ false → lock_release lock k ≡ none
  unfolding lock_release
  release-other other = ground (arith, held_lem)

  -- While the invariant holds, lock_release fails where the current thread does not hold the lock.
  -- Where it does, the lock is free, its semaphore has been raised, and its first waiter goes to the
  -- back of the ready list; the current thread runs on, and the other locks and semaphores stay. The
  -- invariant still holds.
  pub lock_release-cases :
      (k.holders lock ≢ k.current) × (lock_release lock k ≡ none)
      ⊎ (k.holders lock ≡ k.current)
        × (k' : Kernel) × (lock_release lock k ≡ some (tt, k'))
        × Released k place lock k'
  lock_release-cases = elim (Bool-cases (k.holders lock == k.current)) [
    | inr other ↦ inl (λ e. ground arith, release-other other)
    | inl held ↦
        let (k', up, r) = sema_up-Raised unheld place (lock_sema lock) unheld-IsConsistent in
        inr (
          ground arith,
          k',
          release-held held up,
          record {
            consistent = r.consistent;
            free = ground (arith, r.rest.holders);
            other_holders = λ l. ground (arith, r.rest.holders);
            sema = r.sema;
            other_semas = λ q. elim (Bool-cases (eq_sema (lock_sema lock) q)) [
              | inl same ↦ inl same
              | inr other ↦ inr (r.other_semas q other)
            ];
            ready_list = r.ready_list;
            current = r.rest.current;
          },
        )
  ]

  try-held : (k.holders lock == k.current) ≡ true → lock_try_acquire lock k ≡ none
  unfolding lock_try_acquire
  try-held held = ground (arith, held_lem)

  try-free :
      (k.holders lock == k.current) ≡ false
      → ((k.semas (lock_sema lock)).value == 0) ≡ false
      → lock_try_acquire lock k ≡ some (true, acquired k lock)
  unfolding lock_try_acquire
  try-free other free = ground (arith, held_lem, con.current_runs, con.masked)

  try-busy :
      (k.holders lock == k.current) ≡ false
      → ((k.semas (lock_sema lock)).value == 0) ≡ true
      → lock_try_acquire lock k ≡ some (false, k)
  unfolding lock_try_acquire
  try-busy other busy = ground (arith, held_lem, con.masked)

  -- While the invariant holds, lock_try_acquire fails where the current thread holds the lock
  -- already. Otherwise it gives true and takes the lock where the value of its semaphore is not 0;
  -- where it is 0 it gives false and changes nothing.
  pub lock_try_acquire-cases :
      (k.holders lock ≡ k.current) × (lock_try_acquire lock k ≡ none)
      ⊎ (k.holders lock ≢ k.current)
        × (((k.semas (lock_sema lock)).value ≢ 0)
              × (lock_try_acquire lock k ≡ some (true, acquired k lock))
            ⊎ ((k.semas (lock_sema lock)).value ≡ 0) × (lock_try_acquire lock k ≡ some (false, k)))
  lock_try_acquire-cases = elim (Bool-cases (k.holders lock == k.current)) [
    | inl held ↦ inl (ground arith, try-held held)
    | inr other ↦ inr (
      λ e. ground arith,
      elim (Bool-cases ((k.semas (lock_sema lock)).value == 0)) [
        | inl busy ↦ inr (ground arith, try-busy other busy)
        | inr free ↦ inl (λ e. ground arith, try-free other free)
      ],
    )
  ]
