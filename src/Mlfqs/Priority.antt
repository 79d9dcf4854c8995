-- ===== src/Mlfqs/Priority.antt =====
-- Priorities stay in their range, and the history of a thread in its array.
use calendarizador.Prelude.{
  ℕ, set, get_elem?-set_ne, suc, ◌≤◌, ◌<◌, ◌≡◌, refl, Bool, true, false, not, ◌&&◌, ◌||◌, Option,
  none, some, List, [], ◌∷◌, ◌==◌, arith, if◌then◌else◌, has, Distinct, length, length-set,
  get_elem?, get_elem?-set_self, Bool-cases, inl, inr, ◌⊎◌,
}
use mathlib.Core.Path.{◌∙◌}
use calendarizador.Prelude.Int.{ℤ, pos, ◌≤ℤ◌, ◌<ℤ◌, ◌-ℤ◌, ◌*ℤ◌, wrap32, div_const}
use calendarizador.FixedPoint.{fp_to_int_round}
use calendarizador.FixedPoint.Bounds.{div_int-pos}
use calendarizador.Kernel.{
  Ptr, Thread, Kernel, pri_min, pri_max, update, load, lift, edit, when, ◌>>=◌, ◌>>◌,
}
use calendarizador.Scheduler.{running_thread}
use calendarizador.Scheduler.Invariant.{
  Place, IsConsistent, current_live, ready_live, current_not_ready,
}
use calendarizador.Mlfqs.{
  clamp_priority, record_priority, new_priority, refresh_priority_thread, refresh_ready,
  refresh_priority,
}

-- The array of past priorities has ten places, and `pos` of them are in use.
abbrev pub IsHistory : Thread → Type 0
IsHistory th = (length th.prio ≡ 10) × (th.pos ≤ 10)

-- `p` is the value of the range that is nearest to `pri`: `pri` itself, or the bound that it is beyond.
abbrev pub IsNearest : ℤ → ℤ → Type 0
IsNearest pri p =
    (pos pri_min ≤ℤ pri) × (pri ≤ℤ pos pri_max) × (p ≡ pri)
    ⊎ (pri <ℤ pos pri_min) × (p ≡ pos pri_min)
    ⊎ (pos pri_max <ℤ pri) × (p ≡ pos pri_max)

clamp_priority-IsNearest : (pri : ℤ) → IsNearest pri (clamp_priority pri)
unfolding clamp_priority
clamp_priority-IsNearest pri = ground arith

-- The fields but the priority and its history are the same.
abbrev pub SameBut : Thread → Thread → Type 0
SameBut th th' = th' ≡ record th { priority = th'.priority; prio = th'.prio; pos = th'.pos }

-- While there is room, the value goes to the end of the history, behind the older entries, which
-- stay; a full history stays.
abbrev pub Recorded : ℤ → Thread → Thread → Type 0
Recorded pri th th' =
    (th.pos < 10)
      × (th'.pos ≡ suc th.pos)
      × (get_elem? th'.prio th.pos ≡ some pri)
      × ((j : ℕ) → (j ≡ th.pos) ⊎ (get_elem? th'.prio j ≡ get_elem? th.prio j))
    ⊎ (th.pos ≡ 10) × (th'.pos ≡ 10) × (th'.prio ≡ th.prio)

entry_kept : (xs : List ℤ) (i j : ℕ) (v : ℤ) → (j ≡ i) ⊎ (get_elem? (set xs i v) j ≡ get_elem? xs j)
entry_kept xs i j v = elim (Bool-cases (i == j)) [
  | inl same ↦ inl (ground arith)
  | inr other ↦ inr (get_elem?-set_ne xs v (λ e. ground arith))
]

-- What refresh_priority_thread writes for a thread whose history is in its array: the priority between
-- PRI_MIN and PRI_MAX that is nearest to the value and, while there is room, the value before it was
-- clamped, behind the older ones, which stay. A full history stays. The history stays in its array,
-- and the other fields of the thread do not change.
pub record_priority_lem :
    (pri : ℤ) (th : Thread)
    → IsHistory th
    → IsHistory (record_priority pri th)
      × IsNearest pri (record_priority pri th).priority
      × Recorded pri th (record_priority pri th)
      × SameBut th (record_priority pri th)
unfolding record_priority
record_priority_lem pri th h = elim (Bool-cases (th.pos == 10)) [
  | inl full ↦
      rw full (h, clamp_priority-IsNearest pri, inr (ground arith, ground arith, refl), refl)
  | inr room ↦ rw room (
    (ground (arith, length-set th.prio th.pos pri), ground arith),
    clamp_priority-IsNearest pri,
    inl (
      ground arith,
      refl,
      get_elem?-set_self th.prio th.pos pri (ground arith),
      λ j. entry_kept th.prio th.pos j pri,
    ),
    refl,
  )
]

-- The priority before it is clamped.
abbrev pub raw_priority : Thread → ℤ
raw_priority th = wrap32 (
    wrap32 (pos pri_max -ℤ fp_to_int_round (wrap32 (div_const th.recent_cpu 4)))
    -ℤ wrap32 (th.nice *ℤ pos 2))

-- The division by 4 does not fault.
pub new_priority-some : (th : Thread) → new_priority th ≡ some (raw_priority th)
unfolding new_priority
new_priority-some th = ground (arith, div_int-pos th.recent_cpu 4)

-- A thread with its priority computed anew.
abbrev pub refreshed : Thread → Thread
refreshed th = record_priority (raw_priority th) th

refresh_priority_thread-refreshed :
    (k : Kernel) (t : Ptr) (th : Thread)
    → k.threads t ≡ some th
    → refresh_priority_thread t k
      ≡ some (tt, record k { threads = update k.threads t (some (refreshed th)) })
unfolding refresh_priority_thread
refresh_priority_thread-refreshed k t th e =
    rw (e, load, ◌>>=◌) (rw (new_priority-some th, lift, ◌>>=◌) (rw (e, edit)))

-- The record at `u` where `f` has been applied to the threads that `test` tells.
abbrev pub changed_at : (Thread → Thread) → (Ptr → Option Thread) → Bool → Ptr → Option Thread
changed_at f threads test u =
    if test then (elim (threads u) [ none ↦ none | some th ↦ some (f th) ]) else threads u

abbrev pub is_due : Ptr → List Ptr → Ptr → Bool
is_due initial ts u = has u ts && not (u == initial)

module _ (f : Thread → Thread) (threads : Ptr → Option Thread) (initial t : Ptr) (ts : List Ptr)
    (u : Ptr) where
  changed_at-skip :
      (t == initial) ≡ true
      → changed_at f threads (is_due initial ts u) u
        ≡ changed_at f threads (is_due initial (t ∷ ts) u) u
  changed_at-skip skip = ground arith

  changed_at-step :
      (th : Thread)
      → threads t ≡ some th
      → has t ts ≡ false
      → (t == initial) ≡ false
      → changed_at f (update threads t (some (f th))) (is_due initial ts u) u
        ≡ changed_at f threads (is_due initial (t ∷ ts) u) u
  changed_at-step th here out due = ground arith

  still_live :
      (th : Thread)
      → (x : Thread) × (threads u ≡ some x)
      → (x : Thread) × (update threads t (some (f th)) u ≡ some x)
  still_live th (x, e) = elim (Bool-cases (t == u)) [
    | inl h ↦ (f th, ground arith)
    | inr h ↦ (x, ground arith)
  ]

refresh_ready-refreshed :
    (k : Kernel) (initial : Ptr) (ts : List Ptr)
    → Distinct ts
    → ((u : Ptr) → has u ts ≡ true → (th : Thread) × (k.threads u ≡ some th))
    → (threads : Ptr → Option Thread) × (refresh_ready initial ts k
        ≡ some (tt, record k { threads = threads }))
      × ((u : Ptr) → threads u ≡ changed_at refreshed k.threads (is_due initial ts u) u)
unfolding refresh_ready
refresh_ready-refreshed k initial [] d live = (k.threads, refl, λ u. refl)
refresh_ready-refreshed k initial (t ∷ ts) d live =
    let (th, here) = live t (ground arith) in
    elim (Bool-cases (t == initial)) [
      | inl skip ↦
          let (threads, e, at) =
            refresh_ready-refreshed k initial ts d.1 (λ u h. live u (ground arith)) in
          (
            threads,
            rw (skip, when, ◌>>=◌, ◌>>◌) e,
            λ u. at u ∙ changed_at-skip refreshed k.threads initial t ts u skip,
          )
      | inr due ↦
          let step = refresh_priority_thread-refreshed k t th here in
          let k1 = record k { threads = update k.threads t (some (refreshed th)) } in
          let (threads, e, at) =
            refresh_ready-refreshed k1 initial ts d.1
              (λ u h. still_live refreshed k.threads initial t ts u th (live u (ground arith))) in
          (
            threads,
            rw (due, when, ◌>>=◌, ◌>>◌) (rw step e),
            λ u. at u ∙ changed_at-step refreshed k.threads initial t ts u th here d.0 due,
          )
    ]

-- The threads whose priority refresh_priority computes anew.
abbrev pub is_refreshed : Kernel → Ptr → Bool
is_refreshed k u = is_due k.initial_thread k.ready_list u || k.current == u

changed_at-also :
    (f : Thread → Thread) (threads threads' : Ptr → Option Thread) (due : Bool) (c u : Ptr)
    (th : Thread)
    → threads c ≡ some th
    → threads' c ≡ some th
    → threads' u ≡ changed_at f threads due u
    → update threads' c (some (f th)) u ≡ changed_at f threads (due || c == u) u
changed_at-also f threads threads' due c u th here here' at = ground arith

refresh_priority-eq :
    (k : Kernel) (threads threads' : Ptr → Option Thread)
    → refresh_ready k.initial_thread k.ready_list k ≡ some (tt, record k { threads = threads })
    → refresh_priority_thread k.current (record k { threads = threads })
      ≡ some (tt, record k { threads = threads' })
    → refresh_priority k ≡ some (tt, record k { threads = threads' })
unfolding refresh_priority running_thread
refresh_priority-eq k threads threads' e step = ground (arith, e, step)

-- While the invariant holds, refresh_priority does not fail. It computes the priority of the
-- current thread anew, and that of each ready thread but the initial one; it changes nothing else.
pub refresh_priority-refreshed :
    (k : Kernel) (place : Ptr → Place)
    → IsConsistent k place
    → (threads : Ptr → Option Thread) × (refresh_priority k
        ≡ some (tt, record k { threads = threads }))
      × ((u : Ptr) → threads u ≡ changed_at refreshed k.threads (is_refreshed k u) u)
refresh_priority-refreshed k place con =
    let (th, here) = current_live con in
    let (threads, e, at) =
      refresh_ready-refreshed k k.initial_thread k.ready_list con.queues.ready_distinct
        (ready_live con) in
    let kept : threads k.current ≡ some th = at k.current ∙ rw (current_not_ready con) here in
    let step =
      refresh_priority_thread-refreshed (record k { threads = threads }) k.current th kept in
    (
      update threads k.current (some (refreshed th)),
      refresh_priority-eq k threads _ e step,
      λ u.
          changed_at-also refreshed k.threads threads (is_due k.initial_thread k.ready_list u)
            k.current u th here kept (at u),
    )
