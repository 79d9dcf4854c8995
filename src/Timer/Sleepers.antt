-- ===== src/Timer/Sleepers.antt =====
-- The list of sleeping threads, and whom a tick wakes.
use calendarizador.Prelude.{◌≡◌, has, false, Option, none, some, List, [], ◌∷◌, arith, All}
use mathlib.Core.Path.{subst}
use calendarizador.Prelude.Int.{ℤ, pos, ◌+ℤ◌, wrap64, ltb_ℤ}
use calendarizador.LinkedList.{list_insert_ordered}
use calendarizador.LinkedList.Sort.Order.{IsOrder, AllAbove, IsSorted, by_key-IsOrder}
use calendarizador.LinkedList.Ordered.{IsInsertOf, list_insert_ordered-IsInsertOf}
use calendarizador.Kernel.{
  Ptr, Thread, Kernel, update, timer_ticks, intr_disable, intr_enable, intr_set_level,
}
use calendarizador.Timer.{wakeup_of, wakeup_cmp, enqueue_sleeper}

wakeup_cmp-IsOrder : (threads : Ptr → Option Thread) → IsOrder (wakeup_cmp threads)
unfolding wakeup_cmp
wakeup_cmp-IsOrder threads = by_key-IsOrder (wakeup_of threads)

-- The list of sleeping threads, each by the tick it wakes at.
abbrev pub IsWaitList : Kernel → Type 0
IsWaitList k = IsSorted (wakeup_cmp k.threads) k.wait_list

-- The memory with the waking time of a thread that goes to sleep.
abbrev pub asleep : Kernel → Ptr → Thread → ℤ → Ptr → Option Thread
asleep k t th ticks =
    update k.threads t (some (record th { wakeup_time = wrap64 (k.ticks +ℤ ticks) }))

abbrev wakeup : Option Thread → ℤ
wakeup a = elim a [ none ↦ pos 0 | some th ↦ th.wakeup_time ]

module _ (f g : Ptr → Option Thread) where
  AllAbove-memory :
      (t : Ptr) (ts : List Ptr)
      → f t ≡ g t
      → All (λ u. f u ≡ g u) ts
      → AllAbove (wakeup_cmp f) t ts
      → AllAbove (wakeup_cmp g) t ts
  unfolding wakeup_cmp
  AllAbove-memory t [] here e h = tt
  AllAbove-memory t (u ∷ ts) here e h = (
    subst (λ a. ltb_ℤ (wakeup a) (wakeup (g t)) ≡ false) e.0
        (subst (λ b. ltb_ℤ (wakeup (f u)) (wakeup b) ≡ false) here h.0),
    AllAbove-memory t ts here e.1 h.1,
  )

  -- The order of a list depends on its own threads only.
  IsSorted-memory :
      (ts : List Ptr)
      → All (λ u. f u ≡ g u) ts
      → IsSorted (wakeup_cmp f) ts
      → IsSorted (wakeup_cmp g) ts
  IsSorted-memory [] e h = tt
  IsSorted-memory (t ∷ ts) e h = (AllAbove-memory t ts e.0 e.1 h.0, IsSorted-memory ts e.1 h.1)

outside_list :
    (f : Ptr → Option Thread) (t : Ptr) (a : Option Thread) (ts : List Ptr)
    → has t ts ≡ false
    → All (λ u. f u ≡ update f t a u) ts
outside_list f t a [] h = tt
outside_list f t a (u ∷ ts) h = (ground arith, outside_list f t a ts (ground arith))

-- Outside an interrupt, a thread that goes to sleep and is not asleep already is put into the list of sleeping threads by
-- the tick that it asks to wake at, behind those that wake at the same tick; the list stays sorted.
pub enqueue_sleeper-IsInsertOf :
    (k : Kernel) (t : Ptr) (th : Thread) (ticks : ℤ)
    → k.threads t ≡ some th
    → k.in_external_intr ≡ false
    → has t k.wait_list ≡ false
    → IsWaitList k
    → (ts : List Ptr) × (enqueue_sleeper t ticks k
        ≡ some (tt, record k { threads = asleep k t th ticks; wait_list = ts }))
      × IsInsertOf (wakeup_cmp (asleep k t th ticks)) t ts k.wait_list
unfolding enqueue_sleeper timer_ticks intr_disable intr_set_level intr_enable
enqueue_sleeper-IsInsertOf k t th ticks here outside awake sorted = (
  list_insert_ordered (wakeup_cmp (asleep k t th ticks)) t k.wait_list,
  ground arith,
  list_insert_ordered-IsInsertOf (wakeup_cmp-IsOrder (asleep k t th ticks)) t k.wait_list (
      IsSorted-memory k.threads (asleep k t th ticks) k.wait_list
        (outside_list k.threads t (some (record th { wakeup_time = wrap64 (k.ticks +ℤ ticks) }))
          k.wait_list awake)
        sorted),
)
