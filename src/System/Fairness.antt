-- ===== src/System/Fairness.antt =====
-- How long a ready thread waits while the threads yield.
use calendarizador.Prelude.{
  ℕ, zero, suc, ◌-◌, ◌≤◌, ◌<◌, ◌≡◌, ◌⊎◌, inl, inr, refl, sym, ◌∙◌, Bool, false, Option, none, some,
  List, [], ◌∷◌, ◌==◌, arith, get_elem?, Bool-cases,
}
use mathlib.Core.Path.{subst}
use calendarizador.Kernel.{
  Ptr, IntrLevel, intr_off, intr_on, ThreadStatus, ready, blocked, running, Frame, after_schedule,
  set_level, Thread, Kernel, update, K, ◌>>=◌, ◌>>◌, pure, get, assert, modify, load, edit,
  intr_set_level, in_status,
}
use calendarizador.Kernel.Keeps.{
  Keeps, IsPreorder, Keeps-bind, Keeps-pure, Keeps-get, Keeps-assert, Keeps-modify, Keeps-edit,
  Keeps-outcome,
}
use calendarizador.Scheduler.{schedule_end, thread_yield}
use calendarizador.Scheduler.Invariant.{Place, nowhere, IsConsistent, is_page}
use calendarizador.Scheduler.Yield.{Yielded, queue_yield, place_yield, thread_yield-Yielded}
use calendarizador.Prelude.{get_elem?-append}
use calendarizador.System.{resume, return_to}

-- The frames of a thread that yielded: what schedule and thread_yield do behind the switch.
pub data IsReturn : Frame → Type 0 where
  behind_switch : (next : Ptr) → IsReturn (after_schedule next)
  behind_schedule : (l : IntrLevel) → IsReturn (set_level l)

-- A run from `k` to `k'` outside of interrupts in which `n` times the current thread yields, and
-- otherwise threads return from earlier yields.
pub data Turns (k : Kernel) : ℕ → Kernel → Type 0 where
  start : Turns k 0 k
  yields :
      {n : ℕ} {m m' : Kernel}
      → Turns k n m
      → m.in_external_intr ≡ false
      → thread_yield m ≡ some (tt, m')
      → Turns k (suc n) m'
  goes_on :
      {n : ℕ} {m m' : Kernel} {th : Thread} {f : Frame} {fs : List Frame}
      → Turns k n m
      → m.in_external_intr ≡ false
      → m.threads m.current ≡ some th
      → th.frames ≡ f ∷ fs
      → IsReturn f
      → resume m ≡ some (tt, m')
      → Turns k n m'

-- Thread `t` was switched to in the run.
abbrev pub Ran : {k k' : Kernel} {n : ℕ} → Ptr → Turns k n k' → Type 0
Ran t start = ⊥
Ran t (yields {m' = m'} r outside e) = (m'.current ≡ t) ⊎ Ran t r
Ran t (goes_on r outside here top returns e) = Ran t r

-- What the scheduler reads is the same in both kernels.
pub record Calm (k k' : Kernel) : Type 0 where
  pub current : k'.current ≡ k.current
  pub ready_list : k'.ready_list ≡ k.ready_list
  pub idle_thread : k'.idle_thread ≡ k.idle_thread
  pub semas : k'.semas ≡ k.semas
  pub external : k'.in_external_intr ≡ k.in_external_intr
  pub status : (t : Ptr) (st : ThreadStatus) → in_status k' t st ≡ in_status k t st
  pub page : (t : Ptr) → is_page k' t ≡ is_page k t

Calm-IsPreorder : IsPreorder Calm
Calm-IsPreorder = record {
  same = λ k. record {
    current = refl;
    ready_list = refl;
    idle_thread = refl;
    semas = refl;
    external = refl;
    status = λ t st. refl;
    page = λ t. refl;
  };
  chain = λ k m n a b. record {
    current = b.current ∙ a.current;
    ready_list = b.ready_list ∙ a.ready_list;
    idle_thread = b.idle_thread ∙ a.idle_thread;
    semas = b.semas ∙ a.semas;
    external = b.external ∙ a.external;
    status = λ t st. b.status t st ∙ a.status t st;
    page = λ t. b.page t ∙ a.page t;
  };
}

Calm-bind :
    {A B : Type 0} {m : K A} {f : A → K B}
    → Keeps Calm m
    → ((a : A) → Keeps Calm (f a))
    → Keeps Calm (m >>= f)
Calm-bind = Keeps-bind Calm-IsPreorder

Calm-pure : {A : Type 0} (a : A) → Keeps Calm (pure a)
Calm-pure = Keeps-pure Calm-IsPreorder

Calm-get : Keeps Calm get
Calm-get = Keeps-get Calm-IsPreorder

Calm-assert : (b : Bool) → Keeps Calm (assert b)
Calm-assert = Keeps-assert Calm-IsPreorder

Calm-modify :
    {f : Kernel → Kernel}
    → ((k : Kernel) → (f k).current ≡ k.current)
    → ((k : Kernel) → (f k).ready_list ≡ k.ready_list)
    → ((k : Kernel) → (f k).idle_thread ≡ k.idle_thread)
    → ((k : Kernel) → (f k).semas ≡ k.semas)
    → ((k : Kernel) → (f k).in_external_intr ≡ k.in_external_intr)
    → ((k : Kernel) → (f k).threads ≡ k.threads)
    → Keeps Calm (modify f)
Calm-modify {f = f} current ready_list idle semas external threads = Keeps-modify Calm (λ k.
    record {
      current = current k;
      ready_list = ready_list k;
      idle_thread = idle k;
      semas = semas k;
      external = external k;
      status = λ t st. rw (in_status, threads k) refl;
      page = λ t. rw (is_page, threads k) refl;
    })

Calm-edit :
    (t : Ptr) (f : Thread → Thread)
    → ((th : Thread) → (f th).magic ≡ th.magic)
    → ((th : Thread) → (f th).status ≡ th.status)
    → Keeps Calm (edit t f)
Calm-edit t f same_magic same_status = Keeps-edit Calm t f (λ k th here. record {
  current = refl;
  ready_list = refl;
  idle_thread = refl;
  semas = refl;
  external = refl;
  status = λ a st. ground (arith, here, same_magic th, same_status th);
  page = λ a. ground (arith, here, same_magic th);
})

ruleset calm = (Calm-bind, Calm-pure, Calm-get, Calm-assert, Calm-modify, Calm-edit, refl)

intr_set_level-Calm : (l : IntrLevel) → Keeps Calm (intr_set_level l)
unfolding intr_set_level
intr_set_level-Calm intr_on = search calm depth 20
intr_set_level-Calm intr_off = search calm depth 20

schedule_end-Calm : (cur next : Ptr) → Keeps Calm (schedule_end cur next)
unfolding schedule_end
schedule_end-Calm cur next = search calm depth 20

return_to-Calm : (cur : Ptr) (f : Frame) → IsReturn f → Keeps Calm (return_to cur f)
unfolding return_to
return_to-Calm cur _ (behind_switch next) = schedule_end-Calm cur next
return_to-Calm cur _ (behind_schedule l) = Calm-bind (intr_set_level-Calm l) (λ _. Calm-pure tt)

-- What resume does with the frames of the current thread.
abbrev top_then_frames : Ptr → List Frame → K (Unit {0})
top_then_frames cur [] = pure tt
top_then_frames cur (f ∷ fs) = edit cur (λ th. record th { frames = fs }) >> return_to cur f

abbrev top_then : Ptr → Thread → K (Unit {0})
top_then cur th = top_then_frames cur th.frames

load-eq :
    {A : Type 0} (g : Thread → K A) (t : Ptr) (k : Kernel) (th : Thread)
    → k.threads t ≡ some th
    → (load t >>= g) k ≡ g th k
load-eq {A = A} g t k th here = λ j.
    elim (elim (here j) as (λ _. Option (Thread × Kernel)) [ none ↦ none | some x ↦ some (x, k) ])
      as (λ _. Option (A × Kernel)) [ none ↦ none | some (x, k') ↦ g x k' ]

resume-eq :
    (m : Kernel) (th : Thread) (f : Frame) (fs : List Frame)
    → m.threads m.current ≡ some th
    → th.frames ≡ f ∷ fs
    → resume m ≡ (edit m.current (λ th. record th { frames = fs }) >> return_to m.current f) m
unfolding resume
resume-eq m th f fs here top =
    load-eq (top_then m.current) m.current m th here ∙ (λ j. top_then_frames m.current (top j) m)

-- A return from a yield changes nothing that the scheduler reads.
resume-Calm :
    (m m' : Kernel) (th : Thread) (f : Frame) (fs : List Frame)
    → m.threads m.current ≡ some th
    → th.frames ≡ f ∷ fs
    → IsReturn f
    → resume m ≡ some (tt, m')
    → Calm m m'
resume-Calm m m' th f fs here top returns e =
    Keeps-outcome
      (Calm-bind (Calm-edit m.current (λ th. record th { frames = fs }) (λ th. refl) (λ th. refl))
        (λ _. return_to-Calm m.current f returns))
      (sym (resume-eq m th f fs here top) ∙ e)

Calm-IsConsistent :
    (k k' : Kernel) (place : Ptr → Place)
    → k.in_external_intr ≡ false
    → Calm k k'
    → IsConsistent k place
    → IsConsistent k' place
Calm-IsConsistent k k' place outside c con = record {
  queues = record {
    ready_place = λ t. rw c.ready_list (con.queues.ready_place t);
    ready_distinct = rw c.ready_list con.queues.ready_distinct;
    wait_place = λ s t. rw c.semas (con.queues.wait_place s t);
    wait_distinct = λ s. rw c.semas (con.queues.wait_distinct s);
  };
  statuses = record {
    on_ready = λ t. rw (c.current, c.status t ready) (con.statuses.on_ready t);
    on_wait = λ t s. rw (c.current, c.status t blocked) (con.statuses.on_wait t s);
  };
  current_runs = rw (c.current, c.status k.current running) con.current_runs;
  current_place = rw c.current con.current_place;
  idle_page = rw (c.idle_thread, c.page k.idle_thread) con.idle_page;
  idle_place = rw c.idle_thread con.idle_place;
  masked = λ h. absurd (ground (arith, c.external));
}

abbrev from_some : Unit {0} × Kernel → Option (Unit {0} × Kernel) → Unit {0} × Kernel
from_some default none = default
from_some default (some x) = x

some_tt_injective :
    {m n : Kernel} → ◌≡◌ {A = Option (Unit {0} × Kernel)} (some (tt, m)) (some (tt, n)) → m ≡ n
some_tt_injective {m = m} e = λ j. (from_some (tt, m) (e j)).1

behind_front :
    (t : Ptr) (j : ℕ) (x : Ptr) (xs : List Ptr)
    → get_elem? (x ∷ xs) j ≡ some t
    → (x ≡ t) ⊎ (1 ≤ j) × (get_elem? xs (j - 1) ≡ some t)
behind_front t zero x xs h = inl (ground arith)
behind_front t (suc j) x xs h =
    let e : j ≡ suc j - 1 = omega arith in
    inr (omega arith, subst (λ n. get_elem? xs n ≡ some t) e h)

module _ (k : Kernel) (t : Ptr) (i : ℕ) where
  -- After `n` turns the thread at place `i` of the ready list has run, or it is `n` places further on.
  abbrev pub Waited : (n : ℕ) (k' : Kernel) → Turns k n k' → Type 0
  Waited n k' run = (n ≤ i) × (get_elem? k'.ready_list (i - n) ≡ some t) ⊎ Ran t run

  -- The place of a thread in the ready list behind which the current thread is queued.
  queued :
      (m : Kernel) (j : ℕ)
      → get_elem? m.ready_list j ≡ some t
      → get_elem? (queue_yield m) j ≡ some t
  queued m j h = elim (Bool-cases (m.current == m.idle_thread)) [
    | inl idle ↦ rw idle h
    | inr other ↦ rw other (get_elem?-append m.ready_list (m.current ∷ []) j t h)
  ]

  moves_up :
      (m m' : Kernel) (place : Ptr → Place) (n : ℕ)
      → Yielded m place m'
      → n ≤ i
      → get_elem? m.ready_list (i - n) ≡ some t
      → (m'.current ≡ t) ⊎ (suc n ≤ i) × (get_elem? m'.ready_list (i - suc n) ≡ some t)
  moves_up m m' place n y le h = elim y.next [
    | inl front ↦
        let at = subst (λ q. get_elem? q (i - n) ≡ some t) front (queued m (i - n) h) in
        elim (behind_front t (i - n) m'.current m'.ready_list at) [
          | inl runs ↦ inl runs
          | inr (later, there) ↦
              let e : i - n - 1 ≡ i - suc n = omega arith in
              inr (omega arith, subst (λ j. get_elem? m'.ready_list j ≡ some t) e there)
        ]
    | inr (empty, idle, rest) ↦
        absurd
          (ground (arith, subst (λ q. get_elem? q (i - n) ≡ some t) empty (queued m (i - n) h)))
  ]

  waits_its_turn :
      (n : ℕ) (k' : Kernel) (place : Ptr → Place)
      → IsConsistent k place
      → get_elem? k.ready_list i ≡ some t
      → (run : Turns k n k') → ((place' : Ptr → Place) × IsConsistent k' place') × Waited n k' run
  waits_its_turn _ _ place con h start = (
    (place, con),
    inl (omega arith, subst (λ j. get_elem? k.ready_list j ≡ some t) (omega arith) h),
  )
  waits_its_turn _ _ place con h (yields {n = n} {m = m} {m' = m'} run outside e) =
      let ((place', con'), waited) = waits_its_turn n m place con h run in
      let (m2, e2, y2) = thread_yield-Yielded m place' con' outside in
      let same : m2 ≡ m' = some_tt_injective (sym e2 ∙ e) in
      let y = subst (Yielded m place') same y2 in
      (
        (update (place_yield m place') m'.current nowhere, y.consistent),
        elim waited [
          | inr ran ↦ inr (inr ran)
          | inl (le, at) ↦ elim (moves_up m m' place' n y le at) [
            | inl runs ↦ inr (inl runs)
            | inr further ↦ inl further
          ]
        ],
      )
  waits_its_turn _ _ place con h
        (goes_on {n = n} {m = m} {m' = m'} {th = th} {f = f} {fs = fs} run outside here top returns
          e) =
      let ((place', con'), waited) = waits_its_turn n m place con h run in
      let c = resume-Calm m m' th f fs here top returns e in
      (
        (place', Calm-IsConsistent m m' place' outside c con'),
        elim waited [ inr ran ↦ inr ran | inl (le, at) ↦ inl (le, rw c.ready_list at) ],
      )

-- From a kernel where the invariant holds, in a run in which threads only yield and return from
-- yields, outside of interrupts, the thread at place `i` of the ready list has run once there were
-- more than `i` yields. The invariant holds at the end, and so the next yield does not fail.
pub ready-Ran :
    (k k' : Kernel) (place : Ptr → Place) (t : Ptr) (i n : ℕ) (run : Turns k n k')
    → IsConsistent k place
    → get_elem? k.ready_list i ≡ some t
    → i < n
    → Ran t run × ((place' : Ptr → Place) × IsConsistent k' place')
ready-Ran k k' place t i n run con h more =
    let (consistent, waited) = waits_its_turn k t i n k' place con h run in
    elim waited [ inl (le, at) ↦ absurd (omega arith) | inr ran ↦ (ran, consistent) ]
