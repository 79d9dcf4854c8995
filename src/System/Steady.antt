-- ===== src/System/Steady.antt =====
-- What no code of the kernel changes but the timer interrupt: the clock; and what stays true of the
-- pages of threads.
use calendarizador.Prelude.{
  ◌≡◌, ◌⊎◌, inl, inr, refl, ◌∙◌, Bool, true, false, not, Option, none, some, List, [], ◌∷◌, ◌==◌,
  ◌&&◌, if◌then◌else◌, arith, Bool-cases, Option-cases,
}
use calendarizador.Kernel.{
  Ptr, IntrLevel, intr_on, intr_off, SemaRef, Semaphore, Frame, Thread, Kernel, update, K, ◌>>=◌,
  pure, get, modify, assert, when, lift, load, edit, push_frame, set_sema, intr_get_level,
  intr_context, intr_enable, intr_disable, intr_set_level, intr_yield_on_return, timer_ticks,
}
use calendarizador.Kernel.Keeps.{
  Keeps, IsPreorder, Keeps-bind, Keeps-pure, Keeps-get, Keeps-assert, Keeps-when, Keeps-lift,
  Keeps-load, Keeps-modify, Keeps-set_sema, Keeps-edit, Keeps-push_frame,
}
use calendarizador.Scheduler.Invariant.{is_page}

-- Every live page is that of a thread: it has its magic number, and is not the null page.
abbrev pub IsPaged : Kernel → Type 0
IsPaged k = (t : Ptr) → (k.threads t ≡ none) ⊎ (is_page k t ≡ true)

-- The scheduling algorithm and its options.
abbrev pub policy : Kernel → Bool × Bool × Bool × Bool
policy k = (k.thread_mlfqs, k.roundrobin, k.fcfs, k.sjf)

pub record Steady (k k' : Kernel) : Type 0 where
  pub clock : k'.ticks ≡ k.ticks
  pub policy_kept : policy k' ≡ policy k
  pub paged : IsPaged k → IsPaged k'

Steady-IsPreorder : IsPreorder Steady
Steady-IsPreorder = record {
  same = λ k. record { clock = refl; policy_kept = refl; paged = λ h. h };
  chain = λ k m n a b. record {
    clock = b.clock ∙ a.clock;
    policy_kept = b.policy_kept ∙ a.policy_kept;
    paged = λ h. b.paged (a.paged h);
  };
}

-- The rules for single statements.
pub Steady-bind :
    {A B : Type 0} {m : K A} {f : A → K B}
    → Keeps Steady m
    → ((a : A) → Keeps Steady (f a))
    → Keeps Steady (m >>= f)
Steady-bind = Keeps-bind Steady-IsPreorder

pub Steady-pure : {A : Type 0} (a : A) → Keeps Steady (pure a)
Steady-pure = Keeps-pure Steady-IsPreorder

pub Steady-get : Keeps Steady get
Steady-get = Keeps-get Steady-IsPreorder

pub Steady-assert : (b : Bool) → Keeps Steady (assert b)
Steady-assert = Keeps-assert Steady-IsPreorder

pub Steady-when : (b : Bool) {m : K (Unit {0})} → Keeps Steady m → Keeps Steady (when b m)
Steady-when = Keeps-when Steady-IsPreorder

pub Steady-lift : {A : Type 0} (o : Option A) → Keeps Steady (lift o)
Steady-lift = Keeps-lift Steady-IsPreorder

pub Steady-load : (t : Ptr) → Keeps Steady (load t)
Steady-load = Keeps-load Steady-IsPreorder

pub Steady-if :
    {A : Type 0} (b : Bool) {m n : K A}
    → Keeps Steady m
    → Keeps Steady n
    → Keeps Steady (if b then m else n)
Steady-if true hm hn = hm
Steady-if false hm hn = hn

-- An assignment to variables outside of the pages.
pub Steady-modify :
    {f : Kernel → Kernel}
    → ((k : Kernel) → (f k).ticks ≡ k.ticks)
    → ((k : Kernel) → policy (f k) ≡ policy k)
    → ((k : Kernel) → (f k).threads ≡ k.threads)
    → Keeps Steady (modify f)
Steady-modify {f = f} same_ticks same_policy same_threads = Keeps-modify Steady (λ k. record {
  clock = same_ticks k;
  policy_kept = same_policy k;
  paged = λ h t. rw (same_threads k) (h t);
})

pub Steady-set_sema : (s : SemaRef) (v : Semaphore) → Keeps Steady (set_sema s v)
Steady-set_sema s v =
    Keeps-set_sema Steady s v (λ k. record { clock = refl; policy_kept = refl; paged = λ h. h })

IsPaged-update :
    (k : Kernel) (t : Ptr) (th th' : Thread)
    → k.threads t ≡ some th
    → th'.magic ≡ th.magic
    → IsPaged k
    → IsPaged (record k { threads = update k.threads t (some th') })
IsPaged-update k t th th' here magic h a = ground (arith, h a, h t)

-- An assignment to fields of a thread other than its magic number.
pub Steady-edit :
    (t : Ptr) (f : Thread → Thread)
    → ((th : Thread) → (f th).magic ≡ th.magic)
    → Keeps Steady (edit t f)
Steady-edit t f same_magic = Keeps-edit Steady t f (λ k th here. record {
  clock = refl;
  policy_kept = refl;
  paged = IsPaged-update k t th (f th) here (same_magic th);
})

pub Steady-push_frame : (f : Frame) → Keeps Steady (push_frame f)
Steady-push_frame f = Keeps-push_frame Steady f (λ k th here. record {
  clock = refl;
  policy_kept = refl;
  paged = IsPaged-update k k.current th (record th { frames = f ∷ th.frames }) here refl;
})

pub ruleset steady = (
  Steady-bind, Steady-pure, Steady-get, Steady-assert, Steady-when, Steady-lift, Steady-load,
  Steady-if, Steady-modify, Steady-set_sema, Steady-edit, Steady-push_frame, refl,
)

-- The interrupt level and the clock.
pub intr_get_level-Steady : Keeps Steady intr_get_level
unfolding intr_get_level
intr_get_level-Steady = search steady

pub intr_context-Steady : Keeps Steady intr_context
unfolding intr_context
intr_context-Steady = search steady

pub intr_enable-Steady : Keeps Steady intr_enable
unfolding intr_enable
intr_enable-Steady = search (steady, intr_get_level-Steady, intr_context-Steady)

pub intr_disable-Steady : Keeps Steady intr_disable
unfolding intr_disable
intr_disable-Steady = search (steady, intr_get_level-Steady)

pub intr_set_level-Steady : (l : IntrLevel) → Keeps Steady (intr_set_level l)
unfolding intr_set_level
intr_set_level-Steady intr_on = intr_enable-Steady
intr_set_level-Steady intr_off = intr_disable-Steady

pub intr_yield_on_return-Steady : Keeps Steady intr_yield_on_return
unfolding intr_yield_on_return
intr_yield_on_return-Steady = search (steady, intr_context-Steady)

pub timer_ticks-Steady : Keeps Steady timer_ticks
unfolding timer_ticks
timer_ticks-Steady = search (steady, intr_disable-Steady, intr_set_level-Steady)

pub ruleset steady_level = (
  steady, intr_get_level-Steady, intr_context-Steady, intr_enable-Steady, intr_disable-Steady,
  intr_set_level-Steady, intr_yield_on_return-Steady, timer_ticks-Steady,
)
