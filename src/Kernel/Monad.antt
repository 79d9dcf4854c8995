-- ===== src/Kernel/Monad.antt =====
-- Kernel code as a function of the kernel's state. `none` is the end of the kernel: a failed ASSERT,
-- an access to a page that is not live, or a divide error.
use calendarizador.Prelude.{Bool, true, false, not, ◌&&◌, Option, none, some, ◌∷◌, ◌==◌}
use calendarizador.Kernel.State.{
  Ptr, null, ThreadStatus, Thread, Frame, Kernel, SemaRef, Semaphore, thread_magic, eq_status,
  update, update_sema,
}

abbrev pub K : Type 0 → Type 0
K A = Kernel → Option (A × Kernel)

infixl 5 ◌>>=◌ ◌>>◌
abbrev pub ◌>>=◌ : {A B : Type 0} → K A → (A → K B) → K B
◌>>=◌ m f k = elim (m k) [ none ↦ none | some (a, k') ↦ f a k' ]

abbrev pub ◌>>◌ : {A B : Type 0} → K A → K B → K B
m >> n = m >>= λ _. n

abbrev pub pure : {A : Type 0} → A → K A
pure a k = some (a, k)

abbrev pub panic : {A : Type 0} → K A
panic k = none

abbrev pub get : K Kernel
get k = some (k, k)

abbrev pub put : Kernel → K (Unit {0})
put k' k = some (tt, k')

abbrev pub modify : (Kernel → Kernel) → K (Unit {0})
modify f k = some (tt, f k)

abbrev pub assert : Bool → K (Unit {0})
assert true k = some (tt, k)
assert false k = none

abbrev pub when : Bool → K (Unit {0}) → K (Unit {0})
when true m = m
when false m = pure tt

abbrev pub lift : {A : Type 0} → Option A → K A
lift none k = none
lift (some a) k = some (a, k)

-- `*t`, and an assignment to fields of `*t`.
abbrev pub load : Ptr → K Thread
load t k = elim (k.threads t) [ none ↦ none | some th ↦ some (th, k) ]

abbrev pub store : Ptr → Thread → K (Unit {0})
store t th k = some (tt, record k { threads = update k.threads t (some th) })

abbrev pub edit : Ptr → (Thread → Thread) → K (Unit {0})
edit t f k = elim (k.threads t) [
  | none ↦ none
  | some th ↦ some (tt, record k { threads = update k.threads t (some (f th)) })
]

abbrev pub set_sema : SemaRef → Semaphore → K (Unit {0})
set_sema s v k = some (tt, record k { semas = update_sema k.semas s v })

-- The current thread enters a call that will go on at `f`.
abbrev pub push_frame : Frame → K (Unit {0})
push_frame f = λ k. edit k.current (λ th. record th { frames = f ∷ th.frames }) k

-- The state that a run ends in; the start, if the kernel ends.
abbrev pub after : K (Unit {0}) → Kernel → Kernel
after m k = elim (m k) [ none ↦ k | some (_, k') ↦ k' ]

-- Whether `t` is the page of a thread in state `st`.
abbrev pub in_status : Kernel → Ptr → ThreadStatus → Bool
in_status k t st = elim (k.threads t) [
  | none ↦ false
  | some th ↦ eq_status th.status st && th.magic == thread_magic && not (t == null)
]
