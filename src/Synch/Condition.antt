-- ===== src/Synch/Condition.antt =====
-- Condition variables: who is woken by a broadcast.
use calendarizador.Prelude.{
  differs, Option, ℕ, ◌≡◌, inl, inr, refl, sym, ap, ◌∙◌, true, false, none, some, List, [], ◌∷◌,
  ◌++◌, ◌==◌, has, Distinct, arith, if◌then◌else◌, Bool-cases,
}
use mathlib.Core.Path.{subst}
use mathlib.Core.List.{append-nil, append_assoc}
use calendarizador.Kernel.{
  K, ◌>>◌, Ptr, SemaRef, waiter_sema, Semaphore, Kernel, ready, in_status, eq_sema, update,
}
use calendarizador.Scheduler.Invariant.{Place, IsConsistent, ready-in_status}
use calendarizador.Synch.{signal_first, cond_signal, broadcast_loop, cond_broadcast}
use calendarizador.Synch.Up.{raised, place_up, ready_up}
use calendarizador.Synch.Signal.{Signalled, signal_first-Signalled, cond_signal-held}

-- The threads at the front of the semaphores of `ts`, on each of which one waiter of the condition
-- sleeps, or none where the waiter has not gone to sleep yet.
abbrev pub sleepers : (SemaRef → Semaphore) → List Ptr → List Ptr
sleepers semas [] = []
sleepers semas (t ∷ ts) = ready_up [] (semas (waiter_sema t)).waiters ++ sleepers semas ts

-- `u` waits on no semaphore of `ts`.
abbrev pub IsElsewhere : Kernel → List Ptr → Ptr → Type 0
IsElsewhere k ts u = (t : Ptr) → has t ts ≡ true → has u (k.semas (waiter_sema t)).waiters ≡ false

-- Every sleeper of `ts` has been woken, in that order, and nobody waits for the condition any more.
pub record Broadcast (k : Kernel) (cond : ℕ) (ts : List Ptr) (k' : Kernel) : Type 0 where
  pub place : Ptr → Place
  pub consistent : IsConsistent k' place
  pub conditions : (c : ℕ) → k'.conditions c ≡ (if cond == c then [] else k.conditions c)
  pub semas :
      (t : Ptr) → has t ts ≡ true → k'.semas (waiter_sema t) ≡ raised (k.semas (waiter_sema t))
  pub other_semas :
      (r : SemaRef)
      → ((t : Ptr) → has t ts ≡ true → eq_sema (waiter_sema t) r ≡ false)
      → k'.semas r ≡ k.semas r
  pub ready_list : k'.ready_list ≡ k.ready_list ++ sleepers k.semas ts
  pub woken : (u : Ptr) → has u (sleepers k.semas ts) ≡ true → in_status k' u ready ≡ true
  pub others : (u : Ptr) → IsElsewhere k ts u → k'.threads u ≡ k.threads u
  pub current : k'.current ≡ k.current
  pub holders : k'.holders ≡ k.holders

member_behind :
    (u t : ℕ) (ts : List Ptr) → has u (t ∷ ts) ≡ true → (u == t) ≡ false → has u ts ≡ true
member_behind u t ts h later = ground arith

eq_test_sym : (u t : ℕ) → (u == t) ≡ false → (t == u) ≡ false
eq_test_sym u t h = ground arith

member_cons : (v t : ℕ) (ts : List Ptr) → has v ts ≡ true → has v (t ∷ ts) ≡ true
member_cons v t ts h = ground arith

member_first : (t : ℕ) (ts : List Ptr) → has t (t ∷ ts) ≡ true
member_first t ts = ground arith

update_self : (f : ℕ → List Ptr) (c : ℕ) (ts : List Ptr) → update f c ts c ≡ ts
update_self f c ts = ground arith

has-append_back : (u : ℕ) (xs ys : List ℕ) → has u ys ≡ true → has u (xs ++ ys) ≡ true
has-append_back u [] ys h = h
has-append_back u (x ∷ xs) ys h = ground (arith, has-append_back u xs ys h)

sleepers-kept :
    (semas semas' : SemaRef → Semaphore) (ts : List Ptr)
    → ((u : Ptr) → has u ts ≡ true → semas' (waiter_sema u) ≡ semas (waiter_sema u))
    → sleepers semas' ts ≡ sleepers semas ts
sleepers-kept semas semas' [] same = refl
sleepers-kept semas semas' (t ∷ ts) same = λ i.
    ready_up [] (same t (member_first t ts) i).waiters
    ++ sleepers-kept semas semas' ts (λ u h. same u (member_cons u t ts h)) i

ready_up-append :
    (queue ws rest : List Ptr) → ready_up queue ws ++ rest ≡ queue ++ (ready_up [] ws ++ rest)
ready_up-append queue [] rest = refl
ready_up-append queue (w ∷ ws) rest = append_assoc queue (w ∷ []) rest

-- A thread behind the old ready list is ready.
behind-ready :
    (k' : Kernel) (place : Ptr → Place) (queue ws : List Ptr)
    → IsConsistent k' place
    → k'.ready_list ≡ queue ++ ws
    → (u : Ptr) → has u ws ≡ true
    → in_status k' u ready ≡ true
behind-ready k' place queue ws con e u h =
    ready-in_status con u (ap (has u) e ∙ has-append_back u queue ws h)

-- A signal, and then a broadcast to the threads that are left.
Broadcast-cons :
    (k k1 k' : Kernel) (place : Ptr → Place) (cond t : ℕ) (ts : List Ptr)
    → has t ts ≡ false
    → Signalled k place cond t ts k1
    → Broadcast k1 cond ts k'
    → Broadcast k cond (t ∷ ts) k'
Broadcast-cons k k1 k' place cond t ts new s b =
    let same : (u : Ptr) → has u ts ≡ true → k1.semas (waiter_sema u) ≡ k.semas (waiter_sema u) =
      λ u h. s.other_semas (waiter_sema u) (eq_test_sym u t (differs u t ts h new)) in
    let queue : k'.ready_list ≡ k.ready_list ++ sleepers k.semas (t ∷ ts) =
      b.ready_list
      ∙ ap (λ zs. k1.ready_list ++ zs) (sleepers-kept k.semas k1.semas ts same)
      ∙ ap (λ zs. zs ++ sleepers k.semas ts) s.ready_list
      ∙ ready_up-append k.ready_list (k.semas (waiter_sema t)).waiters (sleepers k.semas ts) in
    record {
      place = b.place;
      consistent = b.consistent;
      conditions = λ c. elim (Bool-cases (cond == c)) [
        | inl same ↦ b.conditions c ∙ rw same refl
        | inr other ↦ b.conditions c ∙ rw (other, s.conditions, other) refl
      ];
      semas = λ u h. elim (Bool-cases (u == t)) [
        | inl first ↦
            let p : t ≡ u = ground arith in
            let kept = b.other_semas (waiter_sema t) (λ v inside. differs v t ts inside new) in
            subst (λ u. k'.semas (waiter_sema u) ≡ raised (k.semas (waiter_sema u))) p
              (kept ∙ s.sema)
        | inr later ↦
            b.semas u (member_behind u t ts h later)
            ∙ ap raised (s.other_semas (waiter_sema u) (eq_test_sym u t later))
      ];
      other_semas = λ r out.
          b.other_semas r (λ v inside. out v (member_cons v t ts inside))
          ∙ s.other_semas r (out t (member_first t ts));
      ready_list = queue;
      woken = behind-ready k' b.place k.ready_list (sleepers k.semas (t ∷ ts)) b.consistent queue;
      others = λ u out.
          b.others u (λ v h.
            ap (λ (x : Semaphore). has u x.waiters) (same v h) ∙ out v (member_cons v t ts h))
          ∙ s.others u (out t (member_first t ts));
      current = b.current ∙ s.current;
      holders = b.holders ∙ s.holders;
    }

run_then :
    {A : Type 0} (m : K (Unit {0})) (n : K A) (k k1 : Kernel)
    → m k ≡ some (tt, k1)
    → (m >> n) k ≡ n k1
run_then {A = A} m n k k1 e =
    λ j. elim (e j) as (λ _. Option (A × Kernel)) [ none ↦ none | some (_, k') ↦ n k' ]

broadcast_loop-cons :
    (cond lock t : ℕ) (ts : List Ptr)
    → broadcast_loop cond lock (t ∷ ts) ≡ (cond_signal cond lock >> broadcast_loop cond lock ts)
unfolding broadcast_loop
broadcast_loop-cons cond lock t ts = refl

broadcast_loop-Broadcast :
    (cond lock : ℕ) (ts : List Ptr) (k : Kernel) (place : Ptr → Place)
    → IsConsistent k place
    → k.in_external_intr ≡ false
    → (k.holders lock == k.current) ≡ true
    → k.conditions cond ≡ ts
    → Distinct ts
    → (k' : Kernel) × (broadcast_loop cond lock ts k ≡ some (tt, k')) × Broadcast k cond ts k'
unfolding broadcast_loop
broadcast_loop-Broadcast cond lock [] k place con outside held waiting d = (
  k,
  refl,
  record {
    place = place;
    consistent = con;
    conditions = λ c. elim (Bool-cases (cond == c)) [
      | inl same ↦ let p : cond ≡ c = ground arith in rw same (sym (ap k.conditions p) ∙ waiting)
      | inr other ↦ rw other refl
    ];
    semas = λ t h. absurd (ground arith);
    other_semas = λ r h. refl;
    ready_list = sym (append-nil k.ready_list);
    woken = λ u h. absurd (ground arith);
    others = λ u h. refl;
    current = refl;
    holders = refl;
  },
)
broadcast_loop-Broadcast cond lock (t ∷ ts) k place con outside held waiting (new, d) =
    let (k1, run, s) = signal_first-Signalled k place con cond t ts in
    let held1 : (k1.holders lock == k1.current) ≡ true = rw (s.holders, s.current) held in
    let waiting1 : k1.conditions cond ≡ ts =
      (λ i. s.conditions i cond) ∙ update_self k.conditions cond ts in
    let (k', rest, b) =
      broadcast_loop-Broadcast cond lock ts k1 (place_up place (k.semas (waiter_sema t)).waiters)
        s.consistent (s.external ∙ outside) held1 waiting1 d in
    let signal : cond_signal cond lock k ≡ some (tt, k1) =
      cond_signal-held k place con cond lock outside held
      ∙ (λ i. signal_first cond (waiting i) k)
      ∙ run in
    (
      k',
      (λ i. broadcast_loop-cons cond lock t ts i k)
          ∙ run_then (cond_signal cond lock) (broadcast_loop cond lock ts) k k1 signal
          ∙ rest,
      Broadcast-cons k k1 k' place cond t ts new s b,
    )

-- While the invariant holds, outside of an interrupt, and where the current thread holds the lock and
-- the waiters of the condition are different threads, cond_broadcast does not fail. The semaphore of
-- each waiter has then been raised and no other. The thread at the front of each of them, if one
-- sleeps there, is ready, and stands at the back of the ready list, in the order of the waiters;
-- threads that wait on none of them have not changed. Nobody waits for the condition, the other
-- conditions and the locks stay, the current thread runs on, and the invariant holds.
pub cond_broadcast-Broadcast :
    (cond lock : ℕ) (k : Kernel) (place : Ptr → Place)
    → IsConsistent k place
    → k.in_external_intr ≡ false
    → k.holders lock ≡ k.current
    → Distinct (k.conditions cond)
    → (k' : Kernel) × (cond_broadcast cond lock k ≡ some (tt, k'))
      × Broadcast k cond (k.conditions cond) k'
unfolding cond_broadcast
cond_broadcast-Broadcast cond lock k place con outside held d =
    broadcast_loop-Broadcast cond lock (k.conditions cond) k place con outside (ground arith) refl d
