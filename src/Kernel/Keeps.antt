-- ===== src/Kernel/Keeps.antt =====
-- Relations between the state that kernel code starts in and the one it ends in.
use calendarizador.Prelude.{◌≡◌, refl, Bool, true, false, Option, none, some, ◌∷◌}
use mathlib.Core.Path.{subst}
use calendarizador.Kernel.State.{
  Ptr, Thread, Kernel, Frame, SemaRef, Semaphore, update, update_sema,
}
use calendarizador.Kernel.Monad.{
  K, ◌>>=◌, pure, get, modify, assert, when, lift, load, edit, store, push_frame, set_sema,
}

-- `r` holds of the state that the outcome has, if the code gets there.
abbrev pub Outcome : {A : Type 0} → (Kernel → Type 0) → Option (A × Kernel) → Type 0
Outcome r none = Unit
Outcome r (some x) = r (x.1)

-- What holds between the start and the end of every run of `m` that gets to an end.
pub record Keeps (R : Kernel → Kernel → Type 0) {A : Type 0} (m : K A) : Type 0 where
  pub run : (k : Kernel) → Outcome (R k) (m k)

pub record IsPreorder (R : Kernel → Kernel → Type 0) : Type 0 where
  pub same : (k : Kernel) → R k k
  pub chain : (k m n : Kernel) → R k m → R m n → R k n

-- Where `R` and then `S` give `T`, code that keeps `R` and then code that keeps `S` keep `T`.
module _ {R S T : Kernel → Kernel → Type 0} (chain : (k m n : Kernel) → R k m → S m n → T k n) where
  Outcome-chain :
      {A : Type 0} (k m : Kernel) (o : Option (A × Kernel))
      → R k m
      → Outcome (S m) o
      → Outcome (T k) o
  Outcome-chain k m none h g = tt
  Outcome-chain k m (some (a, n)) h g = chain k m n h g

  Outcome-bind :
      {A B : Type 0} (k : Kernel) (o : Option (A × Kernel)) (f : A → K B)
      → Outcome (R k) o
      → ((a : A) → Keeps S (f a))
      → Outcome (T k) (((λ _. o) >>= f) k)
  Outcome-bind k none f h hf = tt
  Outcome-bind k (some (a, m)) f h hf = Outcome-chain k m (f a m) h ((hf a).run m)

  pub Keeps-compose :
      {A B : Type 0} {m : K A} {f : A → K B}
      → Keeps R m
      → ((a : A) → Keeps S (f a))
      → Keeps T (m >>= f)
  Keeps-compose {m = m} {f = f} hm hf = record { run = λ k. Outcome-bind k (m k) f (hm.run k) hf }

module _ {R : Kernel → Kernel → Type 0} (pre : IsPreorder R) where
  pub Keeps-bind :
      {A B : Type 0} {m : K A} {f : A → K B}
      → Keeps R m
      → ((a : A) → Keeps R (f a))
      → Keeps R (m >>= f)
  Keeps-bind = Keeps-compose pre.chain

  pub Keeps-pure : {A : Type 0} (a : A) → Keeps R (pure a)
  Keeps-pure a = record { run = pre.same }

  pub Keeps-get : Keeps R get
  Keeps-get = record { run = pre.same }

  pub Keeps-assert : (b : Bool) → Keeps R (assert b)
  Keeps-assert true = record { run = pre.same }
  Keeps-assert false = record { run = λ k. tt }

  pub Keeps-when : (b : Bool) {m : K (Unit {0})} → Keeps R m → Keeps R (when b m)
  Keeps-when true h = h
  Keeps-when false h = record { run = pre.same }

  pub Keeps-lift : {A : Type 0} (o : Option A) → Keeps R (lift o)
  Keeps-lift none = record { run = λ k. tt }
  Keeps-lift (some a) = record { run = pre.same }

  pub Keeps-load : (t : Ptr) → Keeps R (load t)
  Keeps-load t = record {
    run = λ k.
        elim (k.threads t)
          as (λ o.
            Outcome (R k) (elim o as (λ _. Option (Thread × Kernel)) [
              | none ↦ none
              | some th ↦ some (th, k)
            ])) [ none ↦ tt | some th ↦ pre.same k ];
  }

module _ (R : Kernel → Kernel → Type 0) where
  pub Keeps-modify : {f : Kernel → Kernel} → ((k : Kernel) → R k (f k)) → Keeps R (modify f)
  Keeps-modify h = record { run = h }

  pub Keeps-store :
      (t : Ptr) (th : Thread)
      → ((k : Kernel) → R k (record k { threads = update k.threads t (some th) }))
      → Keeps R (store t th)
  Keeps-store t th h = record { run = h }

  pub Keeps-set_sema :
      (s : SemaRef) (v : Semaphore)
      → ((k : Kernel) → R k (record k { semas = update_sema k.semas s v }))
      → Keeps R (set_sema s v)
  Keeps-set_sema s v h = record { run = h }

  edited :
      (t : Ptr) (f : Thread → Thread) (k : Kernel) (o : Option Thread)
      → k.threads t ≡ o
      → ((k : Kernel) (th : Thread)
          → k.threads t ≡ some th
          → R k (record k { threads = update k.threads t (some (f th)) }))
      → Outcome (R k) (edit t f k)
  edited t f k none e h = rw (Outcome, e) tt
  edited t f k (some th) e h = rw (Outcome, e) (h k th e)

  pub Keeps-edit :
      (t : Ptr) (f : Thread → Thread)
      → ((k : Kernel) (th : Thread)
          → k.threads t ≡ some th
          → R k (record k { threads = update k.threads t (some (f th)) }))
      → Keeps R (edit t f)
  Keeps-edit t f h = record { run = λ k. edited t f k (k.threads t) refl h }

  pub Keeps-push_frame :
      (f : Frame)
      → ((k : Kernel) (th : Thread)
          → k.threads k.current ≡ some th
          → R k (record k {
            threads = update k.threads k.current (some (record th { frames = f ∷ th.frames }));
          }))
      → Keeps R (push_frame f)
  Keeps-push_frame f h = record { run = λ k. edited_current k (k.threads k.current) refl }
    where
      edited_current :
          (k : Kernel) (o : Option Thread)
          → k.threads k.current ≡ o
          → Outcome (R k) (push_frame f k)
      edited_current k none e = rw (Outcome, e) tt
      edited_current k (some th) e = rw (Outcome, e) (h k th e)

pub Keeps-outcome :
    {R : Kernel → Kernel → Type 0} {A : Type 0} {m : K A} {k k' : Kernel} {a : A}
    → Keeps R m
    → m k ≡ some (a, k')
    → R k k'
Keeps-outcome {R = R} {k = k} h e = subst (Outcome (R k)) e (h.run k)
