-- ===== src/Tick/RoundRobin.antt =====
-- The time slices of round robin.
use calendarizador.Prelude.{
  ℕ, zero, suc, ◌≤◌, ◌<◌, ◌≡◌, refl, ◌⊎◌, Bool, true, Option, none, some, arith, Bool-cases, inl,
  inr, ◌==◌,
}
use mathlib.Core.Path.{subst}
use calendarizador.Prelude.Int.{pos, ◌+ℤ◌, wrap32}
use calendarizador.Kernel.{Ptr, Thread, Kernel, quantum, update}
use calendarizador.Tick.{tick_roundrobin}

-- The kernel behind `n` timer ticks in which thread `t` runs.
unfoldable pub ticks_for : Ptr → ℕ → Kernel → Option (Unit {0} × Kernel)
unfolding tick_roundrobin
ticks_for t zero k = some (tt, k)
ticks_for t (suc n) k = elim (ticks_for t n k) [ none ↦ none | some (_, k') ↦ tick_roundrobin t k' ]

tick_once :
    (k : Kernel) (t : Ptr) (th : Thread) (n : ℕ)
    → k.in_external_intr ≡ true
    → k.threads t ≡ some th
    → th.ticks ≡ pos n
    → suc n < quantum
    → tick_roundrobin t k
      ≡ some
          (tt, record k { threads = update k.threads t (some (record th { ticks = pos (suc n) })) })
unfolding tick_roundrobin ◌+ℤ◌ wrap32
tick_once k t th n ext here at more = ground arith

tick_last :
    (k : Kernel) (t : Ptr) (th : Thread) (n : ℕ)
    → k.in_external_intr ≡ true
    → k.threads t ≡ some th
    → th.ticks ≡ pos n
    → suc n ≡ quantum
    → tick_roundrobin t k
      ≡ some (
        tt,
        record k {
          yield_on_return = true;
          threads =
              update
                (update k.threads t (some (record th { ticks = pos (suc n) })))
                t
                (some (record th { ticks = pos 0 }));
        },
      )
unfolding tick_roundrobin ◌+ℤ◌ wrap32
tick_last k t th n ext here at more = ground arith

update_same : (f : Ptr → Option Thread) (t : Ptr) (a : Option Thread) → update f t a t ≡ a
update_same f t a = ground arith

update_twice :
    (f g : Ptr → Option Thread) (t u : Ptr) (a b : Option Thread)
    → (u ≡ t) ⊎ (f u ≡ g u)
    → (u ≡ t) ⊎ (update (update f t a) t b u ≡ g u)
update_twice f g t u a b h = ground arith

-- The kernel behind some ticks: `th` has the count `count`, and `yields` tells whether the handler
-- will yield. Nothing else has changed.
pub record Ticked (k : Kernel) (t : Ptr) (th : Thread) (n count : ℕ) (yields : Bool) : Type 0 where
  pub threads : Ptr → Option Thread
  pub runs : ticks_for t n k ≡ some (tt, record k { threads = threads; yield_on_return = yields })
  pub own : threads t ≡ some (record th { ticks = pos count })
  pub others : (u : Ptr) → (u ≡ t) ⊎ (threads u ≡ k.threads u)

module _ (k : Kernel) (t : Ptr) (th : Thread) (ext : k.in_external_intr ≡ true)
    (here : k.threads t ≡ some th) (fresh : th.ticks ≡ pos 0) where
  slice_open : (n : ℕ) → n < quantum → Ticked k t th n n k.yield_on_return
  unfolding ticks_for
  slice_open zero h = record {
    threads = k.threads;
    runs = refl;
    own = ground arith;
    others = λ u. inr refl;
  }
  slice_open (suc n) h =
      let s = slice_open n (omega arith) in
      let th1 = record th { ticks = pos n } in
      let k1 = record k { threads = s.threads } in
      record {
        threads = update s.threads t (some (record th { ticks = pos (suc n) }));
        runs = rw s.runs (tick_once k1 t th1 n ext s.own refl h);
        own = ground arith;
        others = λ u. ground (arith, s.others u);
      }

  slice_end : Ticked k t th quantum 0 true
  unfolding ticks_for
  slice_end =
      let s = slice_open 6 (omega arith) in
      let th1 = record th { ticks = pos 6 } in
      let k1 = record k { threads = s.threads } in
      let th2 = record th { ticks = pos 7 } in
      let th3 = record th { ticks = pos 0 } in
      record {
        threads = update (update s.threads t (some th2)) t (some th3);
        runs = rw (ticks_for, s.runs) (tick_last k1 t th1 6 ext s.own refl refl);
        own = update_same (update s.threads t (some th2)) t (some th3);
        others = λ u. update_twice s.threads k.threads t u (some th2) (some th3) (s.others u);
      }

  -- In the handler of the timer, the ticks of a round-robin slice never fail. From a count of 0, the
  -- running thread keeps the processor for fewer ticks than QUANTUM, its count being the number of
  -- them; at the tick QUANTUM the handler will yield, and the count is 0 again.
  pub tick_roundrobin-slice :
      (n : ℕ)
      → n ≤ quantum
      → (n < quantum) × Ticked k t th n n k.yield_on_return ⊎ (n ≡ quantum) × Ticked k t th n 0 true
  tick_roundrobin-slice n h = elim (Bool-cases (n == quantum)) [
    | inl last ↦
        let e : quantum ≡ n = ground arith in
        inr (ground arith, subst (λ m. Ticked k t th m 0 true) e slice_end)
    | inr more ↦ let short : n < quantum = ground arith in inl (short, slice_open n short)
  ]
