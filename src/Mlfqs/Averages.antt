-- ===== src/Mlfqs/Averages.antt =====
-- The load average and recent CPU time, in 17.14 numbers: their divisions do not fault, and they
-- stay in the range of an `int`.
use native.Mathlib.Nat.{div-le_of_le-mul, mul-le-mul_right}
use calendarizador.Prelude.{ℕ, ◌+◌, ◌*◌, ◌/◌, ◌^◌, ◌≤◌, ◌<◌, ◌≡◌, some, arith}
use calendarizador.Prelude.Int.{pos, div_const, ◌+ℤ◌, ◌*ℤ◌, ◌/ℤ◌, wrap32}
use calendarizador.FixedPoint.{
  f_one, int_to_fp, add_fp, add_int, mult_fp, mult_int, div_fp, div_int,
}
use calendarizador.Kernel.{Thread}
use calendarizador.Mlfqs.{new_load_avg, new_recent_cpu}

-- Where nothing overflows, for a load average that is not negative: the
-- new average is 59/60 of it and 1/60 of the number of ready threads, each cut to a 17.14 number.
pub new_load_avg-value :
    (a n : ℕ)
    → a * 59 < 2 ^ 31
    → n < 2 ^ 17
    → a * 59 / 60 + n * f_one / 60 < 2 ^ 31
    → new_load_avg (pos a) n ≡ some (pos (a * 59 / 60 + n * f_one / 60))
unfolding new_load_avg mult_int int_to_fp add_fp ◌*ℤ◌ ◌+ℤ◌ div_int ◌/ℤ◌ wrap32
new_load_avg-value a n old new sum = ground arith

-- While at most `m` threads are ready, `m` being at most 2221, a load average between 0 and `m` stays
-- between 0 and `m`, and its computation does not fault.
pub new_load_avg-bounded :
    (a n m : ℕ)
    → m ≤ 2221
    → n ≤ m
    → a ≤ m * f_one
    → (a' : ℕ) × (new_load_avg (pos a) n ≡ some (pos a')) × (a' ≤ m * f_one)
new_load_avg-bounded a n m few ready bound = (
  a * 59 / 60 + n * f_one / 60,
  new_load_avg-value a n (omega arith) (omega arith) (omega arith),
  omega arith,
)

-- The factor by which recent CPU time decays, as a 17.14 number: 2 * load / (2 * load + 1).
abbrev pub decay : ℕ → ℕ
decay a = a * 2 * f_one / (a * 2 + f_one)

decay-le : (a : ℕ) → decay a ≤ f_one
decay-le a = div-le_of_le-mul (a * 2 + f_one) (omega arith)

decayed-le : (a cpu : ℕ) → decay a * cpu / f_one ≤ cpu
decayed-le a cpu = div-le_of_le-mul f_one (mul-le-mul_right cpu (decay-le a))

factor :
    (a : ℕ)
    → a * 2 + f_one < 2 ^ 31
    → div_fp (mult_int (pos a) (pos 2)) (add_int (mult_int (pos a) (pos 2)) (pos 1))
      ≡ some (pos (decay a))
unfolding div_fp mult_int add_int ◌*ℤ◌ ◌+ℤ◌ ◌/ℤ◌ wrap32
factor a fits = ground (arith, decay-le a)

grows :
    (d cpu n : ℕ)
    → d * cpu / f_one + n * f_one < 2 ^ 31
    → add_int (mult_fp (pos d) (pos cpu)) (pos n) ≡ pos (d * cpu / f_one + n * f_one)
unfolding add_int mult_fp ◌*ℤ◌ ◌+ℤ◌ div_const wrap32
grows d cpu n small = ground arith

-- A load average, a recent CPU time and a nice value that are not negative: recent CPU time decays
-- by the factor and grows by the nice value. It is never more than before, apart from the nice value.
pub new_recent_cpu-decays :
    (a cpu n : ℕ) (th : Thread)
    → th.recent_cpu ≡ pos cpu
    → th.nice ≡ pos n
    → a * 2 + f_one < 2 ^ 31
    → cpu + n * f_one < 2 ^ 31
    → (new_recent_cpu (pos a) th ≡ some (pos (decay a * cpu / f_one + n * f_one)))
      × (decay a * cpu / f_one + n * f_one ≤ cpu + n * f_one)
unfolding new_recent_cpu
new_recent_cpu-decays a cpu n th was nice fits small = (
  rw (new_recent_cpu, factor a fits, was, nice)
      (λ i. some (grows (decay a) cpu n (omega (arith, decayed-le a cpu)) i)),
  omega (arith, decayed-le a cpu),
)
