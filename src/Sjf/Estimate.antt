-- ===== src/Sjf/Estimate.antt =====
-- The estimates of running time.
use calendarizador.Prelude.{ℕ, ◌+◌, ◌-◌, ◌/◌, ◌^◌, ◌<◌, ◌≡◌, some, arith}
use calendarizador.Prelude.Int.{pos, ◌+ℤ◌, ◌-ℤ◌, ◌*ℤ◌, ◌/ℤ◌, div_const, wrap32}
use calendarizador.FixedPoint.{int_to_fp, add_fp, sub_fp, mult_int, fp_to_int_round, div_int}
use calendarizador.Sjf.{new_total_exec}

-- Two running times that are less than 131071 in sum, of which the old one is not 0: the new
-- estimate is their mean, rounded up.
pub new_total_exec-mean :
    (old recent : ℕ)
    → 0 < old
    → old + recent < 2 ^ 18 - 1
    → new_total_exec (pos old) (pos recent) ≡ some (pos ((old + recent + 1) / 2))
unfolding new_total_exec int_to_fp add_fp sub_fp mult_int fp_to_int_round div_int ◌+ℤ◌ ◌-ℤ◌ ◌*ℤ◌
    ◌/ℤ◌ div_const wrap32
new_total_exec-mean old recent seen small = ground arith
