-- ===== src/FixedPoint/Tests.antt =====
-- Runs of the fixed-point operations.
use calendarizador.Prelude.{◌≡◌, refl, some, none}
use calendarizador.Prelude.Int.{pos, negsuc, ◌+ℤ◌, ◌-ℤ◌, ◌*ℤ◌, ◌/ℤ◌, div_const, wrap32}
use calendarizador.FixedPoint.{
  int_to_fp, fp_to_int, fp_to_int_round, add_fp, add_int, sub_fp, sub_int, mult_fp, mult_int,
  div_fp, div_int,
}

program : Unit {0}
unfolding int_to_fp fp_to_int fp_to_int_round add_fp add_int sub_fp sub_int mult_fp mult_int div_fp
    div_int ◌+ℤ◌ ◌-ℤ◌ ◌*ℤ◌ ◌/ℤ◌ div_const wrap32
program = tt

halves : div_int (int_to_fp (pos 1)) (pos 2) ≡ some (pos 8192)
unfolding program
halves = refl

-- -2.5 rounds away from zero, and is cut toward zero.
rounding : (fp_to_int_round (negsuc 40959) ≡ negsuc 2) × (fp_to_int (negsuc 40959) ≡ negsuc 1)
unfolding program
rounding = (refl, refl)

no_division : div_fp (pos 1) (pos 0) ≡ none
unfolding program
no_division = refl

overflow : int_to_fp (pos 131072) ≡ negsuc 2147483647
unfolding program
overflow = refl
