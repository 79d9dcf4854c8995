-- ===== src/FixedPoint/Bounds.antt =====
-- When the operations fault, when they are exact, and how far their results can lie.
use calendarizador.Prelude.{ℕ, ◌<◌, ◌≡◌, some, arith}
use calendarizador.Prelude.Int.{ℤ, pos, negsuc, ◌*ℤ◌, ◌/ℤ◌, div_const, wrap32}
use calendarizador.FixedPoint.{f_one, div_int, div_fp}

-- A division by a positive number does not fault.
pub div_int-pos : (x : ℤ) (d : ℕ) → 0 < d → div_int x (pos d) ≡ some (wrap32 (div_const x d))
unfolding div_int ◌/ℤ◌ div_const
div_int-pos (pos n) d h = ground arith
div_int-pos (negsuc n) d h = ground arith

pub div_fp-pos :
    (x : ℤ) (d : ℕ) → 0 < d → div_fp x (pos d) ≡ some (wrap32 (div_const (x *ℤ pos f_one) d))
unfolding div_fp ◌/ℤ◌ div_const
div_fp-pos x d h = ground arith
