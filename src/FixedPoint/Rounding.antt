-- ===== src/FixedPoint/Rounding.antt =====
-- Conversions between integers and 17.14 numbers: round trips and rounding errors.
use calendarizador.Prelude.{◌+◌, ◌*◌, ◌/◌, ◌^◌, ◌≤◌, ◌<◌, ◌≡◌, arith}
use calendarizador.Prelude.Int.{
  ℤ, pos, negsuc, pos_part, neg_part, ◌+ℤ◌, ◌-ℤ◌, ◌*ℤ◌, div_const, wrap32, wrap32-eq_self,
}
use calendarizador.FixedPoint.{f_one, int_to_fp, fp_to_int, fp_to_int_round}

-- The integers that a 17.14 number can hold.
abbrev pub FitsInt : ℤ → Type 0
FitsInt n = (pos_part n < 2 ^ 17) × (neg_part n ≤ 2 ^ 17)

pub int_to_fp-eq_mul : (n : ℤ) → FitsInt n → int_to_fp n ≡ n *ℤ pos f_one
unfolding int_to_fp ◌*ℤ◌
int_to_fp-eq_mul (pos n) h = wrap32-eq_self _ (ground arith)
int_to_fp-eq_mul (negsuc n) h = wrap32-eq_self _ (ground arith)

-- For an integer that a 17.14 number can hold, the conversion there and back gives it again.
pub fp_to_int-int_to_fp : (n : ℤ) → FitsInt n → fp_to_int (int_to_fp n) ≡ n
unfolding fp_to_int ◌*ℤ◌ div_const wrap32
fp_to_int-int_to_fp (pos n) h = rw (int_to_fp-eq_mul (pos n) h) (ground arith)
fp_to_int-int_to_fp (negsuc n) h = rw (int_to_fp-eq_mul (negsuc n) h) (ground arith)

-- 2 * |x - F * r| ≤ F, without subtraction.
abbrev pub IsNearest : ℤ → ℤ → Type 0
IsNearest x r =
    (2 * (pos_part x + f_one * neg_part r) ≤ 2 * (neg_part x + f_one * pos_part r) + f_one)
    × (2 * (neg_part x + f_one * pos_part r) ≤ 2 * (pos_part x + f_one * neg_part r) + f_one)

-- Where adding one half does not overflow, fp_to_int_round gives an integer that no integer is
-- nearer than: the distance is at most one half.
pub fp_to_int_round-IsNearest :
    (x : ℤ)
    → pos_part x + f_one / 2 < 2 ^ 31
    → neg_part x + f_one / 2 ≤ 2 ^ 31
    → IsNearest x (fp_to_int_round x)
unfolding fp_to_int_round div_const wrap32 ◌+ℤ◌ ◌-ℤ◌
fp_to_int_round-IsNearest (pos n) h k = ground arith
fp_to_int_round-IsNearest (negsuc n) h k = ground arith
