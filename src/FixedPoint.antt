-- ===== src/FixedPoint.antt =====
-- pintos/src/threads/fixedpoint.h: numbers in 17.14 format, kept in an `int`. Every result is
-- stored in 32 bits (`wrap32`); where the C standard leaves a signed overflow open, the model takes
-- the wrap-around of the processor. A division by a variable may fault (`none`).
pub mod Bounds
pub mod Rounding
mod Tests
use calendarizador.Prelude.{ℕ, ◌*◌, ◌/◌, Option, none, some, if◌then◌else◌}
use calendarizador.Prelude.Int.{ℤ, pos, ◌+ℤ◌, ◌-ℤ◌, ◌*ℤ◌, ◌/ℤ◌, div_const, leb_ℤ, wrap32}
use mathlib.Core.Option

-- `F`, which is 1 << Q.
abbrev pub f_one : ℕ
f_one = 16384

unfoldable pub int_to_fp : ℤ → ℤ
int_to_fp n = wrap32 (n *ℤ pos f_one)

unfoldable pub fp_to_int : ℤ → ℤ
fp_to_int x = wrap32 (div_const x f_one)

unfoldable pub fp_to_int_round : ℤ → ℤ
fp_to_int_round x =
    if leb_ℤ (pos 0) x
    then wrap32 (div_const (wrap32 (x +ℤ pos (f_one / 2))) f_one)
    else wrap32 (div_const (wrap32 (x -ℤ pos (f_one / 2))) f_one)

unfoldable pub add_fp : ℤ → ℤ → ℤ
add_fp x y = wrap32 (x +ℤ y)

unfoldable pub add_int : ℤ → ℤ → ℤ
add_int x n = wrap32 (x +ℤ wrap32 (n *ℤ pos f_one))

unfoldable pub sub_fp : ℤ → ℤ → ℤ
sub_fp x y = wrap32 (x -ℤ y)

unfoldable pub sub_int : ℤ → ℤ → ℤ
sub_int x n = wrap32 (x -ℤ wrap32 (n *ℤ pos f_one))

-- The product of two 32-bit values fits in the `int64_t` of the source.
unfoldable pub mult_fp : ℤ → ℤ → ℤ
mult_fp x y = wrap32 (div_const (x *ℤ y) f_one)

unfoldable pub mult_int : ℤ → ℤ → ℤ
mult_int x n = wrap32 (x *ℤ n)

unfoldable pub div_fp : ℤ → ℤ → Option ℤ
div_fp x y = Option.map wrap32 (x *ℤ pos f_one /ℤ y)

unfoldable pub div_int : ℤ → ℤ → Option ℤ
div_int x n = Option.map wrap32 (x /ℤ n)
