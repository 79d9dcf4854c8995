-- ===== src/Arithmetic/Tests.antt =====
-- Runs of the 64-bit divisions.
use calendarizador.Prelude.{◌≡◌, ◌+◌, ◌^◌, refl, some, none}
use calendarizador.Prelude.Int.{pos, negsuc, ◌-ℤ◌, ◌*ℤ◌, wrap32, wrap64}
use calendarizador.Arithmetic.{divl, nlz, udiv64, umod64, sdiv64, smod64}

program : Unit {0}
unfolding divl nlz udiv64 umod64 sdiv64 smod64 ◌-ℤ◌ ◌*ℤ◌ wrap32 wrap64
program = tt

large_quotient : udiv64 (2 ^ 63 + 5) (2 ^ 33 + 1) ≡ some 1073741823
unfolding program
large_quotient = refl

-- The remainder of 2^32 + 1 by 2^33 is 2^32 + 1.
cut_remainder : umod64 (2 ^ 32 + 1) (2 ^ 33) ≡ some 1
unfolding program
cut_remainder = refl

signed :
    (sdiv64 (negsuc 6) (pos 2) ≡ some (negsuc 2)) × (smod64 (negsuc 6) (pos 2) ≡ some (negsuc 0))
unfolding program
signed = (refl, refl)

by_zero : udiv64 5 0 ≡ none
unfolding program
by_zero = refl
