-- ===== src/Stdlib/Atoi.antt =====
-- atoi of pintos/src/lib/stdlib.c, which reads a number from a string. `none` is a failed ASSERT or a
-- string on which a loop does not end within the fuel.
use calendarizador.Prelude.{
  ℕ, zero, suc, Bool, true, false, ◌&&◌, ◌||◌, Option, none, some, leb, ◌==◌, if◌then◌else◌,
}
use calendarizador.Prelude.Int.{ℤ, pos, sub_ℕ, ◌-ℤ◌, ◌*ℤ◌, wrap32}
use calendarizador.Memory.{Memory}

-- isspace and isdigit of ctype.h.
abbrev pub is_space : ℕ → Bool
is_space c = (c == 32) || (c == 12) || (c == 10) || (c == 13) || (c == 9) || (c == 11)

abbrev pub is_digit : ℕ → Bool
is_digit c = leb 48 c && leb c 57

unfoldable pub skip_space : ℕ → Memory → ℕ → Option ℕ
skip_space zero m s = none
skip_space (suc fuel) m s =
    let rest = skip_space fuel m (suc s) in if is_space (m s) then rest else some s

-- The sign, whether it is a minus, and the pointer behind it.
abbrev pub parse_sign : Memory → ℕ → Bool × ℕ
parse_sign m s =
    if m s == 43 then (false, suc s) else if m s == 45 then (true, suc s) else (false, s)

unfoldable pub next_value : ℤ → ℕ → ℤ
next_value value c = wrap32 (wrap32 (value *ℤ pos 10) -ℤ sub_ℕ c 48)

-- The loop over the digits.
unfoldable pub parse_digits : ℕ → Memory → ℕ → ℤ → Option ℤ
parse_digits zero m s value = none
parse_digits (suc fuel) m s value =
    let rest = parse_digits fuel m (suc s) (next_value value (m s)) in
    if is_digit (m s) then rest else some value

-- `if (!negative) value = -value`
unfoldable pub with_sign : Bool → ℤ → ℤ
with_sign true value = value
with_sign false value = wrap32 (pos 0 -ℤ value)

unfoldable pub parse_number : ℕ → Memory → Bool × ℕ → Option ℤ
parse_number fuel m (negative, s) = elim (parse_digits fuel m s (pos 0)) [
  | none ↦ none
  | some value ↦ some (with_sign negative value)
]

unfoldable pub atoi : ℕ → Memory → ℕ → Option ℤ
atoi fuel m s = if s == 0 then none else elim (skip_space fuel m s) [
  | none ↦ none
  | some s' ↦ parse_number fuel m (parse_sign m s')
]
