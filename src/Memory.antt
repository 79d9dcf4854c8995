-- ===== src/Memory.antt =====
-- pintos/src/lib/string.c on blocks of bytes: a memory gives each address its byte, and a pointer is an
-- address, of which 0 is NULL. `none` is a failed ASSERT.
pub mod Move
use calendarizador.Prelude.{
  ℕ, zero, suc, ◌+◌, ◌-◌, ◌%◌, ◌^◌, Bool, not, ◌||◌, Option, none, some, ltb, ◌==◌, if◌then◌else◌,
}
use calendarizador.Prelude.Int.{ℤ, pos, negsuc}

abbrev pub Memory : Type 0
Memory = ℕ → ℕ

-- `*p = v` for a byte.
abbrev pub put : Memory → ℕ → ℕ → Memory
put m p v = λ a. if a == p then v else m a

-- `p != NULL || size == 0`
abbrev pub usable : ℕ → ℕ → Bool
usable p size = not (p == 0) || (size == 0)

-- `while (size-- > 0) *dst++ = *src++`, with the final `dst`.
unfoldable pub copy_up : Memory → ℕ → ℕ → ℕ → ℕ × Memory
copy_up m dst src zero = (dst, m)
copy_up m dst src (suc size) = copy_up (put m dst (m src)) (suc dst) (suc src) size

-- `while (size-- > 0) *--dst = *--src`, with the final `dst`.
unfoldable pub copy_down : Memory → ℕ → ℕ → ℕ → ℕ × Memory
copy_down m dst src zero = (dst, m)
copy_down m dst src (suc size) = copy_down (put m (dst - 1) (m (src - 1))) (dst - 1) (src - 1) size

unfoldable pub memcpy : Memory → ℕ → ℕ → ℕ → Option (ℕ × Memory)
memcpy m dst src size =
    if not (usable dst size)
    then none
    else if not (usable src size)
    then none
    else some (dst, (copy_up m dst src size).1)

unfoldable pub memmove : Memory → ℕ → ℕ → ℕ → Option (ℕ × Memory)
memmove m dst src size =
    if not (usable dst size)
    then none
    else if not (usable src size)
    then none
    else if ltb dst src
    then some (copy_up m dst src size)
    else some (copy_down m (dst + size) (src + size) size)

unfoldable pub compare_blocks : Memory → ℕ → ℕ → ℕ → ℤ
compare_blocks m a b zero = pos 0
compare_blocks m a b (suc size) =
    let rest = compare_blocks m (suc a) (suc b) size in
    if m a == m b then rest else if ltb (m b) (m a) then pos 1 else negsuc 0

unfoldable pub memcmp : Memory → ℕ → ℕ → ℕ → Option ℤ
memcmp m a b size =
    if not (usable a size)
    then none
    else if not (usable b size)
    then none
    else some (compare_blocks m a b size)

-- The search of memchr; `none` is a null pointer.
unfoldable pub find_byte : Memory → ℕ → ℕ → ℕ → Option ℕ
find_byte m block ch zero = none
find_byte m block ch (suc size) =
    let rest = find_byte m (suc block) ch size in if m block == ch then some block else rest

unfoldable pub memchr : Memory → ℕ → ℕ → ℕ → Option (Option ℕ)
memchr m block ch size =
    if usable block size then some (find_byte m block (ch % 2 ^ 8) size) else none

unfoldable pub fill : Memory → ℕ → ℕ → ℕ → Memory
fill m dst value zero = m
fill m dst value (suc size) = fill (put m dst value) (suc dst) value size

unfoldable pub memset : Memory → ℕ → ℕ → ℕ → Option (ℕ × Memory)
memset m dst value size =
    if usable dst size then some (dst, fill m dst (value % 2 ^ 8) size) else none
