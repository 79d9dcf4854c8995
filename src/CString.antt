-- ===== src/CString.antt =====
-- pintos/src/lib/string.c on strings that end in a null byte. A loop that runs to the end of a string
-- recurses on `fuel`; `none` is a failed ASSERT or a string that does not end within the fuel, and
-- `some none` a null pointer.
pub mod Spell
pub mod Compare
pub mod Token
pub mod Append
use calendarizador.Prelude.{
  ℕ, zero, suc, ◌+◌, ◌-◌, ◌%◌, ◌^◌, Bool, not, ◌&&◌, ◌||◌, Option, none, some, ltb, leb, ◌==◌,
  if◌then◌else◌,
}
use calendarizador.Prelude.Int.{ℤ, pos, negsuc}
use calendarizador.Memory.{Memory, put, memcmp, memcpy}

infixl 10 ◌>>=◌
abbrev ◌>>=◌ {ℓ κ} : {A : Type ℓ} {B : Type κ} → Option A → (A → Option B) → Option B
none >>= f = none
some a >>= f = f a

-- `for (p = string; *p != '\0'; p++)`, with the number of rounds.
unfoldable pub rounds : ℕ → Memory → ℕ → Option ℕ
rounds zero m p = none
rounds (suc fuel) m p =
    if m p == 0
    then some 0
    else elim (rounds fuel m (suc p)) [ none ↦ none | some n ↦ some (suc n) ]

unfoldable pub strlen : ℕ → Memory → ℕ → Option ℕ
strlen fuel m string = if string == 0 then none else rounds fuel m string

unfoldable pub strnlen : ℕ → Memory → ℕ → ℕ
strnlen zero m string = 0
strnlen (suc maxlen) m string =
    let rest = strnlen maxlen m (suc string) in if m string == 0 then 0 else suc rest

unfoldable pub compare_from : ℕ → Memory → ℕ → ℕ → Option ℤ
compare_from zero m a b = none
compare_from (suc fuel) m a b =
    let rest = compare_from fuel m (suc a) (suc b) in
    if not (m a == 0) && (m a == m b)
    then rest
    else some (if ltb (m a) (m b) then negsuc 0 else if ltb (m b) (m a) then pos 1 else pos 0)

unfoldable pub strcmp : ℕ → Memory → ℕ → ℕ → Option ℤ
strcmp fuel m a b = if a == 0 then none else if b == 0 then none else compare_from fuel m a b

-- The loop of strchr, for a character `c`.
unfoldable pub find_char : ℕ → Memory → ℕ → ℕ → Option (Option ℕ)
find_char zero m string c = none
find_char (suc fuel) m string c =
    let rest = find_char fuel m (suc string) c in
    if m string == c then some (some string) else if m string == 0 then some none else rest

unfoldable pub strchr : ℕ → Memory → ℕ → ℕ → Option (Option ℕ)
strchr fuel m string c = if string == 0 then none else find_char fuel m string (c % 2 ^ 8)

-- `strchr (string, c) != NULL`
unfoldable pub occurs : ℕ → Memory → ℕ → ℕ → Option Bool
occurs fuel m string c = elim (strchr fuel m string c) [
  | none ↦ none
  | some none ↦ some Bool.false
  | some (some p) ↦ some Bool.true
]

abbrev pub incremented : Option ℕ → Option ℕ
incremented none = none
incremented (some n) = some (suc n)

unfoldable pub strcspn : ℕ → Memory → ℕ → ℕ → Option ℕ
strcspn zero m string stop = none
strcspn (suc fuel) m string stop =
    let rest = strcspn fuel m (suc string) stop in
    if m string == 0 then some 0 else elim (occurs fuel m stop (m string)) [
      | none ↦ none
      | some found ↦ if found then some 0 else incremented rest
    ]

unfoldable pub strspn : ℕ → Memory → ℕ → ℕ → Option ℕ
strspn zero m string skip = none
strspn (suc fuel) m string skip =
    let rest = strspn fuel m (suc string) skip in
    if m string == 0 then some 0 else elim (occurs fuel m skip (m string)) [
      | none ↦ none
      | some found ↦ if found then incremented rest else some 0
    ]

unfoldable pub strpbrk : ℕ → Memory → ℕ → ℕ → Option (Option ℕ)
strpbrk zero m string stop = none
strpbrk (suc fuel) m string stop =
    let rest = strpbrk fuel m (suc string) stop in
    if m string == 0 then some none else elim (occurs fuel m stop (m string)) [
      | none ↦ none
      | some found ↦ if found then some (some string) else rest
    ]

-- The loop of strrchr with the pointer `p` found so far.
unfoldable pub find_last : ℕ → Memory → ℕ → ℕ → Option ℕ → Option (Option ℕ)
find_last zero m string c p = none
find_last (suc fuel) m string c p =
    if m string == 0
    then some p
    else find_last fuel m (suc string) c (if m string == c then some string else p)

unfoldable pub strrchr : ℕ → Memory → ℕ → ℕ → Option (Option ℕ)
strrchr fuel m string c = find_last fuel m string (c % 2 ^ 8) none

-- The loop of strstr with `n` places to go, from `at`.
unfoldable pub find_block : Memory → ℕ → ℕ → ℕ → ℕ → Option (Option ℕ)
find_block m at needle needle_len zero = some none
find_block m at needle needle_len (suc n) =
    let rest = find_block m (suc at) needle needle_len n in
    elim (memcmp m at needle needle_len) [
      | none ↦ none
      | some (pos zero) ↦ some (some at)
      | some _ ↦ rest
    ]

unfoldable pub strstr : ℕ → Memory → ℕ → ℕ → Option (Option ℕ)
strstr fuel m haystack needle = do
  haystack_len ← strlen fuel m haystack
  needle_len ← strlen fuel m needle
  if leb needle_len haystack_len
      then find_block m haystack needle needle_len (suc (haystack_len - needle_len))
      else some none

-- What strtok_r has changed at the end: `*save_ptr` and the memory.
pub record Saved : Type 0 where
  pub save_ptr : ℕ
  pub memory : Memory

-- The second loop of strtok_r and what follows it, for the token that begins at `token`.
unfoldable pub end_token : ℕ → Memory → ℕ → ℕ → ℕ → Option (Option ℕ × Saved)
end_token zero m delimiters token s = none
end_token (suc fuel) m delimiters token s =
    let rest = end_token fuel m delimiters token (suc s) in
    elim (occurs (suc fuel) m delimiters (m s)) [
      | none ↦ none
      | some found ↦
          if not found
          then rest
          else if m s == 0
          then some (some token, record { save_ptr = s; memory = m })
          else some (some token, record { save_ptr = suc s; memory = put m s 0 })
    ]

-- The first loop of strtok_r and what follows it.
unfoldable pub skip_delimiters : ℕ → Memory → ℕ → ℕ → Option (Option ℕ × Saved)
skip_delimiters zero m delimiters s = none
skip_delimiters (suc fuel) m delimiters s =
    let rest = skip_delimiters fuel m delimiters (suc s) in
    elim (occurs (suc fuel) m delimiters (m s)) [
      | none ↦ none
      | some found ↦
          if not found
          then end_token (suc fuel) m delimiters s s
          else if m s == 0
          then some (none, record { save_ptr = s; memory = m })
          else rest
    ]

-- `if (s == NULL) s = *save_ptr`
abbrev pub start_of : Option ℕ → ℕ → ℕ
start_of none save_ptr = save_ptr
start_of (some p) save_ptr = p

-- The argument `s` is `none` where it is a null pointer.
unfoldable pub strtok_r : ℕ → Memory → Option ℕ → ℕ → ℕ → Option (Option ℕ × Saved)
strtok_r fuel m s delimiters save_ptr =
    let start = start_of s save_ptr in
    if delimiters == 0
    then none
    else if start == 0
    then none
    else skip_delimiters fuel m delimiters start

unfoldable pub strlcpy : ℕ → Memory → ℕ → ℕ → ℕ → Option (ℕ × Memory)
strlcpy fuel m dst src size = if dst == 0 then none else if src == 0 then none else do
  src_len ← strlen fuel m src
  if size == 0 then some (src_len, m) else do
    let dst_len = if ltb src_len (size - 1) then src_len else size - 1
    copied ← memcpy m dst src dst_len
    some (src_len, put (copied.1) (dst + dst_len) 0)

unfoldable pub strlcat : ℕ → Memory → ℕ → ℕ → ℕ → Option (ℕ × Memory)
strlcat fuel m dst src size = if dst == 0 then none else if src == 0 then none else do
  src_len ← strlen fuel m src
  dst_len ← strlen fuel m dst
  if not (ltb 0 size && ltb dst_len size) then some (src_len + dst_len, m) else do
    let room = size - dst_len - 1
    let copy_cnt = if ltb src_len room then src_len else room
    copied ← memcpy m (dst + dst_len) src copy_cnt
    some (src_len + dst_len, put (copied.1) (dst + dst_len + copy_cnt) 0)
