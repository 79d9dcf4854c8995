-- ===== src/Bitmap.antt =====
-- pintos/src/lib/kernel/bitmap.c: arrays of bits in 32-bit words. `none` is a failed ASSERT.
pub mod Bits
pub mod Digits
pub mod Ranges
use Prim.Native.Nat.{bit_and, bit_or, bit_xor}
use calendarizador.Prelude.{
  ℕ, zero, suc, ◌+◌, ◌-◌, ◌*◌, ◌/◌, ◌%◌, ◌^◌, Bool, true, false, not, ◌&&◌, Option, none, some,
  List, [], ◌∷◌, ltb, leb, ◌==◌, if◌then◌else◌, length, set, get_elem?, replicate,
}

abbrev pub elem_bits : ℕ
elem_bits = 32

-- BITMAP_ERROR of bitmap.h, which is SIZE_MAX.
abbrev pub bitmap_error : ℕ
bitmap_error = 2 ^ 32 - 1

pub record Bitmap : Type 0 where
  pub bit_cnt : ℕ
  pub bits : List ℕ

abbrev pub elem_idx : ℕ → ℕ
elem_idx bit_idx = bit_idx / elem_bits

abbrev pub bit_mask : ℕ → ℕ
bit_mask bit_idx = 2 ^ (bit_idx % elem_bits)

abbrev pub elem_cnt : ℕ → ℕ
elem_cnt bit_cnt = (bit_cnt + elem_bits - 1) / elem_bits

abbrev pub byte_cnt : ℕ → ℕ
byte_cnt bit_cnt = 4 * elem_cnt bit_cnt

-- The bits of the last element that are in use.
unfoldable pub last_mask : Bitmap → ℕ
last_mask b =
    let last_bits = b.bit_cnt % elem_bits in
    if last_bits == 0 then 2 ^ 32 - 1 else 2 ^ last_bits - 1

-- `b->bits[i]` becomes `f` of it; an access outside of the array is undefined.
abbrev pub on_elem : (ℕ → ℕ) → Bitmap → ℕ → Option Bitmap
on_elem f b i = elim (get_elem? b.bits i) [
  | none ↦ none
  | some w ↦ some (record b { bits = set b.bits i (f w) })
]

unfoldable pub bitmap_mark : Bitmap → ℕ → Option Bitmap
bitmap_mark b bit_idx = on_elem (λ w. bit_or w (bit_mask bit_idx)) b (elem_idx bit_idx)

unfoldable pub bitmap_reset : Bitmap → ℕ → Option Bitmap
bitmap_reset b bit_idx =
    on_elem (λ w. bit_and w (2 ^ 32 - 1 - bit_mask bit_idx)) b (elem_idx bit_idx)

unfoldable pub bitmap_flip : Bitmap → ℕ → Option Bitmap
bitmap_flip b bit_idx = on_elem (λ w. bit_xor w (bit_mask bit_idx)) b (elem_idx bit_idx)

unfoldable pub bitmap_set : Bitmap → ℕ → Bool → Option Bitmap
bitmap_set b idx value =
    if not (ltb idx b.bit_cnt)
    then none
    else if value
    then bitmap_mark b idx
    else bitmap_reset b idx

unfoldable pub bitmap_test : Bitmap → ℕ → Option Bool
bitmap_test b idx =
    if not (ltb idx b.bit_cnt) then none else elim (get_elem? b.bits (elem_idx idx)) [
      | none ↦ none
      | some w ↦ some (not (bit_and w (bit_mask idx) == 0))
    ]

abbrev pub bitmap_size : Bitmap → ℕ
bitmap_size b = b.bit_cnt

-- The loop of bitmap_set_multiple with `cnt` bits to go, from `start`.
unfoldable pub set_each : Bitmap → ℕ → ℕ → Bool → Option Bitmap
set_each b start zero value = some b
set_each b start (suc cnt) value = elim (bitmap_set b start value) [
  | none ↦ none
  | some b' ↦ set_each b' (suc start) cnt value
]

-- The two tests at the start of the functions on ranges.
abbrev pub in_range : Bitmap → ℕ → ℕ → Bool
in_range b start cnt = leb start b.bit_cnt && leb ((start + cnt) % 2 ^ 32) b.bit_cnt

unfoldable pub bitmap_set_multiple : Bitmap → ℕ → ℕ → Bool → Option Bitmap
bitmap_set_multiple b start cnt value =
    if in_range b start cnt then set_each b start cnt value else none

unfoldable pub bitmap_set_all : Bitmap → Bool → Option Bitmap
unfolding bitmap_set_multiple
bitmap_set_all b value = bitmap_set_multiple b 0 (bitmap_size b) value

abbrev pub same_bit : Bool → Bool → Bool
same_bit true b = b
same_bit false b = not b

unfoldable pub count_each : Bitmap → ℕ → ℕ → Bool → Option ℕ
count_each b start zero value = some 0
count_each b start (suc cnt) value = elim (bitmap_test b start) [
  | none ↦ none
  | some x ↦ elim (count_each b (suc start) cnt value) [
    | none ↦ none
    | some n ↦ some (if same_bit x value then suc n else n)
  ]
]

unfoldable pub bitmap_count : Bitmap → ℕ → ℕ → Bool → Option ℕ
bitmap_count b start cnt value = if in_range b start cnt then count_each b start cnt value else none

unfoldable pub contains_each : Bitmap → ℕ → ℕ → Bool → Option Bool
contains_each b start zero value = some false
contains_each b start (suc cnt) value =
    let rest = contains_each b (suc start) cnt value in
    elim (bitmap_test b start) [
      | none ↦ none
      | some x ↦ if same_bit x value then some true else rest
    ]

unfoldable pub bitmap_contains : Bitmap → ℕ → ℕ → Bool → Option Bool
bitmap_contains b start cnt value =
    if in_range b start cnt then contains_each b start cnt value else none

abbrev pub negated : Option Bool → Option Bool
negated none = none
negated (some x) = some (not x)

unfoldable pub bitmap_any : Bitmap → ℕ → ℕ → Option Bool
bitmap_any b start cnt = bitmap_contains b start cnt true

unfoldable pub bitmap_none : Bitmap → ℕ → ℕ → Option Bool
bitmap_none b start cnt = negated (bitmap_contains b start cnt true)

unfoldable pub bitmap_all : Bitmap → ℕ → ℕ → Option Bool
bitmap_all b start cnt = negated (bitmap_contains b start cnt false)

-- The loop of bitmap_scan from `i`, with `n` values of `i` to go.
unfoldable pub scan_from : Bitmap → ℕ → ℕ → ℕ → Bool → Option ℕ
scan_from b i zero cnt value = some bitmap_error
scan_from b i (suc n) cnt value =
    let rest = scan_from b (suc i) n cnt value in
    elim (bitmap_contains b i cnt (not value)) [
      | none ↦ none
      | some other ↦ if other then rest else some i
    ]

-- `i` runs from `start` to `last`, the last one included.
unfoldable pub bitmap_scan : Bitmap → ℕ → ℕ → Bool → Option ℕ
bitmap_scan b start cnt value =
    if not (leb start b.bit_cnt)
    then none
    else if leb cnt b.bit_cnt
    then scan_from b start (suc (b.bit_cnt - cnt) - start) cnt value
    else some bitmap_error

unfoldable pub bitmap_scan_and_flip : Bitmap → ℕ → ℕ → Bool → Option (ℕ × Bitmap)
bitmap_scan_and_flip b start cnt value = elim (bitmap_scan b start cnt value) [
  | none ↦ none
  | some idx ↦
      if idx == bitmap_error
      then some (idx, b)
      else elim (bitmap_set_multiple b idx cnt (not value)) [
        | none ↦ none
        | some b' ↦ some (idx, b')
      ]
]

-- bitmap_create, where malloc gives both blocks: the bits of new memory, `junk`, are cleared.
unfoldable pub bitmap_create : ℕ → List ℕ → Option Bitmap
bitmap_create bit_cnt junk = bitmap_set_all (record { bit_cnt = bit_cnt; bits = junk }) false
