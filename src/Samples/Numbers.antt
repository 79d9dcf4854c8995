-- ===== src/Samples/Numbers.antt =====
-- The theorems on lists, bitmaps and numbers at work.
use calendarizador.Prelude.{
  ℕ, ◌≡◌, ◌/◌, ◌%◌, ◌^◌, refl, Bool, false, some, List, [], ◌∷◌, arith, ◌==◌, if◌then◌else◌,
}
use calendarizador.Prelude.Int.{pos, ltb_ℤ}
use calendarizador.FixedPoint.{fp_to_int_round}
use calendarizador.FixedPoint.Rounding.{IsNearest, fp_to_int_round-IsNearest}
use calendarizador.LinkedList.{list_sort}
use calendarizador.LinkedList.{list_remove}
use calendarizador.LinkedList.Links.{Links, list_reverse}
use calendarizador.LinkedList.Links.Reverse.{list_reverse-IsLinked}
use calendarizador.LinkedList.Links.Segment.{IsLinked}
use calendarizador.LinkedList.Links.Refine.{remove, links_call, links_call-Refines}
use calendarizador.LinkedList.Sort.Order.{IsOrder, by_key-IsOrder}
use calendarizador.LinkedList.Sort.Correct.{IsSortOf, list_sort-IsSortOf}
use calendarizador.Bitmap.{Bitmap, bitmap_scan_and_flip}
use calendarizador.Bitmap.Bits.{IsBitmap}
use calendarizador.Bitmap.Ranges.{FlipResult, bitmap_scan_and_flip-FlipResult}
use calendarizador.Arithmetic.{udiv64, umod64}
use calendarizador.Arithmetic.Quotient.{udiv64-quotient, umod64-low_half}

-- Four numbers by their size.
abbrev by_size : ℕ → ℕ → Bool
by_size a b = ltb_ℤ (pos a) (pos b)

by_size-IsOrder : IsOrder by_size
by_size-IsOrder = by_key-IsOrder (λ n. pos n)

sort_example :
    (ys : List ℕ) × (list_sort by_size (3 ∷ 1 ∷ 2 ∷ 1 ∷ []) ≡ some ys)
    × IsSortOf by_size ys (3 ∷ 1 ∷ 2 ∷ 1 ∷ [])
sort_example = list_sort-IsSortOf by_size by_size-IsOrder (3 ∷ 1 ∷ 2 ∷ 1 ∷ [])

rounding_example : IsNearest (pos 24576) (fp_to_int_round (pos 24576))
rounding_example = fp_to_int_round-IsNearest (pos 24576) (omega arith) (omega arith)

-- 40 bits in two words, of which the first 8 are set.
abbrev sample_bitmap : Bitmap
sample_bitmap = record { bit_cnt = 40; bits = 255 ∷ 0 ∷ [] }

sample_bitmap-IsBitmap : IsBitmap sample_bitmap
sample_bitmap-IsBitmap = (omega arith, omega arith)

flip_example :
    FlipResult sample_bitmap sample_bitmap-IsBitmap 3 4 false
      (bitmap_scan_and_flip sample_bitmap 3 4 false)
flip_example =
    bitmap_scan_and_flip-FlipResult sample_bitmap sample_bitmap-IsBitmap 3 4 false (omega arith)

quotient_example : udiv64 10000000000000000000 8589934593 ≡ some (10000000000000000000 / 8589934593)
quotient_example =
    udiv64-quotient 10000000000000000000 8589934593 (omega arith) (omega arith) (omega arith)

remainder_example : umod64 4294967297 8589934592 ≡ some (4294967297 % 8589934592 % 2 ^ 32)
remainder_example = umod64-low_half 4294967297 8589934592 (omega arith) (omega arith) (omega arith)

-- The list at 100 has the elements 200 and 300.
abbrev two_links : Links
two_links = record {
  next = λ a. if a == 100 then 200 else if a == 200 then 300 else if a == 300 then 112 else 0;
  prev = λ a. if a == 200 then 100 else if a == 300 then 200 else if a == 112 then 300 else 0;
}

two_links-IsLinked : IsLinked two_links 100 (200 ∷ 300 ∷ [])
two_links-IsLinked = record {
  chain = (refl, refl, (refl, refl, (refl, refl)));
  distinct = (refl, (refl, (refl, (refl, tt))));
  real = refl;
  head_end = refl;
  tail_end = refl;
}

links_example :
    (m' : Links) × (links_call two_links 100 (remove 200) ≡ some (some 300, m'))
    × IsLinked m' 100 (list_remove (200 ∷ 300 ∷ []) 200)
links_example =
    links_call-Refines two_links 100 (200 ∷ 300 ∷ []) (remove 200) two_links-IsLinked refl

reversed_example :
    (m' : Links) × (list_reverse 3 two_links 100 ≡ some m') × IsLinked m' 100 (300 ∷ 200 ∷ [])
reversed_example =
    list_reverse-IsLinked 3 two_links 100 (200 ∷ 300 ∷ []) two_links-IsLinked (omega arith)
