-- ===== src/Samples/Storage.antt =====
-- The theorems on the page allocator at work.
use calendarizador.Prelude.{ℕ, ◌≡◌, ◌<◌, ◌⊎◌, ◌%◌, refl, true, some, List, [], ◌∷◌, arith, false}
use calendarizador.Memory.{Memory}
use calendarizador.Bitmap.Ranges.{NoGroup}
use calendarizador.Palloc.{
  has_flag, Pool, Pools, palloc_init, palloc_get_multiple, palloc_free_multiple,
}
use calendarizador.Palloc.Pages.{page_at, IsPools}
use calendarizador.Palloc.Get.{Given, GetResult, palloc_get_multiple-GetResult}
use calendarizador.Palloc.Free.{SamePages, palloc_free_multiple-palloc_get_multiple}
use calendarizador.Palloc.Start.{Started, palloc_init-Started}

abbrev bytes : Memory
bytes a = a % 256

-- 40 pages, of which the first 8 are in use.
abbrev kernel_pages : Pool
kernel_pages = record { used_map = record { bit_cnt = 40; bits = 255 ∷ 0 ∷ [] }; base = 8192 }

abbrev user_pages : Pool
user_pages = record { used_map = record { bit_cnt = 40; bits = 3 ∷ 0 ∷ [] }; base = 409600 }

abbrev both_pools : Pools
both_pools = record { kernel_pool = kernel_pages; user_pool = user_pages; memory = bytes }

both_pools-IsPools : IsPools both_pools
both_pools-IsPools = record {
  kernel = record {
    map = (omega arith, omega arith);
    aligned = refl;
    not_null = omega arith;
    fits = omega arith;
  };
  user = record {
    map = (omega arith, omega arith);
    aligned = refl;
    not_null = omega arith;
    fits = omega arith;
  };
  apart = omega arith;
}

-- PAL_ZERO and PAL_USER, for three pages.
get_example : GetResult both_pools both_pools-IsPools 6 true 3 (palloc_get_multiple both_pools 6 3)
unfolding has_flag
get_example = palloc_get_multiple-GetResult both_pools both_pools-IsPools 6 3 (omega arith)

free_example :
    ((i : ℕ) × (s1 s2 : Pools) × (palloc_get_multiple both_pools 6 3
        ≡ some (page_at user_pages i, s1))
      × (0 < page_at user_pages i)
      × Given both_pools true true 3 i s1
      × (palloc_free_multiple s1 (page_at user_pages i) 3 ≡ some s2)
      × SamePages both_pools s2)
    ⊎ (palloc_get_multiple both_pools 6 3 ≡ some (0, both_pools))
      × NoGroup user_pages.used_map both_pools-IsPools.user.map 0 3 false
unfolding has_flag
free_example =
    palloc_free_multiple-palloc_get_multiple both_pools both_pools-IsPools 6 3 (omega arith)

-- A word for each 32 pages of 300.
abbrev words : List ℕ
words = 1 ∷ 2 ∷ 3 ∷ 4 ∷ 5 ∷ 6 ∷ 7 ∷ 8 ∷ 9 ∷ 10 ∷ []

init_example :
    (s : Pools) × (palloc_init bytes words words 300 16 ≡ some s) × Started bytes 300 16 s
init_example =
    palloc_init-Started bytes words words 300 16 (omega arith) (omega arith) (omega arith)
      (omega arith) (omega arith)
