-- ===== src/Palloc.antt =====
-- pintos/src/threads/palloc.c: two pools of pages, each with a bitmap of the pages in use, which stands
-- in front of the pages. The bitmap is kept apart from the bytes of the pages. The lock of a pool is
-- left out: a call of palloc_get_multiple is one step. `none` is a panic or a failed ASSERT.
pub mod Pages
pub mod Get
pub mod Free
pub mod Start
use Prim.Native.Nat.{bit_and}
use calendarizador.Prelude.{
  ℕ, ◌+◌, ◌-◌, ◌*◌, ◌/◌, ◌%◌, ◌^◌, Bool, true, false, not, ◌&&◌, ◌||◌, Option, none, some, List,
  ltb, leb, ◌==◌, if◌then◌else◌,
}
use calendarizador.Memory.{Memory, memset}
use calendarizador.Bitmap.{
  Bitmap, bitmap_error, byte_cnt, bitmap_size, bitmap_set_all, bitmap_all, bitmap_set_multiple,
  bitmap_scan_and_flip,
}

-- PGSIZE and PHYS_BASE.
abbrev pub pgsize : ℕ
pgsize = 4096

abbrev pub phys_base : ℕ
phys_base = 3221225472

-- enum palloc_flags.
abbrev pub pal_assert : ℕ
pal_assert = 1

abbrev pub pal_zero : ℕ
pal_zero = 2

abbrev pub pal_user : ℕ
pal_user = 4

unfoldable pub has_flag : ℕ → ℕ → Bool
has_flag flags flag = not (bit_and flags flag == 0)

abbrev pub pg_ofs : ℕ → ℕ
pg_ofs va = va % pgsize

abbrev pub pg_no : ℕ → ℕ
pg_no va = va / pgsize

pub record Pool : Type 0 where
  pub used_map : Bitmap
  pub base : ℕ

pub record Pools : Type 0 where
  pub kernel_pool : Pool
  pub user_pool : Pool
  pub memory : Memory

-- bitmap_buf_size of bitmap.c; struct bitmap has two words.
abbrev pub bitmap_buf_size : ℕ → ℕ
bitmap_buf_size bit_cnt = 8 + byte_cnt bit_cnt

-- bitmap_create_in_buf of bitmap.c, in a block of words.
unfoldable pub bitmap_create_in_buf : ℕ → List ℕ → ℕ → Option Bitmap
bitmap_create_in_buf bit_cnt words block_size =
    if leb (bitmap_buf_size bit_cnt) block_size
    then bitmap_set_all (record { bit_cnt = bit_cnt; bits = words }) false
    else none

-- init_pool, where `words` is what the memory at the base has behind struct bitmap.
unfoldable pub init_pool : List ℕ → ℕ → ℕ → Option Pool
init_pool words base page_cnt =
    let bm_pages = (bitmap_buf_size page_cnt + pgsize - 1) / pgsize in
    if ltb page_cnt bm_pages
    then none
    else elim (bitmap_create_in_buf (page_cnt - bm_pages) words (bm_pages * pgsize)) [
      | none ↦ none
      | some map ↦ some (record { used_map = map; base = (base + bm_pages * pgsize) % 2 ^ 32 })
    ]

-- ptov of vaddr.h.
abbrev pub ptov : ℕ → Option ℕ
ptov paddr = if ltb paddr phys_base then some ((paddr + phys_base) % 2 ^ 32) else none

-- `(end - start) / PGSIZE`, a signed quotient that becomes a size_t.
abbrev pub pages_between : ℕ → ℕ → ℕ
pages_between start end =
    let bytes = (end + 2 ^ 32 - start) % 2 ^ 32 in
    if ltb bytes (2 ^ 31) then bytes / pgsize else (2 ^ 32 - (2 ^ 32 - bytes) / pgsize) % 2 ^ 32

-- The sizes of the kernel's and the users' pool.
abbrev pub split_pages : ℕ → ℕ → ℕ × ℕ
split_pages free_pages user_page_limit =
    let half = free_pages / 2 in
    let user_pages = if ltb user_page_limit half then user_page_limit else half in
    (free_pages - user_pages, user_pages)

-- The two pools from `free_start` on, of the given sizes.
unfoldable pub init_pools : Memory → List ℕ → List ℕ → ℕ → ℕ × ℕ → Option Pools
init_pools memory kernel_words user_words free_start (kernel_pages, user_pages) =
    let user = init_pool user_words ((free_start + kernel_pages * pgsize) % 2 ^ 32) user_pages in
    elim (init_pool kernel_words free_start kernel_pages) [
      | none ↦ none
      | some kernel ↦ elim user [
        | none ↦ none
        | some u ↦ some (record { kernel_pool = kernel; user_pool = u; memory = memory })
      ]
    ]

unfoldable pub palloc_init : Memory → List ℕ → List ℕ → ℕ → ℕ → Option Pools
palloc_init memory kernel_words user_words init_ram_pages user_page_limit =
    elim (ptov (1024 * 1024)) [
      | none ↦ none
      | some free_start ↦ elim (ptov (init_ram_pages * pgsize % 2 ^ 32)) [
        | none ↦ none
        | some free_end ↦
            init_pools memory kernel_words user_words free_start
              (split_pages (pages_between free_start free_end) user_page_limit)
      ]
    ]

-- The pool that the flags choose, and the other one; `user` is the flag PAL_USER.
abbrev pub pool_of : Bool → Pools → Pool
pool_of user s = if user then s.user_pool else s.kernel_pool

abbrev pub with_pool : Bool → Pools → Pool → Pools
with_pool user s p = if user then record s { user_pool = p } else record s { kernel_pool = p }

-- The scan of a pool, and the address of the pages that it found; 0 is NULL.
unfoldable pub scan_pool : Pool → ℕ → Option (ℕ × Pool)
scan_pool pool page_cnt = elim (bitmap_scan_and_flip pool.used_map 0 page_cnt false) [
  | none ↦ none
  | some (page_idx, map) ↦ some (
    if page_idx == bitmap_error then 0 else (pool.base + pgsize * page_idx) % 2 ^ 32,
    record pool { used_map = map },
  )
]

abbrev pub on_memory : Pools → Option (ℕ × Memory) → Option Pools
on_memory s none = none
on_memory s (some (p, m)) = some (record s { memory = m })

-- What palloc_get_multiple does with the pages.
unfoldable pub give_pages : Pools → ℕ → ℕ → ℕ → Option (ℕ × Pools)
give_pages s flags pages page_cnt =
    if not (pages == 0)
    then if has_flag flags pal_zero
      then elim (on_memory s (memset s.memory pages 0 (pgsize * page_cnt % 2 ^ 32))) [
        | none ↦ none
        | some s' ↦ some (pages, s')
      ]
      else some (pages, s)
    else if has_flag flags pal_assert
    then none
    else some (0, s)

unfoldable pub palloc_get_multiple : Pools → ℕ → ℕ → Option (ℕ × Pools)
palloc_get_multiple s flags page_cnt =
    let user = has_flag flags pal_user in
    if page_cnt == 0 then some (0, s) else elim (scan_pool (pool_of user s) page_cnt) [
      | none ↦ none
      | some (pages, pool) ↦ give_pages (with_pool user s pool) flags pages page_cnt
    ]

unfoldable pub palloc_get_page : Pools → ℕ → Option (ℕ × Pools)
unfolding palloc_get_multiple
palloc_get_page s flags = palloc_get_multiple s flags 1

unfoldable pub page_from_pool : Pool → ℕ → Bool
page_from_pool pool page =
    let start_page = pg_no pool.base in
    leb start_page (pg_no page)
    && ltb (pg_no page) ((start_page + bitmap_size pool.used_map) % 2 ^ 32)

-- The ASSERT on the bitmap, and the assignment to it.
unfoldable pub release_pages : Pool → ℕ → ℕ → Option Pool
release_pages pool page_idx page_cnt = elim (bitmap_all pool.used_map page_idx page_cnt) [
  | none ↦ none
  | some used ↦
      if used
      then elim (bitmap_set_multiple pool.used_map page_idx page_cnt false) [
        | none ↦ none
        | some map ↦ some (record pool { used_map = map })
      ]
      else none
]

-- palloc_free_multiple behind the choice of the pool.
unfoldable pub free_in : Bool → Pools → ℕ → ℕ → Option Pools
free_in user s pages page_cnt =
    elim (on_memory s (memset s.memory pages 204 (pgsize * page_cnt % 2 ^ 32))) [
      | none ↦ none
      | some s' ↦
          elim (release_pages (pool_of user s') (pg_no pages - pg_no (pool_of user s').base)
            page_cnt) [ none ↦ none | some pool ↦ some (with_pool user s' pool) ]
    ]

unfoldable pub palloc_free_multiple : Pools → ℕ → ℕ → Option Pools
palloc_free_multiple s pages page_cnt =
    if not (pg_ofs pages == 0)
    then none
    else if (pages == 0) || (page_cnt == 0)
    then some s
    else if page_from_pool s.kernel_pool pages
    then free_in false s pages page_cnt
    else if page_from_pool s.user_pool pages
    then free_in true s pages page_cnt
    else none

unfoldable pub palloc_free_page : Pools → ℕ → Option Pools
unfolding palloc_free_multiple
palloc_free_page s page = palloc_free_multiple s page 1
