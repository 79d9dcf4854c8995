-- ===== src/Palloc/Get.antt =====
-- palloc_get_multiple: which pages it gives out.
use calendarizador.Prelude.{
  ℕ, ◌+◌, ◌*◌, ◌≤◌, ◌<◌, ◌≡◌, ◌⊎◌, inl, inr, refl, ◌∙◌, Bool, true, false, Option, none, some, ◌==◌,
  arith, if◌then◌else◌,
}
use mathlib.Core.Path.{subst}
use calendarizador.Bitmap.Ranges.{AllBits, NoGroup}
use calendarizador.Palloc.{
  pgsize, pal_assert, pal_zero, pal_user, has_flag, Pools, pool_of, with_pool, scan_pool,
  give_pages, palloc_get_multiple,
}
use calendarizador.Palloc.Pages.{
  IsPools, scan_pool-cases, page_at, IsGivenMemory, give_pages-found, with_pool_self,
  with_pool-memory, pool_of-IsPool, PagesSet, PagesSet-lem,
}

-- `cnt` pages of a pool from page `i` on, which were free, have been given out.
pub record Given (s : Pools) (user zeroed : Bool) (cnt i : ℕ) (s' : Pools) : Type 0 where
  pub inside : i + cnt ≤ (pool_of user s).used_map.bit_cnt
  pub free : AllBits (pool_of user s).used_map i cnt false
  pub set : PagesSet s user i cnt true s'
  pub memory : IsGivenMemory s.memory zeroed (page_at (pool_of user s) i) (pgsize * cnt) s'.memory

-- palloc_get_multiple behind the choice of the pool.
abbrev get_in : Bool → Pools → ℕ → ℕ → Option (ℕ × Pools)
get_in user s flags cnt = elim (scan_pool (pool_of user s) cnt) [
  | none ↦ none
  | some (pages, pool) ↦ give_pages (with_pool user s pool) flags pages cnt
]

abbrev pub GetResult :
    (s : Pools) → IsPools s → (flags : ℕ) → Bool → ℕ → Option (ℕ × Pools) → Type 0
GetResult s wf flags user cnt r =
    ((i : ℕ) × (s' : Pools) × (r ≡ some (page_at (pool_of user s) i, s'))
      × Given s user (has_flag flags pal_zero) cnt i s')
    ⊎ (r ≡ (if has_flag flags pal_assert then none else some (0, s)))
      × NoGroup (pool_of user s).used_map (pool_of-IsPool user s wf).map 0 cnt false

give_pages-null :
    (s : Pools) (flags cnt : ℕ)
    → give_pages s flags 0 cnt ≡ (if has_flag flags pal_assert then none else some (0, s))
unfolding give_pages
give_pages-null s flags cnt = refl

get_in-GetResult :
    (user : Bool) (s : Pools) (wf : IsPools s) (flags cnt : ℕ)
    → 0 < cnt
    → GetResult s wf flags user cnt (get_in user s flags cnt)
get_in-GetResult user s wf flags cnt some_pages =
    let p = pool_of-IsPool user s wf in
    elim (scan_pool-cases (pool_of user s) cnt p some_pages) [
      | inl (i, b, e, inside, free, set) ↦
          let s1 = with_pool user s (record (pool_of user s) { used_map = b }) in
          let (m, given, is) =
            give_pages-found s1 flags (page_at (pool_of user s) i) cnt (omega (arith, p.not_null))
              (omega (arith, p.fits)) in
          inl (
            i,
            record s1 { memory = m },
            rw (get_in, e) given,
            record {
              inside = inside;
              free = free;
              set = PagesSet-lem s user i cnt true b m set;
              memory = λ a.
                  is a
                  ∙ rw (with_pool-memory user s (record (pool_of user s) { used_map = b })) refl;
            },
          )
      | inr (e, no_group) ↦
          inr (rw (get_in, e, with_pool_self user s) (give_pages-null s flags cnt), no_group)
    ]

-- For a positive number of pages, palloc_get_multiple gives the address of that many pages in a row,
-- which were free in the pool that PAL_USER chooses. They are then in use, no other page has changed
-- its state, and the memory is as before but for these pages, which PAL_ZERO clears. Where the pool
-- has no such pages, it gives NULL and changes nothing, or panics with PAL_ASSERT.
pub palloc_get_multiple-GetResult :
    (s : Pools) (wf : IsPools s) (flags cnt : ℕ)
    → 0 < cnt
    → GetResult s wf flags (has_flag flags pal_user) cnt (palloc_get_multiple s flags cnt)
unfolding palloc_get_multiple
palloc_get_multiple-GetResult s wf flags cnt some_pages =
    let asked : (cnt == 0) ≡ false = ground arith in
    subst (GetResult s wf flags (has_flag flags pal_user) cnt)
      (rw (palloc_get_multiple, asked) refl)
      (get_in-GetResult (has_flag flags pal_user) s wf flags cnt some_pages)
