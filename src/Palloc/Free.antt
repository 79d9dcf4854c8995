-- ===== src/Palloc/Free.antt =====
-- palloc_free_multiple: it takes back the pages that palloc_get_multiple gave.
use calendarizador.Prelude.{
  ℕ, ◌+◌, ◌-◌, ◌*◌, ◌%◌, ◌^◌, ◌≤◌, ◌<◌, ◌≡◌, ◌⊎◌, inl, inr, refl, sym, ap, ◌∙◌, Bool, true, false,
  none, some, ◌==◌, arith, if◌then◌else◌,
}
use calendarizador.Memory.{Memory, fill}
use calendarizador.Bitmap.{Bitmap, bitmap_all}
use calendarizador.Bitmap.Bits.{IsBitmap, test_bit}
use calendarizador.Bitmap.Ranges.{
  RangeSet, AllBits, NoGroup, bitmap_contains-cases, bitmap_set_multiple-RangeSet,
}
use calendarizador.Palloc.{
  pgsize, pal_assert, pal_zero, pal_user, has_flag, pg_ofs, pg_no, Pool, Pools, pool_of, with_pool,
  palloc_get_multiple, page_from_pool, release_pages, free_in, palloc_free_multiple,
}
use calendarizador.Palloc.Pages.{
  IsPool, IsPools, IsFilled, fill-IsFilled, memset-fill, page_at, pool_of-memory, pool_of-IsPool,
  PagesSet, PagesSet-lem, PagesSet-IsPools,
}
use calendarizador.Palloc.Get.{Given, palloc_get_multiple-GetResult}

release_pages-RangeSet :
    (p : Pool) (i cnt : ℕ)
    → IsBitmap p.used_map
    → i + cnt ≤ p.used_map.bit_cnt
    → AllBits p.used_map i cnt true
    → (b : Bitmap) × (release_pages p i cnt ≡ some (record p { used_map = b }))
      × RangeSet p.used_map i cnt false b
unfolding release_pages bitmap_all
release_pages-RangeSet p i cnt wf inside used =
    elim (bitmap_contains-cases p.used_map wf i cnt false inside) [
      | inl (_, (j, within, free)) ↦ absurd (ground (arith, used j))
      | inr (e, _) ↦
          let (b, set, r) = bitmap_set_multiple-RangeSet p.used_map i cnt false wf inside in
          (b, rw (release_pages, bitmap_all, e, set) refl, r)
    ]

page_index : (p : Pool) (i : ℕ) → IsPool p → pg_no (page_at p i) - pg_no p.base ≡ i
page_index p i wf = omega (arith, wf.aligned)

with_pool-late :
    (user : Bool) (s : Pools) (p : Pool) (m : Memory)
    → with_pool user (record s { memory = m }) p ≡ record (with_pool user s p) { memory = m }
with_pool-late true s p m = refl
with_pool-late false s p m = refl

-- What palloc_free_multiple makes of pages of a pool.
pub record Freed (s : Pools) (user : Bool) (cnt i : ℕ) (s' : Pools) : Type 0 where
  pub set : PagesSet s user i cnt false s'
  pub memory : IsFilled s.memory (page_at (pool_of user s) i) (pgsize * cnt) 204 s'.memory

free_in-Freed :
    (user : Bool) (s : Pools) (i cnt : ℕ)
    → IsPools s
    → i + cnt ≤ (pool_of user s).used_map.bit_cnt
    → AllBits (pool_of user s).used_map i cnt true
    → (s' : Pools) × (free_in user s (page_at (pool_of user s) i) cnt ≡ some s')
      × Freed s user cnt i s'
unfolding free_in
free_in-Freed user s i cnt wf inside used =
    let w = pool_of-IsPool user s wf in
    let page = page_at (pool_of user s) i in
    let m = fill s.memory page 204 (pgsize * cnt) in
    let size : pgsize * cnt % 2 ^ 32 ≡ pgsize * cnt = omega (arith, w.fits) in
    let (b, e, set) = release_pages-RangeSet (pool_of user s) i cnt w.map inside used in
    let pool = record (pool_of user s) { used_map = b } in
    (
      record (with_pool user s pool) { memory = m },
      rw
          (
            free_in,
            size,
            memset-fill s.memory page 204 (pgsize * cnt) (omega (arith, w.not_null)) (omega arith),
            pool_of-memory user s m,
            page_index (pool_of user s) i w,
            e,
          )
          (ap some (with_pool-late user s pool m)),
      record {
        set = PagesSet-lem s user i cnt false b m set;
        memory = fill-IsFilled s.memory page 204 (pgsize * cnt);
      },
    )

page_from_pool-own :
    (p : Pool) (i : ℕ) → IsPool p → i < p.used_map.bit_cnt → page_from_pool p (page_at p i) ≡ true
unfolding page_from_pool
page_from_pool-own p i wf inside = ground (arith, wf.aligned, wf.fits)

page_from_pool-behind :
    (p : Pool) (page : ℕ)
    → IsPool p
    → p.base + pgsize * p.used_map.bit_cnt ≤ page
    → page_from_pool p page ≡ false
unfolding page_from_pool
page_from_pool-behind p page wf behind = ground (arith, wf.aligned, wf.fits)

pages_here :
    (user : Bool) (s : Pools) (i cnt : ℕ)
    → IsPools s
    → i < (pool_of user s).used_map.bit_cnt
    → 0 < cnt
    → palloc_free_multiple s (page_at (pool_of user s) i) cnt
      ≡ free_in user s (page_at (pool_of user s) i) cnt
unfolding palloc_free_multiple
pages_here true s i cnt wf inside some_pages =
    let w = wf.user in
    let other =
      page_from_pool-behind s.kernel_pool (page_at s.user_pool i) wf.kernel
        (omega (arith, wf.apart)) in
    let own = page_from_pool-own s.user_pool i w inside in
    let aligned : (pg_ofs (page_at s.user_pool i) == 0) ≡ true = ground (arith, w.aligned) in
    let not_null : (page_at s.user_pool i == 0) ≡ false = ground (arith, w.not_null) in
    let counted : (cnt == 0) ≡ false = ground arith in
    rw (palloc_free_multiple, aligned, not_null, counted, other, own) refl
pages_here false s i cnt wf inside some_pages =
    let w = wf.kernel in
    let own = page_from_pool-own s.kernel_pool i w inside in
    let aligned : (pg_ofs (page_at s.kernel_pool i) == 0) ≡ true = ground (arith, w.aligned) in
    let not_null : (page_at s.kernel_pool i == 0) ≡ false = ground (arith, w.not_null) in
    let counted : (cnt == 0) ≡ false = ground arith in
    rw (palloc_free_multiple, aligned, not_null, counted, own) refl

-- Pages that are in use, in either pool, go back to their pool: the bits of the pages are cleared and
-- no others, and their bytes are 0xcc.
pub palloc_free_multiple-Freed :
    (user : Bool) (s : Pools) (i cnt : ℕ)
    → IsPools s
    → i + cnt ≤ (pool_of user s).used_map.bit_cnt
    → 0 < cnt
    → AllBits (pool_of user s).used_map i cnt true
    → (s' : Pools) × (palloc_free_multiple s (page_at (pool_of user s) i) cnt ≡ some s')
      × Freed s user cnt i s'
palloc_free_multiple-Freed user s i cnt wf inside some_pages used =
    let (s', e, f) = free_in-Freed user s i cnt wf inside used in
    (s', pages_here user s i cnt wf (omega arith) some_pages ∙ e, f)

-- The pools have the same pages in use.
pub record SamePages (s s' : Pools) : Type 0 where
  pub kernel : (j : ℕ) → test_bit s'.kernel_pool.used_map j ≡ test_bit s.kernel_pool.used_map j
  pub user : (j : ℕ) → test_bit s'.user_pool.used_map j ≡ test_bit s.user_pool.used_map j
  pub kernel_cnt : s'.kernel_pool.used_map.bit_cnt ≡ s.kernel_pool.used_map.bit_cnt
  pub user_cnt : s'.user_pool.used_map.bit_cnt ≡ s.user_pool.used_map.bit_cnt

bits_back :
    (b b1 b2 : Bitmap) (i cnt : ℕ)
    → AllBits b i cnt false
    → RangeSet b i cnt true b1
    → RangeSet b1 i cnt false b2
    → (j : ℕ) → test_bit b2 j ≡ test_bit b j
bits_back b b1 b2 i cnt free set cleared j = ground (arith, free j, set.bits j, cleared.bits j)

SamePages-lem :
    (user : Bool) (s s1 s2 : Pools) (i cnt : ℕ)
    → AllBits (pool_of user s).used_map i cnt false
    → PagesSet s user i cnt true s1
    → PagesSet s1 user i cnt false s2
    → SamePages s s2
SamePages-lem true s s1 s2 i cnt free p q = record {
  kernel = λ j k. test_bit (other_twice k) j;
  user =
      bits_back s.user_pool.used_map s1.user_pool.used_map s2.user_pool.used_map i cnt free p.bits
        q.bits;
  kernel_cnt = λ k. (other_twice k).bit_cnt;
  user_cnt = q.bits.same_cnt ∙ p.bits.same_cnt;
}
  where
    other_twice : s2.kernel_pool.used_map ≡ s.kernel_pool.used_map
    other_twice = ap (λ (x : Pool). x.used_map) (q.other ∙ p.other)
SamePages-lem false s s1 s2 i cnt free p q = record {
  kernel =
      bits_back s.kernel_pool.used_map s1.kernel_pool.used_map s2.kernel_pool.used_map i cnt free
        p.bits q.bits;
  user = λ j k. test_bit (other_twice k) j;
  kernel_cnt = q.bits.same_cnt ∙ p.bits.same_cnt;
  user_cnt = λ k. (other_twice k).bit_cnt;
}
  where
    other_twice : s2.user_pool.used_map ≡ s.user_pool.used_map
    other_twice = ap (λ (x : Pool). x.used_map) (q.other ∙ p.other)

set_AllBits : (b b1 : Bitmap) (i cnt : ℕ) → RangeSet b i cnt true b1 → AllBits b1 i cnt true
set_AllBits b b1 i cnt set j = ground (arith, set.bits j)

-- Whether a positive number of pages is given out and taken back: either palloc_get_multiple gives the
-- address of pages that were free in the pool that PAL_USER chooses, which is not NULL, and then
-- palloc_free_multiple takes them without a failure and leaves both pools with the pages in use that
-- they had at first; or the pool has not that many free pages in a row, and then palloc_get_multiple
-- gives NULL and changes nothing, or panics with PAL_ASSERT.
pub palloc_free_multiple-palloc_get_multiple :
    (s : Pools) (wf : IsPools s) (flags cnt : ℕ)
    → 0 < cnt
    → ((i : ℕ) × (s1 s2 : Pools) × (palloc_get_multiple s flags cnt
          ≡ some (page_at (pool_of (has_flag flags pal_user) s) i, s1))
        × (0 < page_at (pool_of (has_flag flags pal_user) s) i)
        × Given s (has_flag flags pal_user) (has_flag flags pal_zero) cnt i s1
        × (palloc_free_multiple s1 (page_at (pool_of (has_flag flags pal_user) s) i) cnt ≡ some s2)
        × SamePages s s2)
      ⊎ (palloc_get_multiple s flags cnt
          ≡ (if has_flag flags pal_assert then none else some (0, s)))
        × NoGroup
            (pool_of (has_flag flags pal_user) s).used_map
            (pool_of-IsPool (has_flag flags pal_user) s wf).map
            0
            cnt
            false
palloc_free_multiple-palloc_get_multiple s wf flags cnt some_pages =
    let user = has_flag flags pal_user in
    elim (palloc_get_multiple-GetResult s wf flags cnt some_pages) [
      | inr nothing ↦ inr nothing
      | inl (i, s1, e, g) ↦
          let wf1 = PagesSet-IsPools s s1 user i cnt true wf g.set in
          let used =
            set_AllBits (pool_of user s).used_map (pool_of user s1).used_map i cnt g.set.bits in
          let inside : i + cnt ≤ (pool_of user s1).used_map.bit_cnt =
            rw g.set.bits.same_cnt g.inside in
          let (s2, e2, f) = palloc_free_multiple-Freed user s1 i cnt wf1 inside some_pages used in
          let here : page_at (pool_of user s1) i ≡ page_at (pool_of user s) i =
            rw g.set.base refl in
          inl (
            i,
            s1,
            s2,
            e,
            omega (arith, (pool_of-IsPool user s wf).not_null),
            g,
            (λ k. palloc_free_multiple s1 (sym here k) cnt) ∙ e2,
            SamePages-lem user s s1 s2 i cnt g.free g.set f.set,
          )
    ]
