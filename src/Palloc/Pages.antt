-- ===== src/Palloc/Pages.antt =====
-- The pages that are given out and come back.
use calendarizador.Prelude.{
  ℕ, zero, suc, ◌+◌, ◌*◌, ◌%◌, ◌^◌, ◌≤◌, ◌<◌, ◌≡◌, ◌⊎◌, inl, inr, refl, sym, Bool, true, false, not,
  ◌&&◌, some, ◌==◌, arith, if◌then◌else◌, Bool-cases,
}
use mathlib.Core.Path.{subst}
use calendarizador.Memory.{Memory, fill, memset, usable}
use calendarizador.Bitmap.{Bitmap, bitmap_error}
use calendarizador.Bitmap.Bits.{IsBitmap}
use calendarizador.Bitmap.Ranges.{
  is_within, RangeSet, AllBits, NoGroup, bitmap_scan_and_flip-FlipResult,
}
use calendarizador.Palloc.{
  pgsize, pal_zero, has_flag, Pool, Pools, pool_of, with_pool, scan_pool, give_pages,
}

-- The pages of the pool are aligned, and all of them have addresses.
pub record IsPool (p : Pool) : Type 0 where
  pub map : IsBitmap p.used_map
  pub aligned : p.base % pgsize ≡ 0
  pub not_null : 0 < p.base
  pub fits : p.base + pgsize * p.used_map.bit_cnt < 2 ^ 32

-- The user pool is behind the kernel pool.
pub record IsPools (s : Pools) : Type 0 where
  pub kernel : IsPool s.kernel_pool
  pub user : IsPool s.user_pool
  pub apart : s.kernel_pool.base + pgsize * s.kernel_pool.used_map.bit_cnt ≤ s.user_pool.base

-- `v` at the `n` addresses from `p`.
abbrev pub IsFilled : Memory → ℕ → ℕ → ℕ → Memory → Type 0
IsFilled m p n v m' = (a : ℕ) → m' a ≡ (if is_within p n a then v else m a)

pub fill-IsFilled : (m : Memory) (p v n : ℕ) → IsFilled m p n v (fill m p v n)
unfolding fill
fill-IsFilled m p v zero a = ground arith
fill-IsFilled m p v (suc n) a =
    ground (arith, fill-IsFilled (λ a. if a == p then v else m a) (suc p) v n a)

pub scan_pool-cases :
    (p : Pool) (cnt : ℕ) (wf : IsPool p)
    → 0 < cnt
    → ((i : ℕ) × (b : Bitmap) × (scan_pool p cnt
          ≡ some (p.base + pgsize * i, record p { used_map = b }))
        × (i + cnt ≤ p.used_map.bit_cnt)
        × AllBits p.used_map i cnt false
        × RangeSet p.used_map i cnt true b)
      ⊎ (scan_pool p cnt ≡ some (0, p)) × NoGroup p.used_map wf.map 0 cnt false
unfolding scan_pool
scan_pool-cases p cnt wf some_pages =
    elim (bitmap_scan_and_flip-FlipResult p.used_map wf.map 0 cnt false (omega arith)) [
      | inl (i, b, e, (_, inside, all, _), set) ↦
          let found : (i == bitmap_error) ≡ false = ground (arith, wf.map) in
          let small : (p.base + pgsize * i) % 2 ^ 32 ≡ p.base + pgsize * i =
            omega (arith, wf.fits) in
          inl (i, b, rw (scan_pool, e, found, small) refl, inside, all, set)
      | inr (e, no_group) ↦ inr (rw (scan_pool, e) refl, no_group)
    ]

abbrev pub page_at : Pool → ℕ → ℕ
page_at p i = p.base + pgsize * i

pub memset-fill :
    (m : Memory) (p v n : ℕ) → 0 < p → v < 256 → memset m p v n ≡ some (p, fill m p v n)
unfolding memset
memset-fill m p v n not_null small =
    let ok : usable p n ≡ true = ground arith in
    let byte : v % 2 ^ 8 ≡ v = omega arith in rw (memset, ok, byte) refl

-- The memory behind give_pages.
abbrev pub IsGivenMemory : Memory → Bool → ℕ → ℕ → Memory → Type 0
IsGivenMemory m zeroed p n m' = (a : ℕ) → m' a ≡ (if zeroed && is_within p n a then 0 else m a)

pub give_pages-found :
    (s : Pools) (flags pages cnt : ℕ)
    → 0 < pages
    → pgsize * cnt < 2 ^ 32
    → (m : Memory) × (give_pages s flags pages cnt ≡ some (pages, record s { memory = m }))
      × IsGivenMemory s.memory (has_flag flags pal_zero) pages (pgsize * cnt) m
unfolding give_pages
give_pages-found s flags pages cnt not_null small =
    let some_page : (pages == 0) ≡ false = ground arith in
    let size : pgsize * cnt % 2 ^ 32 ≡ pgsize * cnt = omega arith in
    elim (Bool-cases (has_flag flags pal_zero)) [
      | inl zeroed ↦ (
        fill s.memory pages 0 (pgsize * cnt),
        rw
            (
              give_pages,
              some_page,
              zeroed,
              size,
              memset-fill s.memory pages 0 (pgsize * cnt) not_null (omega arith),
            )
            refl,
        rw zeroed (fill-IsFilled s.memory pages 0 (pgsize * cnt)),
      )
      | inr as_is ↦ (s.memory, rw (give_pages, some_page, as_is) refl, rw as_is (λ a. refl))
    ]

pub pool_of-with_pool : (user : Bool) (s : Pools) (p : Pool) → pool_of user (with_pool user s p) ≡ p
pool_of-with_pool true s p = refl
pool_of-with_pool false s p = refl

pub pool_of-other :
    (user : Bool) (s : Pools) (p : Pool)
    → pool_of (not user) (with_pool user s p) ≡ pool_of (not user) s
pool_of-other true s p = refl
pool_of-other false s p = refl

pub with_pool_self : (user : Bool) (s : Pools) → with_pool user s (pool_of user s) ≡ s
with_pool_self true s = refl
with_pool_self false s = refl

pub with_pool-memory : (user : Bool) (s : Pools) (p : Pool) → (with_pool user s p).memory ≡ s.memory
with_pool-memory true s p = refl
with_pool-memory false s p = refl

pub pool_of-memory :
    (user : Bool) (s : Pools) (m : Memory) → pool_of user (record s { memory = m }) ≡ pool_of user s
pool_of-memory true s m = refl
pool_of-memory false s m = refl

pub pool_of-IsPool : (user : Bool) (s : Pools) → IsPools s → IsPool (pool_of user s)
pool_of-IsPool true s wf = wf.user
pool_of-IsPool false s wf = wf.kernel

-- The bits of the range are `v` in the bitmap of the pool, which is else what it was, like the other
-- pool.
pub record PagesSet (s : Pools) (user : Bool) (i cnt : ℕ) (v : Bool) (s' : Pools) : Type 0 where
  pub base : (pool_of user s').base ≡ (pool_of user s).base
  pub bits : RangeSet (pool_of user s).used_map i cnt v (pool_of user s').used_map
  pub other : pool_of (not user) s' ≡ pool_of (not user) s

pub PagesSet-lem :
    (s : Pools) (user : Bool) (i cnt : ℕ) (v : Bool) (b : Bitmap) (m : Memory)
    → RangeSet (pool_of user s).used_map i cnt v b
    → PagesSet s user i cnt v
        (record (with_pool user s (record (pool_of user s) { used_map = b })) { memory = m })
PagesSet-lem s true i cnt v b m set = record { base = refl; bits = set; other = refl }
PagesSet-lem s false i cnt v b m set = record { base = refl; bits = set; other = refl }

IsPool-kept :
    (p p' : Pool) (i cnt : ℕ) (v : Bool)
    → IsPool p
    → p'.base ≡ p.base
    → RangeSet p.used_map i cnt v p'.used_map
    → IsPool p'
IsPool-kept p p' i cnt v wf base set = record {
  map = (rw (set.same_cnt, set.same_len) wf.map.0, rw set.same_cnt wf.map.1);
  aligned = rw base wf.aligned;
  not_null = rw base wf.not_null;
  fits = rw (base, set.same_cnt) wf.fits;
}

pub PagesSet-IsPools :
    (s s' : Pools) (user : Bool) (i cnt : ℕ) (v : Bool)
    → IsPools s
    → PagesSet s user i cnt v s'
    → IsPools s'
PagesSet-IsPools s s' true i cnt v wf p = record {
  kernel = subst IsPool (sym p.other) wf.kernel;
  user = IsPool-kept s.user_pool s'.user_pool i cnt v wf.user p.base p.bits;
  apart = rw (p.other, p.base) wf.apart;
}
PagesSet-IsPools s s' false i cnt v wf p = record {
  kernel = IsPool-kept s.kernel_pool s'.kernel_pool i cnt v wf.kernel p.base p.bits;
  user = subst IsPool (sym p.other) wf.user;
  apart = rw (p.other, p.base, p.bits.same_cnt) wf.apart;
}
