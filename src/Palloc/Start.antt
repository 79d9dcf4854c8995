-- ===== src/Palloc/Start.antt =====
-- palloc_init: the two pools at the start.
use calendarizador.Prelude.{
  ℕ, ◌+◌, ◌-◌, ◌*◌, ◌/◌, ◌%◌, ◌^◌, ◌≤◌, ◌<◌, ◌≡◌, inl, inr, refl, ◌∙◌, true, false, some, List,
  length, ltb, leb, arith, Bool-cases,
}
use mathlib.Core.Path.{subst}
use calendarizador.Memory.{Memory}
use calendarizador.Bitmap.{Bitmap, elem_cnt, bitmap_set_all}
use calendarizador.Bitmap.Bits.{IsBitmap}
use calendarizador.Bitmap.Ranges.{AllBits, RangeSet, bitmap_set_multiple-RangeSet}
use calendarizador.Palloc.{
  pgsize, bitmap_buf_size, bitmap_create_in_buf, Pool, Pools, init_pool, init_pools, palloc_init,
  split_pages, pages_between,
}
use calendarizador.Palloc.Pages.{IsPool, IsPools}

-- A pool in the `cnt` pages at `base`: its bitmap fills the first of them, and all others are free.
pub record Fresh (base cnt : ℕ) (p : Pool) : Type 0 where
  pub pool : IsPool p
  pub behind : base ≤ p.base
  pub filled : p.base + pgsize * p.used_map.bit_cnt ≡ base + pgsize * cnt
  pub free : AllBits p.used_map 0 p.used_map.bit_cnt false

range_free : (b b' : Bitmap) → RangeSet b 0 b.bit_cnt false b' → AllBits b' 0 b'.bit_cnt false
range_free b b' set j = ground (arith, set.same_cnt, set.bits j)

bitmap_create_in_buf-free :
    (cnt size : ℕ) (words : List ℕ)
    → bitmap_buf_size cnt ≤ size
    → elem_cnt cnt ≤ length words
    → cnt < 2 ^ 31
    → (b : Bitmap) × (bitmap_create_in_buf cnt words size ≡ some b)
      × IsBitmap b
      × (b.bit_cnt ≡ cnt)
      × AllBits b 0 b.bit_cnt false
unfolding bitmap_create_in_buf bitmap_set_all
bitmap_create_in_buf-free cnt size words fits enough small =
    let b : Bitmap = record { bit_cnt = cnt; bits = words } in
    let (b', e, set) = bitmap_set_multiple-RangeSet b 0 cnt false (enough, small) (omega arith) in
    let ok : leb (bitmap_buf_size cnt) size ≡ true = ground arith in
    (
      b',
      rw ok e,
      (rw (set.same_cnt, set.same_len) enough, rw set.same_cnt small),
      set.same_cnt,
      range_free b b' set,
    )

module _ (words : List ℕ) (base cnt : ℕ) (aligned : base % pgsize ≡ 0) (not_null : 0 < base)
    (fits : base + pgsize * cnt < 2 ^ 32) (some_pages : 0 < cnt)
    (enough : elem_cnt cnt ≤ length words) where
  abbrev bm_pages : ℕ
  bm_pages = (bitmap_buf_size cnt + pgsize - 1) / pgsize

  init_pool-Fresh : (p : Pool) × (init_pool words base cnt ≡ some p) × Fresh base cnt p
  unfolding init_pool
  init_pool-Fresh =
      let room : bm_pages ≤ cnt = omega arith in
      let test : ltb cnt bm_pages ≡ false = ground arith in
      let (b, e, wf, size, free) =
        bitmap_create_in_buf-free (cnt - bm_pages) (bm_pages * pgsize) words (omega arith)
          (omega arith) (omega arith) in
      let at : (base + bm_pages * pgsize) % 2 ^ 32 ≡ base + bm_pages * pgsize = omega arith in
      (
        record { used_map = b; base = base + bm_pages * pgsize },
        rw (init_pool, test, e, at) refl,
        record {
          pool = record {
            map = wf;
            aligned = omega arith;
            not_null = omega arith;
            fits = omega (arith, size);
          };
          behind = omega arith;
          filled = omega (arith, size);
          free = free;
        },
      )

split_sizes :
    (free limit : ℕ)
    → 2 ≤ free
    → 0 < limit
    → (user kernel : ℕ) × (split_pages free limit ≡ (kernel, user))
      × (0 < user)
      × (0 < kernel)
      × (user ≤ limit)
      × (user ≤ kernel)
      × (kernel + user ≡ free)
split_sizes free limit two some_pages = elim (Bool-cases (ltb limit (free / 2))) [
  | inl less ↦ (
    limit,
    free - limit,
    rw less refl,
    omega arith,
    ground arith,
    omega arith,
    ground arith,
    ground arith,
  )
  | inr half ↦ (
    free / 2,
    free - free / 2,
    rw half refl,
    omega arith,
    omega arith,
    ground arith,
    omega arith,
    omega arith,
  )
]

palloc_init-eq :
    (m : Memory) (kernel_words user_words : List ℕ) (n limit : ℕ)
    → 258 ≤ n
    → n < 2 ^ 18
    → palloc_init m kernel_words user_words n limit
      ≡ init_pools m kernel_words user_words 3222274048 (split_pages (n - 256) limit)
unfolding palloc_init
palloc_init-eq m kernel_words user_words n limit more less =
    let ram : ltb (n * pgsize % 2 ^ 32) 3221225472 ≡ true = ground arith in
    let between : pages_between 3222274048 ((n * pgsize % 2 ^ 32 + 3221225472) % 2 ^ 32) ≡ n - 256 =
      ground arith in
    rw (palloc_init, ram, between) refl

init_pools-eq :
    (m : Memory) (kernel_words user_words : List ℕ) (start kernel user : ℕ) (k u : Pool)
    → init_pool kernel_words start kernel ≡ some k
    → init_pool user_words ((start + kernel * pgsize) % 2 ^ 32) user ≡ some u
    → init_pools m kernel_words user_words start (kernel, user)
      ≡ some (record { kernel_pool = k; user_pool = u; memory = m })
unfolding init_pools
init_pools-eq m kernel_words user_words start kernel user k u ek eu = rw (init_pools, ek, eu) refl

init_pools-Fresh :
    (m : Memory) (kernel_words user_words : List ℕ) (kernel user : ℕ)
    → 0 < kernel
    → 0 < user
    → 3222274048 + pgsize * (kernel + user) < 2 ^ 32
    → elem_cnt kernel ≤ length kernel_words
    → elem_cnt user ≤ length user_words
    → (s : Pools) × (init_pools m kernel_words user_words 3222274048 (kernel, user) ≡ some s)
      × IsPools s
      × Fresh 3222274048 kernel s.kernel_pool
      × Fresh (3222274048 + pgsize * kernel) user s.user_pool
      × (s.memory ≡ m)
init_pools-Fresh m kernel_words user_words kernel user k0 u0 fits kernel_fits user_fits =
    let (k, ek, fk) =
      init_pool-Fresh kernel_words 3222274048 kernel refl (omega arith) (omega arith) k0
        kernel_fits in
    let (u, eu, fu) =
      init_pool-Fresh user_words (3222274048 + pgsize * kernel) user (omega arith) (omega arith)
        (omega arith) u0 user_fits in
    let behind : 3222274048 + pgsize * kernel ≡ (3222274048 + kernel * pgsize) % 2 ^ 32 =
      omega arith in
    (
      record { kernel_pool = k; user_pool = u; memory = m },
      init_pools-eq m kernel_words user_words 3222274048 kernel user k u ek
          (subst (λ a. init_pool user_words a user ≡ some u) behind eu),
      record { kernel = fk.pool; user = fu.pool; apart = omega (arith, fk.filled, fu.behind) },
      fk,
      fu,
      refl,
    )

-- The pools that palloc_init makes with `n` pages of memory: they share the memory behind the first
-- megabyte, the users' pool is the smaller one and keeps to its limit, and no page is in use.
pub record Started (m : Memory) (n limit : ℕ) (s : Pools) : Type 0 where
  pub pools : IsPools s
  pub user : ℕ
  pub kernel : ℕ
  pub shared : kernel + user ≡ n - 256
  pub limited : user ≤ limit
  pub smaller : user ≤ kernel
  pub kernel_pool : Fresh 3222274048 kernel s.kernel_pool
  pub user_pool : Fresh (3222274048 + pgsize * kernel) user s.user_pool
  pub memory : s.memory ≡ m

-- With at least 258 pages of memory and less than a gigabyte, and a limit that is not 0, palloc_init
-- does not panic, where the memory behind the bitmaps' structs has a word for each 32 pages. The
-- pools are well-formed, they share all pages behind the first megabyte, the users' pool is not larger
-- than the kernel's or than the limit, and all pages behind the bitmaps are free.
pub palloc_init-Started :
    (m : Memory) (kernel_words user_words : List ℕ) (n limit : ℕ)
    → 258 ≤ n
    → n < 2 ^ 18
    → 0 < limit
    → elem_cnt n ≤ length kernel_words
    → elem_cnt n ≤ length user_words
    → (s : Pools) × (palloc_init m kernel_words user_words n limit ≡ some s) × Started m n limit s
palloc_init-Started m kernel_words user_words n limit more less some_pages kernel_fits user_fits =
    let (user, kernel, split, u0, k0, limited, smaller, total) =
      split_sizes (n - 256) limit (omega arith) some_pages in
    let (s, e, pools, fk, fu, same) =
      init_pools-Fresh m kernel_words user_words kernel user k0 u0 (omega arith) (omega arith)
        (omega arith) in
    (
      s,
      palloc_init-eq m kernel_words user_words n limit more less
          ∙ (λ j. init_pools m kernel_words user_words 3222274048 (split j))
          ∙ e,
      record {
        pools = pools;
        user = user;
        kernel = kernel;
        shared = total;
        limited = limited;
        smaller = smaller;
        kernel_pool = fk;
        user_pool = fu;
        memory = same;
      },
    )
