-- ===== src/Memory/Move.antt =====
-- Copies between blocks that may overlap.
use calendarizador.Prelude.{
  ℕ, zero, suc, ◌+◌, ◌-◌, ◌≤◌, ◌<◌, ◌≡◌, ◌⊎◌, inl, inr, refl, ◌∙◌, Bool, true, ◌&&◌, some, ltb, leb,
  arith, if◌then◌else◌, Bool-cases,
}
use calendarizador.Memory.{Memory, put, usable, copy_up, copy_down, memcpy, memmove}

-- Whether `a` is one of the `size` addresses from `p`.
abbrev pub is_inside : ℕ → ℕ → ℕ → Bool
is_inside p size a = leb p a && ltb a (p + size)

-- `m'` is `m` with the `size` bytes from `dst` as they were from `src`.
abbrev pub Copied : Memory → ℕ → ℕ → ℕ → Memory → Type 0
Copied m dst src size m' =
    (a : ℕ) → m' a ≡ (if is_inside dst size a then m (src + (a - dst)) else m a)

pub copy_up-Copied :
    (m : Memory) (dst src size : ℕ)
    → (dst ≤ src) ⊎ (src + size ≤ dst)
    → Copied m dst src size (copy_up m dst src size).1
unfolding copy_up
copy_up-Copied m dst src zero apart a = ground arith
copy_up-Copied m dst src (suc size) apart a =
    let rest = copy_up-Copied (put m dst (m src)) (suc dst) (suc src) size (ground arith) a in
    rest ∙ grind arith

copy_down-Copied :
    (m : Memory) (dst src size : ℕ)
    → src ≤ dst
    → Copied m dst src size (copy_down m (dst + size) (src + size) size).1
unfolding copy_down
copy_down-Copied m dst src zero le a = ground arith
copy_down-Copied m dst src (suc size) le a =
    let rest = copy_down-Copied (put m (dst + size) (m (src + size))) dst src size le a in
    let d : dst + suc size - 1 ≡ dst + size = omega arith in
    let e : src + suc size - 1 ≡ src + size = omega arith in
    (λ i. (copy_down (put m (d i) (m (e i))) (d i) (e i) size).1 a) ∙ rest ∙ grind arith

copy_up-end : (m : Memory) (dst src size : ℕ) → (copy_up m dst src size).0 ≡ dst + size
unfolding copy_up
copy_up-end m dst src zero = omega arith
copy_up-end m dst src (suc size) =
    copy_up-end (put m dst (m src)) (suc dst) (suc src) size ∙ omega arith

copy_down-end : (m : Memory) (dst src size : ℕ) → (copy_down m (dst + size) src size).0 ≡ dst
unfolding copy_down
copy_down-end m dst src zero = omega arith
copy_down-end m dst src (suc size) =
    let d : dst + suc size - 1 ≡ dst + size = omega arith in
    (λ i. (copy_down (put m (d i) (m (src - 1))) (d i) (src - 1) size).0)
    ∙ copy_down-end (put m (dst + size) (m (src - 1))) dst (src - 1) size

-- With pointers that are not null, memmove copies the block whether or not the two overlap: each byte
-- of the destination is then the byte that the source had before, and no other byte changes. The
-- pointer that it returns is the destination only where the destination is not below the source;
-- otherwise it is the end of the destination.
pub memmove-Copied :
    (m : Memory) (dst src size : ℕ)
    → 0 < dst
    → 0 < src
    → (m' : Memory) × (memmove m dst src size ≡ some (if ltb dst src then dst + size else dst, m'))
      × Copied m dst src size m'
unfolding memmove
memmove-Copied m dst src size hd hs =
    let ud : usable dst size ≡ true = ground arith in
    let us : usable src size ≡ true = ground arith in
    elim (Bool-cases (ltb dst src)) [
      | inl up ↦ (
        (copy_up m dst src size).1,
        rw (ud, us, up) (λ i. some (copy_up-end m dst src size i, (copy_up m dst src size).1)),
        copy_up-Copied m dst src size (ground arith),
      )
      | inr down ↦
          let end = src + size in
          (
            (copy_down m (dst + size) end size).1,
            rw (ud, us, down)
                (λ i. some (copy_down-end m dst end size i, (copy_down m (dst + size) end size).1)),
            copy_down-Copied m dst src size (ground arith),
          )
    ]

-- memcpy copies a block that does not overlap its source.
pub memcpy-Copied :
    (m : Memory) (dst src size : ℕ)
    → 0 < dst
    → 0 < src
    → (dst ≤ src) ⊎ (src + size ≤ dst)
    → (m' : Memory) × (memcpy m dst src size ≡ some (dst, m')) × Copied m dst src size m'
unfolding memcpy
memcpy-Copied m dst src size hd hs apart =
    let ud : usable dst size ≡ true = ground arith in
    let us : usable src size ≡ true = ground arith in
    ((copy_up m dst src size).1, rw (ud, us) refl, copy_up-Copied m dst src size apart)
