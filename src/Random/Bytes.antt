-- ===== src/Random/Bytes.antt =====
-- The array of the generator stays a permutation of the bytes, and random_bytes fills its buffer.
use calendarizador.Prelude.{
  ◌⊎◌, ℕ, zero, suc, ◌+◌, ◌%◌, ◌^◌, ◌≤◌, ◌<◌, ◌≡◌, refl, sym, ◌∙◌, true, false, if◌then◌else◌, ◌==◌,
  arith, Bool-cases, inl, inr,
}
use mathlib.Core.Path.{subst}
use calendarizador.Memory.{Memory, put}
use calendarizador.Bitmap.Ranges.{is_within}
use calendarizador.Random.{
  Random, swap_byte, seed_byte, mix, random_init, next_byte, write_bytes, random_bytes,
  random_ulong,
}

-- Each byte has one place in the array.
pub record IsPermutation (s : ℕ → ℕ) : Type 0 where
  pub byte : (p : ℕ) → p < 256 → s p < 256
  pub place : (v : ℕ) → v < 256 → (p : ℕ) × (p < 256) × (s p ≡ v)
  pub once : (p q : ℕ) → p < 256 → q < 256 → s p ≡ s q → p ≡ q

swap_place :
    (s : ℕ → ℕ) (a b v p : ℕ)
    → a < 256
    → b < 256
    → p < 256
    → s p ≡ v
    → (q : ℕ) × (q < 256) × (swap_byte s a b q ≡ v)
swap_place s a b v p ha hb hp e = elim (Bool-cases (p == a)) [
  | inl first ↦ let q : p ≡ a = ground arith in (b, hb, ground arith)
  | inr other ↦ elim (Bool-cases (p == b)) [
    | inl second ↦ let q : p ≡ b = ground arith in (a, ha, ground arith)
    | inr third ↦ (p, hp, ground arith)
  ]
]

swap_byte-IsPermutation :
    (s : ℕ → ℕ) (a b : ℕ) → a < 256 → b < 256 → IsPermutation s → IsPermutation (swap_byte s a b)
swap_byte-IsPermutation s a b ha hb wf = record {
  byte = λ p hp. ground (arith, wf.byte a ha, wf.byte b hb, wf.byte p hp);
  place = λ v hv. let (p, hp, e) = wf.place v hv in swap_place s a b v p ha hb hp e;
  once = λ p q hp hq e. ground (
    arith,
    wf.once p q hp hq,
    wf.once p a hp ha,
    wf.once p b hp hb,
    wf.once q a hq ha,
    wf.once q b hq hb,
  );
}

mix-IsPermutation :
    (seed : ℕ) (s : ℕ → ℕ) (i j n : ℕ)
    → i + n ≤ 256
    → IsPermutation s
    → IsPermutation (mix seed s i j n)
unfolding mix
mix-IsPermutation seed s i j zero fits wf = wf
mix-IsPermutation seed s i j (suc n) fits wf =
    let j' = (j + (s i + seed_byte seed (i % 4))) % 2 ^ 8 in
    mix-IsPermutation seed (swap_byte s i j') (suc i) j' n (omega arith)
      (swap_byte-IsPermutation s i j' (omega arith) (omega arith) wf)

-- A generator after random_init.
pub record IsRandom (r : Random) : Type 0 where
  pub permutation : IsPermutation r.s
  pub s_i : r.s_i < 256
  pub s_j : r.s_j < 256
  pub inited : r.inited ≡ true

pub random_init-IsRandom : (seed : ℕ) → IsRandom (random_init seed)
unfolding random_init
random_init-IsRandom seed = record {
  permutation =
      mix-IsPermutation seed (λ i. i) 0 0 256 (omega arith)
        (record { byte = λ p h. h; place = λ v h. (v, h, refl); once = λ p q hp hq e. e });
  s_i = omega arith;
  s_j = omega arith;
  inited = refl;
}

next_byte-IsRandom : (r : Random) → IsRandom r → IsRandom (next_byte r).1 × ((next_byte r).0 < 256)
unfolding next_byte
next_byte-IsRandom r wf =
    let i = (r.s_i + 1) % 2 ^ 8 in
    let j = (r.s_j + r.s i) % 2 ^ 8 in
    let p = swap_byte-IsPermutation r.s i j (omega arith) (omega arith) wf.permutation in
    (
      record { permutation = p; s_i = omega arith; s_j = omega arith; inited = wf.inited },
      p.byte ((swap_byte r.s i j i + swap_byte r.s i j j) % 2 ^ 8) (omega arith),
    )

-- The buffer holds bytes, and the rest of the memory is as before.
abbrev pub IsFilledBuffer : Memory → ℕ → ℕ → Memory → Type 0
IsFilledBuffer m buf size m' =
    ((a : ℕ) → is_within buf size a ≡ true → m' a < 256)
    × ((a : ℕ) → is_within buf size a ≡ false → m' a ≡ m a)

write_bytes-IsFilledBuffer :
    (r : Random) (m : Memory) (buf size : ℕ)
    → IsRandom r
    → IsRandom (write_bytes r m buf size).1 × IsFilledBuffer m buf size (write_bytes r m buf size).0
unfolding write_bytes
write_bytes-IsFilledBuffer r m buf zero wf = (wf, ((λ a h. absurd (ground arith)), λ a h. refl))
write_bytes-IsFilledBuffer r m buf (suc size) wf =
    let (wf1, byte) = next_byte-IsRandom r wf in
    let m1 = put m buf (next_byte r).0 in
    let (wf2, (inside, outside)) =
      write_bytes-IsFilledBuffer (next_byte r).1 m1 (suc buf) size wf1 in
    (
      wf2,
      (
        (λ a h. elim (Bool-cases (a == buf)) [
          | inl first ↦ ground (arith, outside a)
          | inr later ↦ inside a (ground arith)
        ]),
        λ a h. outside a (ground arith) ∙ ground arith,
      ),
    )

-- A generator that random_init has not seen, or one that it has set up.
abbrev pub IsStart : Random → Type 0
IsStart r = (r.inited ≡ false) ⊎ IsRandom r

started-IsRandom : (r : Random) → IsStart r → IsRandom (if r.inited then r else random_init 0)
started-IsRandom r (inl fresh) =
    subst (λ b. IsRandom (if b then r else random_init 0)) (sym fresh) (random_init-IsRandom 0)
started-IsRandom r (inr wf) =
    subst (λ b. IsRandom (if b then r else random_init 0)) (sym wf.inited) wf

-- Whether or not random_init has been called, random_bytes fills its buffer with bytes and writes
-- nowhere else, and leaves a generator that is set up: its array has each byte at one place.
pub random_bytes-IsFilledBuffer :
    (r : Random) (m : Memory) (buf size : ℕ)
    → IsStart r
    → IsRandom (random_bytes r m buf size).1
      × IsFilledBuffer m buf size (random_bytes r m buf size).0
unfolding random_bytes
random_bytes-IsFilledBuffer r m buf size start =
    write_bytes-IsFilledBuffer (if r.inited then r else random_init 0) m buf size
      (started-IsRandom r start)

write_bytes_twice :
    (r : Random) (m : Memory) (buf x y : ℕ)
    → write_bytes r m buf (x + y)
      ≡ write_bytes (write_bytes r m buf x).1 (write_bytes r m buf x).0 (buf + x) y
unfolding write_bytes
write_bytes_twice r m buf zero y =
    let e : 0 + y ≡ y = omega arith in
    let f : buf ≡ buf + 0 = omega arith in λ k. write_bytes r m (f k) (e k)
write_bytes_twice r m buf (suc x) y =
    let r1 = (next_byte r).1 in
    let m1 = put m buf (next_byte r).0 in
    let e : suc x + y ≡ suc (x + y) = omega arith in
    let f : suc buf + x ≡ buf + suc x = omega arith in
    (λ k. write_bytes r m buf (e k))
    ∙ write_bytes_twice r1 m1 (suc buf) x y
    ∙ (λ k. write_bytes (write_bytes r1 m1 (suc buf) x).1 (write_bytes r1 m1 (suc buf) x).0 (f k) y)

-- A request for bytes gives what two requests give that ask for the first and for the other ones.
pub random_bytes_twice :
    (r : Random) (m : Memory) (buf x y : ℕ)
    → IsStart r
    → random_bytes r m buf (x + y)
      ≡ random_bytes (random_bytes r m buf x).1 (random_bytes r m buf x).0 (buf + x) y
unfolding random_bytes
random_bytes_twice r m buf x y start =
    let r0 = if r.inited then r else random_init 0 in
    let r1 = (write_bytes r0 m buf x).1 in
    let m1 = (write_bytes r0 m buf x).0 in
    let wf = (write_bytes-IsFilledBuffer r0 m buf x (started-IsRandom r start)).0 in
    write_bytes_twice r0 m buf x y
    ∙ (λ k. write_bytes (if sym wf.inited k then r1 else random_init 0) m1 (buf + x) y)

-- random_ulong gives a word of 32 bits.
pub random_ulong-lt : (r : Random) → IsStart r → (random_ulong r).0 < 2 ^ 32
unfolding random_ulong
random_ulong-lt r start =
    let (_, (inside, _)) = random_bytes-IsFilledBuffer r (λ a. 0) 0 4 start in
    omega (arith, inside 0 refl, inside 1 refl, inside 2 refl, inside 3 refl)
