-- ===== src/Random.antt =====
-- pintos/src/lib/random.c: the RC4 generator. Its array gives each byte a byte; random_bytes writes to a
-- memory. The bytes of the seed are those of a little-endian machine.
pub mod Bytes
use calendarizador.Prelude.{ℕ, zero, suc, ◌+◌, ◌*◌, ◌/◌, ◌%◌, ◌^◌, Bool, true, false, if◌then◌else◌}
use calendarizador.Memory.{Memory, put}

pub record Random : Type 0 where
  pub s : ℕ → ℕ
  pub s_i : ℕ
  pub s_j : ℕ
  pub inited : Bool

abbrev pub swap_byte : (ℕ → ℕ) → ℕ → ℕ → ℕ → ℕ
swap_byte s a b = put (put s a (s b)) b (s a)

abbrev pub seed_byte : ℕ → ℕ → ℕ
seed_byte seed i = seed / 2 ^ (8 * i) % 2 ^ 8

-- The second loop of random_init from `i`, with `n` rounds to go.
unfoldable pub mix : ℕ → (ℕ → ℕ) → ℕ → ℕ → ℕ → ℕ → ℕ
mix seed s i j zero = s
mix seed s i j (suc n) =
    let j' = (j + (s i + seed_byte seed (i % 4))) % 2 ^ 8 in
    mix seed (swap_byte s i j') (suc i) j' n

unfoldable pub random_init : ℕ → Random
random_init seed = record { s = mix seed (λ i. i) 0 0 256; s_i = 0; s_j = 0; inited = true }

-- One round of the loop of random_bytes, and the byte that it gives.
unfoldable pub next_byte : Random → ℕ × Random
next_byte r =
    let i = (r.s_i + 1) % 2 ^ 8 in
    let j = (r.s_j + r.s i) % 2 ^ 8 in
    let s' = swap_byte r.s i j in
    (s' ((s' i + s' j) % 2 ^ 8), record r { s = s'; s_i = i; s_j = j })

unfoldable pub write_bytes : Random → Memory → ℕ → ℕ → Memory × Random
write_bytes r m buf zero = (m, r)
write_bytes r m buf (suc size) =
    write_bytes (next_byte r).1 (put m buf (next_byte r).0) (suc buf) size

unfoldable pub random_bytes : Random → Memory → ℕ → ℕ → Memory × Random
random_bytes r m buf size = write_bytes (if r.inited then r else random_init 0) m buf size

-- random_ulong, whose variable is the four bytes at 0.
unfoldable pub random_ulong : Random → ℕ × Random
random_ulong r =
    let (m, r') = random_bytes r (λ a. 0) 0 4 in
    (m 0 + 2 ^ 8 * m 1 + 2 ^ 16 * m 2 + 2 ^ 24 * m 3, r')
