-- ===== src/Bitmap/Bits.antt =====
-- The bits of a bitmap, whatever words they lie in: what the operations on single bits do.
use Prim.Native.Nat.{bit_and, bit_or, bit_xor, differ}
use native.Mathlib.Nat.{pow-le-pow_right}
use calendarizador.Prelude.{
  ℕ, zero, suc, ◌-◌, ◌/◌, ◌%◌, ◌^◌, ◌≤◌, ◌<◌, ◌≡◌, refl, sym, ◌∙◌, Bool, true, false, not, Option,
  none, some, List, [], ◌∷◌, ltb, ◌==◌, arith, if◌then◌else◌, length, set, get_elem?, length-set,
  get_elem?-set_self, get_elem?-set_ne, Bool-cases, inl, inr,
}
use calendarizador.Bitmap.{
  Bitmap, elem_idx, bit_mask, elem_cnt, on_elem, bitmap_mark, bitmap_reset, bitmap_flip, bitmap_set,
  bitmap_test,
}
use calendarizador.Bitmap.Digits.{
  digit, digit-lt, digit-bit_and, digit-bit_or, digit-bit_xor, digit-mask, digit-complement,
  bit_and-mask,
}

-- The array has a word for each bit in use.
abbrev pub IsBitmap : Bitmap → Type 0
IsBitmap b = (elem_cnt b.bit_cnt ≤ length b.bits) × (b.bit_cnt < 2 ^ 31)

abbrev pub digit_of : Option ℕ → ℕ → Bool
digit_of none i = false
digit_of (some w) i = digit w i == 1

abbrev pub test_bit : Bitmap → ℕ → Bool
test_bit b i = digit_of (get_elem? b.bits (elem_idx i)) (i % 32)

-- `b'` is `b` with bit `idx` set to `v`.
pub record Changed (b : Bitmap) (idx : ℕ) (v : Bool) (b' : Bitmap) : Type 0 where
  pub same_cnt : b'.bit_cnt ≡ b.bit_cnt
  pub same_len : length b'.bits ≡ length b.bits
  pub bits : (j : ℕ) → test_bit b' j ≡ (if idx == j then v else test_bit b j)

get_elem?-some : (xs : List ℕ) (i : ℕ) → i < length xs → (w : ℕ) × (get_elem? xs i ≡ some w)
get_elem?-some [] i h = absurd (omega arith)
get_elem?-some (x ∷ xs) zero h = (x, refl)
get_elem?-some (x ∷ xs) (suc i) h = get_elem?-some xs i (omega arith)

pow-pos : (j : ℕ) → 0 < 2 ^ j
pow-pos zero = omega arith
pow-pos (suc j) = omega (arith, pow-pos j)

mask_lt : (j : ℕ) → j < 32 → 2 ^ j < 2 ^ 32
mask_lt j h =
    let le : 2 ^ j ≤ 2 ^ 31 =
      pow-le-pow_right {n = 2} (omega arith) {i = j} {j = 31} (omega arith) in
    omega arith

flip_digit : (d : ℕ) → d < 2 → (differ d 1 == 1) ≡ not (d == 1)
flip_digit zero h = refl
flip_digit (suc zero) h = refl
flip_digit (suc (suc d)) h = absurd (omega arith)

differ_zero : (d : ℕ) → differ d 0 ≡ d
differ_zero zero = refl
differ_zero (suc d) = refl

-- The test of a masked word.
masked_test : (w j : ℕ) → not (bit_and w (2 ^ j) == 0) ≡ (digit w j == 1)
masked_test w j =
    let d = digit-lt w j in
    let p = pow-pos j in
    rw (bit_and-mask w j) (elim (Bool-cases (digit w j == 1)) [
      | inl one ↦ let e : digit w j ≡ 1 = ground arith in rw e (ground arith)
      | inr not_one ↦ let e : digit w j ≡ 0 = ground arith in rw e (ground arith)
    ])

mod_of_div : (i j : ℕ) → i / 32 ≡ j / 32 → (i % 32 == j % 32) ≡ (i == j)
mod_of_div i j h = ground arith

module _ (b : Bitmap) (idx : ℕ) (wf : IsBitmap b) (inside : idx < b.bit_cnt) where
  word : (w : ℕ) × (get_elem? b.bits (elem_idx idx) ≡ some w)
  word = get_elem?-some b.bits (elem_idx idx) (omega arith)

  pub bitmap_test-eq : bitmap_test b idx ≡ some (test_bit b idx)
  unfolding bitmap_test
  bitmap_test-eq =
      let (w, e) = word in
      let here : ltb idx b.bit_cnt ≡ true = ground arith in
      let tested : bitmap_test b idx ≡ some (digit w (idx % 32) == 1) =
        rw (here, e) (λ i. some (masked_test w (idx % 32) i)) in
      tested ∙ (λ i. some (digit_of (sym e i) (idx % 32)))

  -- An operation on the word of the bit that changes no other bit of the word.
  on_elem-Changed :
      (f : ℕ → ℕ) (v : Bool) (w : ℕ)
      → get_elem? b.bits (elem_idx idx) ≡ some w
      → ((i : ℕ) → i < 32 → (digit (f w) i == 1) ≡ (if idx % 32 == i then v else digit w i == 1))
      → (b' : Bitmap) × (on_elem f b (elem_idx idx) ≡ some b') × Changed b idx v b'
  on_elem-Changed f v w e one = (
    record b { bits = set b.bits (elem_idx idx) (f w) },
    rw (on_elem, e) refl,
    record {
      same_cnt = refl;
      same_len = length-set b.bits (elem_idx idx) (f w);
      bits = λ j. elim (Bool-cases (elem_idx idx == elem_idx j)) [
        | inl same ↦
            let q : elem_idx idx ≡ elem_idx j = ground arith in
            let was : get_elem? b.bits (elem_idx j) ≡ some w = rw (← q) e in
            let is : get_elem? (set b.bits (elem_idx idx) (f w)) (elem_idx j) ≡ some (f w) =
              rw (← q) (get_elem?-set_self b.bits (elem_idx idx) (f w) (omega arith)) in
            let new : (digit (f w) (j % 32) == 1)
                ≡ (if idx == j then v else digit w (j % 32) == 1) =
              rw (← mod_of_div idx j q) (one (j % 32) (omega arith)) in
            (λ i. digit_of (is i) (j % 32))
            ∙ new
            ∙ (λ i. if idx == j then v else digit_of (sym was i) (j % 32))
        | inr other ↦
            let kept : get_elem? (set b.bits (elem_idx idx) (f w)) (elem_idx j)
                ≡ get_elem? b.bits (elem_idx j) =
              get_elem?-set_ne b.bits (f w) (λ q. ground arith) in
            let ne : (idx == j) ≡ false = ground arith in rw ne (λ i. digit_of (kept i) (j % 32))
      ];
    },
  )

  marks :
      (w i : ℕ)
      → i < 32
      → (digit (bit_or w (bit_mask idx)) i == 1) ≡ (if idx % 32 == i then true else digit w i == 1)
  marks w i h =
      rw (digit-bit_or w (bit_mask idx) i, digit-mask (idx % 32) i) (ground (arith, digit-lt w i))

  resets :
      (w i : ℕ)
      → i < 32
      → (digit (bit_and w (2 ^ 32 - 1 - bit_mask idx)) i == 1)
        ≡ (if idx % 32 == i then false else digit w i == 1)
  resets w i h =
      let fits : bit_mask idx < 2 ^ 32 = mask_lt (idx % 32) (omega arith) in
      rw
        (
          digit-bit_and w (2 ^ 32 - 1 - bit_mask idx) i,
          digit-complement 32 (bit_mask idx) i fits h,
          digit-mask (idx % 32) i,
        )
        (ground (arith, digit-lt w i))

  -- bitmap_set with an index below the size sets that bit to the value, and no other.
  pub bitmap_set-Changed :
      (value : Bool) → (b' : Bitmap) × (bitmap_set b idx value ≡ some b') × Changed b idx value b'
  unfolding bitmap_set bitmap_mark bitmap_reset
  bitmap_set-Changed true =
      let (w, e) = word in
      let (b', run, c) = on_elem-Changed (λ w. bit_or w (bit_mask idx)) true w e (marks w) in
      let here : ltb idx b.bit_cnt ≡ true = ground arith in (b', rw here run, c)
  bitmap_set-Changed false =
      let (w, e) = word in
      let (b', run, c) =
        on_elem-Changed (λ w. bit_and w (2 ^ 32 - 1 - bit_mask idx)) false w e (resets w) in
      let here : ltb idx b.bit_cnt ≡ true = ground arith in (b', rw here run, c)

  flips :
      (w i : ℕ)
      → get_elem? b.bits (elem_idx idx) ≡ some w
      → (digit (bit_xor w (bit_mask idx)) i == 1)
        ≡ (if idx % 32 == i then not (test_bit b idx) else digit w i == 1)
  flips w i e =
      rw (digit-bit_xor w (bit_mask idx) i, digit-mask (idx % 32) i)
        (elim (Bool-cases (idx % 32 == i)) [
          | inl same ↦
              let q : idx % 32 ≡ i = ground arith in
              let t : test_bit b idx ≡ (digit w i == 1) =
                (λ j. digit_of (e j) (idx % 32)) ∙ (λ j. digit w (q j) == 1) in
              rw (same, t) (flip_digit (digit w i) (digit-lt w i))
          | inr other ↦ rw other (λ j. differ_zero (digit w i) j == 1)
        ])

  -- bitmap_flip with an index below the size negates that bit, and no other.
  pub bitmap_flip-Changed :
      (b' : Bitmap) × (bitmap_flip b idx ≡ some b') × Changed b idx (not (test_bit b idx)) b'
  unfolding bitmap_flip
  bitmap_flip-Changed =
      let (w, e) = word in
      on_elem-Changed (λ w. bit_xor w (bit_mask idx)) (not (test_bit b idx)) w e
        (λ i h. flips w i e)
