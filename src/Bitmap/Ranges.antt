-- ===== src/Bitmap/Ranges.antt =====
-- Ranges of bits, and the search for a group of bits.
use calendarizador.Prelude.{
  ℕ, zero, suc, ◌+◌, ◌-◌, ◌≤◌, ◌<◌, ◌≡◌, ◌⊎◌, refl, ◌∙◌, Bool, true, false, not, ◌&&◌, Option, some,
  ltb, leb, ◌==◌, arith, if◌then◌else◌, length, Bool-cases, inl, inr,
}
use mathlib.Core.Path.{subst}
use calendarizador.Bitmap.{
  Bitmap, bitmap_error, in_range, same_bit, set_each, bitmap_set_multiple, contains_each,
  bitmap_contains, scan_from, bitmap_scan, bitmap_scan_and_flip,
}
use calendarizador.Bitmap.Bits.{IsBitmap, test_bit, bitmap_test-eq, bitmap_set-Changed}

-- Whether bit `j` is one of the `cnt` bits from `start`.
abbrev pub is_within : ℕ → ℕ → ℕ → Bool
is_within start cnt j = leb start j && ltb j (start + cnt)

-- `b'` is `b` with the bits of the range set to `v`.
pub record RangeSet (b : Bitmap) (start cnt : ℕ) (v : Bool) (b' : Bitmap) : Type 0 where
  pub same_cnt : b'.bit_cnt ≡ b.bit_cnt
  pub same_len : length b'.bits ≡ length b.bits
  pub bits : (j : ℕ) → test_bit b' j ≡ (if is_within start cnt j then v else test_bit b j)

set_each-RangeSet :
    (b : Bitmap) (start cnt : ℕ) (v : Bool)
    → IsBitmap b
    → start + cnt ≤ b.bit_cnt
    → (b' : Bitmap) × (set_each b start cnt v ≡ some b') × RangeSet b start cnt v b'
unfolding set_each
set_each-RangeSet b start zero v wf inside =
    (b, refl, record { same_cnt = refl; same_len = refl; bits = λ j. ground arith })
set_each-RangeSet b start (suc cnt) v wf inside =
    let (b1, e1, c1) = bitmap_set-Changed b start wf (omega arith) v in
    let wf1 : IsBitmap b1 = (rw (c1.same_cnt, c1.same_len) wf.0, rw c1.same_cnt wf.1) in
    let fits : suc start + cnt ≤ b1.bit_cnt = rw c1.same_cnt (omega arith) in
    let (b2, e2, c2) = set_each-RangeSet b1 (suc start) cnt v wf1 fits in
    (
      b2,
      rw (set_each, e1) e2,
      record {
        same_cnt = c2.same_cnt ∙ c1.same_cnt;
        same_len = c2.same_len ∙ c1.same_len;
        bits = λ j. ground (arith, c1.bits j, c2.bits j);
      },
    )

-- On a range inside of the bitmap, bitmap_set_multiple sets the bits of the range and no others.
pub bitmap_set_multiple-RangeSet :
    (b : Bitmap) (start cnt : ℕ) (v : Bool)
    → IsBitmap b
    → start + cnt ≤ b.bit_cnt
    → (b' : Bitmap) × (bitmap_set_multiple b start cnt v ≡ some b') × RangeSet b start cnt v b'
unfolding bitmap_set_multiple
bitmap_set_multiple-RangeSet b start cnt v wf inside =
    let (b', e, c) = set_each-RangeSet b start cnt v wf inside in
    let ok : in_range b start cnt ≡ true = ground arith in (b', rw ok e, c)

-- All bits of the range have value `v`.
abbrev pub AllBits : Bitmap → ℕ → ℕ → Bool → Type 0
AllBits b start cnt v = (j : ℕ) → (is_within start cnt j ≡ false) ⊎ (test_bit b j ≡ v)

-- Some bit of the range has value `v`.
abbrev pub SomeBit : Bitmap → ℕ → ℕ → Bool → Type 0
SomeBit b start cnt v = (j : ℕ) × (is_within start cnt j ≡ true) × (test_bit b j ≡ v)

contains_each-cases :
    (b : Bitmap) (start cnt : ℕ) (v : Bool)
    → IsBitmap b
    → start + cnt ≤ b.bit_cnt
    → (contains_each b start cnt v ≡ some true) × SomeBit b start cnt v
      ⊎ (contains_each b start cnt v ≡ some false) × AllBits b start cnt (not v)
unfolding contains_each
contains_each-cases b start zero v wf inside = inr (refl, λ j. ground arith)
contains_each-cases b start (suc cnt) v wf inside =
    let t = bitmap_test-eq b start wf (omega arith) in
    elim (Bool-cases (same_bit (test_bit b start) v)) [
      | inl found ↦ inl (rw (contains_each, t, found) refl, (start, ground arith, ground arith))
      | inr differs ↦ elim (contains_each-cases b (suc start) cnt v wf (omega arith)) [
        | inl (e, (j, within, bit)) ↦ inl (rw (contains_each, t, differs) e, (j, ground arith, bit))
        | inr (e, others) ↦ inr (rw (contains_each, t, differs) e, λ j. ground (arith, others j))
      ]
    ]

-- What holds from `i` on, with `i` itself counted.
from_next {ℓ} : (P S : ℕ → Type ℓ) (i j : ℕ) → S i → (j < suc i) ⊎ P j ⊎ S j → (j < i) ⊎ P j ⊎ S j
from_next P S i j s (inl h) = elim (Bool-cases (j == i)) [
  | inl same ↦ let e : i ≡ j = ground arith in inr (inr (subst S e s))
  | inr ne ↦ inl (ground arith)
]
from_next P S i j s (inr h) = inr h

module _ (b : Bitmap) (wf : IsBitmap b) where
  -- On a range inside of the bitmap, bitmap_contains tells whether a bit of the range has the value.
  pub bitmap_contains-cases :
      (start cnt : ℕ) (v : Bool)
      → start + cnt ≤ b.bit_cnt
      → (bitmap_contains b start cnt v ≡ some true) × SomeBit b start cnt v
        ⊎ (bitmap_contains b start cnt v ≡ some false) × AllBits b start cnt (not v)
  unfolding bitmap_contains
  bitmap_contains-cases start cnt v inside =
      let ok : in_range b start cnt ≡ true = ground arith in
      elim (contains_each-cases b start cnt v wf inside) [
        | inl (e, s) ↦ inl (rw ok e, s)
        | inr (e, a) ↦ inr (rw ok e, a)
      ]

  -- The first group of `cnt` bits with value `v` at or behind `start` begins at `i`.
  abbrev pub IsFirstGroup : ℕ → ℕ → Bool → ℕ → Type 0
  IsFirstGroup start cnt v i =
      (start ≤ i)
      × (i + cnt ≤ b.bit_cnt)
      × AllBits b i cnt v
      × ((j : ℕ) → (j < start) ⊎ (i ≤ j) ⊎ SomeBit b j cnt (not v))

  -- There is no such group.
  abbrev pub NoGroup : ℕ → ℕ → Bool → Type 0
  NoGroup start cnt v = (j : ℕ) → (j < start) ⊎ (b.bit_cnt < j + cnt) ⊎ SomeBit b j cnt (not v)

  abbrev pub ScanResult : ℕ → ℕ → Bool → Option ℕ → Type 0
  ScanResult start cnt v r =
      ((i : ℕ) × (r ≡ some i) × IsFirstGroup start cnt v i)
      ⊎ (r ≡ some bitmap_error) × NoGroup start cnt v

  scan_from-cases :
      (i n cnt : ℕ) (v : Bool)
      → (n ≡ suc b.bit_cnt - cnt - i)
      → cnt ≤ b.bit_cnt
      → ScanResult i cnt v (scan_from b i n cnt v)
  unfolding scan_from
  scan_from-cases i zero cnt v left fits = inr (refl, λ j. ground arith)
  scan_from-cases i (suc n) cnt v left fits =
      elim (bitmap_contains-cases i cnt (not v) (omega arith)) [
        | inr (e, a) ↦ inl (
          i,
          rw (scan_from, e) refl,
          (omega arith, omega arith, λ j. ground (arith, a j), λ j. ground arith),
        )
        | inl (e, s) ↦ elim (scan_from-cases (suc i) n cnt v (omega arith) fits) [
          | inl (i', e', (le, fits', all, before)) ↦ inl (
            i',
            rw (scan_from, e) e',
            (
              omega arith,
              fits',
              all,
              λ j. from_next (λ j. i' ≤ j) (λ j. SomeBit b j cnt (not v)) i j s (before j),
            ),
          )
          | inr (e', none_behind) ↦ inr (
            rw (scan_from, e) e',
            λ j.
                from_next (λ j. b.bit_cnt < j + cnt) (λ j. SomeBit b j cnt (not v)) i j s
                  (none_behind j),
          )
        ]
      ]

  -- From a start inside of the bitmap, bitmap_scan gives the beginning of the first group of `cnt`
  -- bits with the value that begins there or behind it, or BITMAP_ERROR, and then there is none.
  pub bitmap_scan-ScanResult :
      (start cnt : ℕ) (v : Bool)
      → start ≤ b.bit_cnt
      → ScanResult start cnt v (bitmap_scan b start cnt v)
  unfolding bitmap_scan
  bitmap_scan-ScanResult start cnt v inside =
      let ok : leb start b.bit_cnt ≡ true = ground arith in
      elim (Bool-cases (leb cnt b.bit_cnt)) [
        | inl fits ↦ subst (ScanResult start cnt v) (rw (bitmap_scan, ok, fits) refl) (
            scan_from-cases start (suc (b.bit_cnt - cnt) - start) cnt v (ground arith)
              (ground arith))
        | inr large ↦ inr (rw (bitmap_scan, ok, large) refl, λ j. ground arith)
      ]

  -- What bitmap_scan_and_flip gives: the group, now with the other value, or BITMAP_ERROR and the
  -- bitmap as it was.
  abbrev pub FlipResult : ℕ → ℕ → Bool → Option (ℕ × Bitmap) → Type 0
  FlipResult start cnt v r =
      ((i : ℕ) × (b' : Bitmap) × (r ≡ some (i, b'))
        × IsFirstGroup start cnt v i
        × RangeSet b i cnt (not v) b')
      ⊎ (r ≡ some (bitmap_error, b)) × NoGroup start cnt v

  -- From a start inside of the bitmap, bitmap_scan_and_flip finds the first group of bits with the
  -- value, negates its bits and no others, and gives its beginning; if there is none it gives
  -- BITMAP_ERROR and changes nothing.
  pub bitmap_scan_and_flip-FlipResult :
      (start cnt : ℕ) (v : Bool)
      → start ≤ b.bit_cnt
      → FlipResult start cnt v (bitmap_scan_and_flip b start cnt v)
  unfolding bitmap_scan_and_flip
  bitmap_scan_and_flip-FlipResult start cnt v inside =
      elim (bitmap_scan-ScanResult start cnt v inside) [
        | inl (i, e, group) ↦
            let found : (i == bitmap_error) ≡ false = ground (arith, wf) in
            let (b', set, c) = bitmap_set_multiple-RangeSet b i cnt (not v) wf group.1 in
            inl (i, b', rw (bitmap_scan_and_flip, e, found, set) refl, group, c)
        | inr (e, none_there) ↦ inr (rw (bitmap_scan_and_flip, e) refl, none_there)
      ]
