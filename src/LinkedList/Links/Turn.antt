-- ===== src/LinkedList/Links/Turn.antt =====
-- The loop of list_reverse, which turns the pointers of each element, and lists turned around.
use calendarizador.Prelude.{
  ℕ, zero, suc, ◌<◌, ◌≡◌, refl, ◌∙◌, true, false, some, List, [], ◌∷◌, ◌++◌, ◌==◌, ◌||◌, arith, has,
  length, Distinct, differs,
}
use calendarizador.LinkedList.Links.{Links, set_next, set_prev, tail_of, turn_from}
use calendarizador.LinkedList.Links.Segment.{Segment, first_of, Segment-next}

-- The pointers of the elements `xs` alone, between `p` and `q`; and the same turned around.
abbrev pub Chain : Links → ℕ → List ℕ → ℕ → Type 0
Chain m p [] q = Unit {0}
Chain m p (x ∷ xs) q = (m.prev x ≡ p) × (m.next x ≡ first_of xs q) × Chain m x xs q

abbrev pub Turned : Links → ℕ → List ℕ → ℕ → Type 0
Turned m p [] q = Unit {0}
Turned m p (x ∷ xs) q = (m.next x ≡ p) × (m.prev x ≡ first_of xs q) × Turned m x xs q

pub Segment-Chain : (m : Links) (p : ℕ) (xs : List ℕ) (q : ℕ) → Segment m p xs q → Chain m p xs q
Segment-Chain m p [] q h = tt
Segment-Chain m p (x ∷ xs) q (n, b, rest) =
    (b, Segment-next m x xs q rest, Segment-Chain m x xs q rest)

Chain-kept :
    (m : Links) (e v w p : ℕ) (xs : List ℕ) (q : ℕ)
    → has e xs ≡ false
    → Chain m p xs q
    → Chain (set_next (set_prev m e v) e w) p xs q
Chain-kept m e v w p [] q new h = tt
Chain-kept m e v w p (x ∷ xs) q new (b, n, rest) =
    let other : (x == e) ≡ false = ground arith in
    (rw other b, rw other n, Chain-kept m e v w x xs q (ground arith) rest)

-- What the loop of list_reverse makes of the pointers.
pub record Looped (m : Links) (p : ℕ) (xs : List ℕ) (q : ℕ) (m' : Links) : Type 0 where
  pub turned : Turned m' p xs q
  pub next : (a : ℕ) → has a xs ≡ false → m'.next a ≡ m.next a
  pub prev : (a : ℕ) → has a xs ≡ false → m'.prev a ≡ m.prev a

pub turn_from-Looped :
    (fuel : ℕ) (m : Links) (l p : ℕ) (xs : List ℕ)
    → Chain m p xs (tail_of l)
    → Distinct xs
    → has (tail_of l) xs ≡ false
    → length xs < fuel
    → (m' : Links) × (turn_from fuel m l (first_of xs (tail_of l)) ≡ some m')
      × Looped m p xs (tail_of l) m'
unfolding turn_from
turn_from-Looped zero m l p xs chain d new enough = absurd (omega arith)
turn_from-Looped (suc fuel) m l p [] chain d new enough =
    let here : (tail_of l == tail_of l) ≡ true = ground arith in
    (m, rw here refl, record { turned = tt; next = λ a h. refl; prev = λ a h. refl })
turn_from-Looped (suc fuel) m l p (x ∷ xs) (b, n, chain) (first, d) new enough =
    let m1 = set_next (set_prev m x (m.next x)) x (m.prev x) in
    let go_on : (x == tail_of l) ≡ false = ground arith in
    let (m', e, r) =
      turn_from-Looped fuel m1 l x xs
        (Chain-kept m x (m.next x) (m.prev x) x xs (tail_of l) first chain) d (ground arith)
        (omega arith) in
    let at_x : (x == x) ≡ true = ground arith in
    (
      m',
      rw go_on ((λ k. turn_from fuel m1 l (n k)) ∙ e),
      record {
        turned = (r.next x first ∙ rw at_x b, r.prev x first ∙ rw at_x n, r.turned);
        next = λ a h.
            let other : (a == x) ≡ false = ground arith in r.next a (ground arith) ∙ rw other refl;
        prev = λ a h.
            let other : (a == x) ≡ false = ground arith in r.prev a (ground arith) ∙ rw other refl;
      },
    )

-- `xs` turned around, before `acc`.
abbrev pub reverse_onto : List ℕ → List ℕ → List ℕ
reverse_onto [] acc = acc
reverse_onto (x ∷ xs) acc = reverse_onto xs (x ∷ acc)

-- A chain, read from its end.
abbrev pub Back : Links → ℕ → List ℕ → ℕ → Type 0
Back m p [] q = (m.next q ≡ p) × (m.prev p ≡ q)
Back m p (x ∷ xs) q = (m.next x ≡ p) × (m.prev p ≡ x) × Back m x xs q

pub Back-Segment :
    (m : Links) (p : ℕ) (xs acc : List ℕ) (q t : ℕ)
    → Back m p xs q
    → Segment m p acc t
    → Segment m q (reverse_onto xs (p ∷ acc)) t
Back-Segment m p [] acc q t (n, b) h = (n, b, h)
Back-Segment m p (x ∷ xs) acc q t (n, b, rest) h = Back-Segment m x xs (p ∷ acc) q t rest (n, b, h)

pub has-reverse_onto :
    (a : ℕ) (xs acc : List ℕ) → has a (reverse_onto xs acc) ≡ (has a xs || has a acc)
has-reverse_onto a [] acc = refl
has-reverse_onto a (x ∷ xs) acc = ground (arith, has-reverse_onto a xs (x ∷ acc))

pub Distinct-reverse_onto :
    (xs acc : List ℕ)
    → Distinct xs
    → Distinct acc
    → ((a : ℕ) → has a xs ≡ true → has a acc ≡ false)
    → Distinct (reverse_onto xs acc)
Distinct-reverse_onto [] acc d d' apart = d'
Distinct-reverse_onto (x ∷ xs) acc (new, d) d' apart =
    Distinct-reverse_onto xs (x ∷ acc) d (apart x (ground arith), d')
      (λ a h. let other = differs a x xs h new in ground (arith, apart a))

pub reverse_onto-append :
    (xs acc ys : List ℕ) → reverse_onto xs acc ++ ys ≡ reverse_onto xs (acc ++ ys)
reverse_onto-append [] acc ys = refl
reverse_onto-append (x ∷ xs) acc ys = reverse_onto-append xs (x ∷ acc) ys
