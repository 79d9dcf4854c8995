-- ===== src/LinkedList/Links/Segment.antt =====
-- Chains of elements that point at each other.
use calendarizador.Prelude.{
  ℕ, ◌≡◌, inl, inr, refl, ◌∙◌, true, false, ◌||◌, List, [], ◌∷◌, ◌++◌, ◌==◌, arith, has, Distinct,
  Bool-cases,
}
use calendarizador.LinkedList.Links.{Links, tail_of}

-- From `p` the elements `xs` follow each other up to `q`, and back.
abbrev pub Segment : Links → ℕ → List ℕ → ℕ → Type 0
Segment m p [] q = (m.next p ≡ q) × (m.prev q ≡ p)
Segment m p (x ∷ xs) q = (m.next p ≡ x) × (m.prev x ≡ p) × Segment m x xs q

-- The first of `xs`, or `q`.
abbrev pub first_of : List ℕ → ℕ → ℕ
first_of [] q = q
first_of (x ∷ xs) q = x

abbrev pub last_of : ℕ → List ℕ → ℕ
last_of p [] = p
last_of p (x ∷ xs) = last_of x xs

-- What follows the first of `xs`; nothing if there is none.
abbrev pub Follows : Links → List ℕ → ℕ → Type 0
Follows m [] q = Unit
Follows m (x ∷ xs) q = Segment m x xs q

pub Segment-split :
    (m : Links) (p : ℕ) (xs ys : List ℕ) (q : ℕ)
    → Segment m p (xs ++ ys) q
    → Segment m p xs (first_of ys q) × Follows m ys q
Segment-split m p [] [] q h = (h, tt)
Segment-split m p [] (y ∷ ys) q (n, b, rest) = ((n, b), rest)
Segment-split m p (x ∷ xs) ys q (n, b, rest) =
    let (front, back) = Segment-split m x xs ys q rest in ((n, b, front), back)

pub Segment-join :
    (m : Links) (p : ℕ) (xs ys : List ℕ) (q : ℕ)
    → Segment m p xs (first_of ys q)
    → Follows m ys q
    → Segment m p (xs ++ ys) q
Segment-join m p [] [] q h f = h
Segment-join m p [] (y ∷ ys) q (n, b) f = (n, b, f)
Segment-join m p (x ∷ xs) ys q (n, b, rest) f = (n, b, Segment-join m x xs ys q rest f)

pub Segment-prev :
    (m : Links) (p : ℕ) (xs : List ℕ) (q : ℕ) → Segment m p xs q → m.prev q ≡ last_of p xs
Segment-prev m p [] q (n, b) = b
Segment-prev m p (x ∷ xs) q (n, b, rest) = Segment-prev m x xs q rest

pub has-last_of : (p : ℕ) (xs : List ℕ) → has (last_of p xs) (p ∷ xs) ≡ true
has-last_of p [] = ground arith
has-last_of p (x ∷ xs) = ground (arith, has-last_of x xs)

pub Segment-next :
    (m : Links) (p : ℕ) (xs : List ℕ) (q : ℕ) → Segment m p xs q → m.next p ≡ first_of xs q
Segment-next m p [] q (n, b) = n
Segment-next m p (x ∷ xs) q (n, b, rest) = n

-- A chain stays where the pointers along it stay.
pub Segment-kept :
    (m m' : Links) (p : ℕ) (xs : List ℕ) (q : ℕ)
    → ((a : ℕ) → has a (p ∷ xs) ≡ true → m'.next a ≡ m.next a)
    → ((a : ℕ) → has a (xs ++ q ∷ []) ≡ true → m'.prev a ≡ m.prev a)
    → Segment m p xs q
    → Segment m' p xs q
Segment-kept m m' p [] q next prev (n, b) = (next p (ground arith) ∙ n, prev q (ground arith) ∙ b)
Segment-kept m m' p (x ∷ xs) q next prev (n, b, rest) = (
  next p (ground arith) ∙ n,
  prev x (ground arith) ∙ b,
  Segment-kept m m' x xs q (λ a h. next a (ground arith)) (λ a h. prev a (ground arith)) rest,
)

-- The list at `l` has the elements `xs`: no element is there twice, none is NULL, and the head and the
-- tail have no pointers outwards.
pub record IsLinked (m : Links) (l : ℕ) (xs : List ℕ) : Type 0 where
  pub chain : Segment m l xs (tail_of l)
  pub distinct : Distinct (l ∷ xs ++ tail_of l ∷ [])
  pub real : has 0 (l ∷ xs ++ tail_of l ∷ []) ≡ false
  pub head_end : m.prev l ≡ 0
  pub tail_end : m.next (tail_of l) ≡ 0

pub has-append : (a : ℕ) (xs ys : List ℕ) → has a (xs ++ ys) ≡ (has a xs || has a ys)
has-append a [] ys = refl
has-append a (x ∷ xs) ys = ground (arith, has-append a xs ys)

-- Elements of the two parts of a list without repetition differ.
pub Distinct-apart :
    (xs ys : List ℕ) → Distinct (xs ++ ys) → (a : ℕ) → has a xs ≡ true → has a ys ≡ false
Distinct-apart [] ys d a h = absurd (ground arith)
Distinct-apart (x ∷ xs) ys (new, d) a h = elim (Bool-cases (a == x)) [
  | inl here ↦ ground (arith, has-append x xs ys)
  | inr other ↦ Distinct-apart xs ys d a (ground arith)
]

pub Distinct-front : (xs ys : List ℕ) → Distinct (xs ++ ys) → Distinct xs
Distinct-front [] ys d = tt
Distinct-front (x ∷ xs) ys (new, d) = (ground (arith, has-append x xs ys), Distinct-front xs ys d)

pub Distinct-back : (xs ys : List ℕ) → Distinct (xs ++ ys) → Distinct ys
Distinct-back [] ys d = d
Distinct-back (x ∷ xs) ys (new, d) = Distinct-back xs ys d

-- A new element between two parts.
pub Distinct-insert :
    (xs ys : List ℕ) (e : ℕ)
    → Distinct (xs ++ ys)
    → has e (xs ++ ys) ≡ false
    → Distinct (xs ++ e ∷ ys)
Distinct-insert [] ys e d new = (new, d)
Distinct-insert (x ∷ xs) ys e (first, d) new = (
  ground (arith, has-append x xs ys, has-append x xs (e ∷ ys)),
  Distinct-insert xs ys e d (ground arith),
)

pub Distinct-remove : (xs ys : List ℕ) (e : ℕ) → Distinct (xs ++ e ∷ ys) → Distinct (xs ++ ys)
Distinct-remove [] ys e (new, d) = d
Distinct-remove (x ∷ xs) ys e (first, d) =
    (ground (arith, has-append x xs ys, has-append x xs (e ∷ ys)), Distinct-remove xs ys e d)
