-- ===== src/CString/Token.antt =====
-- The tokens of a string.
use calendarizador.Prelude.{
  ℕ, zero, suc, ◌+◌, ◌<◌, ◌≡◌, ◌≢◌, ◌⊎◌, inl, inr, refl, ap, ◌∙◌, true, false, Option, none, some,
  List, [], ◌∷◌, ◌++◌, ◌==◌, arith, length, has, All, Bool-cases,
}
use calendarizador.Memory.{Memory, put}
use calendarizador.CString.{Saved, end_token, skip_delimiters, strtok_r, start_of, occurs}
use calendarizador.CString.Spell.{Spells, IsBytes, hits, occurs-hits}

-- At most one delimiter, and none only at the end of the string.
abbrev pub IsStop : List ℕ → List ℕ → List ℕ → Type 0
IsStop ds stop after = (stop ≡ []) × (after ≡ []) ⊎ ((c : ℕ) × (stop ≡ c ∷ []) × (has c ds ≡ true))

-- From `s` the string `xs` begins with a word free of delimiters; it is cut off there, and the
-- tokenizer goes on behind the delimiter that ended it.
record EndsAt (m : Memory) (s : ℕ) (ds xs : List ℕ) (v : Saved) : Type 0 where
  word : List ℕ
  stop : List ℕ
  after : List ℕ
  split : xs ≡ word ++ stop ++ after
  clean : All (λ c. has c ds ≡ false) word
  ends : IsStop ds stop after
  reads : Spells v.memory s word
  goes_on : Spells v.memory v.save_ptr after
  others : (a : ℕ) → a ≢ s + length word → v.memory a ≡ m a

EndsAt-cons :
    {m : Memory} {s : ℕ} {ds xs : List ℕ} {v : Saved} (x : ℕ)
    → m s ≡ x
    → 0 < x
    → has x ds ≡ false
    → EndsAt m (suc s) ds xs v
    → EndsAt m s ds (x ∷ xs) v
EndsAt-cons {m = m} {s = s} x at nonzero outside t = record {
  word = x ∷ t.word;
  stop = t.stop;
  after = t.after;
  split = ap (λ ys. x ∷ ys) t.split;
  clean = (outside, t.clean);
  ends = t.ends;
  reads = (t.others s (λ e. omega arith) ∙ at, nonzero, t.reads);
  goes_on = t.goes_on;
  others = λ a ne. t.others a (λ e. ne (omega arith));
}

-- Behind a written null byte a string is as it was.
Spells-put :
    (m : Memory) (p q v : ℕ) (xs : List ℕ) → q < p → Spells m p xs → Spells (put m q v) p xs
Spells-put m p q v [] lt h = ground arith
Spells-put m p q v (x ∷ xs) lt (e, nonzero, rest) =
    (ground arith, nonzero, Spells-put m (suc p) q v xs (omega arith) rest)

module _ (m : Memory) (bytes : IsBytes m) (d : ℕ) (ds : List ℕ) (hd : 0 < d)
    (hds : Spells m d ds) where
  end_token-EndsAt :
      (fuel token s : ℕ) (xs : List ℕ)
      → Spells m s xs
      → length xs + length ds < fuel
      → (v : Saved) × (end_token fuel m d token s ≡ some (some token, v)) × EndsAt m s ds xs v
  unfolding end_token
  end_token-EndsAt zero token s xs h enough = elim enough [ ]
  end_token-EndsAt (suc fuel) token s [] h enough =
      let at_end : hits (m s) ds ≡ true = ground arith in
      let o : occurs (suc fuel) m d (m s) ≡ some true =
        occurs-hits (suc fuel) m d (m s) ds hd hds (omega arith) (bytes s) ∙ ap some at_end in
      (
        record { save_ptr = s; memory = m },
        let null : (m s == 0) ≡ true = ground arith in rw (end_token, o, null) refl,
        record {
          word = [];
          stop = [];
          after = [];
          split = refl;
          clean = tt;
          ends = inl (refl, refl);
          reads = h;
          goes_on = h;
          others = λ a ne. refl;
        },
      )
  end_token-EndsAt (suc fuel) token s (x ∷ xs) (e, nonzero, rest) enough =
      let o = occurs-hits (suc fuel) m d (m s) ds hd hds (omega arith) (bytes s) in
      elim (Bool-cases (has x ds)) [
        | inl delimiter ↦
            let found : hits (m s) ds ≡ true = ground arith in
            let inner : (m s == 0) ≡ false = ground arith in
            (
              record { save_ptr = suc s; memory = put m s 0 },
              rw (end_token, o, found, inner) refl,
              record {
                word = [];
                stop = x ∷ [];
                after = xs;
                split = refl;
                clean = tt;
                ends = inr (x, refl, delimiter);
                reads = ground arith;
                goes_on = Spells-put m (suc s) s 0 xs (omega arith) rest;
                others = λ a ne. ground arith;
              },
            )
        | inr outside ↦
            let missed : hits (m s) ds ≡ false = ground arith in
            let (v, run, t) = end_token-EndsAt fuel token (suc s) xs rest (omega arith) in
            (v, rw (end_token, o, missed) run, EndsAt-cons x e nonzero outside t)
      ]

-- The string is a run of delimiters, the token, at most one delimiter that ends the token, and what is
-- left; the token and what is left are then strings of their own.
pub record IsToken (m : Memory) (s : ℕ) (ds xs : List ℕ) (token : ℕ) (v : Saved) : Type 0 where
  pub before : List ℕ
  pub word : List ℕ
  pub stop : List ℕ
  pub after : List ℕ
  pub split : xs ≡ before ++ word ++ stop ++ after
  pub skipped : All (λ c. has c ds ≡ true) before
  pub clean : All (λ c. has c ds ≡ false) word
  pub nonempty : 0 < length word
  pub ends : IsStop ds stop after
  pub at : token ≡ s + length before
  pub reads : Spells v.memory token word
  pub goes_on : Spells v.memory v.save_ptr after
  pub others : (a : ℕ) → a ≢ token + length word → v.memory a ≡ m a

IsToken-cons :
    {m : Memory} {s : ℕ} {ds xs : List ℕ} {token : ℕ} {v : Saved} (x : ℕ)
    → has x ds ≡ true
    → IsToken m (suc s) ds xs token v
    → IsToken m s ds (x ∷ xs) token v
IsToken-cons x delimiter t = record {
  before = x ∷ t.before;
  word = t.word;
  stop = t.stop;
  after = t.after;
  split = ap (λ ys. x ∷ ys) t.split;
  skipped = (delimiter, t.skipped);
  clean = t.clean;
  nonempty = t.nonempty;
  ends = t.ends;
  at = t.at ∙ omega arith;
  reads = t.reads;
  goes_on = t.goes_on;
  others = t.others;
}

-- The token begins at once with a character outside of the delimiters.
IsToken-first :
    {m : Memory} {s : ℕ} {ds xs : List ℕ} {v : Saved} (x : ℕ)
    → m s ≡ x
    → 0 < x
    → has x ds ≡ false
    → EndsAt m (suc s) ds xs v
    → IsToken m s ds (x ∷ xs) s v
IsToken-first {m = m} {s = s} x at nonzero outside t = record {
  before = [];
  word = x ∷ t.word;
  stop = t.stop;
  after = t.after;
  split = ap (λ ys. x ∷ ys) t.split;
  skipped = tt;
  clean = (outside, t.clean);
  nonempty = omega arith;
  ends = t.ends;
  at = omega arith;
  reads = (t.others s (λ e. omega arith) ∙ at, nonzero, t.reads);
  goes_on = t.goes_on;
  others = λ a ne. t.others a (λ e. ne (omega arith));
}

-- What strtok_r gives: a token, or a null pointer where the string has delimiters only.
abbrev pub Tokenized : Memory → ℕ → List ℕ → List ℕ → Option (Option ℕ × Saved) → Type 0
Tokenized m s ds xs r =
    ((token : ℕ) × (v : Saved) × (r ≡ some (some token, v)) × IsToken m s ds xs token v)
    ⊎ (r ≡ some (none, record { save_ptr = s + length xs; memory = m }))
      × All (λ c. has c ds ≡ true) xs

module _ (m : Memory) (bytes : IsBytes m) (d : ℕ) (ds : List ℕ) (hd : 0 < d)
    (hds : Spells m d ds) where
  skip_delimiters-Tokenized :
      (fuel s : ℕ) (xs : List ℕ)
      → Spells m s xs
      → length xs + length ds < fuel
      → Tokenized m s ds xs (skip_delimiters fuel m d s)
  unfolding skip_delimiters end_token
  skip_delimiters-Tokenized zero s xs h enough = elim enough [ ]
  skip_delimiters-Tokenized (suc fuel) s [] h enough =
      let at_end : hits (m s) ds ≡ true = ground arith in
      let o : occurs (suc fuel) m d (m s) ≡ some true =
        occurs-hits (suc fuel) m d (m s) ds hd hds (omega arith) (bytes s) ∙ ap some at_end in
      let e : s ≡ s + 0 = omega arith in
      let null : (m s == 0) ≡ true = ground arith in
      inr (
        rw (skip_delimiters, o, null) (λ i. some (none, record { save_ptr = e i; memory = m })),
        tt,
      )
  skip_delimiters-Tokenized (suc fuel) s (x ∷ xs) (e, nonzero, rest) enough =
      let o = occurs-hits (suc fuel) m d (m s) ds hd hds (omega arith) (bytes s) in
      elim (Bool-cases (has x ds)) [
        | inl delimiter ↦
            let found : hits (m s) ds ≡ true = ground arith in
            let inner : (m s == 0) ≡ false = ground arith in
            let plus : suc s + length xs ≡ s + suc (length xs) = omega arith in
            elim (skip_delimiters-Tokenized fuel (suc s) xs rest (omega arith)) [
              | inl (token, v, run, t) ↦
                  inl (
                    token,
                    v,
                    rw (skip_delimiters, o, found, inner) run,
                    IsToken-cons x delimiter t,
                  )
              | inr (run, all) ↦ inr (
                rw (skip_delimiters, o, found, inner)
                    (run ∙ (λ i. some (none, record { save_ptr = plus i; memory = m }))),
                (delimiter, all),
              )
            ]
        | inr outside ↦
            let missed : hits (m s) ds ≡ false = ground arith in
            let (v, run, t) =
              end_token-EndsAt m bytes d ds hd hds fuel s (suc s) xs rest (omega arith) in
            (inl (
              s,
              v,
              rw (skip_delimiters, o, missed, end_token, o, missed) run,
              IsToken-first x e nonzero outside t,
            ))
      ]

  -- In a memory of bytes where the delimiters and the text are strings with pointers that are not
  -- null, and with fuel beyond the length of both, strtok_r ends, whether the text is an argument or
  -- the saved position. If the text has delimiters only it gives a null pointer and changes nothing.
  -- Otherwise it gives the token: the text behind its leading delimiters, not empty, without
  -- delimiters, up to the next delimiter or the end. That delimiter, if any, becomes a null byte, no
  -- other byte changes, and the saved position is a string again, of what is left of the text.
  pub strtok_r-Tokenized :
      (fuel : ℕ) (s : Option ℕ) (save_ptr : ℕ) (xs : List ℕ)
      → 0 < start_of s save_ptr
      → Spells m (start_of s save_ptr) xs
      → length xs + length ds < fuel
      → Tokenized m (start_of s save_ptr) ds xs (strtok_r fuel m s d save_ptr)
  unfolding strtok_r
  strtok_r-Tokenized fuel s save_ptr xs hs h enough =
      let okd : (d == 0) ≡ false = ground arith in
      let oks : (start_of s save_ptr == 0) ≡ false = ground arith in
      rw (okd, oks) (skip_delimiters-Tokenized fuel (start_of s save_ptr) xs h enough)
