-- ===== src/Samples/Library.antt =====
-- The theorems on pintos/src/lib/string.c and stdlib.c at work.
use calendarizador.Prelude.{
  ℕ, ◌≡◌, ◌+◌, ◌*◌, ◌-◌, ◌%◌, ◌∙◌, refl, sym, ap, Bool, true, false, Option, some, List, [], ◌∷◌,
  arith, ltb, length, ◌<◌, ◌==◌, if◌then◌else◌, inl, inr, Bool-cases,
}
use calendarizador.Prelude.Int.{ℤ, pos, negsuc}
use calendarizador.Memory.{Memory, memmove}
use calendarizador.Memory.Move.{Copied, memmove-Copied}
use calendarizador.CString.{strcmp, strtok_r, strlcpy}
use calendarizador.CString.Spell.{IsBytes}
use calendarizador.CString.Compare.{Compared, strcmp-Compared}
use calendarizador.CString.Token.{Tokenized, strtok_r-Tokenized}
use calendarizador.CString.Append.{CopiedWithin, strlcpy-CopiedWithin}
use calendarizador.Hash.{Hash, find_bucket, hash_replace, hash_first, hash_apply}
use calendarizador.Hash.Iterate.{visited, hash_next-visited}
use calendarizador.Hash.Table.{IsHashable, Holds, Found}
use calendarizador.Hash.Access.{replace, set_after, access-Accessed}
use calendarizador.Random.{Random, random_bytes}
use calendarizador.Random.Bytes.{
  IsRandom, IsFilledBuffer, random_bytes-IsFilledBuffer, random_bytes_twice,
}
use calendarizador.Stdlib.Atoi.{atoi}
use calendarizador.Stdlib.Number.{minus, atoi-signed}
use calendarizador.Stdlib.{sort, binary_search}
use calendarizador.Stdlib.Rearranged.{Rearranged}
use calendarizador.Stdlib.Heap.{IsCompare}
use calendarizador.Stdlib.Sort.{IsAscending, sort-IsAscending}
use calendarizador.Stdlib.Search.{IsSearchable, Searched, binary_search-Searched}

-- A memory with these bytes from `p` on, and null bytes elsewhere.
abbrev bytes_at : ℕ → List ℕ → Memory
bytes_at p [] a = 0
bytes_at p (x ∷ xs) a = if a == p then x else bytes_at (p + 1) xs a

-- " ab c" at 10, "ac" at 16, and the delimiters " " at 20.
abbrev texts : Memory
texts = bytes_at 10 (32 ∷ 97 ∷ 98 ∷ 32 ∷ 99 ∷ 0 ∷ 97 ∷ 99 ∷ 0 ∷ 0 ∷ 32 ∷ [])

texts-IsBytes : IsBytes texts
texts-IsBytes a = ground arith

move_example : (m' : Memory) × (memmove texts 11 10 4 ≡ some (11, m')) × Copied texts 11 10 4 m'
move_example = memmove-Copied texts 11 10 4 (omega arith) (omega arith)

compare_example :
    (r : ℤ) × (strcmp 9 texts 16 13 ≡ some r) × Compared (97 ∷ 99 ∷ []) (32 ∷ 99 ∷ []) r
compare_example =
    strcmp-Compared 9 texts 16 13 (97 ∷ 99 ∷ []) (32 ∷ 99 ∷ []) (omega arith) (omega arith)
      (refl, omega arith, (refl, omega arith, refl)) (refl, omega arith, (refl, omega arith, refl))
      (omega arith)

token_example :
    Tokenized texts 10 (32 ∷ []) (32 ∷ 97 ∷ 98 ∷ 32 ∷ 99 ∷ []) (strtok_r 9 texts (some 10) 20 0)
token_example =
    strtok_r-Tokenized texts texts-IsBytes 20 (32 ∷ []) (omega arith) (refl, omega arith, refl) 9
      (some 10) 0 (32 ∷ 97 ∷ 98 ∷ 32 ∷ 99 ∷ []) (omega arith)
      (
        refl,
        omega arith,
        (refl, omega arith, (refl, omega arith, (refl, omega arith, (refl, omega arith, refl)))),
      )
      (omega arith)

copy_example :
    (m' : Memory) × (strlcpy 9 texts 30 16 2 ≡ some (2, m'))
    × CopiedWithin texts 30 2 (97 ∷ 99 ∷ []) m'
copy_example =
    strlcpy-CopiedWithin texts 9 30 16 (omega arith) (omega arith) 2 (97 ∷ 99 ∷ [])
      (refl, omega arith, (refl, omega arith, refl)) (omega arith) (inr (omega arith))

abbrev compare_numbers : ℕ → ℕ → ℤ
compare_numbers x y = if ltb x y then negsuc 0 else if ltb y x then pos 1 else pos 0

compare_numbers-IsCompare : IsCompare compare_numbers
compare_numbers-IsCompare = record {
  flip = λ x y h. ground arith;
  chain = λ x y z h i. ground arith;
}

abbrev falling : ℕ → ℕ
falling k = 9 - k

array_example :
    (b : ℕ → ℕ) × (sort compare_numbers falling 5 ≡ some b)
    × IsAscending compare_numbers b 5
    × Rearranged 5 falling b
array_example = sort-IsAscending compare_numbers-IsCompare falling 5 (omega arith)

abbrev odd : ℕ → ℕ
odd i = 2 * i + 1

odd-IsSearchable : IsSearchable compare_numbers 5 odd 4
odd-IsSearchable i j le lt = ground arith

search_example : Searched compare_numbers 5 odd 4 (binary_search compare_numbers 4 5 odd 4)
search_example = binary_search-Searched compare_numbers 5 odd 3 4 odd-IsSearchable (omega arith)

-- Numbers by their last octal digit, in a table that holds 11.
abbrev octal : ℕ → ℕ
octal x = x % 8

abbrev octal_less : ℕ → ℕ → Bool
octal_less x y = ltb (x % 8) (y % 8)

octal-IsHashable : IsHashable octal octal_less
octal-IsHashable = record {
  itself = λ x. ground arith;
  chain = λ x y z h i. ground arith;
  agree = λ x y h. ground arith;
}

abbrev small_table : Hash
small_table = record { elem_cnt = 1; bucket_cnt = 4; buckets = λ i. if i == 3 then 11 ∷ [] else [] }

abbrev eleven : ℕ → Bool
eleven x = x == 11

eleven_place : find_bucket octal 4 11 ≡ 3
unfolding find_bucket
eleven_place = refl

small_table-Holds : Holds octal octal_less small_table eleven
small_table-Holds = record {
  some_bucket = omega arith;
  placed = λ x i lt. elim (Bool-cases (x == 11)) [
    | inl same ↦
        let p : 11 ≡ x = ground arith in
        let b : 3 ≡ find_bucket octal 4 x = sym eleven_place ∙ ap (find_bucket octal 4) p in
        ground (arith, b)
    | inr other ↦ ground arith
  ];
  counted = refl;
  word = omega arith;
  unique = λ x y hx hy same. ground arith;
}

table_example :
    (old : Option ℕ) × (h' : Hash) × (hash_replace octal octal_less true small_table 19
      ≡ some (old, h'))
    × Found octal-IsHashable eleven 19 old
    × Holds octal octal_less h' (set_after eleven old (replace 19))
table_example = access-Accessed octal-IsHashable small_table-Holds true (omega arith) (replace 19)

apply_length : length (hash_apply small_table) < 5
unfolding hash_apply
apply_length = omega arith

iterate_example : visited 5 small_table (hash_first small_table) ≡ hash_apply small_table
iterate_example = hash_next-visited small_table 5 (omega arith) apply_length

-- The generator before its first use.
abbrev unused_random : Random
unused_random = record { s = λ a. 0; s_i = 0; s_j = 0; inited = false }

generator_example :
    IsRandom (random_bytes unused_random texts 100 4).1
    × IsFilledBuffer texts 100 4 (random_bytes unused_random texts 100 4).0
generator_example = random_bytes-IsFilledBuffer unused_random texts 100 4 (inl refl)

twice_example :
    random_bytes unused_random texts 100 (3 + 4)
    ≡ random_bytes
        (random_bytes unused_random texts 100 3).1
        (random_bytes unused_random texts 100 3).0
        (100 + 3)
        4
twice_example = random_bytes_twice unused_random texts 100 3 4 (inl refl)

-- " -42x" at 10.
abbrev numeral : Memory
numeral = bytes_at 10 (32 ∷ 45 ∷ 52 ∷ 50 ∷ 120 ∷ 0 ∷ [])

numeral_example : atoi 3 numeral 10 ≡ some (negsuc 41)
numeral_example =
    atoi-signed 3 numeral 10 (32 ∷ []) (52 ∷ 50 ∷ []) minus (omega arith) (refl, refl, tt) refl
      (refl, refl, (refl, refl, tt)) refl (omega arith) (omega arith) (omega arith)
