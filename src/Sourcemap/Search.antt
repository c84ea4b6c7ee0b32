-- ===== src/Sourcemap/Search.antt =====
-- `LookupFrame` chooses the last segment at or before the column.
use gopnique.Base.{
  ℕ, zero, suc, ◌+◌, ◌-◌, ◌/◌, ◌≤◌, ◌<◌, ◌≡◌, refl, sym, ◌∙◌, Bool, true, false, List, [], ◌∷◌,
  Option, none, some, arith, ltb, ◌==◌, if◌then◌else◌, length, get_elem?, All, Bool-cases, inl, inr,
}
use gopnique.Base.Int.{ℤ, ltbℤ, ◌≤ℤ◌}
use gopnique.Sourcemap.Mappings.{Segment}
use gopnique.Sourcemap.Lookup.{search_loop, search, is_beyond, choose}

abbrev Splits : (ℕ → Bool) → ℕ → Type 0
Splits f r = ((k : ℕ) → k < r → f k ≡ false) × ((k : ℕ) → r ≤ k → f k ≡ true)

-- What `sort.Search` promises for a test that stays true once it is true.
module _ (f : ℕ → Bool) (keeps : (k m : ℕ) → k ≤ m → f k ≡ true → f m ≡ true) where
  before_false : (h k : ℕ) → f h ≡ false → k < h + 1 → f k ≡ false
  before_false h k e l = elim (Bool-cases (f k)) [
    | inl t ↦ absurd (cc (e, keeps k h (omega arith) t))
    | inr n ↦ n
  ]

  search_loop-Splits :
      (fuel i j : ℕ)
      → j - i < fuel
      → ((k : ℕ) → k < i → f k ≡ false)
      → ((k : ℕ) → j ≤ k → f k ≡ true)
      → Splits f (search_loop fuel i j f)
  unfolding search_loop
  search_loop-Splits zero i j enough low high = absurd (omega arith)
  search_loop-Splits (suc fuel) i j enough low high = elim (Bool-cases (ltb i j)) [
    | inr e ↦ rw e (low, λ k l. high k (ground arith))
    | inl e ↦ elim (Bool-cases (f ((i + j) / 2))) [
      | inl t ↦ rw e (
          rw t (
            search_loop-Splits fuel i ((i + j) / 2) (ground arith) low
              (λ k l. keeps ((i + j) / 2) k l t)))
      | inr n ↦ rw e (
          rw n (
            search_loop-Splits fuel ((i + j) / 2 + 1) j (ground arith)
              (λ k l. before_false ((i + j) / 2) k n l) high))
    ]
  ]

  search-Splits : (n : ℕ) → ((k : ℕ) → n ≤ k → f k ≡ true) → Splits f (search n f)
  unfolding search
  search-Splits n high =
      search_loop-Splits (suc n) 0 n (omega arith) (λ k l. absurd (omega arith)) high

-- Sorted by generated column.
abbrev pub IsSorted : List Segment → Type 0
IsSorted [] = Unit
IsSorted (s ∷ ss) = All (λ t. s.generated_column ≤ℤ t.generated_column) ss × IsSorted ss

-- The last segment of the list whose column is at or before the given one.
abbrev pub last_at_or_before : List Segment → ℤ → Option Segment
last_at_or_before [] column = none
last_at_or_before (s ∷ ss) column = elim (last_at_or_before ss column) [
  | some t ↦ some t
  | none ↦ if ltbℤ column s.generated_column then none else some s
]

All-beyond :
    (s : Segment) (ss : List Segment) (column : ℤ) (m : ℕ)
    → All (λ t. s.generated_column ≤ℤ t.generated_column) ss
    → ltbℤ column s.generated_column ≡ true
    → is_beyond ss column m ≡ true
unfolding is_beyond
All-beyond s [] column m a h = refl
All-beyond s (t ∷ ss) column zero a h = ground arith
All-beyond s (t ∷ ss) column (suc m) a h = All-beyond s ss column m a.1 h

is_beyond_keeps :
    (ss : List Segment) (column : ℤ)
    → IsSorted ss
    → (k m : ℕ) → k ≤ m
    → is_beyond ss column k ≡ true
    → is_beyond ss column m ≡ true
unfolding is_beyond
is_beyond_keeps [] column sorted k m l h = refl
is_beyond_keeps (s ∷ ss) column sorted zero zero l h = h
is_beyond_keeps (s ∷ ss) column sorted zero (suc m) l h = All-beyond s ss column m sorted.0 h
is_beyond_keeps (s ∷ ss) column sorted (suc k) zero l h = absurd (omega arith)
is_beyond_keeps (s ∷ ss) column sorted (suc k) (suc m) l h =
    is_beyond_keeps ss column sorted.1 k m (omega arith) h

abbrev before : List Segment → ℕ → Option Segment
before ss zero = none
before ss (suc r) = get_elem? ss r

inside :
    (ss : List Segment) (column : ℤ) (k : ℕ)
    → is_beyond ss column k ≡ false
    → (s : Segment) × (get_elem? ss k ≡ some s)
unfolding is_beyond
inside [] column k h = cc
inside (s ∷ ss) column zero h = (s, refl)
inside (s ∷ ss) column (suc k) h = inside ss column k h

last-Splits :
    (ss : List Segment) (column : ℤ) (r : ℕ)
    → Splits (is_beyond ss column) r
    → last_at_or_before ss column ≡ before ss r
unfolding is_beyond
last-Splits [] column zero (low, high) = refl
last-Splits [] column (suc r) (low, high) = absurd (cc (low 0 (omega arith)))
last-Splits (s ∷ ss) column zero (low, high) = ground (
  arith,
  high 0,
  last-Splits ss column 0 (λ k l. absurd (omega arith), λ k l. high (suc k) (omega arith)),
)
last-Splits (s ∷ ss) column (suc zero) (low, high) = ground (
  arith,
  low 0 (omega arith),
  last-Splits ss column 0 (λ k l. absurd (omega arith), λ k l. high (suc k) (omega arith)),
)
last-Splits (s ∷ ss) column (suc (suc r)) (low, high) =
    let ih =
      last-Splits ss column (suc r)
        (λ k l. low (suc k) (omega arith), λ k l. high (suc k) (omega arith)) in
    let (t, at) = inside ss column r (low (suc r) (omega arith)) in rw (ih ∙ at) (sym at)

beyond_length :
    (ss : List Segment) (column : ℤ) (k : ℕ) → length ss ≤ k → is_beyond ss column k ≡ true
unfolding is_beyond
beyond_length [] column k h = refl
beyond_length (s ∷ ss) column zero h = absurd (omega arith)
beyond_length (s ∷ ss) column (suc k) h = beyond_length ss column k (omega arith)

choose-before :
    (ss : List Segment) (column : ℤ)
    → choose ss column ≡ before ss (search (length ss) (is_beyond ss column))
unfolding choose
choose-before ss column = go (search (length ss) (is_beyond ss column))
  where
    go : (r : ℕ) → (if r == 0 then none else get_elem? ss (r - 1)) ≡ before ss r
    go zero = refl
    go (suc r) = let e : suc r - 1 ≡ r = omega arith in rw e (ground arith)

-- On a sorted line the binary search of `LookupFrame` finds the last segment at or before the
-- column, and none exactly when every segment lies beyond it.
pub choose-last_at_or_before :
    (ss : List Segment) (column : ℤ) → IsSorted ss → choose ss column ≡ last_at_or_before ss column
choose-last_at_or_before ss column sorted =
    choose-before ss column
    ∙ sym (
        last-Splits ss column _ (
          search-Splits (is_beyond ss column) (is_beyond_keeps ss column sorted) (length ss)
            (beyond_length ss column)))
