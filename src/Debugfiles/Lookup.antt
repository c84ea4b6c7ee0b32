-- ===== src/Debugfiles/Lookup.antt =====
-- The function that an offset resolves to.
use gopnique.Base.{
  ℕ, ◌+◌, ◌≤◌, ◌<◌, ◌≡◌, ◌⊎◌, inl, inr, refl, ap, arith, true, false, List, [], ◌∷◌, ◌++◌, none,
  some, Bool-cases, All,
}
use gopnique.Debugfiles.Breakpad.{BreakpadFunction, contains, lookup}

-- The half-open range of a function; a function of size 0 is its address alone.
abbrev pub Covers : BreakpadFunction → ℕ → Type 0
Covers f offset =
    (f.address ≤ offset) × ((offset < f.address + f.size) ⊎ ((f.size ≡ 0) × (offset ≡ f.address)))

contains→Covers : (f : BreakpadFunction) (offset : ℕ) → contains f offset ≡ true → Covers f offset
unfolding contains
contains→Covers f offset h = ground arith

Covers-false : (f : BreakpadFunction) (offset : ℕ) → contains f offset ≡ false → ¬ (Covers f offset)
unfolding contains
Covers-false f offset h c = ground arith

-- The lookup gives the name of the first function of the file whose range holds the offset, and
-- nothing if no range does.
pub lookup_first :
    (fs : List BreakpadFunction) (offset : ℕ)
    → ((lookup fs offset ≡ none) × All (λ f. ¬ (Covers f offset)) fs)
      ⊎ ((f : BreakpadFunction) × (before : List BreakpadFunction) × (after : List BreakpadFunction)
          × (lookup fs offset ≡ some f.name)
          × (fs ≡ before ++ f ∷ after)
          × Covers f offset
          × All (λ g. ¬ (Covers g offset)) before)
unfolding lookup
lookup_first [] offset = inl (refl, tt)
lookup_first (g ∷ fs) offset = elim (Bool-cases (contains g offset)) [
  | inl e ↦ inr (g, [], fs, rw e refl, refl, contains→Covers g offset e, tt)
  | inr e ↦ elim (lookup_first fs offset) [
    | inl (h, away) ↦ inl (rw e h, (Covers-false g offset e, away))
    | inr (f, before, after, h, splits, covers, away) ↦ inr (
      f,
      g ∷ before,
      after,
      rw e h,
      ap (λ t. g ∷ t) splits,
      covers,
      (Covers-false g offset e, away),
    )
  ]
]
