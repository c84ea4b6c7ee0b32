-- ===== src/Notify/Rows.antt =====
-- Rows of a table, taken one by one: updates by a condition, and which identifiers are where.
use gopnique.Base.{
  ℕ, zero, suc, ◌≡◌, refl, sym, ◌∙◌, ap, Bool, true, false, ◌||◌, List, [], ◌∷◌, take, length,
  arith, Bool-cases, inl, inr, ltb, if◌then◌else◌,
}
use gopnique.Base.Text.{Text, text_eq}
use gopnique.Base.Text.Laws.{text_eq→eq}
use gopnique.Notify.Outbox.{Intent, update_where, select, elem, ids, insert_by, sort_by}

-- The two lists are as long, and `R` holds at each place.
pub data All2 {ℓ} {A : Type 0} (R : A → A → Type ℓ) : List A → List A → Type ℓ where
  none_left : All2 R [] []
  both : {x y : A} {xs ys : List A} → R x y → All2 R xs ys → All2 R (x ∷ xs) (y ∷ ys)

module _ {ℓ κ} {A : Type 0} {R : A → A → Type ℓ} {Q : A → A → Type κ} where
  pub All2-map : {xs ys : List A} → ((x y : A) → R x y → Q x y) → All2 R xs ys → All2 Q xs ys
  All2-map f none_left = none_left
  All2-map f (both {x} {y} h hs) = both (f x y h) (All2-map f hs)

  pub All2-update_where :
      {xs ys : List A} (test : A → Bool) (change : A → A)
      → ((x y : A) → R x y → Q x (if test y then change y else y))
      → All2 R xs ys
      → All2 Q xs (update_where test change ys)
  unfolding update_where
  All2-update_where test change f none_left = none_left
  All2-update_where test change f (both {x} {y} h hs) =
      both (f x y h) (All2-update_where test change f hs)

pub update_where-All2 {ℓ} :
    {A : Type 0} {R : A → A → Type ℓ} (test : A → Bool) (change : A → A) (xs : List A)
    → ((x : A) → R x (if test x then change x else x))
    → All2 R xs (update_where test change xs)
unfolding update_where
update_where-All2 test change [] f = none_left
update_where-All2 test change (x ∷ xs) f = both (f x) (update_where-All2 test change xs f)

-- an update that keeps the identifiers
pub ids-update_where :
    (test : Intent → Bool) (change : Intent → Intent) (rows : List Intent)
    → ((r : Intent) → (change r).id_ ≡ r.id_)
    → ids (update_where test change rows) ≡ ids rows
unfolding update_where
ids-update_where test change [] same = refl
ids-update_where test change (r ∷ rows) same = elim (Bool-cases (test r)) [
  | inl e ↦ rw e (cc (same r, ids-update_where test change rows same))
  | inr e ↦ rw e (ap (λ l. r.id_ ∷ l) (ids-update_where test change rows same))
]

pub elem-insert_by :
    (key : Intent → ℕ) (x : Text) (r : Intent) (rows : List Intent)
    → elem x (ids (insert_by key r rows)) ≡ text_eq x r.id_ || elem x (ids rows)
unfolding elem insert_by
elem-insert_by key x r [] = refl
elem-insert_by key x r (q ∷ rows) = elim (Bool-cases (ltb (key r) (key q))) [
  | inl e ↦ rw e (
      rw (elem-insert_by key x r rows)
        (or_swap (text_eq x q.id_) (text_eq x r.id_) (elem x (ids rows))))
  | inr e ↦ rw e refl
]
  where
    or_swap : (a b c : Bool) → a || (b || c) ≡ b || (a || c)
    or_swap true true c = refl
    or_swap true false c = refl
    or_swap false b c = refl

-- Sorting keeps the identifiers.
pub elem-sort_by :
    (key : Intent → ℕ) (x : Text) (rows : List Intent)
    → elem x (ids (sort_by key rows)) ≡ elem x (ids rows)
unfolding elem sort_by
elem-sort_by key x [] = refl
elem-sort_by key x (r ∷ rows) =
    elem-insert_by key x r (sort_by key rows)
    ∙ ap (λ b. text_eq x r.id_ || b) (elem-sort_by key x rows)

length-insert_by :
    (key : Intent → ℕ) (r : Intent) (rows : List Intent)
    → length (insert_by key r rows) ≡ suc (length rows)
unfolding insert_by
length-insert_by key r [] = refl
length-insert_by key r (q ∷ rows) = ground (arith, length-insert_by key r rows)

pub length-sort_by :
    (key : Intent → ℕ) (rows : List Intent) → length (sort_by key rows) ≡ length rows
unfolding sort_by
length-sort_by key [] = refl
length-sort_by key (r ∷ rows) =
    length-insert_by key r (sort_by key rows) ∙ ap suc (length-sort_by key rows)

module _ (x : Text) where
  elem-head :
      (r : Intent) (rows : List Intent) (wanted : List Text)
      → text_eq x r.id_ ≡ true
      → elem r.id_ wanted ≡ elem x wanted
  elem-head r rows wanted e = ap (λ y. elem y wanted) (sym (text_eq→eq x r.id_ e))

  pub elem-select_not :
      (test : Intent → Bool) (rows : List Intent)
      → elem x (ids rows) ≡ false
      → elem x (ids (select test rows)) ≡ false
  unfolding elem select
  elem-select_not test [] h = refl
  elem-select_not test (r ∷ rows) h = ground (arith, elem-select_not test rows)

  pub elem-take_not :
      (n : ℕ) (rows : List Intent) → elem x (ids rows) ≡ false → elem x (ids (take n rows)) ≡ false
  unfolding elem
  elem-take_not zero rows h = refl
  elem-take_not (suc n) [] h = refl
  elem-take_not (suc n) (r ∷ rows) h = ground (arith, elem-take_not n rows)

  -- What a query gives are rows of the table.
  pub elem-query :
      (test : Intent → Bool) (n : ℕ) (rows : List Intent)
      → elem x (ids (take n (select test rows))) ≡ true
      → elem x (ids rows) ≡ true
  elem-query test n rows h = elim (Bool-cases (elem x (ids rows))) [
    | inl e ↦ e
    | inr e ↦ absurd (cc (h, elem-take_not n (select test rows) (elem-select_not test rows e)))
  ]

  elem-wanted_not :
      (wanted : List Text) (rows : List Intent)
      → elem x wanted ≡ false
      → elem x (ids (select (λ r. elem r.id_ wanted) rows)) ≡ false
  unfolding elem select
  elem-wanted_not wanted [] h = refl
  elem-wanted_not wanted (r ∷ rows) h = elim (Bool-cases (elem r.id_ wanted)) [
    | inl e ↦ rw e (elim (Bool-cases (text_eq x r.id_)) [
      | inl same ↦ absurd (cc (e, elem-head r rows wanted same))
      | inr other ↦ rw other (elem-wanted_not wanted rows h)
    ])
    | inr e ↦ rw e (elem-wanted_not wanted rows h)
  ]

  elem-wanted :
      (wanted : List Text) (rows : List Intent)
      → elem x wanted ≡ true
      → elem x (ids rows) ≡ true
      → elem x (ids (select (λ r. elem r.id_ wanted) rows)) ≡ true
  unfolding elem select
  elem-wanted wanted [] h g = cc
  elem-wanted wanted (r ∷ rows) h g = elim (Bool-cases (text_eq x r.id_)) [
    | inl same ↦ rw (elem-head r rows wanted same ∙ h) (rw same refl)
    | inr other ↦ elim (Bool-cases (elem r.id_ wanted)) [
      | inl e ↦ rw e (rw other (elem-wanted wanted rows h (rw other at g)))
      | inr e ↦ rw e (elem-wanted wanted rows h (rw other at g))
    ]
  ]

  -- The rows found by their identifiers, where the table has them all.
  pub elem-select_wanted :
      (wanted : List Text) (rows : List Intent)
      → (elem x wanted ≡ true → elem x (ids rows) ≡ true)
      → elem x (ids (select (λ r. elem r.id_ wanted) rows)) ≡ elem x wanted
  elem-select_wanted wanted rows known = elim (Bool-cases (elem x wanted)) [
    | inl e ↦ elem-wanted wanted rows e (known e) ∙ sym e
    | inr e ↦ elem-wanted_not wanted rows e ∙ sym e
  ]
