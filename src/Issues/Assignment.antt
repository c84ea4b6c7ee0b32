-- ===== src/Issues/Assignment.antt =====
-- `ParseAssignmentTarget` and `Value` are inverse to each other.
use gopnique.Base.{
  ℕ, ◌≡◌, ◌⊎◌, refl, ap, sym, arith, true, false, [], ◌∷◌, ◌++◌, Option, some, Bool-cases,
  Option-cases, inl, inr, is_empty, ◌==◌, ==_iff,
}
use gopnique.Base.Result.{ok}
use gopnique.Base.Text.{Text, text_eq, cut}
use gopnique.Base.Text.Laws.{text_eq→eq}
use gopnique.Issues.Query.{
  AssignmentTarget, target_none, target_operator, target_team, valid_target, target_value,
  checked_target, parse_assignment_target,
}

-- what a cut takes apart
cut-some :
    (sep : ℕ) (s before after : Text) → cut sep s ≡ some (before, after) → s ≡ before ++ sep ∷ after
unfolding cut
cut-some sep [] before after h = cc h
cut-some sep (c ∷ s) before after h = elim (Bool-cases (c == sep)) [
  | inl e ↦
      let same : ◌≡◌ {A = Option (Text × Text)} (some ([], s)) (some (before, after)) =
        rw (e, cut) at h in
      let a : [] ≡ before = ground (arith, same) in
      let b : s ≡ after = ground (arith, same) in
      rw (← a) (rw (← b) (ap (λ d. d ∷ s) ((==_iff c sep).0 e)))
  | inr e ↦ elim (Option-cases (cut sep s)) [
    | inl n ↦ absurd (cc (rw n at (rw (e, cut) at h)))
    | inr ((b, a), n) ↦
        let same : ◌≡◌ {A = Option (Text × Text)} (some (c ∷ b, a)) (some (before, after)) =
          rw n at (rw (e, cut) at h) in
        let p : c ∷ b ≡ before = ground (arith, same) in
        let q : a ≡ after = ground (arith, same) in
        rw (← p) (rw (← q) (ap (λ t. c ∷ t) (cut-some sep s b a n)))
  ]
]

kinds :
    (kind id_ : Text)
    → valid_target kind id_ ≡ true
    → ((kind ≡ target_none) × (id_ ≡ []))
      ⊎ (((kind ≡ target_operator) ⊎ (kind ≡ target_team)) × (is_empty id_ ≡ false))
unfolding valid_target
kinds kind id_ h = elim (Bool-cases (text_eq kind target_none)) [
  | inl e ↦ inl (text_eq→eq kind target_none e, empty id_ (rw e at h))
  | inr e ↦ elim (Bool-cases (text_eq kind target_operator)) [
    | inl o ↦ inr (inl (text_eq→eq kind target_operator o), ground (arith, rw o at (rw e at h)))
    | inr o ↦ elim (Bool-cases (text_eq kind target_team)) [
      | inl t ↦
          inr (inr (text_eq→eq kind target_team t), ground (arith, rw t at (rw o at (rw e at h))))
      | inr t ↦ absurd (cc (rw t at (rw o at (rw e at h))))
    ]
  ]
]
  where
    empty : (s : Text) → is_empty s ≡ true → s ≡ []
    empty [] g = refl
    empty (c ∷ s) g = cc g

value-parsed :
    (kind id_ : Text)
    → valid_target kind id_ ≡ true
    → parse_assignment_target (target_value (record { kind = kind; id_ = id_ }))
      ≡ ok (record { kind = kind; id_ = id_ })
unfolding parse_assignment_target target_value text_eq cut valid_target
value-parsed kind id_ h = elim (kinds kind id_ h) [
  | inl (k, i) ↦ rw k (rw i refl)
  | inr (inl k, e) ↦ rw k (rw e refl)
  | inr (inr k, e) ↦ rw k (rw e refl)
]

-- Every valid target is read back from its text.
pub parse_assignment_target-value :
    (target : AssignmentTarget)
    → valid_target target.kind target.id_ ≡ true
    → parse_assignment_target (target_value target) ≡ ok target
parse_assignment_target-value target h = value-parsed target.kind target.id_ h

not_none :
    {kind id_ : Text}
    → ((kind ≡ target_none) × (id_ ≡ []))
      ⊎ (((kind ≡ target_operator) ⊎ (kind ≡ target_team)) × (is_empty id_ ≡ false))
    → is_empty id_ ≡ false
    → text_eq kind target_none ≡ false
unfolding text_eq
not_none (inl (k, i)) e = cc (i, e)
not_none (inr (inl k, i)) e = rw k refl
not_none (inr (inr k, i)) e = rw k refl

none_value :
    (input : Text)
    → input ≡ target_none
    → (valid_target target_none [] ≡ true)
      × (target_value (record { kind = target_none; id_ = [] }) ≡ input)
unfolding target_value valid_target text_eq
none_value input h = (refl, sym h)

cut-value :
    (input kind id_ : Text) (target : AssignmentTarget)
    → cut b':' input ≡ some (kind, id_)
    → checked_target (some (kind, id_)) ≡ ok target
    → (valid_target target.kind target.id_ ≡ true) × (target_value target ≡ input)
unfolding target_value
cut-value input kind id_ target c h = elim (Bool-cases (is_empty id_)) [
  | inl e ↦ absurd (cc (rw e at h))
  | inr e ↦ elim (Bool-cases (valid_target kind id_)) [
    | inr v ↦ absurd (cc (rw v at (rw e at h)))
    | inl v ↦
        let same : record { kind = kind; id_ = id_ } ≡ target =
          ground (arith, rw v at (rw e at h)) in
        rw (← same) (v, rw (not_none (kinds kind id_ v) e) (sym (cut-some b':' input kind id_ c)))
  ]
]

-- A text that is accepted is the text of the target that it gives, which is valid.
pub parse_assignment_target-ok :
    (input : Text) (target : AssignmentTarget)
    → parse_assignment_target input ≡ ok target
    → (valid_target target.kind target.id_ ≡ true) × (target_value target ≡ input)
unfolding parse_assignment_target
parse_assignment_target-ok input target h = elim (Bool-cases (text_eq input target_none)) [
  | inl e ↦
      let same : record { kind = target_none; id_ = [] } ≡ target = ground (arith, rw e at h) in
      rw (← same) (none_value input (text_eq→eq input target_none e))
  | inr e ↦ elim (Option-cases (cut b':' input)) [
    | inl n ↦ absurd (cc (rw n at (rw e at h)))
    | inr ((kind, id_), n) ↦ cut-value input kind id_ target n (rw n at (rw e at h))
  ]
]
