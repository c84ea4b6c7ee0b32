-- ===== src/Sourcemap/Termination.antt =====
-- The loop of `decodeSegment` ends: its fuel is never used up.
use gopnique.Base.{
  ℕ, zero, suc, ◌+◌, ◌*◌, ◌%◌, ◌^◌, ◌<◌, ◌≡◌, refl, [], ◌∷◌, arith, ltb, leb, length, Bool-cases,
  Option-cases, inl, inr, ◌⊎◌, List, String,
}
use gopnique.Base.Int.{ℤ}
use gopnique.Base.Result.{ok, err, Result-cases}
use gopnique.Base.Text.{Text}
use gopnique.Sourcemap.Vlq.{base64_decode, vlq_loop, decode_vlq, segment_fields}

length-vlq_loop :
    (input : Text) (value shift : ℕ) (z : ℤ) (rest : Text)
    → vlq_loop input value shift ≡ ok (z, rest)
    → length rest < length input
unfolding vlq_loop
length-vlq_loop [] value shift z rest h = cc
length-vlq_loop (c ∷ input) value shift z rest h = elim (Bool-cases (leb 128 c)) [
  | inl e ↦ absurd (cc (rw (e, vlq_loop) at h))
  | inr e ↦ elim (Option-cases (base64_decode c)) [
    | inl f ↦ absurd (cc (rw f at (rw (e, vlq_loop) at h)))
    | inr (digit, f) ↦
        let taken = rw f at (rw (e, vlq_loop) at h) in
        elim (Bool-cases (ltb digit 32)) [
          | inl g ↦
              let done = rw g at taken in
              let same : input ≡ rest = ground arith in rw (← same) (omega arith)
          | inr g ↦ omega (
            arith,
            length-vlq_loop input (value + digit % 32 * 2 ^ shift % 2 ^ 64) (shift + 5) z rest
                (rw g at taken),
          )
        ]
  ]
]

-- With more fuel than there are characters, the fields of a segment do not depend on the fuel.
segment_fields_enough :
    (f g : ℕ) (input : Text)
    → length input < f
    → length input < g
    → segment_fields f input ≡ segment_fields g input
unfolding segment_fields
segment_fields_enough zero g input h k = absurd (omega arith)
segment_fields_enough (suc f) zero input h k = absurd (omega arith)
segment_fields_enough (suc f) (suc g) [] h k = refl
segment_fields_enough (suc f) (suc g) (c ∷ input) h k =
    elim (Result-cases (decode_vlq (c ∷ input))) [
      | inr (e, p) ↦ rw p
      | inl ((z, rest), p) ↦
          let shorter = length-vlq_loop (c ∷ input) 0 0 z rest (unfold decode_vlq in p) in
          rw p (rw (segment_fields_enough f g rest (omega arith) (omega arith)))
    ]

-- The loop gives the fields, or an error of `decodeVLQ`.
segment_fields-ends :
    (f : ℕ) (input : Text)
    → length input < f
    → ((fields : List ℤ) × (segment_fields f input ≡ ok fields))
      ⊎ ((rest : Text) × (e : String) × (decode_vlq rest ≡ err e)
          × (segment_fields f input ≡ err e))
unfolding segment_fields
segment_fields-ends zero input h = absurd (omega arith)
segment_fields-ends (suc f) [] h = inl ([], refl)
segment_fields-ends (suc f) (c ∷ input) h = elim (Result-cases (decode_vlq (c ∷ input))) [
  | inr (e, p) ↦ inr (c ∷ input, e, p, rw p refl)
  | inl ((z, rest), p) ↦
      let shorter = length-vlq_loop (c ∷ input) 0 0 z rest (unfold decode_vlq in p) in
      elim (segment_fields-ends f rest (omega arith)) [
        | inl (fields, q) ↦ inl (z ∷ fields, rw p (rw q refl))
        | inr (at_, e, p', q) ↦ inr (at_, e, p', rw p (rw q refl))
      ]
]

-- With more fuel than there are characters, the loop over the numbers of a segment comes to its end:
-- it gives the numbers, or the error that `decodeVLQ` gives for some text; and more fuel changes
-- nothing.
pub segment_fields_ends :
    (f g : ℕ) (input : Text)
    → length input < f
    → length input < g
    → (((fields : List ℤ) × (segment_fields f input ≡ ok fields))
        ⊎ ((rest : Text) × (e : String) × (decode_vlq rest ≡ err e)
            × (segment_fields f input ≡ err e)))
      × (segment_fields f input ≡ segment_fields g input)
segment_fields_ends f g input h k =
    (segment_fields-ends f input h, segment_fields_enough f g input h k)
