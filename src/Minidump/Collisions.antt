-- ===== src/Minidump/Collisions.antt =====
-- Two different GUID and age pairs never share a debug identifier.
use native.Mathlib.Nat.{pow-suc}
use gopnique.Base.{
  ℕ, zero, suc, ◌+◌, ◌/◌, ◌%◌, ◌^◌, ◌≤◌, ◌<◌, ◌≡◌, refl, ap, sym, ◌∙◌, [], ◌∷◌, ◌++◌, arith, length,
  All, ltb, ◌==◌, take, drop, length-append, length-take, length-drop, All-take, All-drop,
  append_inj, drop-drop, take-drop_inj, take_all, Bool-cases, inl, inr,
}
use gopnique.Minidump.Layout.{
  Bytes, hex_digit, hex_fixed, hex_min, hex_bytes, pdb70_debug_identifier, little_endian,
}
use gopnique.Minidump.Identifiers.{length-hex_fixed, length-prefix, pdb70_prefix}

hex_digit_inj : (d e : ℕ) → d < 16 → e < 16 → hex_digit d ∷ [] ≡ hex_digit e ∷ [] → d ≡ e
unfolding hex_digit
hex_digit_inj d e h k p = ground arith

hex_fixed_inj : (w n m : ℕ) → n < 16 ^ w → m < 16 ^ w → hex_fixed w n ≡ hex_fixed w m → n ≡ m
unfolding hex_fixed
hex_fixed_inj zero n m h k e = omega arith
hex_fixed_inj (suc w) n m h k e =
    let (front, back) =
      append_inj (hex_fixed w (n / 16)) (hex_fixed w (m / 16)) _ _
        (length-hex_fixed w (n / 16) ∙ sym (length-hex_fixed w (m / 16))) e in
    let high =
      hex_fixed_inj w (n / 16) (m / 16) (omega (arith, pow-suc 16 w)) (omega (arith, pow-suc 16 w))
        front in
    omega (arith, high, hex_digit_inj (n % 16) (m % 16) (omega arith) (omega arith) back)

one-le-length-hex_min : (w n : ℕ) → 1 ≤ length (hex_min (suc w) n)
unfolding hex_min
one-le-length-hex_min w n =
    ground (arith, length-append (hex_min w (n / 16)) (hex_digit (n % 16) ∷ []))

-- one digit against two or more
short_ne_long :
    (w n m : ℕ)
    → m < 16 ^ suc w
    → 16 ≤ m
    → hex_digit n ∷ [] ≡ hex_min w (m / 16) ++ hex_digit (m % 16) ∷ []
    → ⊥
short_ne_long zero n m k h e = omega arith
short_ne_long (suc w) n m k h e = omega (
  arith,
  ap length e,
  length-append (hex_min (suc w) (m / 16)) (hex_digit (m % 16) ∷ []),
  one-le-length-hex_min w (m / 16),
)

long_inj :
    (w n m : ℕ)
    → (hex_min w (n / 16) ≡ hex_min w (m / 16) → n / 16 ≡ m / 16)
    → hex_min w (n / 16) ++ hex_digit (n % 16) ∷ [] ≡ hex_min w (m / 16) ++ hex_digit (m % 16) ∷ []
    → n ≡ m
long_inj w n m ih e =
    let same_length : length (hex_min w (n / 16)) ≡ length (hex_min w (m / 16)) = omega (
      arith,
      ap length e,
      length-append (hex_min w (n / 16)) (hex_digit (n % 16) ∷ []),
      length-append (hex_min w (m / 16)) (hex_digit (m % 16) ∷ []),
    ) in
    let (front, back) = append_inj (hex_min w (n / 16)) (hex_min w (m / 16)) _ _ same_length e in
    omega (arith, ih front, hex_digit_inj (n % 16) (m % 16) (omega arith) (omega arith) back)

hex_min_inj : (w n m : ℕ) → n < 16 ^ w → m < 16 ^ w → hex_min w n ≡ hex_min w m → n ≡ m
unfolding hex_min
hex_min_inj zero n m h k e = omega arith
hex_min_inj (suc w) n m h k e = elim (Bool-cases (ltb n 16)) [
  | inl p ↦ elim (Bool-cases (ltb m 16)) [
    | inl q ↦ hex_digit_inj n m (ground arith) (ground arith) (rw (p, q) at e)
    | inr q ↦ absurd (short_ne_long w n m k (ground arith) (rw (p, q) at e))
  ]
  | inr p ↦ elim (Bool-cases (ltb m 16)) [
    | inl q ↦ absurd (short_ne_long w m n h (ground arith) (sym (rw (p, q) at e)))
    | inr q ↦
        long_inj w n m
          (hex_min_inj w (n / 16) (m / 16) (omega (arith, pow-suc 16 w))
            (omega (arith, pow-suc 16 w)))
          (rw (p, q) at e)
  ]
]

little_endian_inj :
    (bs cs : Bytes)
    → length bs ≡ length cs
    → All (λ b. b < 256) bs
    → All (λ b. b < 256) cs
    → little_endian bs ≡ little_endian cs
    → bs ≡ cs
unfolding little_endian
little_endian_inj [] [] h p q e = refl
little_endian_inj [] (c ∷ cs) h p q e = absurd (omega arith)
little_endian_inj (b ∷ bs) [] h p q e = absurd (omega arith)
little_endian_inj (b ∷ bs) (c ∷ cs) h p q e =
    let head_eq : b ≡ c = omega arith in
    cc (head_eq, little_endian_inj bs cs (omega arith) p.1 q.1 (omega arith))

pub little_endian-lt : (bs : Bytes) → All (λ b. b < 256) bs → little_endian bs < 256 ^ length bs
unfolding little_endian
little_endian-lt [] h = omega arith
little_endian-lt (b ∷ bs) h = omega (arith, little_endian-lt bs h.1, pow-suc 256 (length bs))

hex_bytes_inj :
    (bs cs : Bytes)
    → length bs ≡ length cs
    → All (λ b. b < 256) bs
    → All (λ b. b < 256) cs
    → hex_bytes bs ≡ hex_bytes cs
    → bs ≡ cs
unfolding hex_bytes
hex_bytes_inj [] [] h p q e = refl
hex_bytes_inj [] (c ∷ cs) h p q e = absurd (omega arith)
hex_bytes_inj (b ∷ bs) [] h p q e = absurd (omega arith)
hex_bytes_inj (b ∷ bs) (c ∷ cs) h p q e =
    let (front, back) =
      append_inj (hex_fixed 2 b) (hex_fixed 2 c) _ _
        (length-hex_fixed 2 b ∙ sym (length-hex_fixed 2 c)) e in
    cc (
      hex_fixed_inj 2 b c (omega arith) (omega arith) front,
      hex_bytes_inj bs cs (omega arith) p.1 q.1 back,
    )

abbrev IsBytes : Bytes → Type 0
IsBytes = All (λ b. b < 256)

-- one fixed-width field of the identifier: the `k` bytes behind the first `n`
abbrev field : ℕ → ℕ → Bytes → Bytes
field k n g = take k (drop n g)

field-IsBytes : (k n : ℕ) (g : Bytes) → IsBytes g → IsBytes (field k n g)
field-IsBytes k n g h = All-take _ k (drop n g) (All-drop _ n g h)

length-field : (k n : ℕ) (g : Bytes) → n + k ≤ length g → length (field k n g) ≡ k
length-field k n g h = omega (arith, length-take k (drop n g), length-drop n g)

fixed_field_inj :
    (w : ℕ) (xs ys : Bytes)
    → length xs ≡ length ys
    → IsBytes xs
    → IsBytes ys
    → 256 ^ length xs ≤ 16 ^ w
    → hex_fixed w (little_endian xs) ≡ hex_fixed w (little_endian ys)
    → xs ≡ ys
fixed_field_inj w xs ys l p q fits e =
    let fits' : 256 ^ length ys ≤ 16 ^ w = rw (← l) fits in
    little_endian_inj xs ys l p q (
      hex_fixed_inj w _ _ (omega (arith, little_endian-lt xs p))
        (omega (arith, little_endian-lt ys q)) e)

-- two 16-byte texts agree when their four fields do
fields_inj :
    (g h : Bytes)
    → take 4 g ≡ take 4 h
    → field 2 4 g ≡ field 2 4 h
    → field 2 6 g ≡ field 2 6 h
    → field 8 8 g ≡ field 8 8 h
    → length g ≡ 16
    → length h ≡ 16
    → g ≡ h
fields_inj g h a b c d l k =
    let rest : (x : Bytes) → length x ≡ 16 → drop 8 x ≡ field 8 8 x =
      λ x e. sym (take_all 8 (drop 8 x) (omega (arith, length-drop 8 x))) in
    let from_8 : drop 8 g ≡ drop 8 h = rest g l ∙ d ∙ sym (rest h k) in
    let from_6 : drop 6 g ≡ drop 6 h =
      take-drop_inj 2 _ _ c (drop-drop 2 6 g ∙ from_8 ∙ sym (drop-drop 2 6 h)) in
    let from_4 : drop 4 g ≡ drop 4 h =
      take-drop_inj 2 _ _ b (drop-drop 2 4 g ∙ from_6 ∙ sym (drop-drop 2 4 h)) in
    take-drop_inj 4 g h a from_4

prefix_inj :
    (g h : Bytes)
    → length g ≡ 16
    → length h ≡ 16
    → IsBytes g
    → IsBytes h
    → pdb70_prefix g ≡ pdb70_prefix h
    → g ≡ h
prefix_inj g h l k p q e =
    let same = λ (w n m : ℕ). length-hex_fixed w n ∙ sym (length-hex_fixed w m) in
    let (e1, r1) =
      append_inj (hex_fixed 8 (little_endian (take 4 g))) (hex_fixed 8 (little_endian (take 4 h))) _
        _ (same 8 _ _) e in
    let (e2, r2) =
      append_inj (hex_fixed 4 (little_endian (field 2 4 g)))
        (hex_fixed 4 (little_endian (field 2 4 h))) _ _ (same 4 _ _) r1 in
    let (e3, r3) =
      append_inj (hex_fixed 4 (little_endian (field 2 6 g)))
        (hex_fixed 4 (little_endian (field 2 6 h))) _ _ (same 4 _ _) r2 in
    fields_inj g h (first_inj e1) (two_inj 4 (omega arith) e2) (two_inj 6 (omega arith) e3)
      (hex_bytes_inj _ _ (length-field 8 8 g (omega arith) ∙ sym (length-field 8 8 h (omega arith)))
        (field-IsBytes 8 8 g p) (field-IsBytes 8 8 h q) r3)
      l k
  where
    two_inj :
        (n : ℕ)
        → n + 2 ≤ 16
        → hex_fixed 4 (little_endian (field 2 n g)) ≡ hex_fixed 4 (little_endian (field 2 n h))
        → field 2 n g ≡ field 2 n h
    two_inj n fits =
        fixed_field_inj 4 _ _
          (length-field 2 n g (omega arith) ∙ sym (length-field 2 n h (omega arith)))
          (field-IsBytes 2 n g p) (field-IsBytes 2 n h q)
          (rw (length-field 2 n g (omega arith)) (omega arith))

    first_inj :
        hex_fixed 8 (little_endian (take 4 g)) ≡ hex_fixed 8 (little_endian (take 4 h))
        → take 4 g ≡ take 4 h
    first_inj =
        fixed_field_inj 8 _ _
          (length-field 4 0 g (omega arith) ∙ sym (length-field 4 0 h (omega arith)))
          (field-IsBytes 4 0 g p) (field-IsBytes 4 0 h q)
          (rw (length-field 4 0 g (omega arith)) (omega arith))

with_age_inj :
    (g h : Bytes) (a b : ℕ)
    → length g ≡ 16
    → length h ≡ 16
    → IsBytes g
    → IsBytes h
    → a < 2 ^ 32
    → b < 2 ^ 32
    → pdb70_prefix g ++ hex_min 8 a ≡ pdb70_prefix h ++ hex_min 8 b
    → (g ≡ h) × (a ≡ b)
with_age_inj g h a b l k p q u v e =
    let (front, back) =
      append_inj (pdb70_prefix g) (pdb70_prefix h) _ _ (length-prefix g l ∙ sym (length-prefix h k))
        e in
    (prefix_inj g h l k p q front, hex_min_inj 8 a b u v back)

no_age_ne_age :
    (g h : Bytes) (b : ℕ)
    → length g ≡ 16
    → length h ≡ 16
    → pdb70_prefix g ≡ pdb70_prefix h ++ hex_min 8 b
    → ⊥
no_age_ne_age g h b l k e = omega (
  arith,
  ap length e,
  length-append (pdb70_prefix h) (hex_min 8 b),
  length-prefix g l,
  length-prefix h k,
  one-le-length-hex_min 7 b,
)

-- Two CodeView records, each of a 16-byte GUID and a uint32 age, have the same debug identifier
-- only if both the GUIDs and the ages are the same.
pub pdb70_debug_identifier_inj :
    (g h : Bytes) (a b : ℕ)
    → length g ≡ 16
    → length h ≡ 16
    → All (λ c. c < 256) g
    → All (λ c. c < 256) h
    → a < 2 ^ 32
    → b < 2 ^ 32
    → pdb70_debug_identifier g a ≡ pdb70_debug_identifier h b
    → (g ≡ h) × (a ≡ b)
unfolding pdb70_debug_identifier
pdb70_debug_identifier_inj g h a b l k p q u v e = elim (Bool-cases (a == 0)) [
  | inl x ↦ elim (Bool-cases (b == 0)) [
    | inl y ↦ (prefix_inj g h l k p q (rw (x, y) at e), ground arith)
    | inr y ↦ absurd (no_age_ne_age g h b l k (rw (x, y) at e))
  ]
  | inr x ↦ elim (Bool-cases (b == 0)) [
    | inl y ↦ absurd (no_age_ne_age h g a k l (sym (rw (x, y) at e)))
    | inr y ↦ with_age_inj g h a b l k p q u v (rw (x, y) at e)
  ]
]
