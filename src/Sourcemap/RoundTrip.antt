-- ===== src/Sourcemap/RoundTrip.antt =====
-- The base64 VLQ numbers of a source map: what is written in them is read back.
use native.Mathlib.Nat.{pow-suc}
use native.Mathlib.Numerals.{towards_suc}
use gopnique.Base.{
  ℕ, zero, suc, ◌+◌, ◌*◌, ◌/◌, ◌%◌, ◌^◌, ◌≤◌, ◌<◌, ◌≡◌, refl, ap, ◌∙◌, Bool, true, false, List, [],
  ◌∷◌, ◌++◌, none, some, arith, ltb, leb, ◌==◌, if◌then◌else◌, length, length-append, All,
  Bool-cases, all, range_from, inl, inr, ◌⊎◌, lt→ltb, ltb→lt, le→ltb-false,
}
use gopnique.Base.Int.{ℤ, pos, negsuc}
use gopnique.Base.Result.{ok, ◌>>=◌}
use gopnique.Base.Text.{Text}
use gopnique.Sourcemap.Vlq.{
  base64_alphabet, base64_decode, index_of, finish, vlq_loop, decode_vlq, segment_fields,
  decode_segment,
}

-- the character of a digit
abbrev nth : Text → ℕ → ℕ
nth [] i = 0
nth (c ∷ s) zero = c
nth (c ∷ s) (suc i) = nth s i

char_of : ℕ → ℕ
char_of d = nth base64_alphabet d

-- A number in base 32, least digit first, each but the last with the continuation bit.
unfoldable pub encode_digits : ℕ → ℕ → Text
unfolding char_of
encode_digits zero n = []
encode_digits (suc fuel) n =
    let more = char_of (n % 32 + 32) ∷ encode_digits fuel (n / 32) in
    if ltb n 32 then char_of n ∷ [] else more

-- The sign goes into the lowest bit.
abbrev pub sign_folded : ℤ → ℕ
sign_folded (pos n) = 2 * n
sign_folded (negsuc n) = 2 * suc n + 1

-- The base64 VLQ form of the source map format, for numbers of at most 62 bits and a sign.
unfoldable pub encode_vlq : ℤ → Text
encode_vlq z = encode_digits 13 (sign_folded z)

abbrev pub Fits : ℤ → Type 0
Fits (pos n) = n < 2 ^ 62
Fits (negsuc n) = suc n < 2 ^ 62

check_digit : ℕ → Bool
check_digit d = elim (base64_decode (char_of d)) [
  | none ↦ false
  | some e ↦ if leb 128 (char_of d) then false else e == d
]

check_range :
    (p : ℕ → Bool) (i n d : ℕ) → all p (range_from i n) ≡ true → i ≤ d → d < i + n → p d ≡ true
check_range p i zero d h lo hi = absurd (omega arith)
check_range p i (suc n) d h lo hi = elim (Bool-cases (i == d)) [
  | inl e ↦ let same : i ≡ d = ground arith in rw (← same) (ground arith)
  | inr e ↦ check_range p (suc i) n d (ground arith) (ground arith) (omega arith)
]

digit_table : all check_digit (range_from 0 64) ≡ true
unfolding check_digit base64_decode index_of char_of
digit_table = refl

decode_char :
    (d : ℕ) → d < 64 → (base64_decode (char_of d) ≡ some d) × (leb 128 (char_of d) ≡ false)
unfolding check_digit
decode_char d h = go (check_range check_digit 0 64 d digit_table (omega arith) (omega arith))
  where
    go : check_digit d ≡ true → (base64_decode (char_of d) ≡ some d) × (leb 128 (char_of d) ≡ false)
    go e = ground arith

pow_shift : (s : ℕ) → 2 ^ (s + 5) ≡ 32 * 2 ^ s
pow_shift s = simp towards_suc (omega arith)

-- the last digit and the others
split_digit :
    (n p value : ℕ)
    → value + n * p < 2 ^ 64
    → ((n % 32) * p % 2 ^ 64 ≡ (n % 32) * p)
      × (value + (n % 32) * p + n / 32 * (32 * p) ≡ value + n * p)
split_digit n p value h =
    let digits : n ≡ n % 32 + 32 * (n / 32) = omega arith in
    let times_p = ap (λ (t : ℕ). t * p) digits in (omega (arith, times_p), omega (arith, times_p))

vlq_loop_last :
    (n value shift : ℕ) (rest : Text)
    → n < 32
    → value + n * 2 ^ shift < 2 ^ 64
    → vlq_loop (char_of n ∷ rest) value shift ≡ ok (finish (value + n * 2 ^ shift), rest)
unfolding vlq_loop
vlq_loop_last n value shift rest h fits =
    let (read, small) = decode_char n (omega arith) in
    let low : n % 32 ≡ n = omega arith in
    let whole : n * 2 ^ shift % 2 ^ 64 ≡ n * 2 ^ shift = omega arith in
    rw (small, vlq_loop) (rw read (rw low (rw whole (rw (lt→ltb n 32 h)))))

vlq_loop_more :
    (n value shift : ℕ) (rest : Text)
    → value + n * 2 ^ shift < 2 ^ 64
    → vlq_loop (char_of (n % 32 + 32) ∷ rest) value shift
      ≡ vlq_loop rest (value + n % 32 * 2 ^ shift) (shift + 5)
unfolding vlq_loop
vlq_loop_more n value shift rest fits =
    let (read, small) = decode_char (n % 32 + 32) (omega arith) in
    let low : (n % 32 + 32) % 32 ≡ n % 32 = omega arith in
    let (whole, _) = split_digit n (2 ^ shift) value fits in
    rw (small, vlq_loop)
      (rw read (rw low (rw whole (rw (le→ltb-false (n % 32 + 32) 32 (omega arith))))))

vlq_loop-encode_digits :
    (fuel n value shift : ℕ) (rest : Text)
    → n < 32 ^ suc fuel
    → value + n * 2 ^ shift < 2 ^ 64
    → vlq_loop (encode_digits (suc fuel) n ++ rest) value shift
      ≡ ok (finish (value + n * 2 ^ shift), rest)
unfolding encode_digits
vlq_loop-encode_digits zero n value shift rest bound fits =
    let small : n < 32 = omega arith in
    rw (lt→ltb n 32 small) (vlq_loop_last n value shift rest small fits)
vlq_loop-encode_digits (suc fuel) n value shift rest bound fits = elim (Bool-cases (ltb n 32)) [
  | inl e ↦ rw e (vlq_loop_last n value shift rest (ltb→lt n 32 e) fits)
  | inr e ↦
      let (_, sum) = split_digit n (2 ^ shift) value fits in
      let next : value + n % 32 * 2 ^ shift + n / 32 * 2 ^ (shift + 5) ≡ value + n * 2 ^ shift =
        rw (pow_shift shift) sum in
      let ih =
        vlq_loop-encode_digits fuel (n / 32) (value + n % 32 * 2 ^ shift) (shift + 5) rest
          (omega (arith, pow-suc 32 (suc fuel))) (rw next fits) in
      rw e (
        vlq_loop_more n value shift (encode_digits (suc fuel) (n / 32) ++ rest) fits
        ∙ (rw next at ih))
]

finish-sign_folded : (z : ℤ) → Fits z → finish (sign_folded z) ≡ z
unfolding finish
finish-sign_folded (pos zero) h = refl
finish-sign_folded (pos (suc n)) h = ground arith
finish-sign_folded (negsuc n) h = ground arith

sign_folded-lt : (z : ℤ) → Fits z → sign_folded z < 2 ^ 63
sign_folded-lt (pos n) h = omega arith
sign_folded-lt (negsuc n) h = omega arith

-- A number that was written in the VLQ form of the source map format is read back, and the input
-- behind it is left.
pub decode_vlq-encode_vlq :
    (z : ℤ) (rest : Text) → Fits z → decode_vlq (encode_vlq z ++ rest) ≡ ok (z, rest)
unfolding decode_vlq encode_vlq
decode_vlq-encode_vlq z rest h =
    let plain : 0 + sign_folded z * 2 ^ 0 ≡ sign_folded z = omega arith in
    let read =
      vlq_loop-encode_digits 12 (sign_folded z) 0 0 rest (omega (arith, sign_folded-lt z h))
        (rw plain (omega (arith, sign_folded-lt z h))) in
    read ∙ rw (plain, finish-sign_folded z h)

-- The fields of a segment, one behind the other.
unfoldable pub encode_segment : List ℤ → Text
encode_segment [] = []
encode_segment (z ∷ zs) = encode_vlq z ++ encode_segment zs

encode_vlq-cons : (z : ℤ) → (c : ℕ) × (s : Text) × (encode_vlq z ≡ c ∷ s)
unfolding encode_vlq
encode_vlq-cons z = go 12 (sign_folded z)
  where
    go : (fuel n : ℕ) → (c : ℕ) × (s : Text) × (encode_digits (suc fuel) n ≡ c ∷ s)
    go fuel n =
        unfold encode_digits in
        elim (Bool-cases (ltb n 32)) [
          | inl e ↦ (char_of n, [], rw e)
          | inr e ↦ (char_of (n % 32 + 32), encode_digits fuel (n / 32), rw e)
        ]

segment_fields_step :
    (fuel : ℕ) (z : ℤ) (rest : Text)
    → Fits z
    → segment_fields (suc fuel) (encode_vlq z ++ rest)
      ≡ (segment_fields fuel rest >>= λ values. ok (z ∷ values))
segment_fields_step fuel z rest h =
    let (c, s, e) = encode_vlq-cons z in
    let read = rw e at (decode_vlq-encode_vlq z rest h) in rw e (unfold segment_fields in rw read)

length-encode_segment : (zs : List ℤ) → length zs ≤ length (encode_segment zs)
unfolding encode_segment
length-encode_segment [] = omega arith
length-encode_segment (z ∷ zs) =
    let (c, s, e) = encode_vlq-cons z in
    rw e (omega (arith, length-append s (encode_segment zs), length-encode_segment zs))

segment_fields-encode_segment :
    (fuel : ℕ) (zs : List ℤ)
    → All Fits zs
    → length zs < fuel
    → segment_fields fuel (encode_segment zs) ≡ ok zs
unfolding encode_segment
segment_fields-encode_segment zero zs h k = absurd (omega arith)
segment_fields-encode_segment (suc fuel) [] h k = unfold segment_fields in refl
segment_fields-encode_segment (suc fuel) (z ∷ zs) h k =
    rw (segment_fields_step fuel z (encode_segment zs) h.0)
      (rw (segment_fields-encode_segment fuel zs h.1 (omega arith)))

-- A segment of one, four or five fields is read back field by field.
pub decode_segment-encode_segment :
    (zs : List ℤ)
    → All Fits zs
    → (length zs ≡ 1) ⊎ ((length zs ≡ 4) ⊎ (length zs ≡ 5))
    → decode_segment (encode_segment zs) ≡ ok zs
unfolding decode_segment
decode_segment-encode_segment zs h k =
    rw
      (segment_fields-encode_segment (suc (length (encode_segment zs))) zs h
        (omega (arith, length-encode_segment zs)))
      (ground arith)
