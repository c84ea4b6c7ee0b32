-- ===== src/Sourcemap/Vlq.antt =====
-- The base64 variable-length numbers of internal/app/sourcemaps/parser.go. A position in the input
-- is the text from there on; an `int` is 64 bits wide.
use gopnique.Base.{
  ℕ, zero, suc, ◌+◌, ◌*◌, ◌%◌, ◌^◌, Bool, true, false, List, [], ◌∷◌, Option, none, some, ltb, leb,
  ◌==◌, if◌then◌else◌, length,
}
use gopnique.Base.Int.{ℤ, int64_of, shr_one, neg_int}
use gopnique.Base.Result.{Result, ok, err, ◌>>=◌}
use gopnique.Base.Text.{Text, codes}

abbrev pub base64_alphabet : Text
base64_alphabet = codes "ABCDEFGHIJKLMNOPQRSTUVWXYZabcdefghijklmnopqrstuvwxyz0123456789+/"

-- the first index of a character
unfoldable pub index_of : ℕ → Text → Option ℕ
index_of c [] = none
index_of c (d ∷ s) = elim (d == c) [
  | true ↦ some 0
  | false ↦ elim (index_of c s) [ none ↦ none | some i ↦ some (suc i) ]
]

-- the table `base64Decode`, `none` for its -1
unfoldable pub base64_decode : ℕ → Option ℕ
base64_decode c = index_of c base64_alphabet

-- the end of `decodeVLQ`, on the 64-bit pattern of `value`
unfoldable pub finish : ℕ → ℤ
finish value = let half = shr_one (int64_of value) in if value % 2 == 1 then neg_int half else half

-- The loop of `decodeVLQ`. A digit's bits lie above those of `value`, so `|=` adds; what is shifted
-- past bit 63 is lost.
unfoldable pub vlq_loop : Text → ℕ → ℕ → Result (ℤ × Text)
vlq_loop [] value shift = err "unexpected end of vlq"
vlq_loop (character ∷ rest) value shift = elim (leb 128 character) [
  | true ↦ err "invalid vlq character"
  | false ↦ elim (base64_decode character) [
    | none ↦ err "invalid vlq character"
    | some digit ↦
        let value' = value + digit % 32 * 2 ^ shift % 2 ^ 64 in
        let more = vlq_loop rest value' (shift + 5) in
        if ltb digit 32 then ok (finish value', rest) else more
  ]
]

-- The value, and the input behind it.
unfoldable pub decode_vlq : Text → Result (ℤ × Text)
decode_vlq input = vlq_loop input 0 0

-- The loop of `decodeSegment`. A round takes at least one character, so the fuel given by
-- `decode_segment`, one more than there are characters, is never used up.
unfoldable pub segment_fields : ℕ → Text → Result (List ℤ)
segment_fields zero input = err "out of fuel"
segment_fields (suc fuel) [] = ok []
segment_fields (suc fuel) (c ∷ input) = do
  (value, rest) ← decode_vlq (c ∷ input)
  values ← segment_fields fuel rest
  ok (value ∷ values)

abbrev field_count_ok : ℕ → Bool
field_count_ok n = if n == 1 then true else if n == 4 then true else n == 5

abbrev checked_fields : List ℤ → Result (List ℤ)
checked_fields values =
    if field_count_ok (length values)
    then ok values
    else err "invalid source map segment field count"

unfoldable pub decode_segment : Text → Result (List ℤ)
decode_segment input = segment_fields (suc (length input)) input >>= checked_fields
