-- ===== src/Domain/Native/Canonical.antt =====
-- `NewDebugIdentifier` accepts exactly the canonical form behind trimming, dashes and case.
use gopnique.Base.{
  ℕ, ◌≤◌, ◌≡◌, refl, true, false, not, [], ◌∷◌, arith, length, all, All, ltb, Bool-cases, is_empty,
  inl, inr,
}
use gopnique.Base.Result.{ok, ◌>>◌, reject_if}
use gopnique.Base.Text.{Text, trim_space, byte_len, remove_all, to_lower, is_space}
use gopnique.Base.Text.Laws.{trim_space_lem}
use gopnique.Domain.Native.{DebugIdentifier, is_hex_digit, new_debug_identifier}

abbrev pub IsHex : ℕ → Type 0
IsHex c = is_hex_digit c ≡ true

-- Lower-case hexadecimal, 32 to 40 digits.
pub record IsCanonical (s : Text) : Type 0 where
  pub hex : All IsHex s
  pub long : 32 ≤ length s
  pub short : length s ≤ 40

pub hex_bounds : (c : ℕ) → IsHex c → (b'0' ≤ c) × (c ≤ b'f')
unfolding is_hex_digit
hex_bounds c h = ground arith

hex-is_space : (c : ℕ) → IsHex c → is_space c ≡ false
unfolding is_space is_hex_digit
hex-is_space c h = ground arith

hex_no_space : (s : Text) → All IsHex s → All (λ c. is_space c ≡ false) s
hex_no_space [] h = tt
hex_no_space (c ∷ s) h = (hex-is_space c h.0, hex_no_space s h.1)

remove_all-hex : (s : Text) → All IsHex s → remove_all b'-' s ≡ s
unfolding remove_all is_hex_digit
remove_all-hex [] h = refl
remove_all-hex (c ∷ s) h = ground (arith, remove_all-hex s h.1, h.0)

to_lower-hex : (lower : ℕ → ℕ) (s : Text) → All IsHex s → to_lower lower s ≡ s
unfolding to_lower is_hex_digit
to_lower-hex lower [] h = refl
to_lower-hex lower (c ∷ s) h = ground (arith, to_lower-hex lower s h.1, h.0)

pub byte_len-hex : (s : Text) → All IsHex s → byte_len s ≡ length s
unfolding byte_len is_hex_digit
byte_len-hex [] h = refl
byte_len-hex (c ∷ s) h = ground (arith, byte_len-hex s h.1, h.0)

all-hex : (s : Text) → All IsHex s → all is_hex_digit s ≡ true
all-hex [] h = refl
all-hex (c ∷ s) h = rw h.0 (all-hex s h.1)

pub IsHex-all : (s : Text) → all is_hex_digit s ≡ true → All IsHex s
IsHex-all [] h = tt
IsHex-all (c ∷ s) h = elim (Bool-cases (is_hex_digit c)) [
  | inl e ↦ (e, IsHex-all s (rw e at h))
  | inr e ↦ absurd (cc (rw e at h))
]

-- A canonical text is accepted, and kept as it is.
pub new_debug_identifier-IsCanonical :
    (lower : ℕ → ℕ) (s : Text)
    → IsCanonical s
    → new_debug_identifier lower s ≡ ok (record { value = s })
unfolding new_debug_identifier
new_debug_identifier-IsCanonical lower [] c = absurd (omega (arith, c.long))
new_debug_identifier-IsCanonical lower (x ∷ s) c =
    rw (trim_space_lem (x ∷ s) (hex_no_space (x ∷ s) c.hex)) (
      rw (remove_all-hex (x ∷ s) c.hex) (
        rw (to_lower-hex lower (x ∷ s) c.hex) (
          rw (byte_len-hex (x ∷ s) c.hex)
            (rw (all-hex (x ∷ s) c.hex) (ground (arith, c.long, c.short))))))

-- the checks at the end of `NewDebugIdentifier`, read backwards
checked :
    (s : Text) (d : DebugIdentifier)
    → (do
      reject_if (ltb (byte_len s) 32) "debug identifier is too short"
      reject_if (ltb 40 (byte_len s)) "debug identifier is too long"
      reject_if (not (all is_hex_digit s)) "debug identifier must be hexadecimal"
      ok (record { value = s }))
      ≡ ok d
    → (all is_hex_digit s ≡ true) × (32 ≤ byte_len s) × (byte_len s ≤ 40) × (d.value ≡ s)
checked s d h = ground arith

checked-IsCanonical :
    (s t : Text)
    → (all is_hex_digit s ≡ true) × (32 ≤ byte_len s) × (byte_len s ≤ 40) × (t ≡ s)
    → IsCanonical t
checked-IsCanonical s t (h, lo, hi, e) =
    let hex = IsHex-all s h in
    rw e (record {
      hex = hex;
      long = omega (arith, byte_len-hex s hex);
      short = omega (arith, byte_len-hex s hex);
    })

-- Whatever is accepted becomes canonical.
pub IsCanonical-new_debug_identifier :
    (lower : ℕ → ℕ) (s : Text) (d : DebugIdentifier)
    → new_debug_identifier lower s ≡ ok d
    → IsCanonical d.value
unfolding new_debug_identifier
IsCanonical-new_debug_identifier lower s d h = elim (Bool-cases (is_empty (trim_space s))) [
  | inl e ↦ absurd (cc (rw e at h))
  | inr e ↦ checked-IsCanonical _ _ (checked _ d (rw e at h))
]

-- An accepted debug identifier is 32 to 40 lower-case hexadecimal digits, and reading its value
-- again gives the same identifier.
pub new_debug_identifier_sound :
    (lower : ℕ → ℕ) (s : Text) (d : DebugIdentifier)
    → new_debug_identifier lower s ≡ ok d
    → IsCanonical d.value × (new_debug_identifier lower d.value ≡ ok d)
new_debug_identifier_sound lower s d h =
    let c = IsCanonical-new_debug_identifier lower s d h in
    (c, new_debug_identifier-IsCanonical lower d.value c)
