-- ===== src/Minidump/Identifiers.antt =====
-- The debug identifiers that are built from a module's CodeView record.
use gopnique.Base.{
  ℕ, zero, suc, ◌*◌, ◌/◌, ◌%◌, ◌≤◌, ◌<◌, ◌≡◌, refl, [], ◌∷◌, ◌++◌, arith, length, All, ltb, ◌==◌,
  take, drop, length-append, length-take, length-drop, All-append, Bool-cases, inl, inr,
}
use gopnique.Base.Result.{ok}
use gopnique.Base.Text.{Text}
use gopnique.Domain.Native.{is_hex_digit, new_debug_identifier}
use gopnique.Domain.Native.Canonical.{IsHex, IsCanonical, new_debug_identifier-IsCanonical}
use gopnique.Minidump.Layout.{
  Bytes, hex_digit, hex_fixed, hex_min, hex_bytes, pdb70_debug_identifier, little_endian,
}

hex_digit-IsHex : (d : ℕ) → d < 16 → IsHex (hex_digit d)
unfolding hex_digit is_hex_digit
hex_digit-IsHex d h = ground arith

hex_fixed-IsHex : (w n : ℕ) → All IsHex (hex_fixed w n)
unfolding hex_fixed
hex_fixed-IsHex zero n = tt
hex_fixed-IsHex (suc w) n =
    All-append IsHex (hex_fixed w (n / 16)) _ (hex_fixed-IsHex w (n / 16))
      (hex_digit-IsHex (n % 16) (omega arith), tt)

pub length-hex_fixed : (w n : ℕ) → length (hex_fixed w n) ≡ w
unfolding hex_fixed
length-hex_fixed zero n = refl
length-hex_fixed (suc w) n = omega (
  arith,
  length-append (hex_fixed w (n / 16)) (hex_digit (n % 16) ∷ []),
  length-hex_fixed w (n / 16),
)

hex_min-IsHex : (w n : ℕ) → All IsHex (hex_min w n)
unfolding hex_min
hex_min-IsHex zero n = tt
hex_min-IsHex (suc w) n = elim (Bool-cases (ltb n 16)) [
  | inl e ↦ rw e (hex_digit-IsHex n (ground arith), tt)
  | inr e ↦ rw e (
      All-append IsHex (hex_min w (n / 16)) _ (hex_min-IsHex w (n / 16))
        (hex_digit-IsHex (n % 16) (omega arith), tt))
]

length-hex_min : (w n : ℕ) → length (hex_min w n) ≤ w
unfolding hex_min
length-hex_min zero n = omega arith
length-hex_min (suc w) n =
    ground (
      arith,
      length-append (hex_min w (n / 16)) (hex_digit (n % 16) ∷ []),
      length-hex_min w (n / 16),
    )

hex_bytes-IsHex : (bs : Bytes) → All IsHex (hex_bytes bs)
unfolding hex_bytes
hex_bytes-IsHex [] = tt
hex_bytes-IsHex (b ∷ bs) =
    All-append IsHex (hex_fixed 2 b) (hex_bytes bs) (hex_fixed-IsHex 2 b) (hex_bytes-IsHex bs)

pub length-hex_bytes : (bs : Bytes) → length (hex_bytes bs) ≡ 2 * length bs
unfolding hex_bytes
length-hex_bytes [] = refl
length-hex_bytes (b ∷ bs) =
    omega (
      arith,
      length-append (hex_fixed 2 b) (hex_bytes bs),
      length-hex_fixed 2 b,
      length-hex_bytes bs,
    )

abbrev pub pdb70_prefix : Bytes → Text
pdb70_prefix guid =
    hex_fixed 8 (little_endian (take 4 guid))
    ++ (hex_fixed 4 (little_endian (take 2 (drop 4 guid)))
        ++ (hex_fixed 4 (little_endian (take 2 (drop 6 guid))) ++ hex_bytes (take 8 (drop 8 guid))))

prefix-IsHex : (guid : Bytes) → All IsHex (pdb70_prefix guid)
prefix-IsHex guid = All-append IsHex _ _ (hex_fixed-IsHex 8 _) (
    All-append IsHex _ _ (hex_fixed-IsHex 4 _)
      (All-append IsHex _ _ (hex_fixed-IsHex 4 _) (hex_bytes-IsHex _)))

pub length-prefix : (guid : Bytes) → length guid ≡ 16 → length (pdb70_prefix guid) ≡ 32
length-prefix guid h =
    omega (
      arith,
      length-append {0},
      length-hex_fixed,
      length-hex_bytes,
      length-take {0},
      length-drop {0},
    )

pub pdb70_debug_identifier-IsCanonical :
    (guid : Bytes) (age : ℕ) → length guid ≡ 16 → IsCanonical (pdb70_debug_identifier guid age)
unfolding pdb70_debug_identifier
pdb70_debug_identifier-IsCanonical guid age h = elim (Bool-cases (age == 0)) [
  | inl e ↦ rw e (record {
    hex = prefix-IsHex guid;
    long = omega (arith, length-prefix guid h);
    short = omega (arith, length-prefix guid h);
  })
  | inr e ↦ rw e (record {
    hex = All-append IsHex (pdb70_prefix guid) _ (prefix-IsHex guid) (hex_min-IsHex 8 age);
    long = omega (arith, length-prefix guid h, length-append (pdb70_prefix guid) (hex_min 8 age));
    short = omega (
      arith,
      length-prefix guid h,
      length-append (pdb70_prefix guid) (hex_min 8 age),
      length-hex_min 8 age,
    );
  })
]

-- The identifier of any 16-byte GUID and any age passes the checks of `NewDebugIdentifier` and is
-- kept as it was written, so `parseMinidumpCodeViewDebugID` never drops a module for it.
pub new_debug_identifier-pdb70 :
    (lower : ℕ → ℕ) (guid : Bytes) (age : ℕ)
    → length guid ≡ 16
    → new_debug_identifier lower (pdb70_debug_identifier guid age)
      ≡ ok (record { value = pdb70_debug_identifier guid age })
new_debug_identifier-pdb70 lower guid age h =
    new_debug_identifier-IsCanonical lower _ (pdb70_debug_identifier-IsCanonical guid age h)
