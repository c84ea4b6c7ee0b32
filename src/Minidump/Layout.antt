-- ===== src/Minidump/Layout.antt =====
-- The readers of internal/app/minidumps/metadata.go: byte ranges, little-endian numbers, UTF-16
-- strings and CodeView identifiers. An offset is a uint32 and wraps.
use gopnique.Base.{
  ℕ, zero, suc, ◌+◌, ◌-◌, ◌*◌, ◌/◌, ◌%◌, ◌^◌, ◌<◌, not, ◌||◌, ◌&&◌, List, [], ◌∷◌, ◌++◌, Option,
  none, some, ◌≡◌, leb, ltb, ◌==◌, if◌then◌else◌, take, drop, length, All,
}
use gopnique.Base.Maybe.{◌>>=◌, ◌>>◌, fail_if}
use gopnique.Base.Result.{ok, err}
use gopnique.Base.Text.{Text, codes, has_prefix}
use gopnique.Domain.Native.{DebugIdentifier, new_debug_identifier}

abbrev pub Bytes : Type 0
Bytes = List ℕ

abbrev pub u32 : ℕ → ℕ
u32 n = n % 2 ^ 32

-- `io.ReaderAt` with a buffer of the given length: `none` is an error, which a short read is too.
pub record ReaderAt : Type 0 where
  pub read_at : ℕ → ℕ → Option Bytes
  pub full : (offset count : ℕ) (bs : Bytes) → read_at offset count ≡ some bs → length bs ≡ count
  pub bytes :
      (offset count : ℕ) (bs : Bytes) → read_at offset count ≡ some bs → All (λ b. b < 256) bs

-- `start` and `end` are int64; for a uint32 offset and count their sum does not wrap.
unfoldable pub read_minidump_bytes : ReaderAt → ℕ → ℕ → ℕ → Option Bytes
read_minidump_bytes reader size offset byte_count =
    let end_ = offset + byte_count in
    if ltb end_ offset || ltb size end_ then none else reader.read_at offset byte_count

unfoldable pub little_endian : Bytes → ℕ
little_endian [] = 0
little_endian (b ∷ bs) = b + 256 * little_endian bs

unfoldable pub hex_digit : ℕ → ℕ
hex_digit d = if ltb d 10 then b'0' + d else b'a' + (d - 10)

-- `%0wx`, for a number below 16 ^ w
unfoldable pub hex_fixed : ℕ → ℕ → Text
hex_fixed zero n = []
hex_fixed (suc w) n = hex_fixed w (n / 16) ++ hex_digit (n % 16) ∷ []

-- `%x`, for a number below 16 ^ w
unfoldable pub hex_min : ℕ → ℕ → Text
hex_min zero n = []
hex_min (suc w) n =
    let rest = hex_min w (n / 16) ++ hex_digit (n % 16) ∷ [] in
    if ltb n 16 then hex_digit n ∷ [] else rest

-- `hex.EncodeToString`
unfoldable pub hex_bytes : Bytes → Text
hex_bytes [] = []
hex_bytes (b ∷ bs) = hex_fixed 2 b ++ hex_bytes bs

unfoldable pub pdb70_debug_identifier : Bytes → ℕ → Text
pdb70_debug_identifier guid age =
    let prefix =
      hex_fixed 8 (little_endian (take 4 guid))
      ++ (hex_fixed 4 (little_endian (take 2 (drop 4 guid)))
          ++ (hex_fixed 4 (little_endian (take 2 (drop 6 guid)))
              ++ hex_bytes (take 8 (drop 8 guid)))) in
    if age == 0 then prefix else prefix ++ hex_min 8 age

-- the uint16 units of a payload of even length
unfoldable pub utf16_units : Bytes → List ℕ
utf16_units [] = []
utf16_units (a ∷ []) = []
utf16_units (a ∷ b ∷ bs) = (a + 256 * b) ∷ utf16_units bs

-- `utf16.Decode`: an unpaired surrogate becomes U+FFFD
unfoldable pub utf16_decode : List ℕ → Text
utf16_decode [] = []
utf16_decode (r ∷ []) = (if leb 0xd800 r && ltb r 0xe000 then 0xfffd else r) ∷ []
utf16_decode (r ∷ s ∷ rest) =
    let paired = (0x10000 + (r - 0xd800) * 0x400 + (s - 0xdc00)) ∷ utf16_decode rest in
    let alone = 0xfffd ∷ utf16_decode (s ∷ rest) in
    let plain = r ∷ utf16_decode (s ∷ rest) in
    if leb 0xd800 r && ltb r 0xdc00 && leb 0xdc00 s && ltb s 0xe000
    then paired
    else if leb 0xd800 r && ltb r 0xe000
    then alone
    else plain

abbrev pub minidump_max_string_bytes : ℕ
minidump_max_string_bytes = 4096

abbrev pub minidump_max_code_view_bytes : ℕ
minidump_max_code_view_bytes = 4096

abbrev pub code_view_pdb70_signature : Bytes
code_view_pdb70_signature = codes "RSDS"

-- `read` is `readMinidumpBytes` at the reader and the size, which are only passed along.
module _ (read : ℕ → ℕ → Option Bytes) where
  unfoldable pub read_minidump_uint32 : ℕ → Option ℕ
  read_minidump_uint32 offset = do payload ← read offset 4; some (little_endian payload)

  unfoldable pub read_minidump_uint64 : ℕ → Option ℕ
  read_minidump_uint64 offset = do payload ← read offset 8; some (little_endian payload)

  unfoldable pub read_minidump_string : ℕ → Option Text
  read_minidump_string rva = do
    byte_count ← read_minidump_uint32 rva
    fail_if (byte_count == 0)
    fail_if (ltb minidump_max_string_bytes byte_count)
    fail_if (not (byte_count % 2 == 0))
    payload ← read (u32 (rva + 4)) byte_count
    some (utf16_decode (utf16_units payload))

-- `lower` is Unicode's table for `strings.ToLower`.
module _ (read : ℕ → ℕ → Option Bytes) (lower : ℕ → ℕ) where
  unfoldable pub parse_minidump_code_view_debug_id : ℕ → ℕ → Option DebugIdentifier
  parse_minidump_code_view_debug_id rva data_size = do
    fail_if (ltb data_size 24)
    fail_if (ltb minidump_max_code_view_bytes data_size)
    payload ← read rva data_size
    fail_if (not (has_prefix code_view_pdb70_signature payload))
    let age = little_endian (take 4 (drop 20 payload))
    elim (new_debug_identifier lower (pdb70_debug_identifier (take 16 (drop 4 payload)) age)) [
      | ok debug_id ↦ some debug_id
      | err e ↦ none
    ]
