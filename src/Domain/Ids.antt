-- ===== src/Domain/Ids.antt =====
-- internal/domain/ids.go: the identifiers that are UUIDs. All of them are made by `normalizeUUID` and
-- written by `dashedUUID`. A slice of a shorter text panics in Go; the value of an identifier is
-- empty or has 32 digits.
pub mod RoundTrip
use gopnique.Base.{
  ℕ, Bool, not, ◌&&◌, List, [], ◌∷◌, ◌==◌, length, take, drop, all, is_empty, if◌then◌else◌,
}
use gopnique.Base.Result.{Result, ok, err}
use gopnique.Base.Text.{Text, trim_space, to_lower, remove_all, join}
use gopnique.Domain.Native.{is_hex_digit}

-- `^[0-9a-f]{32}$`
unfoldable pub is_uuid_hex : Text → Bool
is_uuid_hex value = length value == 32 && all is_hex_digit value

unfoldable pub normalize_uuid : (ℕ → ℕ) → Text → Result Text
normalize_uuid lower input =
    let value = remove_all b'-' (to_lower lower (trim_space input)) in
    if is_uuid_hex value then ok value else err "invalid uuid"

unfoldable pub dashed_uuid : Text → Text
dashed_uuid value =
    if is_empty value
    then []
    else join b'-' (
        take 8 value
        ∷ take 4 (drop 8 value)
        ∷ take 4 (drop 12 value)
        ∷ take 4 (drop 16 value)
        ∷ take 12 (drop 20 value)
        ∷ [])
