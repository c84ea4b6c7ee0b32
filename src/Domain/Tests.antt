-- ===== src/Domain/Tests.antt =====
-- An identifier, read and written, and the theorems at it.
use gopnique.Base.{ℕ, ◌≡◌, refl, true}
use gopnique.Base.Result.{ok}
use gopnique.Base.Text.{
  Text, codes, trim_space, trim_left, trim_right, is_space, to_lower, remove_all, join,
}
use gopnique.Domain.Native.{is_hex_digit}
use gopnique.Domain.Ids.{is_uuid_hex, normalize_uuid, dashed_uuid}

running : Unit {0}
unfolding trim_space trim_left trim_right is_space to_lower remove_all join is_hex_digit is_uuid_hex
    normalize_uuid dashed_uuid
running = tt

abbrev keep : ℕ → ℕ
keep c = c

abbrev sample : Text
sample = codes "0123456789abcdef0123456789abcdef"

sample-read : normalize_uuid keep (codes " 01234567-89AB-cdef0123456789abcdef ") ≡ ok sample
unfolding running
sample-read = refl

sample-written : dashed_uuid sample ≡ codes "01234567-89ab-cdef-0123-456789abcdef"
unfolding running
sample-written = refl

sample-valid : is_uuid_hex sample ≡ true
unfolding running
sample-valid = refl
