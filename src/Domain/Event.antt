-- ===== src/Domain/Event.antt =====
-- internal/domain: event kinds and canonical events (event.go), fingerprints (fingerprint.go). An
-- identifier is the text that its `String` method gives. The fields of an event that are only
-- carried along (tags, attachments, stack traces, native frames, transaction data) are left out.
use gopnique.Base.{ℕ, Bool, true, false, not, ◌&&◌, ◌||◌, leb, ◌==◌, length, all, is_empty, List}
use gopnique.Base.Result.{Result, ok, ◌>>◌, reject_if}
use gopnique.Base.Text.{Text, trim_space, to_lower}

pub data EventKind : Type 0 where
  error_kind : EventKind
  default_kind : EventKind
  transaction_kind : EventKind
  other_kind : Text → EventKind

pub record CanonicalEvent : Type 0 where
  pub organization_id : Text
  pub project_id : Text
  pub event_id : Text
  pub kind : EventKind
  pub level : Text
  pub title : Text
  pub platform : Text
  pub default_grouping_parts : List Text
  pub explicit_fingerprint : List Text

unfoldable pub creates_issue : EventKind → Bool
creates_issue error_kind = true
creates_issue default_kind = true
creates_issue transaction_kind = false
creates_issue (other_kind k) = false

pub record Fingerprint : Type 0 where
  pub algorithm : Text
  pub value : Text

abbrev is_fingerprint_digit : ℕ → Bool
is_fingerprint_digit c = leb b'0' c && leb c b'9' || leb b'a' c && leb c b'f'

unfoldable pub new_fingerprint : (ℕ → ℕ) → Text → Text → Result Fingerprint
new_fingerprint lower algorithm value = do
  let algorithm = trim_space algorithm
  let value = trim_space (to_lower lower value)
  reject_if (is_empty algorithm) "fingerprint algorithm is required"
  reject_if (not (length value == 64 && all is_fingerprint_digit value))
      "fingerprint value must be sha256 hex"
  ok (record { algorithm = algorithm; value = value })
