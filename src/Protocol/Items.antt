-- ===== src/Protocol/Items.antt =====
-- Items of an envelope (envelope.go): their headers, the state that they build up, and what each adds.
-- The parsers of event and log payloads and `json.Unmarshal` are parameters.
use gopnique.Base.{
  Bool, true, false, not, ◌||◌, List, [], ◌∷◌, ◌++◌, Option, none, some, String, is_empty,
  if◌then◌else◌,
}
use gopnique.Base.Int.{ℤ, pos, ltbℤ}
use gopnique.Base.Result.{Result, ok, err, ◌>>=◌, ◌>>◌, reject_if}
use gopnique.Base.Text.{Text, codes, text_eq, trim_space}
use gopnique.Protocol.Lines.{Bytes}

pub record EnvelopeHeader : Type 0 where
  pub event_id : Text
  pub dsn : Text

pub record ItemHeader : Type 0 where
  pub item_type : Text
  pub length_ : Option ℤ

pub record UserReportItem : Type 0 where
  pub event_id : Text
  pub name : Text
  pub email : Text
  pub comments : Text

-- `legacyUserReportPayload`
pub record LegacyUserReport : Type 0 where
  pub event_id : Text
  pub name : Text
  pub email : Text
  pub comments : Text

-- `feedbackPayload`, with the raw context "feedback"
pub record Feedback : Type 0 where
  pub event_id : Text
  pub context : Bytes

pub record FeedbackContext : Type 0 where
  pub message : Text
  pub name : Text
  pub contact_email : Text
  pub associated_event_id : Text

-- `json.Unmarshal` into the types of the file, and the parsers of payload.go and of the log files for
-- one project and time; `E` is the type of events, `L` that of log records
pub record Decoders (E L : Type 0) : Type 0 where
  pub envelope_header : Bytes → Option EnvelopeHeader
  pub item_header : Bytes → Option ItemHeader
  pub legacy_user_report : Bytes → Option LegacyUserReport
  pub feedback : Bytes → Option Feedback
  pub feedback_context : Bytes → Option FeedbackContext
  pub parse_event_payload : Bytes → Text → Text → Result E
  pub parse_otlp_log_item : Bytes → Result (List L)
  pub parse_sentry_log_item : Bytes → Result (List L)

-- `envelopeState`; `event` and `hasEvent` in one
pub record EnvelopeState (E L : Type 0) : Type 0 where
  pub event : Option E
  pub item_type : Text
  pub ignored : List Text
  pub user_reports : List UserReportItem
  pub logs : List L

unfoldable pub one_of : Text → List Text → Bool
one_of s [] = false
one_of s (t ∷ texts) = text_eq s t || one_of s texts

unfoldable pub is_supported_item : Text → Bool
is_supported_item item_type = one_of item_type (codes "event" ∷ codes "transaction" ∷ [])

unfoldable pub is_log_item : Text → Bool
is_log_item item_type = one_of item_type (codes "log" ∷ codes "otel_log" ∷ [])

unfoldable pub is_user_report_item : Text → Bool
is_user_report_item item_type = one_of item_type (codes "user_report" ∷ codes "feedback" ∷ [])

unfoldable pub is_ignored_item : Text → Bool
is_ignored_item item_type = one_of item_type (
    codes "attachment"
    ∷ codes "check_in"
    ∷ codes "client_report"
    ∷ codes "profile"
    ∷ codes "profile_chunk"
    ∷ codes "replay_event"
    ∷ codes "replay_recording"
    ∷ codes "replay_video"
    ∷ codes "session"
    ∷ codes "sessions"
    ∷ codes "span"
    ∷ [])

unfoldable pub is_reserved_item : Text → Bool
is_reserved_item item_type =
    one_of item_type (codes "form_data" ∷ codes "security" ∷ codes "unreal_report" ∷ [])

-- a decoding, or the protocol error
abbrev pub decoded {ℓ} : {A : Type ℓ} → String → Option A → Result A
decoded message none = err message
decoded message (some a) = ok a

abbrev pub is_negative : Option ℤ → Bool
is_negative none = false
is_negative (some n) = ltbℤ n (pos 0)

module _ {E L : Type 0} (decoders : Decoders E L) where
  unfoldable pub parse_item_header : Bytes → Result ItemHeader
  parse_item_header line = do
    header ← decoded "invalid item header" (decoders.item_header line)
    reject_if (is_empty header.item_type) "item type is required"
    reject_if (is_negative header.length_) "item length is invalid"
    ok header

  unfoldable pub parse_legacy_user_report_item : Bytes → Result UserReportItem
  parse_legacy_user_report_item payload = do
    legacy ← decoded "invalid user report" (decoders.legacy_user_report payload)
    ok (record {
      event_id = trim_space legacy.event_id;
      name = trim_space legacy.name;
      email = trim_space legacy.email;
      comments = trim_space legacy.comments;
    })

  unfoldable pub parse_feedback_item : Bytes → Result UserReportItem
  parse_feedback_item payload = do
    feedback ← decoded "invalid feedback" (decoders.feedback payload)
    reject_if (is_empty feedback.context) "feedback context is required"
    context ← decoded "invalid feedback context" (decoders.feedback_context feedback.context)
    let associated = trim_space context.associated_event_id
    ok (record {
      event_id = if is_empty associated then trim_space feedback.event_id else associated;
      name = trim_space context.name;
      email = trim_space context.contact_email;
      comments = trim_space context.message;
    })

  unfoldable pub parse_user_report_item : Text → Bytes → Result UserReportItem
  parse_user_report_item item_type payload =
      if text_eq item_type (codes "feedback")
      then parse_feedback_item payload
      else parse_legacy_user_report_item payload

  unfoldable pub parse_log_item : Text → Bytes → Result (List L)
  parse_log_item item_type payload =
      if text_eq item_type (codes "otel_log")
      then decoders.parse_otlp_log_item payload
      else decoders.parse_sentry_log_item payload

  abbrev pub has_event : Option E → Bool
  has_event none = false
  has_event (some e) = true

  unfoldable pub apply_user_report_item :
      EnvelopeState E L → Text → Bytes → Result (EnvelopeState E L)
  apply_user_report_item state item_type payload = do
    report ← parse_user_report_item item_type payload
    ok (record state { user_reports = state.user_reports ++ report ∷ [] })

  unfoldable pub apply_log_item : EnvelopeState E L → Text → Bytes → Result (EnvelopeState E L)
  apply_log_item state item_type payload = do
    reject_if (has_event state.event) "mixed event and log items"
    logs ← parse_log_item item_type payload
    ok (record state { logs = state.logs ++ logs; item_type = item_type })

  abbrev pub ignore_item : EnvelopeState E L → Text → Result (EnvelopeState E L)
  ignore_item state item_type = ok (record state { ignored = state.ignored ++ item_type ∷ [] })

  unfoldable pub apply_event_item :
      EnvelopeHeader → EnvelopeState E L → Text → Bytes → Result (EnvelopeState E L)
  apply_event_item header state item_type payload = do
    reject_if (has_event state.event) "multiple supported event items"
    reject_if (not (is_empty state.logs)) "mixed log and event items"
    event ← decoders.parse_event_payload payload item_type header.event_id
    ok (record state { event = some event; item_type = item_type })

  unfoldable pub apply_item :
      EnvelopeHeader → EnvelopeState E L → Text → Bytes → Result (EnvelopeState E L)
  apply_item header state item_type payload =
      if is_reserved_item item_type
      then err "reserved item type"
      else if is_user_report_item item_type
      then apply_user_report_item state item_type payload
      else if is_log_item item_type
      then apply_log_item state item_type payload
      else if is_ignored_item item_type
      then ignore_item state item_type
      else if not (is_supported_item item_type)
      then ignore_item state item_type
      else apply_event_item header state item_type payload
