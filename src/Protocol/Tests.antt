-- ===== src/Protocol/Tests.antt =====
-- An envelope with an event, whose payload holds a newline, and a session.
use gopnique.Base.{ℕ, ◌≡◌, refl, false, Bool, List, [], ◌∷◌, none, some, All, arith, if◌then◌else◌}
use gopnique.Base.Int.{pos}
use gopnique.Base.Result.{ok, err}
use gopnique.Base.Text.{codes, text_eq, is_space, trim_left, trim_right, trim_space}
use gopnique.Protocol.Lines.{
  Bytes, trim_byte, cut_line, read_limited_line, consume_trailing_newline, read_full,
}
use gopnique.Protocol.Items.{
  Decoders, EnvelopeState, one_of, is_supported_item, is_log_item, is_user_report_item,
  is_ignored_item, is_reserved_item, parse_item_header, parse_legacy_user_report_item,
  parse_user_report_item, parse_log_item, apply_user_report_item, apply_log_item, apply_event_item,
  apply_item,
}
use gopnique.Protocol.Envelope.{
  max_envelope_header_size, max_envelope_items, read_item_payload, read_envelope_header,
  envelope_header_dsn, parse_item, parse_items, parse_envelope,
}
use gopnique.Protocol.Framing.{
  SentItem, encode_envelope, IsLine, IsFramed, apply_items, parse_envelope-encode_envelope,
}
use gopnique.Protocol.Content.{IsContent, parse_envelope-IsContent}

running : Unit {0}
unfolding text_eq is_space trim_left trim_right trim_space trim_byte cut_line read_limited_line
    consume_trailing_newline read_full one_of is_supported_item is_log_item is_user_report_item
    is_ignored_item is_reserved_item parse_item_header parse_legacy_user_report_item
    parse_user_report_item parse_log_item apply_user_report_item apply_log_item apply_event_item
    apply_item read_item_payload read_envelope_header envelope_header_dsn parse_item parse_items
    parse_envelope apply_items
running = tt

abbrev decoders : Decoders Bytes ℕ
decoders = record {
  envelope_header = λ line. some (record { event_id = []; dsn = codes " https://k@h/1 " });
  item_header = λ line.
      if text_eq line (codes "event 3")
      then some (record { item_type = codes "event"; length_ = some (pos 3) })
      else if text_eq line (codes "session 2")
      then some (record { item_type = codes "session"; length_ = some (pos 2) })
      else if text_eq line (codes "log")
      then some (record { item_type = codes "log"; length_ = none })
      else none;
  legacy_user_report = λ payload. none;
  feedback = λ payload. none;
  feedback_context = λ payload. none;
  parse_event_payload = λ payload item_type event_id. ok payload;
  parse_otlp_log_item = λ payload. ok [];
  parse_sentry_log_item = λ payload. ok (1 ∷ []);
}

abbrev never : Bytes → Bool
never line = false

abbrev items : List SentItem
items =
    record { header_line = codes "event 3"; item_type = codes "event"; payload = codes "a\nb" }
    ∷ record { header_line = codes "session 2"; item_type = codes "session"; payload = codes "{}" }
    ∷ []

abbrev state : EnvelopeState Bytes ℕ
state = record {
  event = some (codes "a\nb");
  item_type = codes "event";
  ignored = codes "session" ∷ [];
  user_reports = [];
  logs = [];
}

parsed : parse_envelope decoders never (encode_envelope (codes "{}") items) ≡ ok state
unfolding running
parsed = refl

-- a log behind an event is refused
mixed :
    parse_envelope decoders never (codes "{}\nevent 3\na\nb\nlog\nx\n")
    ≡ err "mixed event and log items"
unfolding running
mixed = refl

incomplete : parse_envelope decoders never (codes "{}\nevent 3\nab") ≡ err "incomplete item payload"
unfolding running
incomplete = refl

header_alone :
    parse_envelope decoders never (codes "{}\r\n")
    ≡ ok (record state { event = none; item_type = []; ignored = [] })
unfolding running
header_alone = refl

dsn : envelope_header_dsn decoders never (codes "{}") ≡ ok (codes "https://k@h/1")
unfolding running
dsn = refl

parse_envelope-IsContent_example : IsContent max_envelope_items state
parse_envelope-IsContent_example =
    parse_envelope-IsContent decoders never (encode_envelope (codes "{}") items) state parsed

header-IsLine : IsLine max_envelope_header_size (codes "{}")
unfolding running
header-IsLine = record { one_line = (refl, (refl, tt)); no_return = refl; fits = omega arith }

items-IsFramed : All (IsFramed decoders) items
unfolding running
items-IsFramed = (
  record {
    is_line = record {
      one_line = (refl, (refl, (refl, (refl, (refl, (refl, (refl, tt)))))));
      no_return = refl;
      fits = omega arith;
    };
    typed = refl;
    says = refl;
    fits = omega arith;
  },
  (
    record {
      is_line = record {
        one_line = (refl, (refl, (refl, (refl, (refl, (refl, (refl, (refl, (refl, tt)))))))));
        no_return = refl;
        fits = omega arith;
      };
      typed = refl;
      says = refl;
      fits = omega arith;
    },
    tt,
  ),
)

parse_envelope-encode_envelope_example :
    parse_envelope decoders never (encode_envelope (codes "{}") items)
    ≡ apply_items decoders never
        (record { event_id = []; dsn = codes " https://k@h/1 " })
        (record { event = none; item_type = []; ignored = []; user_reports = []; logs = [] })
        items
parse_envelope-encode_envelope_example =
    parse_envelope-encode_envelope decoders never (codes "{}")
      (record { event_id = []; dsn = codes " https://k@h/1 " }) items header-IsLine refl
      (omega arith) items-IsFramed
