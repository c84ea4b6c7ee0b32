-- ===== src/Protocol/Envelope.antt =====
-- internal/adapters/sentryprotocol/envelope.go: `ParseEnvelope`, its loop over the items, and
-- `EnvelopeHeaderDSN`.
use gopnique.Base.{ℕ, zero, suc, Bool, ◌&&◌, [], Option, none, some, is_empty, if◌then◌else◌}
use gopnique.Base.Int.{ℤ, pos, pos_part, ltbℤ}
use gopnique.Base.Result.{Result, ok, err, ◌>>=◌, ◌>>◌, reject_if}
use gopnique.Base.Text.{Text, trim_space}
use gopnique.Protocol.Lines.{
  Bytes, Line, read_limited_line, trim_line, consume_trailing_newline, read_full,
}
use gopnique.Protocol.Items.{
  EnvelopeHeader, Decoders, EnvelopeState, decoded, parse_item_header, apply_item,
}

abbrev pub max_envelope_header_size : ℕ
max_envelope_header_size = 8192

abbrev pub max_envelope_item_header : ℕ
max_envelope_item_header = 8192

abbrev pub max_envelope_item_bytes : ℕ
max_envelope_item_bytes = 1048576

abbrev pub max_envelope_items : ℕ
max_envelope_items = 64

abbrev pub full_payload : Option (Bytes × Bytes) → Result (Bytes × Bytes)
full_payload none = err "incomplete item payload"
full_payload (some (payload, rest)) = ok (payload, consume_trailing_newline rest)

module _ {E L : Type 0} (decoders : Decoders E L) (at_buffer_end : Bytes → Bool) where
  -- the payload, and the bytes behind it
  unfoldable pub read_item_payload : Bytes → Option ℤ → Result (Bytes × Bytes)
  read_item_payload input none = do
    next ← read_limited_line at_buffer_end max_envelope_item_bytes "item payload too large" input
    ok (trim_line next.line, next.rest)
  read_item_payload input (some n) =
      if ltbℤ (pos max_envelope_item_bytes) n
      then err "item payload too large"
      else full_payload (read_full (pos_part n) input)

  unfoldable pub read_envelope_header : Bytes → Result (EnvelopeHeader × Bytes)
  read_envelope_header input = do
    next ←
        read_limited_line at_buffer_end max_envelope_header_size "envelope header too large" input
    reject_if (next.at_eof && is_empty next.line) "empty envelope"
    header ← decoded "invalid envelope header" (decoders.envelope_header (trim_line next.line))
    ok (header, next.rest)

  unfoldable pub envelope_header_dsn : Bytes → Result Text
  envelope_header_dsn payload =
      read_envelope_header payload >>= λ (header, rest). ok (trim_space header.dsn)

  -- one item behind its header line: the new state, and the bytes behind the item
  unfoldable pub parse_item :
      EnvelopeHeader → EnvelopeState E L → Line → Result (EnvelopeState E L × Bytes)
  parse_item header state next = do
    item ← parse_item_header decoders (trim_line next.line)
    (payload, rest) ← read_item_payload next.rest item.length_
    state ← apply_item decoders header state item.item_type payload
    ok (state, rest)

  -- what the line that is read next means: the end, an error, or an item
  abbrev pub ends : Line → Bool
  ends next = next.at_eof && is_empty next.line

  -- the loop, which may take `left` more items
  unfoldable pub parse_items :
      ℕ → EnvelopeHeader → EnvelopeState E L → Bytes → Result (EnvelopeState E L)
  parse_items zero header state input = do
    next ← read_limited_line at_buffer_end max_envelope_item_header "item header too large" input
    if ends next then ok state else if next.at_eof then err "EOF" else err "too many envelope items"
  parse_items (suc left) header state input = do
    next ← read_limited_line at_buffer_end max_envelope_item_header "item header too large" input
    let more = parse_item header state next >>= λ (state, rest). parse_items left header state rest
    if ends next then ok state else if next.at_eof then err "EOF" else more

  unfoldable pub parse_envelope : Bytes → Result (EnvelopeState E L)
  parse_envelope payload = do
    (header, rest) ← read_envelope_header payload
    parse_items max_envelope_items header
        (record { event = none; item_type = []; ignored = []; user_reports = []; logs = [] }) rest
