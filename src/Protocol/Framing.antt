-- ===== src/Protocol/Framing.antt =====
-- Envelopes written with a length for every item are read back item by item, whatever bytes the
-- payloads hold.
use gopnique.Base.{
  ℕ, zero, suc, ◌≤◌, ◌≡◌, refl, ◌∙◌, ap, Bool, true, false, List, [], ◌∷◌, ◌++◌, none, some, String,
  All, arith, ◌==◌, length, is_empty, le→ltb-false,
}
use gopnique.Base.Int.{pos, ltbℤ}
use gopnique.Base.Result.{Result, ok, err, ◌>>=◌}
use gopnique.Base.Text.{Text}
use gopnique.Protocol.Lines.{
  Bytes, trim_byte, cut_line, read_limited_line, trim_line, consume_trailing_newline, read_full,
}
use gopnique.Protocol.Items.{EnvelopeHeader, Decoders, EnvelopeState, parse_item_header, apply_item}
use gopnique.Protocol.Envelope.{
  max_envelope_header_size, max_envelope_item_header, max_envelope_item_bytes, max_envelope_items,
  read_item_payload, read_envelope_header, parse_item, parse_items, parse_envelope,
}

-- an item as it is sent
pub record SentItem : Type 0 where
  pub header_line : Bytes
  pub item_type : Text
  pub payload : Bytes

abbrev pub encode_item : SentItem → Bytes → Bytes
encode_item i rest = i.header_line ++ b'\n' ∷ (i.payload ++ b'\n' ∷ rest)

abbrev pub encode_items : List SentItem → Bytes
encode_items [] = []
encode_items (i ∷ items) = encode_item i (encode_items items)

abbrev pub encode_envelope : Bytes → List SentItem → Bytes
encode_envelope header_line items = header_line ++ b'\n' ∷ encode_items items

-- a line as a JSON printer writes it: of some length, with no newline and no carriage return at its end
pub record IsLine (limit : ℕ) (line : Bytes) : Type 0 where
  pub one_line : All (λ c. (c == b'\n') ≡ false) line
  pub no_return : trim_byte b'\r' line ≡ line
  pub fits : length line ≤ limit

-- an item whose header line says its type and the length of its payload
pub record IsFramed {E L : Type 0} (decoders : Decoders E L) (i : SentItem) : Type 0 where
  pub is_line : IsLine max_envelope_item_header i.header_line
  pub typed : is_empty i.item_type ≡ false
  pub says :
      decoders.item_header i.header_line
      ≡ some (record { item_type = i.item_type; length_ = some (pos (length i.payload)) })
  pub fits : length i.payload ≤ max_envelope_item_bytes

cut_line-append :
    (line rest : Bytes)
    → All (λ c. (c == b'\n') ≡ false) line
    → cut_line (line ++ b'\n' ∷ rest) ≡ (line, true, rest)
unfolding cut_line
cut_line-append [] rest h = refl
cut_line-append (c ∷ line) rest h = rw h.0 (rw (cut_line-append line rest h.1) refl)

trim_byte_self : (line : Bytes) → All (λ c. (c == b'\n') ≡ false) line → trim_byte b'\n' line ≡ line
unfolding trim_byte
trim_byte_self [] h = refl
trim_byte_self (c ∷ []) h = rw h.0 refl
trim_byte_self (c ∷ d ∷ line) h = ap (λ l. c ∷ l) (trim_byte_self (d ∷ line) h.1)

trim_line_self : (limit : ℕ) (line : Bytes) → IsLine limit line → trim_line line ≡ line
trim_line_self limit line h = ap (trim_byte b'\r') (trim_byte_self line h.one_line) ∙ h.no_return

read_full-append :
    (payload rest : Bytes) → read_full (length payload) (payload ++ rest) ≡ some (payload, rest)
unfolding read_full
read_full-append [] rest = refl
read_full-append (c ∷ payload) rest = rw (read_full-append payload rest) refl

module _ (at_buffer_end : Bytes → Bool) where
  read_limited_line-append :
      (limit : ℕ) (message : String) (line rest : Bytes)
      → IsLine limit line
      → read_limited_line at_buffer_end limit message (line ++ b'\n' ∷ rest)
        ≡ ok (record { line = line; at_eof = false; rest = rest })
  unfolding read_limited_line
  read_limited_line-append limit message line rest h =
      rw (cut_line-append line rest h.one_line)
        (rw h.no_return (rw (le→ltb-false limit (length line) h.fits) refl))

module _ {E L : Type 0} (decoders : Decoders E L) (at_buffer_end : Bytes → Bool) where
  -- the items applied one after the other
  unfoldable pub apply_items :
      EnvelopeHeader → EnvelopeState E L → List SentItem → Result (EnvelopeState E L)
  apply_items header state [] = ok state
  apply_items header state (i ∷ items) =
      apply_item decoders header state i.item_type i.payload >>= λ state.
      apply_items header state items

  read_item_payload-append :
      (payload rest : Bytes)
      → length payload ≤ max_envelope_item_bytes
      → read_item_payload decoders at_buffer_end
          (payload ++ b'\n' ∷ rest)
          (some (pos (length payload)))
        ≡ ok (payload, rest)
  unfolding read_item_payload consume_trailing_newline
  read_item_payload-append payload rest h =
      let small : ltbℤ (pos max_envelope_item_bytes) (pos (length payload)) ≡ false =
        ground arith in
      rw small (rw (read_full-append payload (b'\n' ∷ rest)) refl)

  not_negative : (n : ℕ) → ltbℤ (pos n) (pos 0) ≡ false
  not_negative n = ground arith

  parse_item-append :
      (header : EnvelopeHeader) (state : EnvelopeState E L) (i : SentItem) (rest : Bytes)
      → IsFramed decoders i
      → parse_item decoders at_buffer_end header state
          (record { line = i.header_line; at_eof = false; rest = i.payload ++ b'\n' ∷ rest })
        ≡ (apply_item decoders header state i.item_type i.payload >>= λ state. ok (state, rest))
  unfolding parse_item parse_item_header
  parse_item-append header state i rest f =
      rw (trim_line_self max_envelope_item_header i.header_line f.is_line) (
        rw f.says (
          rw f.typed (
            rw (not_negative (length i.payload))
              (rw (read_item_payload-append i.payload rest f.fits) refl))))

  -- the bind of a state and of what is left, for an item that is applied
  then_rest :
      (r : Result (EnvelopeState E L)) (rest : Bytes)
      (next : EnvelopeState E L → Bytes → Result (EnvelopeState E L))
      → ((r >>= λ state. ok (state, rest)) >>= λ (state, rest). next state rest)
        ≡ (r >>= λ state. next state rest)
  then_rest (err e) rest next = refl
  then_rest (ok state) rest next = refl

  bind_cong :
      (r : Result (EnvelopeState E L)) (f g : EnvelopeState E L → Result (EnvelopeState E L))
      → ((state : EnvelopeState E L) → f state ≡ g state)
      → (r >>= f) ≡ (r >>= g)
  bind_cong (err e) f g h = refl
  bind_cong (ok state) f g h = h state

  parse_items-encode :
      (left : ℕ) (header : EnvelopeHeader) (state : EnvelopeState E L) (items : List SentItem)
      → length items ≤ left
      → All (IsFramed decoders) items
      → parse_items decoders at_buffer_end left header state (encode_items items)
        ≡ apply_items header state items
  unfolding parse_items apply_items read_limited_line cut_line
  parse_items-encode zero header state [] h f = refl
  parse_items-encode (suc left) header state [] h f = refl
  parse_items-encode zero header state (i ∷ items) h f = absurd (omega arith)
  parse_items-encode (suc left) header state (i ∷ items) h f =
      let rest = i.payload ++ b'\n' ∷ encode_items items in
      rw
        (read_limited_line-append at_buffer_end max_envelope_item_header "item header too large"
          i.header_line rest f.0.is_line)
        (ap (λ r. r >>= λ (state, rest). parse_items decoders at_buffer_end left header state rest)
            (parse_item-append header state i (encode_items items) f.0)
          ∙ then_rest (apply_item decoders header state i.item_type i.payload) (encode_items items)
              (λ state rest. parse_items decoders at_buffer_end left header state rest)
          ∙ bind_cong (apply_item decoders header state i.item_type i.payload) _ _
              (λ state. parse_items-encode left header state items (omega arith) f.1))

  -- An envelope of at most 64 items, each with its length, is parsed as its items in order, whatever
  -- bytes the payloads hold, and up to the limits: a header line of 8 KiB, payloads of 1 MiB.
  pub parse_envelope-encode_envelope :
      (header_line : Bytes) (header : EnvelopeHeader) (items : List SentItem)
      → IsLine max_envelope_header_size header_line
      → decoders.envelope_header header_line ≡ some header
      → length items ≤ max_envelope_items
      → All (IsFramed decoders) items
      → parse_envelope decoders at_buffer_end (encode_envelope header_line items)
        ≡ apply_items header
            (record { event = none; item_type = []; ignored = []; user_reports = []; logs = [] })
            items
  unfolding parse_envelope read_envelope_header
  parse_envelope-encode_envelope header_line header items is_line says h f =
      rw
        (read_limited_line-append at_buffer_end max_envelope_header_size "envelope header too large"
          header_line (encode_items items) is_line)
        (rw (trim_line_self max_envelope_header_size header_line is_line)
          (rw says (parse_items-encode max_envelope_items header _ items h f)))
