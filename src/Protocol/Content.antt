-- ===== src/Protocol/Content.antt =====
-- What a parsed envelope can hold.
use gopnique.Base.{
  ℕ, zero, suc, ◌+◌, ◌≤◌, ◌≡◌, refl, ap, subst, Bool, true, false, not, List, [], ◌∷◌, Option, none,
  some, ◌⊎◌, inl, inr, arith, length, length-append, is_empty, Bool-cases, String, if◌then◌else◌,
}
use gopnique.Base.Result.{Result, ok, err, reject_if, >>=-eq-ok}
use gopnique.Base.Text.{Text}
use gopnique.Protocol.Lines.{Bytes, Line, read_limited_line, trim_line}
use gopnique.Protocol.Items.{
  EnvelopeHeader, Decoders, EnvelopeState, has_event, parse_item_header, parse_user_report_item,
  parse_log_item, is_reserved_item, is_user_report_item, is_log_item, is_ignored_item,
  is_supported_item, apply_user_report_item, apply_log_item, apply_event_item, ignore_item,
  apply_item,
}
use gopnique.Protocol.Envelope.{
  max_envelope_items, max_envelope_item_header, read_item_payload, read_envelope_header, parse_item,
  ends, parse_items, parse_envelope,
}

abbrev pub event_count {ℓ} : {E : Type ℓ} → Option E → ℕ
event_count none = 0
event_count (some e) = 1

passed : (bad : Bool) (message : String) (u : Unit {0}) → reject_if bad message ≡ ok u → bad ≡ false
passed false message u h = refl
passed true message u h = absurd (cc h)

is_empty-nil {ℓ} : {A : Type ℓ} (xs : List A) → not (is_empty xs) ≡ false → xs ≡ []
is_empty-nil [] h = refl
is_empty-nil (x ∷ xs) h = cc h

no_event :
    {E L : Type 0} (decoders : Decoders E L) (o : Option E)
    → has_event decoders o ≡ false
    → o ≡ none
no_event decoders none h = refl
no_event decoders (some e) h = cc h

ok_inj {ℓ} : {A : Type ℓ} {a b : A} → ok a ≡ ok b → a ≡ b
ok_inj h = cc h

module _ {E L : Type 0} where
  -- an event or logs but not both, and `n` items at most beside the logs
  pub record IsContent (n : ℕ) (state : EnvelopeState E L) : Type 0 where
    pub exclusive : (state.event ≡ none) ⊎ (state.logs ≡ [])
    pub bounded : event_count state.event + length state.ignored + length state.user_reports ≤ n

  IsContent-weaken :
      (m n : ℕ) (state : EnvelopeState E L) → m ≤ n → IsContent m state → IsContent n state
  IsContent-weaken m n state h c = record { exclusive = c.exclusive; bounded = omega arith }

  module _ (decoders : Decoders E L) (n : ℕ) (state : EnvelopeState E L)
      (content : IsContent n state) where
    user_report-IsContent :
        (item_type : Text) (payload : Bytes) (next : EnvelopeState E L)
        → apply_user_report_item decoders state item_type payload ≡ ok next
        → IsContent (suc n) next
    unfolding apply_user_report_item
    user_report-IsContent item_type payload next h =
        let (report, e, g) = >>=-eq-ok (parse_user_report_item decoders item_type payload) _ h in
        let grows = length-append state.user_reports (report ∷ []) in
        subst (IsContent (suc n)) (ok_inj g) (record {
          exclusive = content.exclusive;
          bounded = omega (arith, grows, content.bounded);
        })

    log-IsContent :
        (item_type : Text) (payload : Bytes) (next : EnvelopeState E L)
        → apply_log_item decoders state item_type payload ≡ ok next
        → IsContent (suc n) next
    unfolding apply_log_item
    log-IsContent item_type payload next h =
        let (u, e, h1) =
          >>=-eq-ok (reject_if (has_event decoders state.event) "mixed event and log items") _ h in
        let (logs, e1, g) = >>=-eq-ok (parse_log_item decoders item_type payload) _ h1 in
        subst (IsContent (suc n)) (ok_inj g) (record {
          exclusive =
              inl (no_event decoders state.event (passed _ "mixed event and log items" u e));
          bounded = omega (arith, content.bounded);
        })

    event-IsContent :
        (header : EnvelopeHeader) (item_type : Text) (payload : Bytes) (next : EnvelopeState E L)
        → apply_event_item decoders header state item_type payload ≡ ok next
        → IsContent (suc n) next
    unfolding apply_event_item
    event-IsContent header item_type payload next h =
        let (u, e, h1) =
          >>=-eq-ok (reject_if (has_event decoders state.event) "multiple supported event items") _
            h in
        let (v, e1, h2) =
          >>=-eq-ok (reject_if (not (is_empty state.logs)) "mixed log and event items") _ h1 in
        let (event, e2, g) =
          >>=-eq-ok (decoders.parse_event_payload payload item_type header.event_id) _ h2 in
        let before =
          ap event_count
            (no_event decoders state.event (passed _ "multiple supported event items" u e)) in
        subst (IsContent (suc n)) (ok_inj g) (record {
          exclusive = inr (is_empty-nil state.logs (passed _ "mixed log and event items" v e1));
          bounded = omega (arith, before, content.bounded);
        })

    ignore-IsContent :
        (item_type : Text) (next : EnvelopeState E L)
        → ignore_item decoders state item_type ≡ ok next
        → IsContent (suc n) next
    ignore-IsContent item_type next h =
        let grows = length-append state.ignored (item_type ∷ []) in
        subst (IsContent (suc n)) (ok_inj h) (record {
          exclusive = content.exclusive;
          bounded = omega (arith, grows, content.bounded);
        })

    apply_item-IsContent :
        (header : EnvelopeHeader) (item_type : Text) (payload : Bytes) (next : EnvelopeState E L)
        → apply_item decoders header state item_type payload ≡ ok next
        → IsContent (suc n) next
    unfolding apply_item
    apply_item-IsContent header item_type payload next h =
        elim (Bool-cases (is_reserved_item item_type)) [
          | inl e ↦ absurd (cc (rw e at h))
          | inr e ↦ elim (Bool-cases (is_user_report_item item_type)) [
            | inl e1 ↦ user_report-IsContent item_type payload next (rw e1 at (rw e at h))
            | inr e1 ↦ elim (Bool-cases (is_log_item item_type)) [
              | inl e2 ↦ log-IsContent item_type payload next (rw e2 at (rw e1 at (rw e at h)))
              | inr e2 ↦ elim (Bool-cases (is_ignored_item item_type)) [
                | inl e3 ↦
                    ignore-IsContent item_type next (rw e3 at (rw e2 at (rw e1 at (rw e at h))))
                | inr e3 ↦ elim (Bool-cases (is_supported_item item_type)) [
                  | inl e4 ↦
                      event-IsContent header item_type payload next
                        (rw e4 at (rw e3 at (rw e2 at (rw e1 at (rw e at h)))))
                  | inr e4 ↦
                      ignore-IsContent item_type next
                        (rw e4 at (rw e3 at (rw e2 at (rw e1 at (rw e at h)))))
                ]
              ]
            ]
          ]
        ]

  module _ (decoders : Decoders E L) (at_buffer_end : Bytes → Bool) where
    -- the loop's last test
    more_items :
        (next : Line) (state final : EnvelopeState E L) (more : Result (EnvelopeState E L))
        → (if ends decoders at_buffer_end next
            then ok state
            else if next.at_eof
            then err "EOF"
            else more)
          ≡ ok final
        → (state ≡ final) ⊎ (more ≡ ok final)
    more_items next state final more h = by_tests (ends decoders at_buffer_end next) next.at_eof h
      where
        by_tests :
            (a b : Bool)
            → (if a then ok state else if b then err "EOF" else more) ≡ ok final
            → (state ≡ final) ⊎ (more ≡ ok final)
        by_tests true b g = inl (ok_inj g)
        by_tests false true g = absurd (cc g)
        by_tests false false g = inr g

    parse_items-IsContent :
        (left n : ℕ) (header : EnvelopeHeader) (state final : EnvelopeState E L) (input : Bytes)
        → IsContent n state
        → parse_items decoders at_buffer_end left header state input ≡ ok final
        → IsContent (left + n) final
    unfolding parse_items parse_item
    parse_items-IsContent zero n header state final input content h =
        let (next, e, g) =
          >>=-eq-ok
            (read_limited_line at_buffer_end max_envelope_item_header "item header too large" input)
            _ h in
        elim (more_items next state final (err "too many envelope items") g) [
          | inl same ↦
              subst (IsContent (0 + n)) same
                (IsContent-weaken n (0 + n) state (omega arith) content)
          | inr never ↦ absurd (cc never)
        ]
    parse_items-IsContent (suc left) n header state final input content h =
        let (next, e, g) =
          >>=-eq-ok
            (read_limited_line at_buffer_end max_envelope_item_header "item header too large" input)
            _ h in
        elim (more_items next state final _ g) [
          | inl same ↦
              subst (IsContent (suc left + n)) same
                (IsContent-weaken n (suc left + n) state (omega arith) content)
          | inr more ↦
              let ((state', rest), e1, g1) =
                >>=-eq-ok (parse_item decoders at_buffer_end header state next) _ more in
              let (item, e2, g2) =
                >>=-eq-ok (parse_item_header decoders (trim_line next.line)) _ e1 in
              let ((payload, rest'), e3, g3) =
                >>=-eq-ok (read_item_payload decoders at_buffer_end next.rest item.length_) _ g2 in
              let (state'', e4, g4) =
                >>=-eq-ok (apply_item decoders header state item.item_type payload) _ g3 in
              let same : state'' ≡ state' = ap (λ p. p.0) (ok_inj g4) in
              let kept =
                apply_item-IsContent decoders n state content header item.item_type payload state''
                  e4 in
              IsContent-weaken (left + suc n) (suc left + n) final (omega arith) (
                parse_items-IsContent left (suc n) header state' final rest
                  (subst (IsContent (suc n)) same kept) g1)
        ]

    -- An envelope that is accepted holds an event or logs but not both, at most one event, and with the
    -- user reports and the ignored items no more than 64 of these.
    pub parse_envelope-IsContent :
        (payload : Bytes) (state : EnvelopeState E L)
        → parse_envelope decoders at_buffer_end payload ≡ ok state
        → IsContent max_envelope_items state
    unfolding parse_envelope
    parse_envelope-IsContent payload state h =
        let ((header, rest), e, g) =
          >>=-eq-ok (read_envelope_header decoders at_buffer_end payload) _ h in
        parse_items-IsContent max_envelope_items 0 header _ state rest
          (record { exclusive = inl refl; bounded = omega arith }) g
