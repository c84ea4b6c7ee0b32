-- ===== src/Notify/Texts.antt =====
-- What the texts of notifications cannot say.
use gopnique.Base.{
  ℕ, ◌≤◌, ◌≡◌, refl, sym, ◌∙◌, ap, true, false, [], ◌∷◌, ◌++◌, append_assoc, append-nil, is_empty,
  arith, Bool-cases, inl, inr, leb, ltb, length, String, All,
}
use gopnique.Base.Result.{Result, ok, err, ◌>>=◌}
use gopnique.Base.Text.{Text, codes, is_space, trim_left, trim_right, trim_space, contains_any}
use gopnique.Notify.Plan.{
  IssueOpened, runes, decimal, base_url, new_issue_opened, trim_subject_title,
  new_notification_subject, email_issue_opened_subject, email_issue_opened_message,
}
use gopnique.Notify.Ports.{EmailDelivery, EmailMessage, MessageReceipt}
use gopnique.Notify.Messages.{email_message}
use gopnique.Notify.Batch.{not_sent, send_made, message_attempt}

is_empty-last : (s : Text) (d : ℕ) → is_empty (s ++ d ∷ []) ≡ false
is_empty-last [] d = refl
is_empty-last (c ∷ s) d = refl

trim_right-last : (s : Text) (d : ℕ) → is_space d ≡ false → trim_right (s ++ d ∷ []) ≡ s ++ d ∷ []
unfolding trim_right
trim_right-last [] d h = rw h refl
trim_right-last (c ∷ s) d h = rw (trim_right-last s d h) (rw (is_empty-last s d) refl)

contains_any-append :
    (chars s t : Text) → contains_any chars t ≡ true → contains_any chars (s ++ t) ≡ true
unfolding contains_any
contains_any-append chars [] t h = h
contains_any-append chars (c ∷ s) t h = ground (arith, contains_any-append chars s t)

runes_self : (s : Text) → All (λ c. ltb c 0x110000 ≡ true) s → runes s ≡ s
runes_self [] h = refl
runes_self (c ∷ s) h = rw h.0 (ap (λ t. c ∷ t) (runes_self s h.1))

-- a title of valid runes, trimmed, short enough not to be cut, with a line break in it
pub record IsBroken (title start : Text) (last : ℕ) : Type 0 where
  pub ends : title ≡ start ++ last ∷ []
  pub no_space : is_space last ≡ false
  pub trimmed : trim_space title ≡ title
  pub valid : All (λ c. ltb c 0x110000 ≡ true) title
  pub short : length title ≤ 160
  pub broken : contains_any (codes "\r\n") title ≡ true

trim_subject_title-IsBroken :
    (title start : Text) (last : ℕ)
    → IsBroken title start last
    → trim_subject_title title 160 ≡ title
unfolding trim_subject_title
trim_subject_title-IsBroken title start last b = rw b.trimmed (
    rw (runes_self title b.valid)
      (let fits : leb (length title) 160 ≡ true = ground (arith, b.short) in rw fits refl))

new_notification_subject-broken :
    (text : Text)
    → trim_space text ≡ text
    → is_empty text ≡ false
    → contains_any (codes "\r\n") text ≡ true
    → new_notification_subject text ≡ err "notification subject cannot contain line breaks"
unfolding new_notification_subject
new_notification_subject-broken text e f g = rw e (rw f (rw g refl))

-- a text from a letter to a character that is no space
trim_space-ends :
    (c : ℕ) (s : Text) (d : ℕ)
    → is_space c ≡ false
    → is_space d ≡ false
    → trim_space (c ∷ s ++ d ∷ []) ≡ c ∷ s ++ d ∷ []
unfolding trim_space trim_left
trim_space-ends c s d h g = rw h (trim_right-last (c ∷ s) d g)

is_letter : is_space b'N' ≡ false
unfolding is_space
is_letter = refl

subject-IsBroken :
    (number title start : Text) (last : ℕ)
    → IsBroken title start last
    → new_notification_subject (codes "New issue #" ++ (number ++ (codes ": " ++ (title ++ []))))
      ≡ err "notification subject cannot contain line breaks"
subject-IsBroken number title start last b =
    let middle = codes "ew issue #" ++ (number ++ (codes ": " ++ start)) in
    let ends : codes "New issue #" ++ (number ++ (codes ": " ++ (title ++ [])))
        ≡ b'N' ∷ middle ++ last ∷ [] =
      ap (λ t. codes "New issue #" ++ t)
        (ap (λ t. number ++ (codes ": " ++ t)) (append-nil title ∙ b.ends)
          ∙ sym (append_assoc number (codes ": " ++ start) (last ∷ []))) in
    new_notification_subject-broken _
      (ap trim_space ends ∙ trim_space-ends b'N' middle last is_letter b.no_space ∙ sym ends) refl
      (contains_any-append (codes "\r\n") (codes "New issue #") _ (
        contains_any-append (codes "\r\n") number _
          (contains_any-append (codes "\r\n") (codes ": ") _ (rw (append-nil title) b.broken))))

email_issue_opened_subject-IsBroken :
    (opened : IssueOpened) (start : Text) (last : ℕ)
    → IsBroken opened.event.title start last
    → email_issue_opened_subject opened ≡ err "notification subject cannot contain line breaks"
unfolding email_issue_opened_subject
email_issue_opened_subject-IsBroken opened start last b =
    let title = opened.event.title in
    ap
      (λ t.
        new_notification_subject
          (codes "New issue #" ++ (decimal opened.issue_short_id ++ (codes ": " ++ (t ++ [])))))
      (trim_subject_title-IsBroken title start last b)
    ∙ subject-IsBroken (decimal opened.issue_short_id) title start last b

new_issue_opened-event :
    (delivery : EmailDelivery) (opened : IssueOpened)
    → new_issue_opened delivery.event delivery.issue_id delivery.issue_short_id ≡ ok opened
    → opened.event ≡ delivery.event
unfolding new_issue_opened
new_issue_opened-event delivery opened h = ground arith

email_issue_opened_message-IsBroken :
    (opened : IssueOpened) (public_url : Text) (start : Text) (last : ℕ)
    → IsBroken opened.event.title start last
    → (e : String) × (email_issue_opened_message opened public_url ≡ err e)
unfolding email_issue_opened_message
email_issue_opened_message-IsBroken opened public_url start last b =
    elim (Bool-cases (is_empty (base_url public_url))) [
      | inl h ↦ ("public url is required", rw h refl)
      | inr h ↦ (
        "notification subject cannot contain line breaks",
        rw h (rw (email_issue_opened_subject-IsBroken opened start last b) refl),
      )
    ]

-- An email for an event whose title is trimmed, has at most 160 characters, all of them valid, and
-- holds a line break is never sent: whatever the sender would answer, the delivery fails before it.
pub message_attempt-IsBroken :
    (send : EmailMessage → Result MessageReceipt) (public_url : Text) (delivery : EmailDelivery)
    (start : Text) (last : ℕ)
    → IsBroken delivery.event.title start last
    → (reason : Text) × (message_attempt email_message send public_url delivery ≡ not_sent reason)
unfolding message_attempt email_message
message_attempt-IsBroken send public_url delivery start last b =
    made (new_issue_opened delivery.event delivery.issue_id delivery.issue_short_id) refl
  where
    made :
        (r : Result IssueOpened)
        → new_issue_opened delivery.event delivery.issue_id delivery.issue_short_id ≡ r
        → (reason : Text) × (send_made email_message send public_url (
              r >>= λ opened. email_issue_opened_message opened public_url >>= λ message.
              ok (record {
                intent_id = delivery.intent_id;
                target = delivery.target;
                payload = record { subject = message.subject; body = message.body };
              }))
            ≡ not_sent reason)
    made (err e) at_ = (codes e, refl)
    made (ok opened) at_ =
        let same = new_issue_opened-event delivery opened at_ in
        let (e, h) = email_issue_opened_message-IsBroken opened public_url start last (rw same b) in
        (codes e, rw h refl)
