-- ===== src/Ingest/TxStore/Journal.antt =====
-- What `txStore` promises of recorded events.
use gopnique.Base.{
  ◌≡◌, refl, sym, ap, ◌∙◌, subst, arith, Bool, true, false, List, [], ◌∷◌, ◌++◌, Bool-cases, inl,
  inr,
}
use gopnique.Base.Action.{Action, >>=-eq-ok, lift}
use gopnique.Base.Result.{Result, ok, err}
use gopnique.Base.Text.{Text}
use gopnique.Base.Text.Laws.{text_eq_self}
use gopnique.Ingest.Workflow.{AcceptedEvent, EventAppendResult, AppendEffect}
use gopnique.Ingest.Transaction.Delivery.{IsJournal}
use gopnique.Ingest.TxStore.{
  EventRow, Database, has_event, Statements, with_events, on_rest, tx_effect, answered, tx_exists,
  inserted, insert_event, append_details, tx_append, tx_store,
}

has_event-last :
    (rows : List EventRow) (row : EventRow)
    → has_event row.accepted.event.project_id row.accepted.event.event_id (rows ++ row ∷ []) ≡ true
unfolding has_event
has_event-last [] row =
    rw (text_eq_self row.accepted.event.project_id)
      (rw (text_eq_self row.accepted.event.event_id) refl)
has_event-last (q ∷ rows) row = ground (arith, has_event-last rows row)

module _ {R : Type 0} where
  abbrev pub Recorded : Database R → Text → Text → Type 0
  Recorded db project_id event_id = has_event project_id event_id db.events ≡ true

  with_events-events :
      {A : Type 0} (events : List EventRow) (m : Result A × R) (r : Result A) (t : Database R)
      → with_events events m ≡ (r, t)
      → t.events ≡ events
  with_events-events events (a, rest) r t h = ap (λ p. p.1.events) (sym h)

  -- A statement on other tables keeps the events.
  on_rest-events :
      {A : Type 0} (action : List EventRow → Action R A) (s t : Database R) (r : Result A)
      → on_rest action s ≡ (r, t)
      → t.events ≡ s.events
  on_rest-events action s t r h = with_events-events s.events (action s.events s.rest) r t h

  exists-answer :
      (q : Result (Unit {0})) (b c : Bool) (s t : Database R)
      → answered q c s ≡ (ok b, t)
      → (b ≡ c) × (t ≡ s)
  exists-answer (err e) b c s t h = cc h
  exists-answer (ok u) b c s t h = (ground (arith, h), ap (λ p. p.1) (sym h))

  insert-Recorded :
      (q : Result (Unit {0})) (known b : Bool) (row : EventRow) (s t : Database R)
      → has_event row.accepted.event.project_id row.accepted.event.event_id s.events ≡ known
      → inserted q known row s ≡ (ok b, t)
      → Recorded t row.accepted.event.project_id row.accepted.event.event_id
  insert-Recorded (err e) known b row s t k h = cc h
  insert-Recorded (ok u) true b row s t k h =
      subst (λ w. Recorded w row.accepted.event.project_id row.accepted.event.event_id)
        (ap (λ p. p.1) h) k
  insert-Recorded (ok u) false b row s t k h =
      subst (λ w. Recorded w row.accepted.event.project_id row.accepted.event.event_id)
        (ap (λ p. p.1) h) (has_event-last s.events row)

  append_details-events :
      (statements : Statements R) (event_row_id : Text) (accepted : AcceptedEvent)
      (s t : Database R) (a : EventAppendResult)
      → append_details statements event_row_id accepted.event s ≡ (ok a, t)
      → t.events ≡ s.events
  unfolding append_details
  append_details-events statements event_row_id accepted s t a h =
      let stats : List EventRow → Action R (Unit {0}) =
        λ events. statements.upsert_project_hourly_stats events accepted.event in
      let tags : List EventRow → Action R (Unit {0}) =
        λ events. statements.insert_event_tags events event_row_id accepted.event in
      let transaction : List EventRow → Action R (Unit {0}) =
        λ events. statements.insert_transaction_event events event_row_id accepted.event in
      let (u, m0, e0, h0) = >>=-eq-ok (on_rest stats) _ s h in
      let (v, m1, e1, h1) = >>=-eq-ok (on_rest tags) _ m0 h0 in
      let (w, m2, e2, h2) = >>=-eq-ok (on_rest transaction) _ m1 h1 in
      ap (λ p. p.1.events) (sym h2)
      ∙ on_rest-events transaction m1 m2 (ok w) e2
      ∙ on_rest-events tags m0 m1 (ok v) e1
      ∙ on_rest-events stats s m0 (ok u) e0

  tx_append-Recorded :
      (statements : Statements R) (s t : Database R) (accepted : AcceptedEvent)
      (a : EventAppendResult)
      → tx_append statements accepted s ≡ (ok a, t)
      → Recorded t accepted.event.project_id accepted.event.event_id
  unfolding tx_append insert_event
  tx_append-Recorded statements s t accepted a h =
      let p = accepted.event.project_id in
      let e = accepted.event.event_id in
      let (event_row_id, m0, e0, h0) = >>=-eq-ok (λ db. (statements.random_uuid db, db)) _ s h in
      let (payload, m1, e1, h1) =
        >>=-eq-ok (lift (statements.canonical_payload_json accepted)) _ m0 h0 in
      let row : EventRow = record {
        id_ = event_row_id;
        accepted = accepted;
        canonical_payload = payload;
      } in
      let (added, m2, e2, h2) = >>=-eq-ok (insert_event statements row) _ m1 h1 in
      let k =
        insert-Recorded (statements.exec_append row.id_ accepted m1) _ added row m1 m2 refl e2 in
      elim (Bool-cases added) [
        | inl d ↦
            let same = append_details-events statements event_row_id accepted m2 t a (rw d at h2) in
            rw same k
        | inr d ↦ subst (λ w. Recorded w p e) (ap (λ q. q.1) (rw d at h2)) k
      ]

  pub tx_store-IsJournal :
      (statements : Statements R) (append_effect : List EventRow → AppendEffect R)
      → IsJournal Recorded (tx_store statements) (tx_effect append_effect)
  unfolding tx_exists
  tx_store-IsJournal statements append_effect = record {
    finds = λ s t p e b k h.
        let (same, at_) = exists-answer (statements.scan_exists p e s) b _ s t h in (same ∙ k, at_);
    found = λ s t p e h.
        let (same, at_) = exists-answer (statements.scan_exists p e s) true _ s t h in
        subst (λ w. Recorded w p e) (sym at_) (sym same);
    appends = λ s t accepted a h. tx_append-Recorded statements s t accepted a h;
    effect_keeps = λ s t accepted u p e h k.
        rw (on_rest-events (λ events. append_effect events accepted) s t (ok u) h) k;
    apply_keeps = λ s t plan change p e h k.
        rw (on_rest-events (λ events. statements.apply events plan) s t (ok change) h) k;
    enqueue_keeps = λ s t accepted change n p e h k.
        rw
          (on_rest-events (λ events. statements.enqueue_issue_opened events accepted change) s t
            (ok n) h)
          k;
  }
