-- ===== src/Ingest/Transaction/Delivery.antt =====
-- An event that is delivered twice.
use gopnique.Base.{
  ◌≡◌, ◌≢◌, refl, sym, ◌∙◌, ap, Bool, true, false, arith, Bool-cases, inl, inr, if◌then◌else◌,
  is_empty, subst,
}
use gopnique.Base.Action.{>>=-eq-ok, ◌>>=◌, return_, lift}
use gopnique.Base.Result.{ok}
use gopnique.Base.Text.{Text}
use gopnique.Domain.Event.{creates_issue}
use gopnique.Ingest.Workflow.{
  AcceptedEvent, IssueChange, IssueOpenedEnqueueResult, IssuePlan, EventAppendResult, IngestReceipt,
  quota_rejected, Ports, AppendEffect, new_issue_plan, issue_receipt, duplicate_receipt,
  quota_receipt, finish_issue, index_issue, store_event, ingest_program,
}

-- What is needed of the ports: an answer of `exists` finds exactly the recorded events and changes
-- nothing, `append` leaves its event recorded, and the calls behind it delete no event.
pub record IsJournal {S : Type 0} (Recorded : S → Text → Text → Type 0) (ports : Ports S)
    (append_effect : AppendEffect S) : Type 0 where
  pub finds :
      (s t : S) (p e : Text) (b : Bool)
      → Recorded s p e
      → ports.exists_ p e s ≡ (ok b, t)
      → (b ≡ true) × (t ≡ s)
  pub found : (s t : S) (p e : Text) → ports.exists_ p e s ≡ (ok true, t) → Recorded t p e
  pub appends :
      (s t : S) (accepted : AcceptedEvent) (a : EventAppendResult)
      → ports.append accepted s ≡ (ok a, t)
      → Recorded t accepted.event.project_id accepted.event.event_id
  pub effect_keeps :
      (s t : S) (accepted : AcceptedEvent) (u : Unit {0}) (p e : Text)
      → append_effect accepted s ≡ (ok u, t)
      → Recorded s p e
      → Recorded t p e
  pub apply_keeps :
      (s t : S) (plan : IssuePlan) (change : IssueChange) (p e : Text)
      → ports.apply plan s ≡ (ok change, t)
      → Recorded s p e
      → Recorded t p e
  pub enqueue_keeps :
      (s t : S) (accepted : AcceptedEvent) (change : IssueChange) (n : IssueOpenedEnqueueResult)
      (p e : Text)
      → ports.enqueue_issue_opened accepted change s ≡ (ok n, t)
      → Recorded s p e
      → Recorded t p e

module _ {S : Type 0} (Recorded : S → Text → Text → Type 0) (ports : Ports S)
    (append_effect : AppendEffect S) (journal : IsJournal Recorded ports append_effect) where
  return-end : {A : Type 0} (a b : A) (s t : S) → return_ a s ≡ (ok b, t) → s ≡ t
  return-end a b s t h = ap (λ p. p.1) h

  finish_issue-Recorded :
      (accepted : AcceptedEvent) (change : IssueChange) (s t : S) (r : IngestReceipt) (p e : Text)
      → finish_issue ports accepted change s ≡ (ok r, t)
      → Recorded s p e
      → Recorded t p e
  unfolding finish_issue
  finish_issue-Recorded accepted change s t r p e h k =
      elim (Bool-cases (is_empty change.issue_id)) [
        | inl z ↦ absurd (cc (rw z at h))
        | inr z ↦ announced change.created (rw z at h)
      ]
    where
      announced :
          (created : Bool)
          → (if created
                then ports.enqueue_issue_opened accepted change
                  >>= (λ _. return_ (issue_receipt accepted change))
                else return_ (issue_receipt accepted change))
              s
            ≡ (ok r, t)
          → Recorded t p e
      announced true g =
          let (n, m, f, g') = >>=-eq-ok (ports.enqueue_issue_opened accepted change) _ s g in
          subst (λ u. Recorded u p e) (return-end _ r m t g')
            (journal.enqueue_keeps s m accepted change n p e f k)
      announced false g = subst (λ u. Recorded u p e) (return-end _ r s t g) k

  index_issue-Recorded :
      (accepted : AcceptedEvent) (s t : S) (r : IngestReceipt) (p e : Text)
      → index_issue ports accepted s ≡ (ok r, t)
      → Recorded s p e
      → Recorded t p e
  unfolding index_issue
  index_issue-Recorded accepted s t r p e h k =
      let (plan, m0, e0, h0) = >>=-eq-ok (lift (new_issue_plan accepted)) _ s h in
      let (change, m1, e1, h1) = >>=-eq-ok (ports.apply plan) _ m0 h0 in
      finish_issue-Recorded accepted change m1 t r p e h1 (
        journal.apply_keeps m0 m1 plan change p e e1
          (subst (λ u. Recorded u p e) (ap (λ q. q.1) e0) k))

  store_event-Recorded :
      (accepted : AcceptedEvent) (s t : S) (r : IngestReceipt)
      → store_event ports append_effect accepted s ≡ (ok r, t)
      → Recorded t accepted.event.project_id accepted.event.event_id
  unfolding store_event
  store_event-Recorded accepted s t r h =
      let p = accepted.event.project_id in
      let e = accepted.event.event_id in
      let (state, m0, e0, h0) = >>=-eq-ok (ports.append accepted) _ s h in
      let k = journal.appends s m0 accepted state e0 in
      elim (Bool-cases state.duplicate) [
        | inl d ↦ subst (λ u. Recorded u p e) (return-end _ r m0 t (rw d at h0)) k
        | inr d ↦
            let (u, m1, e1, h1) = >>=-eq-ok (append_effect accepted) _ m0 (rw d at h0) in
            let k1 = journal.effect_keeps m0 m1 accepted u p e e1 k in
            elim (Bool-cases (creates_issue accepted.event.kind)) [
              | inl c ↦ index_issue-Recorded accepted m1 t r p e (rw c at h1) k1
              | inr c ↦ subst (λ u. Recorded u p e) (return-end _ r m1 t (rw c at h1)) k1
            ]
      ]

  pub ingest_program-Recorded :
      (accepted : AcceptedEvent) (s t : S) (r : IngestReceipt)
      → ingest_program ports append_effect accepted s ≡ (ok r, t)
      → r.kind ≢ quota_rejected
      → Recorded t accepted.event.project_id accepted.event.event_id
  unfolding ingest_program
  ingest_program-Recorded accepted s t r h n =
      let p = accepted.event.project_id in
      let e = accepted.event.event_id in
      let (known, m0, e0, h0) = >>=-eq-ok (ports.exists_ p e) _ s h in
      elim (Bool-cases known) [
        | inl k ↦
            subst (λ u. Recorded u p e) (return-end _ r m0 t (rw k at h0))
              (journal.found s m0 p e (rw k at e0))
        | inr k ↦
            let (quota, m1, e1, h1) =
              >>=-eq-ok (ports.check_quota accepted.event) _ m0 (rw k at h0) in
            elim (Bool-cases quota.allowed) [
              | inl q ↦ store_event-Recorded accepted m1 t r (rw q at h1)
              | inr q ↦
                  let same : quota_receipt accepted quota ≡ r = ground (arith, rw q at h1) in
                  absurd (n (rw (← same) refl))
            ]
      ]

  pub ingest_program-known :
      (accepted : AcceptedEvent) (s t : S) (r : IngestReceipt)
      → Recorded s accepted.event.project_id accepted.event.event_id
      → ingest_program ports append_effect accepted s ≡ (ok r, t)
      → (r ≡ duplicate_receipt accepted) × (t ≡ s)
  unfolding ingest_program
  ingest_program-known accepted s t r k h =
      let p = accepted.event.project_id in
      let e = accepted.event.event_id in
      let (known, m, e0, h0) = >>=-eq-ok (ports.exists_ p e) _ s h in
      let (yes_, same) = journal.finds s m p e known k e0 in
      let over = rw yes_ at h0 in (ground (arith, over), ap (λ q. q.1) (sym over) ∙ same)
