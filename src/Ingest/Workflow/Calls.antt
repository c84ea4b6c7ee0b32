-- ===== src/Ingest/Workflow/Calls.antt =====
-- Which ports the ingest program calls, in which order: the program on ports that keep a log.
use gopnique.Base.{
  ◌≡◌, ◌⊎◌, sym, subst, ◌∙◌, append-nil, Bool, true, false, List, [], ◌∷◌, ◌++◌, ap, arith,
  Bool-cases, inl, inr, if◌then◌else◌, is_empty,
}
use gopnique.Base.Action.{>>=-eq-ok, ◌>>=◌, lift, return_}
use gopnique.Base.Result.{Result, ok}
use gopnique.Domain.Event.{creates_issue}
use gopnique.Ingest.Workflow.{
  AcceptedEvent, EventAppendResult, IssueChange, IngestReceipt, Ports, AppendEffect, new_issue_plan,
  index_issue, finish_issue, store_event, ingest_program, QuotaDecision, issue_receipt,
  duplicate_receipt, non_issue_receipt,
}
use gopnique.Ingest.Workflow.Log.{
  Call, call_exists, call_check_quota, call_append, call_append_effect, call_apply,
  call_enqueue_issue_opened, stored_calls, IsCallLog, known, over_quota, appended_before, no_issue,
  issue_opened, issue_seen, IsCallLog-same, logged-inv, logged_ports, logged_effect,
}

module _ {S A : Type 0} where
  return-inv : (a b : A) (s t : S) → return_ a s ≡ (ok b, t) → (b ≡ a) × (t ≡ s)
  return-inv a b s t h = (ground arith, sym (ap (λ p. p.1) h))

  lift-inv : (m : Result A) (b : A) (s t : S) → lift m s ≡ (ok b, t) → t ≡ s
  lift-inv m b s t h = sym (ap (λ p. p.1) h)

module _ {S : Type 0} (ports : Ports S) (append_effect : AppendEffect S)
    (accepted : AcceptedEvent) where
  abbrev opening_calls : IssueChange → List Call
  opening_calls change = if change.created then call_enqueue_issue_opened change ∷ [] else []

  announce-calls :
      (created : Bool) (change : IssueChange) (m : List Call × S) (r : IngestReceipt)
      (t : List Call × S)
      → (if created
            then (logged_ports ports append_effect).enqueue_issue_opened accepted change
              >>= (λ _. return_ (issue_receipt accepted change))
            else return_ (issue_receipt accepted change))
          m
        ≡ (ok r, t)
      → (r ≡ issue_receipt accepted change)
        × (t.0 ≡ m.0 ++ (if created then call_enqueue_issue_opened change ∷ [] else []))
  announce-calls true change m r t h =
      let (count, m1, e1, h1) =
        >>=-eq-ok ((logged_ports ports append_effect).enqueue_issue_opened accepted change)
          (λ _. return_ (issue_receipt accepted change)) m h in
      let (same, at_) = return-inv _ r m1 t h1 in
      let last =
        logged-inv (λ _. call_enqueue_issue_opened change)
          (ports.enqueue_issue_opened accepted change) m.0 m.1 count m1 e1 in
      (same, ap (λ p. p.0) at_ ∙ last)
  announce-calls false change m r t h =
      let (same, at_) = return-inv _ r m t h in (same, ap (λ p. p.0) at_ ∙ sym (append-nil m.0))

  finish-calls :
      (change : IssueChange) (m : List Call × S) (r : IngestReceipt) (t : List Call × S)
      → finish_issue (logged_ports ports append_effect) accepted change m ≡ (ok r, t)
      → (r ≡ issue_receipt accepted change) × (t.0 ≡ m.0 ++ opening_calls change)
  unfolding finish_issue
  finish-calls change m r t h = elim (Bool-cases (is_empty change.issue_id)) [
    | inl e ↦ absurd (cc (rw e at h))
    | inr e ↦ announce-calls change.created change m r t (rw e at h)
  ]

  index_issue-calls :
      (m : List Call × S) (r : IngestReceipt) (t : List Call × S)
      → index_issue (logged_ports ports append_effect) accepted m ≡ (ok r, t)
      → (change : IssueChange) × (r ≡ issue_receipt accepted change)
        × (t.0 ≡ (m.0 ++ call_apply change ∷ []) ++ opening_calls change)
  unfolding index_issue
  index_issue-calls m r t h =
      let (plan, m0, e0, h0) = >>=-eq-ok (lift (new_issue_plan accepted)) _ m h in
      let (change, m1, e1, h1) =
        >>=-eq-ok ((logged_ports ports append_effect).apply plan) _ m0 h0 in
      let (same, at_) = finish-calls change m1 r t h1 in
      let first = logged-inv call_apply (ports.apply plan) m0.0 m0.1 change m1 e1 in
      (change, same, rw (← lift-inv _ plan m m0 e0) (rw (← first) at_))

  -- what `store_event` adds to a log, with the answers that led there
  abbrev IsStored : List Call → IngestReceipt → List Call → Type 0
  IsStored before r log =
      (appended : EventAppendResult) × (((appended.duplicate ≡ true)
          × (r ≡ duplicate_receipt accepted)
          × (log ≡ before ++ call_append appended ∷ []))
        ⊎ ((appended.duplicate ≡ false)
            × (((creates_issue accepted.event.kind ≡ false)
                  × (r ≡ non_issue_receipt accepted)
                  × (log ≡ (before ++ call_append appended ∷ []) ++ call_append_effect ∷ []))
                ⊎ ((creates_issue accepted.event.kind ≡ true)
                    × (change : IssueChange) × (r ≡ issue_receipt accepted change)
                    × (log
                        ≡ (((before ++ call_append appended ∷ []) ++ call_append_effect ∷ [])
                            ++ call_apply change ∷ [])
                          ++ opening_calls change)))))

  store_event-calls :
      (m : List Call × S) (r : IngestReceipt) (t : List Call × S)
      → store_event
          (logged_ports ports append_effect)
          (logged_effect ports append_effect)
          accepted
          m
        ≡ (ok r, t)
      → IsStored m.0 r t.0
  unfolding store_event
  store_event-calls m r t h =
      let (state, m0, e0, h0) =
        >>=-eq-ok ((logged_ports ports append_effect).append accepted) _ m h in
      let first = logged-inv call_append (ports.append accepted) m.0 m.1 state m0 e0 in
      elim (Bool-cases state.duplicate) [
        | inl d ↦
            let (same, at_) = return-inv _ r m0 t (rw d at h0) in
            (state, inl (d, same, ap (λ p. p.0) at_ ∙ first))
        | inr d ↦
            let (u, m1, e1, h1) =
              >>=-eq-ok (logged_effect ports append_effect accepted) _ m0 (rw d at h0) in
            let second =
              logged-inv (λ _. call_append_effect) (append_effect accepted) m0.0 m0.1 u m1 e1
              ∙ ap (λ log. log ++ call_append_effect ∷ []) first in
            elim (Bool-cases (creates_issue accepted.event.kind)) [
              | inl k ↦
                  let (change, same, at_) = index_issue-calls m1 r t (rw k at h1) in
                  (
                    state,
                    inr (
                      d,
                      inr (
                        k,
                        change,
                        same,
                        at_
                            ∙ ap (λ log. (log ++ call_apply change ∷ []) ++ opening_calls change)
                                second,
                      ),
                    ),
                  )
              | inr k ↦
                  let (same, at_) = return-inv _ r m1 t (rw k at h1) in
                  (state, inr (d, inl (k, same, ap (λ p. p.0) at_ ∙ second)))
            ]
      ]

  -- the end of a run, behind a quota that lets the event pass
  IsStored-IsCallLog :
      (quota : QuotaDecision) (r : IngestReceipt) (log : List Call)
      → quota.allowed ≡ true
      → IsStored (call_exists false ∷ call_check_quota quota ∷ []) r log
      → IsCallLog accepted r log
  IsStored-IsCallLog quota r log q (appended, inl (d, same, at_)) =
      IsCallLog-same same at_ (appended_before quota appended q d)
  IsStored-IsCallLog quota r log q (appended, inr (d, inl (k, same, at_))) =
      IsCallLog-same same at_ (no_issue quota appended q d k)
  IsStored-IsCallLog quota r log q (appended, inr (d, inr (k, change, same, at_))) =
      elim (Bool-cases change.created) [
        | inl c ↦
            IsCallLog-same same
              ((at_
                ∙ ap
                    (λ b. stored_calls quota appended (
                      call_append_effect
                      ∷ call_apply change
                      ∷ (if b then call_enqueue_issue_opened change ∷ [] else [])))
                    c))
              (issue_opened quota appended change q d k c)
        | inr c ↦
            IsCallLog-same same
              ((at_
                ∙ ap
                    (λ b. stored_calls quota appended (
                      call_append_effect
                      ∷ call_apply change
                      ∷ (if b then call_enqueue_issue_opened change ∷ [] else [])))
                    c))
              (issue_seen quota appended change q d k c)
      ]

  -- A run that ends with a receipt made these calls, in this order, each once, by the answers that it
  -- got: an event that `exists` knows leads to no other call, and the append is reached only within
  -- the quota; only an event that is new to `append` has the effect behind it; the issue index is
  -- called for events that create issues alone, and the opened issue is announced exactly if the index
  -- created one, in the last call. The receipt names the outcome.
  pub ingest_program-calls :
      (s : S) (r : IngestReceipt) (log : List Call) (t : S)
      → ingest_program
          (logged_ports ports append_effect)
          (logged_effect ports append_effect)
          accepted
          ([], s)
        ≡ (ok r, (log, t))
      → IsCallLog accepted r log
  unfolding ingest_program
  ingest_program-calls s r log t h =
      let event = accepted.event in
      let (found, m0, e0, h0) =
        >>=-eq-ok ((logged_ports ports append_effect).exists_ event.project_id event.event_id) _
          ([], s) h in
      let first =
        logged-inv call_exists (ports.exists_ event.project_id event.event_id) [] s found m0 e0 in
      elim (Bool-cases found) [
        | inl k ↦
            let (same, at_) = return-inv _ r m0 (log, t) (rw k at h0) in
            IsCallLog-same same ((ap (λ p. p.0) at_ ∙ first ∙ ap (λ b. call_exists b ∷ []) k)) known
        | inr k ↦
            let (quota, m1, e1, h1) =
              >>=-eq-ok ((logged_ports ports append_effect).check_quota event) _ m0 (rw k at h0) in
            let second =
              logged-inv call_check_quota (ports.check_quota event) m0.0 m0.1 quota m1 e1
              ∙ ap (λ l. l ++ call_check_quota quota ∷ []) first
              ∙ ap (λ b. call_exists b ∷ call_check_quota quota ∷ []) k in
            elim (Bool-cases quota.allowed) [
              | inl q ↦ IsStored-IsCallLog quota r log q (
                  subst (λ l. IsStored l r log) second
                    (store_event-calls m1 r (log, t) (rw q at h1)))
              | inr q ↦
                  let (same, at_) = return-inv _ r m1 (log, t) (rw q at h1) in
                  IsCallLog-same same ((ap (λ p. p.0) at_ ∙ second)) (over_quota quota q)
            ]
      ]
